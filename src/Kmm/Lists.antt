-- ===== src/Kmm/Lists.antt =====
-- The three lists of a manager (kernel/kernel/kmm.c), threaded through the array of its allocators, and
-- the sequences that they stand for.
use chao_s_os.Prelude.{ℕ, ◌<◌, ◌≡◌, ◌≢◌, refl, sym, subst, ◌∙◌, true, List, [], ◌∷◌, ◌++◌, arith}
use native.Mathlib.Decide.{ℕ_discrete}
use chao_s_os.Links.Ring.{has, ◌∉◌, Distinct, last_of}
use chao_s_os.Kmm.{Allocator, end_flag}

-- From `f` the indices lead through `xs` to the end mark, and back to `p`.
abbrev pub Segment : (ℕ → Allocator) → ℕ → ℕ → List ℕ → Type 0
Segment a p f [] = f ≡ end_flag
Segment a p f (x ∷ xs) =
    (f ≡ x) × (x < end_flag) × ((a x).prev_allocator ≡ p) × Segment a x (a x).next_allocator xs

-- The links of `z` are the same.
abbrev pub Same : (a b : ℕ → Allocator) → ℕ → Type 0
Same a b z =
    ((b z).prev_allocator ≡ (a z).prev_allocator) × ((b z).next_allocator ≡ (a z).next_allocator)

pub Segment-same :
    (a b : ℕ → Allocator) (p f : ℕ) (xs : List ℕ)
    → ((z : ℕ) → has z xs ≡ true → Same a b z)
    → Segment a p f xs
    → Segment b p f xs
Segment-same a b p f [] s h = h
Segment-same a b p f (x ∷ xs) s (e, l, q, r) =
    let (prev, next) = s x (ground arith) in
    (
      e,
      l,
      prev ∙ q,
      subst (λ n. Segment b x n xs) (sym next)
          (Segment-same a b x (a x).next_allocator xs (λ z h. s z (ground (arith, h))) r),
    )

-- A segment gets another predecessor.
pub Segment-lead :
    (a b : ℕ → Allocator) (p q f : ℕ) (xs : List ℕ)
    → Distinct xs
    → ((z : ℕ) → has z xs ≡ true → (b z).next_allocator ≡ (a z).next_allocator)
    → ((z : ℕ) → has z xs ≡ true → z ≢ f → (b z).prev_allocator ≡ (a z).prev_allocator)
    → (f ≢ end_flag → (b f).prev_allocator ≡ q)
    → Segment a p f xs
    → Segment b q f xs
Segment-lead a b p q f [] d n s t h = h
Segment-lead a b p q f (x ∷ xs) d n s t (e, l, r, h) = (
  e,
  l,
  ground (arith, t),
  subst (λ n. Segment b x n xs) (sym (n x (ground arith)))
      (Segment-same a b x (a x).next_allocator xs
        (λ z m. (s z (ground (arith, m)) (ground (arith, d.0)), n z (ground (arith, m)))) h),
)

-- What taking `x` out does to the links.
pub record Unlinked (a b : ℕ → Allocator) (x : ℕ) : Type 0 where
  pub before :
      (a x).prev_allocator ≢ end_flag
      → (b (a x).prev_allocator).next_allocator ≡ (a x).next_allocator
  pub behind :
      (a x).next_allocator ≢ end_flag
      → (b (a x).next_allocator).prev_allocator ≡ (a x).prev_allocator
  pub nexts : (z : ℕ) → z ≢ (a x).prev_allocator → (b z).next_allocator ≡ (a z).next_allocator
  pub prevs : (z : ℕ) → z ≢ (a x).next_allocator → (b z).prev_allocator ≡ (a z).prev_allocator

abbrev pub start_of : List ℕ → ℕ → ℕ → ℕ
start_of [] f n = n
start_of (w ∷ ws) f n = f

pub Segment-last :
    (a : ℕ → Allocator) (p f x : ℕ) (ws xs : List ℕ)
    → Segment a p f (ws ++ x ∷ xs)
    → (a x).prev_allocator ≡ last_of p ws
Segment-last a p f x [] xs (e, l, q, h) = q
Segment-last a p f x (w ∷ ws) xs (e, l, q, h) = Segment-last a w (a w).next_allocator x ws xs h

pub Segment-rest :
    (a : ℕ → Allocator) (p f x : ℕ) (ws xs : List ℕ)
    → Segment a p f (ws ++ x ∷ xs)
    → Segment a x (a x).next_allocator xs
Segment-rest a p f x [] xs (e, l, q, h) = h
Segment-rest a p f x (w ∷ ws) xs (e, l, q, h) = Segment-rest a w (a w).next_allocator x ws xs h

pub ∉-append : (z : ℕ) (ws ys : List ℕ) → z ∉ (ws ++ ys) → (z ∉ ws) × (z ∉ ys)
∉-append z [] ys h = (refl, h)
∉-append z (w ∷ ws) ys h = ground (arith, ∉-append z ws ys)

-- An index outside a list is neither its first one nor its last one.
pub Segment-first-ne :
    (a : ℕ → Allocator) (p f z : ℕ) (xs : List ℕ) → Segment a p f xs → z < end_flag → z ∉ xs → z ≢ f
Segment-first-ne a p f z [] h l n = omega (arith, h, l)
Segment-first-ne a p f z (x ∷ xs) (e, k, q, h) l n = ground (arith, e)

pub last_of-ne : (z x : ℕ) (xs : List ℕ) → z ∉ (x ∷ xs) → z ≢ last_of x xs
last_of-ne z x [] n = ground arith
last_of-ne z x (y ∷ xs) n = last_of-ne z y xs (ground arith)

-- The link of the entry before `x`, or of any other entry.
next-start_of :
    (a b : ℕ → Allocator) (w f x : ℕ) (ws xs : List ℕ)
    → Unlinked a b x
    → w < end_flag
    → w ∉ (ws ++ x ∷ xs)
    → Segment a w f (ws ++ x ∷ xs)
    → (b w).next_allocator ≡ start_of ws (a w).next_allocator (a x).next_allocator
next-start_of a b w f x [] xs u l n h =
    let e = Segment-last a w f x [] xs h in
    subst (λ z. (b z).next_allocator ≡ (a x).next_allocator) e (u.before (omega (arith, e, l)))
next-start_of a b w f x (v ∷ ws) xs u l n h =
    let e = Segment-last a w f x (v ∷ ws) xs h in
    u.nexts w (λ d. last_of-ne w v ws (∉-append w (v ∷ ws) (x ∷ xs) n).0 (d ∙ e))

pub Segment-unlinked :
    (a b : ℕ → Allocator) (p f x : ℕ) (ws xs : List ℕ)
    → Unlinked a b x
    → Distinct (ws ++ x ∷ xs)
    → p ∉ (ws ++ x ∷ xs)
    → Segment a p f (ws ++ x ∷ xs)
    → Segment b p (start_of ws f (a x).next_allocator) (ws ++ xs)
Segment-unlinked a b p f x [] xs u d n (e, l, q, h) =
    Segment-lead a b x p (a x).next_allocator xs d.1 (λ z m. u.nexts z (ground (arith, n, q)))
      (λ z m d. u.prevs z d) (λ d. u.behind d ∙ q) h
Segment-unlinked a b p f x (w ∷ ws) xs u d n (e, l, q, h) =
    let (apart, rest) = d in
    let other = ∉-append w ws (x ∷ xs) apart in
    let n' =
      Segment-first-ne a x (a x).next_allocator w xs
        (Segment-rest a w (a w).next_allocator x ws xs h) l (ground (arith, other.1)) in
    (
      e,
      l,
      u.prevs w n' ∙ q,
      subst (λ f. Segment b w f (ws ++ xs))
          (sym (next-start_of a b w (a w).next_allocator x ws xs u l apart h))
          (Segment-unlinked a b w (a w).next_allocator x ws xs u rest apart h),
    )

pub Segment-range :
    (a : ℕ → Allocator) (p f z : ℕ) (xs : List ℕ)
    → Segment a p f xs
    → has z xs ≡ true
    → z < end_flag
Segment-range a p f z [] h m = absurd (ground (arith, m))
Segment-range a p f z (x ∷ xs) (e, k, q, h) m = elim (ℕ_discrete z x) [
  | yes y ↦ omega (arith, y, k)
  | no n ↦ Segment-range a x (a x).next_allocator z xs h (ground (arith, m, n))
]

pub last_of-has : (x : ℕ) (xs : List ℕ) → has (last_of x xs) (x ∷ xs) ≡ true
last_of-has x [] = ground arith
last_of-has x (y ∷ xs) = ground (arith, last_of-has y xs)

-- What putting `i` in front of a list that begins with `head` does to the links.
pub record Pushed (a b : ℕ → Allocator) (i head : ℕ) : Type 0 where
  pub next : (b i).next_allocator ≡ head
  pub prev : (b i).prev_allocator ≡ end_flag
  pub behind : head ≢ end_flag → (b head).prev_allocator ≡ i
  pub nexts : (z : ℕ) → z ≢ i → (b z).next_allocator ≡ (a z).next_allocator
  pub prevs : (z : ℕ) → z ≢ i → z ≢ head → (b z).prev_allocator ≡ (a z).prev_allocator

pub Segment-pushed :
    (a b : ℕ → Allocator) (i head : ℕ) (ys : List ℕ)
    → Pushed a b i head
    → i < end_flag
    → i ∉ ys
    → Distinct ys
    → Segment a end_flag head ys
    → Segment b end_flag i (i ∷ ys)
Segment-pushed a b i head ys p l n d h = (
  refl,
  l,
  p.prev,
  subst (λ f. Segment b i f ys) (sym p.next)
      (Segment-lead a b end_flag i head ys d (λ z m. p.nexts z (ground (arith, m, n)))
        (λ z m o. p.prevs z (ground (arith, m, n)) o) p.behind h),
)
