-- ===== src/Buddy/Threads.antt =====
-- The free lists of the zone (kernel/kernel/pmm.c), threaded through the table of frames, and the sequences
-- that they stand for. The index `stop` ends a list.
use chao_s_os.Prelude.{ℕ, ◌<◌, ◌≡◌, ◌≢◌, refl, sym, subst, ◌∙◌, true, List, [], ◌∷◌, ◌++◌, arith}
use native.Mathlib.Decide.{ℕ_discrete}
use chao_s_os.Links.Ring.{has, ◌∉◌, Distinct, last_of}
use chao_s_os.Kmm.Lists.{start_of, ∉-append, last_of-ne}
use chao_s_os.Buddy.{Frame}

module _ (stop : ℕ) where
  -- From `f` the indices lead through `xs` to the end mark, and back to `p`.
  abbrev pub Segment : (ℕ → Frame) → ℕ → ℕ → List ℕ → Type 0
  Segment a p f [] = f ≡ stop
  Segment a p f (x ∷ xs) =
      (f ≡ x) × (x < stop) × ((a x).prev_frame ≡ p) × Segment a x (a x).next_frame xs

  -- The links of `z` are the same.
  abbrev pub Same : (a b : ℕ → Frame) → ℕ → Type 0
  Same a b z = ((b z).prev_frame ≡ (a z).prev_frame) × ((b z).next_frame ≡ (a z).next_frame)

  pub Segment-same :
      (a b : ℕ → Frame) (p f : ℕ) (xs : List ℕ)
      → ((z : ℕ) → has z xs ≡ true → Same a b z)
      → Segment a p f xs
      → Segment b p f xs
  Segment-same a b p f [] s h = h
  Segment-same a b p f (x ∷ xs) s (e, l, q, r) =
      let (prev, next) = s x (ground arith) in
      (
        e,
        l,
        prev ∙ q,
        subst (λ n. Segment b x n xs) (sym next)
            (Segment-same a b x (a x).next_frame xs (λ z h. s z (ground (arith, h))) r),
      )

  -- A segment gets another predecessor.
  pub Segment-lead :
      (a b : ℕ → Frame) (p q f : ℕ) (xs : List ℕ)
      → Distinct xs
      → ((z : ℕ) → has z xs ≡ true → (b z).next_frame ≡ (a z).next_frame)
      → ((z : ℕ) → has z xs ≡ true → z ≢ f → (b z).prev_frame ≡ (a z).prev_frame)
      → (f ≢ stop → (b f).prev_frame ≡ q)
      → Segment a p f xs
      → Segment b q f xs
  Segment-lead a b p q f [] d n s t h = h
  Segment-lead a b p q f (x ∷ xs) d n s t (e, l, r, h) = (
    e,
    l,
    ground (arith, t),
    subst (λ n. Segment b x n xs) (sym (n x (ground arith)))
        (Segment-same a b x (a x).next_frame xs
          (λ z m. (s z (ground (arith, m)) (ground (arith, d.0)), n z (ground (arith, m)))) h),
  )

  -- What taking `x` out does to the links.
  pub record Unlinked (a b : ℕ → Frame) (x : ℕ) : Type 0 where
    pub before : (a x).prev_frame ≢ stop → (b (a x).prev_frame).next_frame ≡ (a x).next_frame
    pub behind : (a x).next_frame ≢ stop → (b (a x).next_frame).prev_frame ≡ (a x).prev_frame
    pub nexts : (z : ℕ) → z ≢ (a x).prev_frame → (b z).next_frame ≡ (a z).next_frame
    pub prevs : (z : ℕ) → z ≢ (a x).next_frame → (b z).prev_frame ≡ (a z).prev_frame

  pub Segment-last :
      (a : ℕ → Frame) (p f x : ℕ) (ws xs : List ℕ)
      → Segment a p f (ws ++ x ∷ xs)
      → (a x).prev_frame ≡ last_of p ws
  Segment-last a p f x [] xs (e, l, q, h) = q
  Segment-last a p f x (w ∷ ws) xs (e, l, q, h) = Segment-last a w (a w).next_frame x ws xs h

  pub Segment-rest :
      (a : ℕ → Frame) (p f x : ℕ) (ws xs : List ℕ)
      → Segment a p f (ws ++ x ∷ xs)
      → Segment a x (a x).next_frame xs
  Segment-rest a p f x [] xs (e, l, q, h) = h
  Segment-rest a p f x (w ∷ ws) xs (e, l, q, h) = Segment-rest a w (a w).next_frame x ws xs h

  -- An index outside a list is neither its first one nor its last one.
  pub Segment-first-ne :
      (a : ℕ → Frame) (p f z : ℕ) (xs : List ℕ) → Segment a p f xs → z < stop → z ∉ xs → z ≢ f
  Segment-first-ne a p f z [] h l n = omega (arith, h, l)
  Segment-first-ne a p f z (x ∷ xs) (e, k, q, h) l n = ground (arith, e)

  -- The link of the entry before `x`, or of any other entry.
  next-start_of :
      (a b : ℕ → Frame) (w f x : ℕ) (ws xs : List ℕ)
      → Unlinked a b x
      → w < stop
      → w ∉ (ws ++ x ∷ xs)
      → Segment a w f (ws ++ x ∷ xs)
      → (b w).next_frame ≡ start_of ws (a w).next_frame (a x).next_frame
  next-start_of a b w f x [] xs u l n h =
      let e = Segment-last a w f x [] xs h in
      subst (λ z. (b z).next_frame ≡ (a x).next_frame) e (u.before (omega (arith, e, l)))
  next-start_of a b w f x (v ∷ ws) xs u l n h =
      let e = Segment-last a w f x (v ∷ ws) xs h in
      u.nexts w (λ d. last_of-ne w v ws (∉-append w (v ∷ ws) (x ∷ xs) n).0 (d ∙ e))

  pub Segment-unlinked :
      (a b : ℕ → Frame) (p f x : ℕ) (ws xs : List ℕ)
      → Unlinked a b x
      → Distinct (ws ++ x ∷ xs)
      → p ∉ (ws ++ x ∷ xs)
      → Segment a p f (ws ++ x ∷ xs)
      → Segment b p (start_of ws f (a x).next_frame) (ws ++ xs)
  Segment-unlinked a b p f x [] xs u d n (e, l, q, h) =
      Segment-lead a b x p (a x).next_frame xs d.1 (λ z m. u.nexts z (ground (arith, n, q)))
        (λ z m d. u.prevs z d) (λ d. u.behind d ∙ q) h
  Segment-unlinked a b p f x (w ∷ ws) xs u d n (e, l, q, h) =
      let (apart, rest) = d in
      let other = ∉-append w ws (x ∷ xs) apart in
      let n' =
        Segment-first-ne a x (a x).next_frame w xs (Segment-rest a w (a w).next_frame x ws xs h) l
          (ground (arith, other.1)) in
      (
        e,
        l,
        u.prevs w n' ∙ q,
        subst (λ f. Segment b w f (ws ++ xs))
            (sym (next-start_of a b w (a w).next_frame x ws xs u l apart h))
            (Segment-unlinked a b w (a w).next_frame x ws xs u rest apart h),
      )

  pub Segment-range :
      (a : ℕ → Frame) (p f z : ℕ) (xs : List ℕ) → Segment a p f xs → has z xs ≡ true → z < stop
  Segment-range a p f z [] h m = absurd (ground (arith, m))
  Segment-range a p f z (x ∷ xs) (e, k, q, h) m = elim (ℕ_discrete z x) [
    | yes y ↦ omega (arith, y, k)
    | no n ↦ Segment-range a x (a x).next_frame z xs h (ground (arith, m, n))
  ]

  -- What putting `i` in front of a list that begins with `head` does to the links.
  pub record Pushed (a b : ℕ → Frame) (i head : ℕ) : Type 0 where
    pub next : (b i).next_frame ≡ head
    pub prev : (b i).prev_frame ≡ stop
    pub behind : head ≢ stop → (b head).prev_frame ≡ i
    pub nexts : (z : ℕ) → z ≢ i → (b z).next_frame ≡ (a z).next_frame
    pub prevs : (z : ℕ) → z ≢ i → z ≢ head → (b z).prev_frame ≡ (a z).prev_frame

  pub Segment-pushed :
      (a b : ℕ → Frame) (i head : ℕ) (ys : List ℕ)
      → Pushed a b i head
      → i < stop
      → i ∉ ys
      → Distinct ys
      → Segment a stop head ys
      → Segment b stop i (i ∷ ys)
  Segment-pushed a b i head ys p l n d h = (
    refl,
    l,
    p.prev,
    subst (λ f. Segment b i f ys) (sym p.next)
        (Segment-lead a b stop i head ys d (λ z m. p.nexts z (ground (arith, m, n)))
          (λ z m o. p.prevs z (ground (arith, m, n)) o) p.behind h),
  )
