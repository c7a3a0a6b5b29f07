-- ===== src/Kmm/Views.antt =====
-- An allocator leaves one of the three lists of its manager (kernel/kernel/kmm.c).
use chao_s_os.Prelude.{
  ℕ, ◌<◌, ◌≡◌, ◌≢◌, inl, inr, refl, sym, subst, ◌∙◌, true, false, List, [], ◌∷◌, ◌++◌, arith,
  if◌then◌else◌, Bool-cases,
}
use chao_s_os.Links.Ring.{has, ◌∉◌, Distinct, last_of}
use chao_s_os.Kmm.{
  Allocator, Manager, end_flag, ListName, free_list, p_full_list, full_list, first, unlink,
}
use chao_s_os.Kmm.Lists.{
  Segment, Same, Segment-same, Segment-unlinked, Segment-last, Segment-rest, Segment-first-ne,
  Segment-range, last_of-has, last_of-ne, ∉-append, start_of,
}
use chao_s_os.Kmm.Moves.{
  same, same_sound, View, put, Represents, unlink-Unlinked, unlink-first_self, unlink-first_other,
}

pub same_comm : (l k : ListName) → same l k ≡ same k l
same_comm free_list free_list = refl
same_comm free_list p_full_list = refl
same_comm free_list full_list = refl
same_comm p_full_list free_list = refl
same_comm p_full_list p_full_list = refl
same_comm p_full_list full_list = refl
same_comm full_list free_list = refl
same_comm full_list p_full_list = refl
same_comm full_list full_list = refl

pub has-prefix : (z : ℕ) (ws xs : List ℕ) → has z ws ≡ true → has z (ws ++ xs) ≡ true
has-prefix z [] xs h = absurd (ground (arith, h))
has-prefix z (w ∷ ws) xs h = ground (arith, h, has-prefix z ws xs)

end-∉ : (a : ℕ → Allocator) (p f : ℕ) (xs : List ℕ) → Segment a p f xs → end_flag ∉ xs
end-∉ a p f xs h = elim (Bool-cases (has end_flag xs)) [
  | inl y ↦ absurd (omega (arith, Segment-range a p f end_flag xs h y))
  | inr n ↦ n
]

pub has-middle : (z x : ℕ) (ws xs : List ℕ) → has z (ws ++ xs) ≡ true → has z (ws ++ x ∷ xs) ≡ true
has-middle z x [] xs h = ground (arith, h)
has-middle z x (w ∷ ws) xs h = ground (arith, h, has-middle z x ws xs)

pub middle-has : (x : ℕ) (ws xs : List ℕ) → has x (ws ++ x ∷ xs) ≡ true
middle-has x [] xs = ground arith
middle-has x (w ∷ ws) xs = ground (arith, middle-has x ws xs)

∉-middle : (z x : ℕ) (ws xs : List ℕ) → z ∉ (ws ++ x ∷ xs) → z ∉ (ws ++ xs)
∉-middle z x ws xs h = ground (arith, h, has-middle z x ws xs, Bool-cases (has z (ws ++ xs)))

pub Distinct-middle :
    (x : ℕ) (ws xs : List ℕ) → Distinct (ws ++ x ∷ xs) → Distinct (ws ++ xs) × (x ∉ (ws ++ xs))
Distinct-middle x [] xs (a, d) = (d, a)
Distinct-middle x (w ∷ ws) xs (a, d) =
    let (d', n) = Distinct-middle x ws xs d in
    ((∉-middle w x ws xs a, d'), ground (arith, a, n, middle-has x ws xs))

pub unlink-start_of :
    (l : ListName) (x : ℕ) (m : Manager) (ws xs : List ℕ)
    → Segment m.allocs end_flag (first l m) (ws ++ x ∷ xs)
    → first l (unlink l x m) ≡ start_of ws (first l m) (m.allocs x).next_allocator
unlink-start_of l x m [] xs h =
    ground (arith, unlink-first_self l x m, Segment-last m.allocs end_flag (first l m) x [] xs h)
unlink-start_of l x m (w ∷ ws) xs h =
    let last = Segment-last m.allocs end_flag (first l m) x (w ∷ ws) xs h in
    let range =
      Segment-range m.allocs end_flag (first l m) (last_of w ws) (w ∷ (ws ++ x ∷ xs)) h
        (has-prefix (last_of w ws) (w ∷ ws) (x ∷ xs) (last_of-has w ws)) in
    ground (arith, unlink-first_self l x m, last, range)

-- An allocator in another list is not next to `x`.
not_beside :
    (a : ℕ → Allocator) (f x z : ℕ) (ws xs : List ℕ)
    → z < end_flag
    → z ∉ (ws ++ x ∷ xs)
    → Segment a end_flag f (ws ++ x ∷ xs)
    → (z ≢ (a x).prev_allocator) × (z ≢ (a x).next_allocator)
not_beside a f x z ws xs l n h =
    let (n', n'') = ∉-append z ws (x ∷ xs) n in
    (
      subst (λ p. z ≢ p) (sym (Segment-last a end_flag f x ws xs h))
          (last_of-ne z end_flag ws (ground (arith, n', l))),
      Segment-first-ne a x (a x).next_allocator z xs (Segment-rest a end_flag f x ws xs h) l
          (ground (arith, n'')),
    )

-- A list without `x`.
pub record Without (m m' : Manager) (v v' : View) (x : ℕ) : Type 0 where
  pub represents : Represents m' v'
  pub range : x < end_flag
  pub gone : (k : ListName) → x ∉ v' k

module _ (m : Manager) (v : View) (r : Represents m v) (l : ListName) (x : ℕ) (ws xs : List ℕ)
    (e : v l ≡ ws ++ x ∷ xs) where
  pub whole : Segment m.allocs end_flag (first l m) (ws ++ x ∷ xs)
  whole = subst (λ ys. Segment m.allocs end_flag (first l m) ys) e (r.segment l)

  less : (k : ListName) (z : ℕ) → has z (put l (ws ++ xs) v k) ≡ true → has z (v k) ≡ true
  less k z h = elim (Bool-cases (same l k)) [
    | inl y ↦
        subst (λ k. has z (v k) ≡ true) (same_sound l k y)
          (rw (e)
            (has-middle z x ws xs (subst (λ b. has z (if b then ws ++ xs else v k) ≡ true) y h)))
    | inr n ↦ ground (arith, h, n)
  ]

  kept :
      (k : ListName)
      → same l k ≡ false
      → (z : ℕ) → has z (v k) ≡ true
      → Same m.allocs (unlink l x m).allocs z
  kept k n z h =
      let range = Segment-range m.allocs end_flag (first k m) z (v k) (r.segment k) h in
      let apart : z ∉ (ws ++ x ∷ xs) =
        subst (λ ys. z ∉ ys) e (r.apart k l z (same_comm k l ∙ n) h) in
      let (p, q) = not_beside m.allocs (first l m) x z ws xs range apart whole in
      let u = unlink-Unlinked l x m in (u.prevs z q, u.nexts z p)

  unlinked-Distinct : (k : ListName) → Distinct (put l (ws ++ xs) v k)
  unlinked-Distinct k = elim (Bool-cases (same l k)) [
    | inl y ↦ rw (y) (Distinct-middle x ws xs (subst Distinct e (r.distinct l))).0
    | inr n ↦ rw (n) (r.distinct k)
  ]

  unlinked-segment :
      (k : ListName)
      → Segment (unlink l x m).allocs end_flag (first k (unlink l x m)) (put l (ws ++ xs) v k)
  unlinked-segment k = elim (Bool-cases (same l k)) [
    | inl y ↦ rw (y) (
        subst (λ k. Segment (unlink l x m).allocs end_flag (first k (unlink l x m)) (ws ++ xs))
          (same_sound l k y)
          (rw (unlink-start_of l x m ws xs whole) (
            Segment-unlinked m.allocs _ end_flag (first l m) x ws xs (unlink-Unlinked l x m)
              (subst Distinct e (r.distinct l)) (end-∉ m.allocs end_flag (first l m) _ whole)
              whole)))
    | inr n ↦
        rw (n, unlink-first_other l k x m n)
          (Segment-same m.allocs (unlink l x m).allocs end_flag (first k m) (v k) (kept k n)
            (r.segment k))
  ]

  gone : (k : ListName) → x ∉ put l (ws ++ xs) v k
  gone k = elim (Bool-cases (same l k)) [
    | inl y ↦ rw (y) (Distinct-middle x ws xs (subst Distinct e (r.distinct l))).1
    | inr n ↦ rw (n) (r.apart l k x n (subst (λ ys. has x ys ≡ true) (sym e) (middle-has x ws xs)))
  ]

  pub unlink-Without : Without m (unlink l x m) v (put l (ws ++ xs) v) x
  unlink-Without = record {
    represents = record {
      segment = unlinked-segment;
      distinct = unlinked-Distinct;
      apart = λ j k z d h. elim (Bool-cases (has z (put l (ws ++ xs) v k))) [
        | inl y ↦ absurd (ground (arith, less k z y, r.apart j k z d (less j z h)))
        | inr n ↦ n
      ];
    };
    range = Segment-range m.allocs end_flag (first l m) x _ whole (middle-has x ws xs);
    gone = gone;
  }
