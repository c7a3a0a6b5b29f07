-- ===== src/Kmm/Pushing.antt =====
-- The lists of a manager (kernel/kernel/kmm.c) as the three sequences that kmalloc and kfree move
-- allocators between.
use chao_s_os.Prelude.{
  ℕ, ◌<◌, ◌≡◌, ◌≢◌, inl, inr, sym, ap, subst, ◌∙◌, true, false, List, [], ◌∷◌, ◌++◌, arith,
  if◌then◌else◌, Bool-cases,
}
use native.Mathlib.Decide.{ℕ_discrete}
use chao_s_os.Links.Ring.{has, ◌∉◌, Distinct}
use chao_s_os.Kmm.{
  Allocator, Manager, end_flag, ListName, first, pop_first, push_first, unlink, relink,
}
use chao_s_os.Kmm.Lists.{
  Segment, Segment-same, Segment-last, Segment-rest, Segment-first-ne, Segment-range, Pushed,
  Segment-pushed,
}
use chao_s_os.Kmm.Moves.{
  same, same_sound, View, put, Represents, unlink-Unlinked, relink-relinked, relinked-Pushed,
  relink-first, push_first-push_linked, push_linked-Pushed, push_first-first, pop_first-unlink,
}
use chao_s_os.Kmm.Views.{same_comm, whole, unlink-Without}

Segment-lead_of :
    (a : ℕ → Allocator) (p f : ℕ) (xs : List ℕ)
    → Segment a p f xs
    → f ≢ end_flag
    → (a f).prev_allocator ≡ p
Segment-lead_of a p f [] h n = absurd (n h)
Segment-lead_of a p f (x ∷ xs) (e, l, q, h) n = ap (λ z. (a z).prev_allocator) e ∙ q

-- Putting an allocator that is in no list in front of one.
module _ (m m' : Manager) (v : View) (r : Represents m v) (l : ListName) (x : ℕ)
    (range : x < end_flag) (gone : (k : ListName) → x ∉ v k)
    (firsts : (k : ListName) → first k m' ≡ (if same l k then x else first k m))
    (p : Pushed m.allocs m'.allocs x (first l m)) where
  other_head : (k : ListName) (z : ℕ) → same l k ≡ false → has z (v k) ≡ true → z ≢ first l m
  other_head k z n h =
      Segment-first-ne m.allocs end_flag (first l m) z (v l) (r.segment l)
        (Segment-range m.allocs end_flag (first k m) z (v k) (r.segment k) h)
        (r.apart k l z (same_comm k l ∙ n) h)

  pushed-segment : (k : ListName) → Segment m'.allocs end_flag (first k m') (put l (x ∷ v l) v k)
  pushed-segment k = elim (Bool-cases (same l k)) [
    | inl y ↦
        rw (firsts k, y)
          (Segment-pushed m.allocs m'.allocs x (first l m) (v l) p range (gone l) (r.distinct l)
            (r.segment l))
    | inr n ↦
        rw (firsts k, n)
          (Segment-same m.allocs m'.allocs end_flag (first k m) (v k)
            (λ z h.
              let e : z ≢ x = ground (arith, h, gone k) in
              (p.prevs z e (other_head k z n h), p.nexts z e))
            (r.segment k))
  ]

  pushed-Distinct : (k : ListName) → Distinct (put l (x ∷ v l) v k)
  pushed-Distinct k = elim (Bool-cases (same l k)) [
    | inl y ↦ rw (y) (gone l, r.distinct l)
    | inr n ↦ rw (n) (r.distinct k)
  ]

  pushed-apart :
      (j k : ListName) (z : ℕ)
      → same j k ≡ false
      → has z (put l (x ∷ v l) v j) ≡ true
      → z ∉ put l (x ∷ v l) v k
  pushed-apart j k z d h = elim (Bool-cases (same l j)) [
    | inl y ↦ elim (Bool-cases (same l k)) [
      | inl y' ↦
          let e : same j k ≡ true = subst (λ i. same i k ≡ true) (same_sound l j y) y' in
          absurd (ground (arith, d, e))
      | inr n' ↦
          let h' = subst (λ b. has z (if b then x ∷ v l else v j) ≡ true) y h in
          rw (n') (elim (ℕ_discrete z x) [
            | yes e ↦ subst (λ z. z ∉ v k) (sym e) (gone k)
            | no n ↦ r.apart l k z n' (ground (arith, h', n))
          ])
    ]
    | inr n ↦
        let h' = subst (λ b. has z (if b then x ∷ v l else v j) ≡ true) n h in
        elim (Bool-cases (same l k)) [
          | inl y' ↦ rw (y') (ground (arith, h', gone j, r.apart j l z (same_comm j l ∙ n) h'))
          | inr n' ↦ rw (n') (r.apart j k z d h')
        ]
  ]

  pub pushed-Represents : Represents m' (put l (x ∷ v l) v)
  pushed-Represents = record {
    segment = pushed-segment;
    distinct = pushed-Distinct;
    apart = pushed-apart;
  }

module _ (m : Manager) (v : View) (r : Represents m v) (from to : ListName) (x : ℕ)
    (xs : List ℕ) where
  -- kfree: the allocator leaves the middle of a list for the front of another.
  pub relink-Represents :
      (ws : List ℕ)
      → v from ≡ ws ++ x ∷ xs
      → let v' = put from (ws ++ xs) v in
        Represents (relink to x (unlink from x m)) (put to (x ∷ v' to) v')
  relink-Represents ws e =
      let w = unlink-Without m v r from x ws xs e in
      let m₁ = unlink from x m in
      pushed-Represents m₁ (relink to x m₁) (put from (ws ++ xs) v) w.represents to x w.range w.gone
        (λ k. relink-first to k x m₁)
        (subst (λ b. Pushed m₁.allocs b x (first to m₁)) (sym (relink-relinked to x m₁))
          (relinked-Pushed x (first to m₁) m₁ (
            Segment-first-ne m₁.allocs end_flag (first to m₁) x _ (w.represents.segment to) w.range
              (w.gone to))))

  -- kmalloc: the allocator at the front.
  pub push_first-Represents :
      v from ≡ x ∷ xs
      → let v' = put from xs v in
        Represents (push_first to x (pop_first from x m)) (put to (x ∷ v' to) v')
  push_first-Represents e =
      let w = unlink-Without m v r from x [] xs e in
      let h = whole m v r from x [] xs e in
      let m₁ = unlink from x m in
      let lead : (m.allocs x).prev_allocator ≡ end_flag =
        Segment-last m.allocs end_flag (first from m) x [] xs h in
      let alone =
        Segment-first-ne m.allocs x (m.allocs x).next_allocator x xs
          (Segment-rest m.allocs end_flag (first from m) x [] xs h) w.range
          (subst Distinct e (r.distinct from)).0 in
      let lead₁ = (unlink-Unlinked from x m).prevs x alone ∙ lead in
      let to_segment = w.represents.segment to in
      rw (pop_first-unlink from x m lead) (
        pushed-Represents m₁ (push_first to x m₁) (put from xs v) w.represents to x w.range w.gone
          (λ k. push_first-first to k x m₁)
          (subst (λ b. Pushed m₁.allocs b x (first to m₁)) (sym (push_first-push_linked to x m₁))
            (push_linked-Pushed x (first to m₁) m₁
              (Segment-first-ne m₁.allocs end_flag (first to m₁) x _ to_segment w.range (w.gone to))
              lead₁ (Segment-lead_of m₁.allocs end_flag (first to m₁) _ to_segment))))
