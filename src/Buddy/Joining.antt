-- ===== src/Buddy/Joining.antt =====
-- One round of the loop that joins a block with its buddy (kernel/kernel/pmm.c), on the free lists as
-- sequences.
use chao_s_os.Prelude.{
  ℕ, ◌<◌, ◌≤◌, ◌≡◌, ◌≢◌, inl, inr, refl, sym, subst, ◌∙◌, true, false, Bool-cases, List, [], ◌∷◌,
  ◌++◌, arith, ◌==◌, if◌then◌else◌,
}
use chao_s_os.Links.Ring.{has, ◌∉◌, Distinct, last_of}
use chao_s_os.Kmm.Lists.{start_of, ∉-append, last_of-ne, last_of-has}
use chao_s_os.Kmm.Views.{has-prefix, middle-has, Distinct-middle}
use chao_s_os.Buddy.{Frame, Zone, max_level, unlink_buddy}
use chao_s_os.Buddy.Threads.{
  Segment, Segment-same, Segment-last, Segment-rest, Segment-first-ne, Segment-range,
  Segment-unlinked, Unlinked,
}
use chao_s_os.Buddy.Lists.{
  without, Splits, has-Splits, InHand, unlink_buddy-Unlinked, unlink_buddy-list,
}

pub has-without : (i x : ℕ) (zs : List ℕ) → has i (without x zs) ≡ true → has i zs ≡ true
unfolding without
has-without i x [] h = h
has-without i x (y ∷ zs) h = elim (Bool-cases (x == y)) [
  | inl e ↦ ground (arith, subst (λ b. has i (if b then zs else y ∷ without x zs) ≡ true) e h)
  | inr n ↦
      let h' = subst (λ b. has i (if b then zs else y ∷ without x zs) ≡ true) n h in
      ground (arith, h', has-without i x zs)
]

pub without-has : (i x : ℕ) (zs : List ℕ) → i ≢ x → has i zs ≡ true → has i (without x zs) ≡ true
unfolding without
without-has i x [] d h = h
without-has i x (y ∷ zs) d h = elim (Bool-cases (x == y)) [
  | inl e ↦ rw e (ground (arith, e, h, d))
  | inr n ↦ rw n (ground (arith, h, without-has i x zs d))
]

pub without-Distinct :
    (x : ℕ) (zs : List ℕ)
    → Distinct zs
    → has x zs ≡ true
    → Distinct (without x zs) × (x ∉ without x zs)
without-Distinct x zs d h =
    let s = has-Splits x zs h in
    rw (s.less) (Distinct-middle x s.ws s.xs (subst Distinct s.whole d))

stop-∉ : (stop : ℕ) (a : ℕ → Frame) (p f : ℕ) (xs : List ℕ) → Segment stop a p f xs → stop ∉ xs
stop-∉ stop a p f xs h = elim (Bool-cases (has stop xs)) [
  | inl y ↦ absurd (omega (arith, Segment-range stop a p f stop xs h y))
  | inr n ↦ n
]

pub first-le : (stop : ℕ) (a : ℕ → Frame) (p f : ℕ) (xs : List ℕ) → Segment stop a p f xs → f ≤ stop
first-le stop a p f [] h = omega (arith, h)
first-le stop a p f (x ∷ xs) (e, l, q, h) = omega (arith, e, l)

-- The links around an entry `x`, at `ws ++ x ∷ xs` from the head of a list.
module _ (stop f x : ℕ) (a : ℕ → Frame) (ws xs : List ℕ) (h : Segment stop a stop f (ws ++ x ∷ xs))
    (d : Distinct (ws ++ x ∷ xs)) where
  rest : Segment stop a x (a x).next_frame xs
  rest = Segment-rest stop a stop f x ws xs h

  range : x < stop
  range = Segment-range stop a stop f x (ws ++ x ∷ xs) h (middle-has x ws xs)

  apart : (x ∉ ws) × (x ∉ xs)
  apart = ∉-append x ws xs (Distinct-middle x ws xs d).1

  next-ne : (a x).next_frame ≢ x
  next-ne e = Segment-first-ne stop a x (a x).next_frame x xs rest range apart.1 (sym e)

  next-le : (a x).next_frame ≤ stop
  next-le = first-le stop a x (a x).next_frame xs rest

  -- What stands in no place of the list is not next to `x`.
  beside : (z : ℕ) → z < stop → z ∉ (ws ++ x ∷ xs) → (z ≢ (a x).prev_frame) × (z ≢ (a x).next_frame)
  beside z l n =
      let (n', n'') = ∉-append z ws (x ∷ xs) n in
      (
        subst (λ p. z ≢ p) (sym (Segment-last stop a stop f x ws xs h))
            (last_of-ne z stop ws (ground (arith, n', l))),
        Segment-first-ne stop a x (a x).next_frame z xs rest l (ground (arith, n'')),
      )

start-eq :
    (stop f x : ℕ) (a : ℕ → Frame) (ws xs : List ℕ)
    → Segment stop a stop f (ws ++ x ∷ xs)
    → (if (a x).prev_frame == stop then (a x).next_frame else f) ≡ start_of ws f (a x).next_frame
start-eq stop f x a [] xs h = ground (arith, Segment-last stop a stop f x [] xs h)
start-eq stop f x a (w ∷ ws) xs h =
    let last = Segment-last stop a stop f x (w ∷ ws) xs h in
    let range =
      Segment-range stop a stop f (last_of w ws) (w ∷ (ws ++ x ∷ xs)) h
        (has-prefix (last_of w ws) (w ∷ ws) (x ∷ xs) (last_of-has w ws)) in
    ground (arith, last, range)

module _ (z : Zone) (page : ℕ) (ls : ℕ → List ℕ) (h : InHand z page ls) (level x : ℕ)
    (b : level < max_level) (m : has x (ls level) ≡ true) where
  abbrev stop : ℕ
  stop = z.frames_number

  place : Splits x (ls level)
  place = has-Splits x (ls level) m

  whole : Segment stop z.frames stop (z.free_lists level) (place.ws ++ x ∷ place.xs)
  whole =
      subst (λ zs. Segment stop z.frames stop (z.free_lists level) zs) place.whole
        (h.threaded.segment level b)

  once : Distinct (place.ws ++ x ∷ place.xs)
  once = subst Distinct place.whole (h.threaded.distinct level b)

  abbrev z₁ : Zone
  z₁ = unlink_buddy level x z

  links : Unlinked stop z.frames z₁.frames x
  links =
      unlink_buddy-Unlinked level x z
        (next-le stop (z.free_lists level) x z.frames place.ws place.xs whole once)
        (next-ne stop (z.free_lists level) x z.frames place.ws place.xs whole once)

  pub own_segment : Segment stop z₁.frames stop (z₁.free_lists level) (without x (ls level))
  own_segment =
      let test : (level == level) ≡ true = ground arith in
      let first : z₁.free_lists level
          ≡ start_of place.ws (z.free_lists level) (z.frames x).next_frame =
        unlink_buddy-list level x level z
        ∙ (rw test (start-eq stop (z.free_lists level) x z.frames place.ws place.xs whole)) in
      rw (place.less, first)
        (Segment-unlinked stop z.frames z₁.frames stop (z.free_lists level) x place.ws place.xs
          links once (stop-∉ stop z.frames stop (z.free_lists level) _ whole) whole)

  -- An entry of another list is not `x` and not next to it.
  pub elsewhere : (l i : ℕ) → l < max_level → l ≢ level → has i (ls l) ≡ true → i ∉ ls level
  elsewhere l i b' d y = elim (Bool-cases (has i (ls level))) [
    | inl y' ↦ absurd (d (sym (h.threaded.head l i b' y).1 ∙ (h.threaded.head level i b y').1))
    | inr n ↦ n
  ]

  pub other_segment :
      (l : ℕ) → l < max_level → l ≢ level → Segment stop z₁.frames stop (z₁.free_lists l) (ls l)
  other_segment l b' d =
      let test : (l == level) ≡ false = ground arith in
      let first : z₁.free_lists l ≡ z.free_lists l =
        unlink_buddy-list level x l z ∙ (rw test refl) in
      rw (first) (
        Segment-same stop z.frames z₁.frames stop (z.free_lists l) (ls l)
          (λ i y.
            let n = subst (λ zs. i ∉ zs) place.whole (elsewhere l i b' d y) in
            let inside =
              Segment-range stop z.frames stop (z.free_lists l) i (ls l) (h.threaded.segment l b')
                y in
            let (p, q) =
              beside stop (z.free_lists level) x z.frames place.ws place.xs whole once i inside n in
            (links.prevs i q, links.nexts i p))
          (h.threaded.segment l b'))
