-- ===== src/Buddy/Merging.antt =====
-- `buddy_system_free_frame_page_block` (kernel/kernel/pmm.c) as an operation on the free lists as
-- sequences.
use chao_s_os.Prelude.{
  ℕ, ◌<◌, ◌≡◌, ◌≢◌, ◌⊎◌, inl, inr, refl, sym, subst, ◌∙◌, true, Bool-cases, List, arith, ◌==◌,
  if◌then◌else◌, update,
}
use chao_s_os.Links.Ring.{has, Distinct}
use chao_s_os.Buddy.{Zone, max_level, allocated, block_head, unlink_buddy, join}
use chao_s_os.Buddy.Threads.{Segment, Segment-same}
use chao_s_os.Buddy.Lists.{without, InHand, unlink_buddy-number, unlink_buddy-kept, join-kept}
use chao_s_os.Buddy.Joining.{
  has-without, without-has, without-Distinct, own_segment, other_segment, elsewhere,
}

join-lists :
    (level low high j : ℕ) (z : Zone)
    → ((join level low high z).free_lists j ≡ z.free_lists j)
      × ((join level low high z).frames_number ≡ z.frames_number)
unfolding join
join-lists level low high j z = (refl, refl)

join-frame :
    (level low high i : ℕ) (z : Zone)
    → i ≢ low
    → i ≢ high
    → (((join level low high z).frames i).flags ≡ (z.frames i).flags)
      × (((join level low high z).frames i).level ≡ (z.frames i).level)
unfolding join
join-frame level low high i z n m = ground arith

join-high :
    (level low high : ℕ) (z : Zone)
    → low ≢ high
    → ((join level low high z).frames high).flags ≡ allocated
unfolding join
join-high level low high z n = ground arith

-- One round: the buddy `x` leaves its list, and the joined block is in hand.
module _ (z : Zone) (page : ℕ) (ls : ℕ → List ℕ) (h : InHand z page ls) (level x low high : ℕ)
    (b : level < max_level) (m : has x (ls level) ≡ true)
    (o : ((low ≡ page) × (high ≡ x)) ⊎ ((low ≡ x) × (high ≡ page))) where
  abbrev z₁ : Zone
  z₁ = unlink_buddy level x z

  abbrev z₂ : Zone
  z₂ = join level low high z₁

  abbrev ls' : ℕ → List ℕ
  ls' = update ls level (without x (ls level))

  apart : x ≢ page
  apart e = ground (arith, m, e, h.outside level b)

  pub joined-number : z₂.frames_number ≡ z.frames_number
  joined-number = (join-lists level low high 0 z₁).1 ∙ unlink_buddy-number level x z

  kept :
      (i : ℕ)
      → i ≢ x
      → i ≢ page
      → ((z₂.frames i).flags ≡ (z.frames i).flags) × ((z₂.frames i).level ≡ (z.frames i).level)
  kept i n n' =
      let (f, l) = join-frame level low high i z₁ (ground (arith, o)) (ground (arith, o)) in
      let (f', l') = unlink_buddy-kept level x i z in (f ∙ f', l ∙ l')

  -- An entry of a list afterwards.
  entry :
      (l i : ℕ)
      → l < max_level
      → has i (ls' l) ≡ true
      → (has i (ls l) ≡ true) × (i ≢ x) × (i ≢ page)
  entry l i b' y = elim (Bool-cases (l == level)) [
    | inl e ↦
        let same : l ≡ level = ground arith in
        let y' = subst (λ t. has i (if t then without x (ls level) else ls l) ≡ true) e y in
        let was = has-without i x (ls level) y' in
        (
          subst (λ l. has i (ls l) ≡ true) (sym same) was,
          λ d.
              ground
                (arith, d, y', (without-Distinct x (ls level) (h.threaded.distinct level b) m).1),
          λ d. ground (arith, d, was, h.outside level b),
        )
    | inr e ↦
        let other : l ≢ level = ground arith in
        let y' = subst (λ t. has i (if t then without x (ls level) else ls l) ≡ true) e y in
        (
          y',
          λ d. ground (arith, d, m, elsewhere z page ls h level x b m l i b' other y'),
          λ d. ground (arith, d, y', h.outside l b'),
        )
  ]

  joined-segment :
      (l : ℕ)
      → l < max_level
      → Segment z₂.frames_number z₂.frames z₂.frames_number (z₂.free_lists l) (ls' l)
  joined-segment l b' =
      let (list, n) = join-lists level low high l z₁ in
      rw (list, joined-number)
        (Segment-same z.frames_number z₁.frames z₂.frames z.frames_number (z₁.free_lists l) (ls' l)
          (λ i y. join-kept level low high i z₁)
          (elim (Bool-cases (l == level)) [
            | inl e ↦
                let same : level ≡ l = ground arith in
                rw e (
                  subst
                    (λ l.
                      Segment z.frames_number z₁.frames z.frames_number (z₁.free_lists l)
                        (without x (ls level)))
                    same (own_segment z page ls h level x b m))
            | inr e ↦ rw e (other_segment z page ls h level x b m l b' (ground arith))
          ]))

  joined-Distinct : (l : ℕ) → l < max_level → Distinct (ls' l)
  joined-Distinct l b' = elim (Bool-cases (l == level)) [
    | inl e ↦ rw e (without-Distinct x (ls level) (h.threaded.distinct level b) m).0
    | inr e ↦ rw e (h.threaded.distinct l b')
  ]

  joined-listed :
      (l i : ℕ)
      → l < max_level
      → i ≢ low
      → (z₂.frames i).flags ≡ block_head
      → (z₂.frames i).level ≡ l
      → has i (ls' l) ≡ true
  joined-listed l i b' n f s =
      let n' : i ≢ high = λ e.
        absurd (ground (arith, join-high level low high z₁ (ground (arith, o, apart)), f, e)) in
      let not_x : i ≢ x = ground (arith, o, n, n') in
      let not_page : i ≢ page = ground (arith, o, n, n') in
      let (f', s') = kept i not_x not_page in
      let was = h.listed l i b' not_page (sym f' ∙ f) (sym s' ∙ s) in
      elim (Bool-cases (l == level)) [
        | inl e ↦
            let same : l ≡ level = ground arith in
            rw e (without-has i x (ls level) not_x (subst (λ l. has i (ls l) ≡ true) same was))
        | inr e ↦ rw e was
      ]

  pub joined-InHand : InHand z₂ low ls'
  joined-InHand = record {
    threaded = record {
      segment = joined-segment;
      distinct = joined-Distinct;
      head = λ l i b' y.
          let (was, n, n') = entry l i b' y in
          let (f, s) = kept i n n' in let (f', s') = h.threaded.head l i b' was in (f ∙ f', s ∙ s');
    };
    listed = joined-listed;
    outside = λ l b'. elim (Bool-cases (has low (ls' l))) [
      | inl y ↦ let (was, n, n') = entry l low b' y in absurd (ground (arith, o, n, n'))
      | inr n ↦ n
    ];
  }
