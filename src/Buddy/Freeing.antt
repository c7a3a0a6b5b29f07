-- ===== src/Buddy/Freeing.antt =====
-- `buddy_system_free_frame_page_block` (kernel/kernel/pmm.c): what the freeing of a block makes of the
-- free lists, as sequences.
use chao_s_os.Prelude.{
  ℕ, zero, suc, ◌+◌, ◌-◌, ◌^◌, ◌<◌, ◌≡◌, ◌≢◌, ◌⊎◌, inl, inr, refl, ap, ◌∙◌, false, Bool-cases,
  bit_and, bit_xor, List, ◌∷◌, arith, ◌==◌, ltb, leb, if◌then◌else◌, update,
}
use native.Mathlib.Nat.{one-le-pow}
use chao_s_os.Links.Ring.{has}
use chao_s_os.Buddy.{Zone, max_level, block_head, unlink_buddy, join, merge, push_block, free_block}
use chao_s_os.Buddy.Tiling.{IsAligned}
use chao_s_os.Buddy.Free.{Contains, buddy_half, Contains-refl, Contains-trans, joined_Contains}
use chao_s_os.Buddy.Lists.{without, FreeLists, InHand, FreeLists-InHand, is_free_at-has}
use chao_s_os.Buddy.Push.{push_block-Front, pushed-FreeLists}
use chao_s_os.Buddy.Merging.{joined-InHand, joined-number}

-- The block in hand joins with its buddy as long as the list of the level holds the buddy, which it
-- then leaves, through `k` levels at most: the block's index and level, and the lists.
unfoldable pub absorb : ℕ → ℕ → ℕ → (ℕ → List ℕ) → ℕ × ℕ × (ℕ → List ℕ)
absorb zero level page ls = (page, level, ls)
absorb (suc k) level page ls =
    let buddy = bit_xor page (2 ^ level) in
    let low = if ltb buddy page then buddy else page in
    let rest = absorb k (level + 1) low (update ls level (without buddy (ls level))) in
    if has buddy (ls level) then rest else (page, level, ls)

buddy-ne : (level page : ℕ) → IsAligned level page → bit_xor page (2 ^ level) ≢ page
buddy-ne level page a e =
    let (r, o) = buddy_half level page a in
    let size = one-le-pow level 2 (omega arith) in
    elim o [ inl x ↦ omega (arith, x.1, e) | inr x ↦ omega (arith, x.0, x.1, e) ]

-- What merge and absorb come to together.
record Merges (level page bound : ℕ) (z : Zone) (r : ℕ × ℕ × Zone) (s : ℕ × ℕ × (ℕ → List ℕ))
    : Type 0 where
  same_page : r.0 ≡ s.0
  same_level : r.1 ≡ s.1
  hand : InHand r.2 s.0 s.2
  number : r.2.frames_number ≡ z.frames_number
  inside : Contains level page s.1 s.0
  level_bound : s.1 < max_level

merge-Merges :
    (k level page : ℕ) (z : Zone) (ls : ℕ → List ℕ)
    → InHand z page ls
    → IsAligned level page
    → level + k < max_level
    → Merges level page (level + k) z (merge k level page z) (absorb k level page ls)
unfolding merge absorb
merge-Merges zero level page z ls h a l = record {
  same_page = refl;
  same_level = refl;
  hand = h;
  number = refl;
  inside = Contains-refl level page a;
  level_bound = omega arith;
}
merge-Merges (suc k) level page z ls h a l =
    let buddy = bit_xor page (2 ^ level) in
    let low = if ltb buddy page then buddy else page in
    let high = if ltb buddy page then page else buddy in
    let half = joined_Contains level page a in
    let b : level < max_level = omega arith in
    let test = is_free_at-has level buddy page z ls h b (buddy-ne level page a) in
    elim (Bool-cases (has buddy (ls level))) [
      | inl y ↦
          let o : ((low ≡ page) × (high ≡ buddy)) ⊎ ((low ≡ buddy) × (high ≡ page)) =
            halves buddy page in
          let next = joined-InHand z page ls h level buddy low high b y o in
          let n = joined-number z page ls h level buddy low high b y o in
          let r =
            merge-Merges k (level + 1) low (join level low high (unlink_buddy level buddy z)) _ next
              half.aligned (omega arith) in
          rw (test, y)
            (record {
              same_page = r.same_page;
              same_level = r.same_level;
              hand = r.hand;
              number = r.number ∙ n;
              inside = Contains-trans level page (level + 1) low _ _ half r.inside;
              level_bound = r.level_bound;
            })
      | inr n ↦
          rw (test, n)
            (record {
              same_page = refl;
              same_level = refl;
              hand = h;
              number = refl;
              inside = Contains-refl level page a;
              level_bound = b;
            })
    ]
  where
    halves :
        (buddy page : ℕ)
        → (((if ltb buddy page then buddy else page) ≡ page)
            × ((if ltb buddy page then page else buddy) ≡ buddy))
          ⊎ (((if ltb buddy page then buddy else page) ≡ buddy)
              × ((if ltb buddy page then page else buddy) ≡ page))
    halves buddy page = elim (Bool-cases (ltb buddy page)) [
      | inl y ↦ rw y (inr (refl, refl))
      | inr n ↦ rw n (inl (refl, refl))
    ]

-- buddy_system_free_frame_page_block of an allocated head in range, of a level below 11 and at a
-- multiple of its size, when the free lists are well formed sequences of just the frames that are
-- flagged as free heads: it returns 1, and the lists are well formed again and are those that
-- absorb makes with the block it comes to in front of its level's list. absorb joins the block
-- with its buddy, and takes the buddy out of its list, as long as the list of the block's level
-- holds the buddy and the level is not the last one; the block it comes to lies at a multiple of
-- its size and holds the freed one.
pub free_block-FreeLists :
    (page : ℕ) (z : Zone) (ls : ℕ → List ℕ)
    → FreeLists z ls
    → page < z.frames_number
    → (z.frames page).flags ≡ 3
    → (z.frames page).level < max_level
    → IsAligned (z.frames page).level page
    → let level = (z.frames page).level in
      let (page', level', ls') = absorb (max_level - 1 - level) level page ls in
      (z' : Zone) × (free_block page z ≡ (1, z'))
      × (level' < max_level)
      × Contains level page level' page'
      × FreeLists z' (update ls' level' (page' ∷ ls' level'))
unfolding free_block
free_block-FreeLists page z ls f l n b a =
    let level = (z.frames page).level in
    let k = max_level - 1 - level in
    let h = FreeLists-InHand z page ls f (λ e. omega (arith, n, e)) in
    let r = merge-Merges k level page z ls h a (omega arith) in
    let in_range : leb z.frames_number page ≡ false = ground arith in
    let head : (bit_and (z.frames page).flags block_head == 0) ≡ false = rw n refl in
    let merged = merge k level page z in
    let same : push_block merged.1 merged.0 merged.2
        ≡ push_block (absorb k level page ls).1 (absorb k level page ls).0 merged.2 =
      ap (λ l. push_block l merged.0 merged.2) r.same_level
      ∙ ap (λ p. push_block (absorb k level page ls).1 p merged.2) r.same_page in
    (
      push_block (absorb k level page ls).1 (absorb k level page ls).0 merged.2,
      rw (in_range, head) (ap (λ z'. (1, z')) same),
      r.level_bound,
      r.inside,
      pushed-FreeLists merged.2
          (push_block (absorb k level page ls).1 (absorb k level page ls).0 merged.2)
          (absorb k level page ls).0 (absorb k level page ls).1 (absorb k level page ls).2
          (push_block-Front (absorb k level page ls).1 (absorb k level page ls).0 merged.2) r.hand
          r.level_bound (omega (arith, r.number, r.inside.start, l)),
    )
