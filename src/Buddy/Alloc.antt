-- ===== src/Buddy/Alloc.antt =====
-- `buddy_system_get_frame_page_block` (kernel/kernel/pmm.c) as a whole: what it hands out, and what it
-- leaves in the free lists.
use chao_s_os.Prelude.{
  ℕ, ◌+◌, ◌-◌, ◌^◌, ◌≤◌, ◌<◌, ◌≡◌, ◌≢◌, ◌⊎◌, refl, sym, ap, subst, ◌∙◌, true, false, none, some,
  inr, arith, ◌==◌, leb,
}
use native.Mathlib.Decide.{dec_lt}
use native.Mathlib.Nat.{one-le-pow}
use chao_s_os.Buddy.{Frame, Zone, max_level, find_level, split, hand_out, get_block, set_list}
use chao_s_os.Buddy.Tiling.{IsAligned}
use chao_s_os.Buddy.Split.{Found, find_level-Found}
use chao_s_os.Buddy.Halves.{split-list, split-number, split-Heads, Heads}

-- What the allocation of a block of `level` does to the zone: it takes the first block of the lowest
-- list that holds one, and leaves the halves that it splits off.
pub record Allocates (level current page : ℕ) (z z' : Zone) : Type 0 where
  pub enough : level ≤ current
  pub in_range : current < max_level
  pub lower_empty : (j : ℕ) → level ≤ j → j < current → z.free_lists j ≡ z.frames_number
  pub taken : page ≡ z.free_lists current
  pub held : page ≢ z.frames_number
  pub flags : (z'.frames page).flags ≡ 3
  pub size : (z'.frames page).level ≡ level
  pub prev : (z'.frames page).prev_frame ≡ z.frames_number
  pub next : (z'.frames page).next_frame ≡ z.frames_number
  pub advanced : z'.free_lists current ≡ (z.frames page).next_frame
  pub halves : (j : ℕ) → level ≤ j → j < current → Heads z z' j (page + 2 ^ j)
  pub others : (j : ℕ) → (j < level) ⊎ (current < j) → z'.free_lists j ≡ z.free_lists j

-- The four assignments to the block itself change no other frame and no list.
hand_out-frame :
    (level page i : ℕ) (z : Zone) → i ≢ page → (hand_out level page z).frames i ≡ z.frames i
unfolding hand_out
hand_out-frame level page i z n = ground arith

hand_out-page :
    (level page : ℕ) (z : Zone)
    → let p = (hand_out level page z).frames page in
      (p.flags ≡ 3)
      × (p.level ≡ level)
      × (p.prev_frame ≡ z.frames_number)
      × (p.next_frame ≡ z.frames_number)
unfolding hand_out
hand_out-page level page z = ground arith

hand_out-list :
    (level page j : ℕ) (z : Zone) → (hand_out level page z).free_lists j ≡ z.free_lists j
unfolding hand_out
hand_out-list level page j z = refl

-- The zone after a successful search, as the three steps leave it.
after : ℕ → ℕ → Zone → Zone
after level current z =
    let page = z.free_lists current in
    hand_out level page
      (split (current - level) level page (set_list current (z.frames page).next_frame z))

after-Allocates :
    (level current : ℕ) (z : Zone)
    → Found (max_level - level) level z current
    → level ≤ max_level
    → current < max_level
    → IsAligned current (z.free_lists current)
    → Allocates level current (z.free_lists current) z (after level current z)
unfolding after
after-Allocates level current z f b l a =
    let page = z.free_lists current in
    let z₁ = set_list current (z.frames page).next_frame z in
    let z₂ = split (current - level) level page z₁ in
    let (flags, size, prev, next) = hand_out-page level page z₂ in
    let number = split-number (current - level) level page z₁ in
    let top : level + (current - level) ≡ current = omega (arith, f.no_earlier) in
    let list = λ (j : ℕ) (o : (j < level) ⊎ (current ≤ j)).
      hand_out-list level page j z₂
      ∙ split-list (current - level) level page j z₁ (omega (arith, top)) in
    record {
      enough = f.no_earlier;
      in_range = l;
      lower_empty = f.passed;
      taken = refl;
      held = f.stopped (omega arith);
      flags = flags;
      size = size;
      prev = prev ∙ number;
      next = next ∙ number;
      advanced = list current (inr (omega arith)) ∙ ground arith;
      halves = λ j u v.
          half j
            (split-Heads (current - level) level page z₁ j
              (subst (λ m. IsAligned m page) (sym top) a) u (omega (arith, top)))
            v;
      others = λ j o. list j (omega arith) ∙ ground arith;
    }
  where
    half :
        (j : ℕ)
        → Heads
            (set_list current (z.frames (z.free_lists current)).next_frame z)
            (split
              (current - level)
              level
              (z.free_lists current)
              (set_list current (z.frames (z.free_lists current)).next_frame z))
            j
            (z.free_lists current + 2 ^ j)
        → j < current
        → Heads z (after level current z) j (z.free_lists current + 2 ^ j)
    half j h v =
        let page = z.free_lists current in
        let z₂ =
          split (current - level) level page (set_list current (z.frames page).next_frame z) in
        let kept =
          hand_out-frame level page (page + 2 ^ j) z₂
            (omega (arith, one-le-pow j 2 (omega arith))) in
        let other : (j == current) ≡ false = ground arith in
        record {
          first = hand_out-list level page j z₂ ∙ h.first;
          free = ap (λ (p : Frame). p.flags) kept ∙ h.free;
          size = ap (λ (p : Frame). p.level) kept ∙ h.size;
          rest = ap (λ (p : Frame). p.next_frame) kept ∙ h.rest ∙ rw other;
        }

-- When a list from the level asked for up holds a block, and the head of each list that holds one
-- has an index that is a multiple of its block's size, buddy_system_get_frame_page_block returns
-- the first block of the lowest such list, flagged as an allocated head of the level asked for and
-- linked to no other; that list goes on with the block's successor, every level between gets the
-- block's half of its size in front of what it held, as a free head, and the other lists stay as
-- they were.
pub get_block-Allocates :
    (level j : ℕ) (z : Zone)
    → level ≤ j
    → j < max_level
    → z.free_lists j ≢ z.frames_number
    → ((c : ℕ) → c < max_level → z.free_lists c ≢ z.frames_number → IsAligned c (z.free_lists c))
    → (current : ℕ) × (z' : Zone) × (get_block level z ≡ (some (z.free_lists current), z'))
      × Allocates level current (z.free_lists current) z z'
unfolding get_block after
get_block-Allocates level j z l b n a =
    let current = find_level (max_level - level) level z in
    let f = find_level-Found (max_level - level) level z in
    let within : current < max_level = elim (dec_lt current max_level) [
      | yes y ↦ y
      | no m ↦ absurd (n (f.passed j l (omega arith)))
    ] in
    let some_level : leb max_level current ≡ false = ground arith in
    (
      current,
      after level current z,
      rw some_level refl,
      after-Allocates level current z f (omega arith) within
          (a current within (f.stopped (omega arith))),
    )

-- When the lists from `level` up are all empty, `buddy_system_get_frame_page_block` returns the null
-- pointer and changes nothing.
pub get_block-none :
    (level : ℕ) (z : Zone)
    → level ≤ max_level
    → ((j : ℕ) → level ≤ j → j < max_level → z.free_lists j ≡ z.frames_number)
    → get_block level z ≡ (none, z)
unfolding get_block
get_block-none level z l empty =
    let current = find_level (max_level - level) level z in
    let f = find_level-Found (max_level - level) level z in
    let no_level : leb max_level current ≡ true = elim (dec_lt current max_level) [
      | yes y ↦ absurd (f.stopped (omega arith) (empty current f.no_earlier y))
      | no m ↦ ground arith
    ] in
    rw no_level refl
