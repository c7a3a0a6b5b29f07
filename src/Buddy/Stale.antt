-- ===== src/Buddy/Stale.antt =====
-- The head of a free list after an allocation (kernel/kernel/pmm.c).
use chao_s_os.Prelude.{ℕ, ◌-◌, ◌<◌, ◌≡◌, ◌≢◌, refl, sym, ◌∙◌, false, some, arith, leb}
use native.Mathlib.Decide.{dec_lt}
use chao_s_os.Buddy.{
  Zone, max_level, find_level, split, hand_out, get_block, unlink_buddy, set_list,
}
use chao_s_os.Buddy.Split.{find_level-Found}

find_level-here :
    (level : ℕ) (z : Zone)
    → level < max_level
    → z.free_lists level ≢ z.frames_number
    → find_level (max_level - level) level z ≡ level
find_level-here level z l n =
    let f = find_level-Found (max_level - level) level z in
    elim (dec_lt level (find_level (max_level - level) level z)) [
      | yes y ↦ absurd (n (f.passed level (omega arith) y))
      | no m ↦ omega (arith, f.no_earlier)
    ]

-- The zone after the first block of its own level's list is handed out.
taken : ℕ → Zone → Zone
taken level z =
    hand_out level (z.free_lists level)
      (set_list level (z.frames (z.free_lists level)).next_frame z)

get_block-taken :
    (level : ℕ) (z : Zone)
    → level < max_level
    → z.free_lists level ≢ z.frames_number
    → get_block level z ≡ (some (z.free_lists level), taken level z)
unfolding get_block taken split
get_block-taken level z l n =
    let in_range : leb max_level level ≡ false = ground arith in
    let none_left : level - level ≡ 0 = omega arith in
    rw (find_level-here level z l n, in_range, none_left) refl

taken-next :
    (level : ℕ) (z : Zone)
    → (z.frames (z.free_lists level)).next_frame ≢ z.free_lists level
    → let z' = taken level z in
      let next = (z.frames (z.free_lists level)).next_frame in
      (z'.free_lists level ≡ next)
      × ((z'.frames next).prev_frame ≡ (z.frames next).prev_frame)
      × (z'.frames_number ≡ z.frames_number)
unfolding taken hand_out
taken-next level z n = ground arith

unlink_buddy-list :
    (level buddy : ℕ) (z : Zone)
    → (z.frames buddy).prev_frame ≢ z.frames_number
    → (unlink_buddy level buddy z).free_lists level ≡ z.free_lists level
unfolding unlink_buddy
unlink_buddy-list level buddy z n = ground arith

-- When the list of `level` begins with a block and a second one that is linked back to it,
-- `buddy_system_get_frame_page_block` hands out the first and makes the second the list's head, but the
-- second stays linked back to the first; when a later merge takes the second out of the list, the list's
-- head is still the second.
pub stale_head :
    (level : ℕ) (z : Zone)
    → level < max_level
    → z.free_lists level ≢ z.frames_number
    → (z.frames (z.free_lists level)).next_frame ≢ z.free_lists level
    → (z.frames (z.frames (z.free_lists level)).next_frame).prev_frame ≡ z.free_lists level
    → let page = z.free_lists level in
      let next = (z.frames page).next_frame in
      (z' : Zone) × (get_block level z ≡ (some page, z'))
      × (z'.free_lists level ≡ next)
      × ((z'.frames next).prev_frame ≡ page)
      × ((unlink_buddy level next z').free_lists level ≡ next)
stale_head level z l n d back =
    let next = (z.frames (z.free_lists level)).next_frame in
    let (first, prev, number) = taken-next level z d in
    let linked = λ (e : ((taken level z).frames next).prev_frame ≡ (taken level z).frames_number).
      n (sym back ∙ sym prev ∙ e ∙ number) in
    (
      taken level z,
      get_block-taken level z l n,
      first,
      prev ∙ back,
      unlink_buddy-list level next (taken level z) linked ∙ first,
    )
