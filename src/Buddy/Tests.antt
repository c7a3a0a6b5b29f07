-- ===== src/Buddy/Tests.antt =====
-- The buddy system in a small zone.
use chao_s_os.Prelude.{
  ℕ, false, ◌+◌, ◌*◌, ◌^◌, ◌≤◌, ◌<◌, ◌≡◌, ◌≢◌, ◌%◌, refl, some, arith, ◌==◌, if◌then◌else◌, List,
  [], ◌∷◌, update,
}
use native.Mathlib.Decide.{ℕ_discrete}
use chao_s_os.Buddy.{
  Frame, Zone, find_level, split, split_once, hand_out, get_block, free_block, max_level,
  page_frame_size, frame_bytes,
}
use chao_s_os.Buddy.Init.{sizes, blocks_of}
use chao_s_os.Buddy.Layout.{sizes-fit}
use chao_s_os.Buddy.Tiling.{IsAligned, Tiles, blocks_of-Tiles}
use chao_s_os.Buddy.Alloc.{Allocates, get_block-Allocates}
use chao_s_os.Buddy.Free.{Contains}
use chao_s_os.Buddy.Threads.{Segment}
use chao_s_os.Buddy.Lists.{FreeLists, without}
use chao_s_os.Buddy.Freeing.{absorb, free_block-FreeLists}

-- 1500 frames: two free blocks of one frame at 0 and 2, and one of 4 frames at 4; frame 3 is
-- allocated.
abbrev frame : ℕ → Frame
frame i = record {
  flags = if i == 0 then 2 else if i == 2 then 2 else if i == 4 then 2 else if i == 3 then 3 else 1;
  level = if i == 4 then 2 else 0;
  physic_addr = 2 ^ 20 + i * 4096;
  index = i;
  prev_frame = if i == 2 then 0 else 1500;
  next_frame = if i == 0 then 2 else 1500;
  allocator = 0;
}

abbrev zone : Zone
zone = record {
  base = 2 ^ 20;
  length = 1500 * 4096;
  frames_number = 1500;
  free_lists = λ l. if l == 0 then 0 else if l == 2 then 4 else 1500;
  frames = frame;
}

-- Of the block of 4 frames, 5 and 6 stay free.
splits : (get_block 1 zone).0 ≡ some 4
unfolding get_block find_level
splits = refl

upper_free : (get_block 1 zone).1.free_lists 1 ≡ 6
unfolding get_block find_level split split_once hand_out
upper_free = refl

frees : (free_block 3 zone).0 ≡ 1
unfolding free_block
frees = refl

lists-IsAligned :
    (c : ℕ)
    → c < max_level
    → zone.free_lists c ≢ zone.frames_number
    → IsAligned c (zone.free_lists c)
lists-IsAligned c l some_block = elim (ℕ_discrete c 0) [
  | yes e ↦ rw e (0, refl)
  | no n ↦ elim (ℕ_discrete c 2) [ yes e ↦ rw e (1, refl) | no m ↦ absurd (ground arith) ]
]

list_0 : zone.free_lists 0 ≢ zone.frames_number
list_0 e = absurd (omega (arith, e))

list_2 : zone.free_lists 2 ≢ zone.frames_number
list_2 e = absurd (omega (arith, e))

get_block-Allocates_example :
    (current : ℕ) × (z' : Zone) × (get_block 1 zone ≡ (some (zone.free_lists current), z'))
    × Allocates 1 current (zone.free_lists current) zone z'
get_block-Allocates_example =
    get_block-Allocates 1 2 zone (omega arith) (omega arith) list_2 lists-IsAligned

lists_empty : (j : ℕ) → 3 ≤ j → j < max_level → zone.free_lists j ≡ zone.frames_number
lists_empty j a b = ground arith

abbrev lists : ℕ → List ℕ
lists l = if l == 0 then 0 ∷ 2 ∷ [] else if l == 2 then 4 ∷ [] else []

lists-segment :
    (l : ℕ) → l < max_level → Segment 1500 zone.frames 1500 (zone.free_lists l) (lists l)
lists-segment l b = elim (ℕ_discrete l 0) [
  | yes e ↦ rw e (refl, omega arith, refl, (refl, omega arith, refl, refl))
  | no n ↦ elim (ℕ_discrete l 2) [
    | yes e ↦ rw e (refl, omega arith, refl, refl)
    | no m ↦
        let a : (l == 0) ≡ false = ground arith in
        let c : (l == 2) ≡ false = ground arith in rw (a, c) refl
  ]
]

zone-FreeLists : FreeLists zone lists
zone-FreeLists = record {
  threaded = record {
    segment = lists-segment;
    distinct = λ l b. ground arith;
    head = λ l i b y. ground (arith, y);
  };
  listed = λ l i b f s. ground (arith, f, s);
}

-- Frame 3 joins with frame 2; frame 0 is free, but of another level.
absorbs :
    let (page', level', ls') = absorb 10 0 3 lists in (page' ≡ 2) × (level' ≡ 1) × (ls' 0 ≡ 0 ∷ [])
unfolding absorb without
absorbs = (refl, refl, refl)

free_block-FreeLists_example :
    let (page', level', ls') = absorb 10 0 3 lists in
    (z' : Zone) × (free_block 3 zone ≡ (1, z'))
    × (level' < max_level)
    × Contains 0 3 level' page'
    × FreeLists z' (update ls' level' (page' ∷ ls' level'))
free_block-FreeLists_example =
    free_block-FreeLists 3 zone lists zone-FreeLists (omega arith) refl (omega arith) (3, refl)

not_itself : (zone.frames (zone.free_lists 0)).next_frame ≢ zone.free_lists 0
not_itself e = absurd (omega (arith, e))

sizes-fit_example :
    let s = sizes 0x100000 0x7F00000 0x200000 in
    (s.mem_base % page_frame_size ≡ 0)
    × (0x200000 + s.frames_number * frame_bytes ≤ s.mem_base)
    × (0 < s.frames_number)
    × (s.mem_base + s.frames_number * page_frame_size ≤ 0x100000 + 0x7F00000)
sizes-fit_example = sizes-fit 0x100000 0x7F00000 0x200000 (omega arith) (omega arith)

blocks_of-Tiles_example : Tiles 0 1500 (blocks_of 1500)
blocks_of-Tiles_example = blocks_of-Tiles 1500 (omega arith) (omega arith)
