-- ===== src/Buddy.antt =====
-- kernel/kernel/pmm.c and kernel/include/kernel/pmm.h: the buddy system that hands out physical page
-- frames. The table of frames is a map from indices: the code also reads and writes the slot behind
-- the table, at the index `frames_number` that marks the end of a free list. Pointers to frames are
-- indices, and the null pointer is `none`.
pub mod Init
pub mod Layout
pub mod Tiling
pub mod Split
pub mod Halves
pub mod Alloc
pub mod Free
pub mod Threads
pub mod Lists
pub mod Joining
pub mod Merging
pub mod Push
pub mod Freeing
pub mod Fresh
pub mod Stale
pub mod Report
mod Tests
use chao_s_os.Prelude.{
  ℕ, zero, suc, ◌+◌, ◌-◌, ◌*◌, ◌/◌, ◌%◌, ◌^◌, bit_and, bit_or, bit_xor, Bool, true, false, ◌&&◌,
  ◌||◌, not, Option, none, some, List, [], ◌∷◌, ◌==◌, ltb, leb, if◌then◌else◌, update,
}
use chao_s_os.Math.{next_power_of_2, power_of_2}

-- BUDDY_MAXLEVEL, PAGE_FRAME_SIZE, sizeof(page_frame_t), which is packed
abbrev pub max_level : ℕ
max_level = 11

abbrev pub page_frame_size : ℕ
page_frame_size = 4096

abbrev pub frame_bytes : ℕ
frame_bytes = 22

-- PAGE_FRAME_ALLOCATED and PAGE_FRAME_BLOCK_HEAD
abbrev pub allocated : ℕ
allocated = 1

abbrev pub block_head : ℕ
block_head = 2

-- `page_frame_t`
pub record Frame : Type 0 where
  pub flags : ℕ
  pub level : ℕ
  pub physic_addr : ℕ
  pub index : ℕ
  pub prev_frame : ℕ
  pub next_frame : ℕ
  pub allocator : ℕ

-- `normal_mem_t`
pub record Zone : Type 0 where
  pub base : ℕ
  pub length : ℕ
  pub frames_number : ℕ
  pub free_lists : ℕ → ℕ
  pub frames : ℕ → Frame

-- `normal_mem.free_lists[level] = i`
abbrev pub set_list : ℕ → ℕ → Zone → Zone
set_list level i z = record z { free_lists = update z.free_lists level i }

abbrev pub set_frame : ℕ → Frame → Zone → Zone
set_frame i p z = record z { frames = update z.frames i p }

-- `pages[i].field = v`
abbrev pub set_flags : ℕ → ℕ → Zone → Zone
set_flags i v z = set_frame i (record (z.frames i) { flags = v }) z

abbrev pub set_level : ℕ → ℕ → Zone → Zone
set_level i v z = set_frame i (record (z.frames i) { level = v }) z

abbrev pub set_prev : ℕ → ℕ → Zone → Zone
set_prev i v z = set_frame i (record (z.frames i) { prev_frame = v }) z

abbrev pub set_next : ℕ → ℕ → Zone → Zone
set_next i v z = set_frame i (record (z.frames i) { next_frame = v }) z

-- The loop that looks for a level with a free block; `k` levels are left below BUDDY_MAXLEVEL.
unfoldable pub find_level : ℕ → ℕ → Zone → ℕ
find_level zero current z = current
find_level (suc k) current z =
    let rest = find_level k (current + 1) z in
    if z.free_lists current == z.frames_number then rest else current

-- The body of the loop that splits a block: the upper half goes to the free list of `current`.
unfoldable pub split_once : ℕ → ℕ → Zone → Zone
split_once page current z =
    let right = bit_xor page (2 ^ current) in
    let z₁ = set_level right current z in
    let z₂ = set_prev (z₁.free_lists current) right z₁ in
    let z₃ = set_next right (z₂.free_lists current) z₂ in
    let z₄ = set_flags right block_head z₃ in set_list current right z₄

-- `while (current_level > level)`: `k` is how far `current_level` is above `level`.
unfoldable pub split : ℕ → ℕ → ℕ → Zone → Zone
split zero level page z = z
split (suc k) level page z = split k level page (split_once page (level + k) z)

-- The last four assignments to the block that is handed out.
unfoldable pub hand_out : ℕ → ℕ → Zone → Zone
hand_out level page z = set_next page z.frames_number (
    set_prev page z.frames_number
      (set_level page level (set_flags page (allocated + block_head) z)))

-- `buddy_system_get_frame_page_block`
unfoldable pub get_block : ℕ → Zone → Option ℕ × Zone
get_block level z =
    let current = find_level (max_level - level) level z in
    if leb max_level current
    then (none, z)
    else (let page = z.free_lists current in
        (
          some page,
          hand_out level page
              (split (current - level) level page (set_list current (z.frames page).next_frame z)),
        ))

-- `frame_alloc`; the outer `none` means that `power_of_2` does not end.
unfoldable pub frame_alloc : ℕ → Zone → Option (Option ℕ × Zone)
frame_alloc count z = elim (power_of_2 (next_power_of_2 count)) [
  | none ↦ none
  | some level ↦ some (get_block level z)
]

unfoldable pub page_count : ℕ → ℕ
page_count byte_size =
    byte_size / page_frame_size + (if ltb 0 (byte_size % page_frame_size) then 1 else 0)

-- What `physic_alloc` returns: the physical address of the block, or 0.
unfoldable pub address_of : Option ℕ × Zone → ℕ × Zone
address_of (none, z) = (0, z)
address_of (some page, z) = ((z.frames page).physic_addr, z)

unfoldable pub physic_alloc : ℕ → Zone → Option (ℕ × Zone)
physic_alloc byte_size z = elim (frame_alloc (page_count byte_size) z) [
  | none ↦ none
  | some r ↦ some (address_of r)
]

-- Taking the buddy out of the free list of `level`.
unfoldable pub unlink_buddy : ℕ → ℕ → Zone → Zone
unlink_buddy level buddy z =
    let prev = (z.frames buddy).prev_frame in
    let next = (z.frames buddy).next_frame in
    let z₁ = if prev == z.frames_number then set_list level next z else set_next prev next z in
    if ltb next z.frames_number then set_prev next prev z₁ else z₁

-- The rest of the loop's body: the lower half becomes the head of the joined block.
unfoldable pub join : ℕ → ℕ → ℕ → Zone → Zone
join level low high z = set_level low (level + 1) (set_level high 0 (set_flags high allocated z))

unfoldable pub is_free_at : ℕ → ℕ → Zone → Bool
is_free_at level i z = level == (z.frames i).level && (z.frames i).flags == block_head

-- The loop that joins a block with its buddy; `k` levels are left below the last one. It returns the
-- joined block's index and level.
unfoldable pub merge : ℕ → ℕ → ℕ → Zone → ℕ × ℕ × Zone
merge zero level page z = (page, level, z)
merge (suc k) level page z =
    let buddy = bit_xor page (2 ^ level) in
    let low = if ltb buddy page then buddy else page in
    let high = if ltb buddy page then page else buddy in
    let rest = merge k (level + 1) low (join level low high (unlink_buddy level buddy z)) in
    if is_free_at level buddy z then rest else (page, level, z)

-- The assignments that put the block in front of the free list of its level.
unfoldable pub push_block : ℕ → ℕ → Zone → Zone
push_block level page z =
    let z₁ = set_level page level (set_flags page block_head z) in
    let head = z₁.free_lists level in
    let z₂ = set_next page head z₁ in
    let z₃ = if ltb head z.frames_number then set_prev head page z₂ else z₂ in
    set_list level page (set_prev page z.frames_number z₃)

-- `buddy_system_free_frame_page_block`: 0 for an index that is out of range or no block's head. (The
-- source tests PAGE_FRAME_BLOCK_HEAD twice.)
unfoldable pub free_block : ℕ → Zone → ℕ × Zone
free_block page z =
    let flags = (z.frames page).flags in
    let (page', level, z') =
      merge (max_level - 1 - (z.frames page).level) (z.frames page).level page z in
    if leb z.frames_number page || (bit_and flags block_head == 0 || bit_and flags block_head == 0)
    then (0, z)
    else (1, push_block level page' z')

unfoldable pub frame_index : ℕ → Zone → ℕ
frame_index addr z = (addr + 2 ^ 32 - z.base) % 2 ^ 32 / page_frame_size

unfoldable pub physic_free : ℕ → Zone → ℕ × Zone
physic_free addr z = if addr == 0 then (0, z) else free_block (frame_index addr z) z

unfoldable pub frame_free : Option ℕ → Zone → ℕ × Zone
frame_free none z = (0, z)
frame_free (some i) z = free_block (z.frames i).index z
