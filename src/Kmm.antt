-- ===== src/Kmm.antt =====
-- kernel/kernel/kmm.c and kernel/include/kernel/kmm.h: slices of pages for small requests. This file has
-- the page of slices, and the manager of one size with its three lists; Kmm.Heap has kmalloc and Kmm.Release has kfree.
-- Pointers to frames are indices; memory is a map from virtual addresses to bytes.
pub mod Heap
pub mod Release
pub mod Slices
pub mod Laying
pub mod Taking
pub mod Returns
pub mod Lists
pub mod Moves
pub mod Views
pub mod Serving
pub mod Search
pub mod Sizes
pub mod Pushing
pub mod Freeing
mod Tests
use chao_s_os.Prelude.{
  ℕ, zero, suc, ◌+◌, ◌-◌, ◌*◌, ◌/◌, ◌%◌, ◌^◌, bit_and, bit_or, bit_xor, Bool, true, false, Option,
  none, some, List, [], ◌∷◌, ◌==◌, ltb, leb, if◌then◌else◌, update,
}
use chao_s_os.Buddy.{page_frame_size}

-- sizeof(page_slice_allocator_t), which is packed, and what stands before `allocs` in a manager
abbrev pub allocator_bytes : ℕ
allocator_bytes = 10

abbrev pub manager_header : ℕ
manager_header = 12

-- NUM_OF_ALLOC_PER_MANAGER, which is END_FLAG too: (4096 - 12) / 10
abbrev pub end_flag : ℕ
end_flag = 408

-- MAX_ALLOC
abbrev pub max_alloc : ℕ
max_alloc = 2 ^ 10 * 4096

abbrev pub slice_end : ℕ
slice_end = 0xFF

-- sizeof(page_slice_allocator_t**), the header of a page in linked mode
abbrev pub page_header : ℕ
page_header = 4

abbrev pub slice_sizes : List ℕ
slice_sizes = 16 ∷ 32 ∷ 64 ∷ 128 ∷ 256 ∷ 512 ∷ 1024 ∷ 2048 ∷ []

-- KMA_MODE_LINKED and KMA_MODE_BITMAP
pub data Mode : Type 0 where
  linked : Mode
  bitmap : Mode

-- `page_slice_allocator_t`
pub record Allocator : Type 0 where
  pub prev_allocator : ℕ
  pub next_allocator : ℕ
  pub first_avai : ℕ
  pub avai_num : ℕ
  pub target_page : Option ℕ

-- `page_slice_allocator_manager_t`
pub record Manager : Type 0 where
  pub slice_size : ℕ
  pub free : ℕ
  pub p_full : ℕ
  pub full : ℕ
  pub next : ℕ
  pub allocs : ℕ → Allocator

-- What get_slice_addr returns, and what it leaves behind.
pub record Taken : Type 0 where
  pub is_last : Bool
  pub addr : ℕ
  pub first_avai : ℕ
  pub bytes : ℕ → ℕ

-- The address of slice `i` of a page in linked mode: that of its byte `next_avail`.
unfoldable pub slice_at : ℕ → ℕ → ℕ → ℕ
slice_at page slice_size i = (page + page_header + i * (slice_size + 1)) % 2 ^ 32

-- The branch of get_slice_addr for KMA_MODE_LINKED.
unfoldable pub take_linked : ℕ → ℕ → ℕ → (ℕ → ℕ) → Taken
take_linked page slice_size first_avai bytes =
    let ret_addr = slice_at page slice_size first_avai in
    let next_avail = bytes ret_addr in
    record {
      is_last = next_avail == slice_end;
      addr = (ret_addr + 1) % 2 ^ 32;
      first_avai = next_avail;
      bytes = update bytes ret_addr slice_end;
    }

-- The search for a clear bit, `k` rounds before its end.
unfoldable pub clear_bit : ℕ → ℕ → ℕ → ℕ
clear_bit zero i map = i
clear_bit (suc k) i map =
    let rest = clear_bit k (i + 1) map in if bit_and (map / 2 ^ (7 - i)) 1 == 0 then i else rest

-- The branch for KMA_MODE_BITMAP. (A bitmap with no clear bit, for which `7 - i` may be negative, is in
-- no list that kmalloc takes slices from.)
unfoldable pub take_bitmap : ℕ → ℕ → ℕ → (ℕ → ℕ) → Taken
take_bitmap page slice_size map bytes =
    let bits = page_frame_size / slice_size in
    let i = clear_bit bits 0 map in
    let map' = bit_or map (2 ^ (7 - i)) % 256 in
    record {
      is_last = (map' / 2 ^ (8 - bits)) == (0xFF / 2 ^ (8 - bits));
      addr = (page + i * slice_size) % 2 ^ 32;
      first_avai = map';
      bytes = bytes;
    }

unfoldable pub get_slice_addr : Mode → ℕ → ℕ → ℕ → (ℕ → ℕ) → Taken
get_slice_addr linked page slice_size first bytes = take_linked page slice_size first bytes
get_slice_addr bitmap page slice_size first bytes = take_bitmap page slice_size first bytes

-- The loop of init_linked_page, with a bound on its rounds; `last` is `next_avail`. It returns that
-- pointer and the bytes.
unfoldable pub lay_slices : ℕ → ℕ → ℕ → ℕ → ℕ → ℕ → (ℕ → ℕ) → ℕ × (ℕ → ℕ)
lay_slices zero page slice_size addr i last bytes = (last, bytes)
lay_slices (suc k) page slice_size addr i last bytes =
    let rest =
      lay_slices k page slice_size (addr + (slice_size + 1)) ((i + 1) % 256) addr
        (update bytes addr ((i + 1) % 256)) in
    if leb (addr + (slice_size + 1)) (page + page_frame_size) then rest else (last, bytes)

-- The four bytes of a word at an address, the lowest one first.
unfoldable pub store_word : ℕ → ℕ → (ℕ → ℕ) → ℕ → ℕ
store_word a w bytes =
    update
      (update (update (update bytes a (w % 256)) (a + 1) (w / 2 ^ 8 % 256)) (a + 2)
        (w / 2 ^ 16 % 256))
      (a + 3) (w / 2 ^ 24 % 256)

-- The page is taken to end below 4 GiB, so that its addresses do not wrap around. A page has a slice, so
-- that the pointer that the loop starts with is not written through.
unfoldable pub init_linked_page : ℕ → ℕ → ℕ → (ℕ → ℕ) → ℕ → ℕ
init_linked_page allocator page slice_size bytes =
    let (last, bytes') =
      lay_slices page_frame_size page slice_size (page + page_header) 0 page
        (store_word page allocator bytes) in
    update bytes' last slice_end

-- The number of slices of a page, as `avai_num` holds it.
unfoldable pub slice_count : Mode → ℕ → ℕ
slice_count linked slice_size = (page_frame_size - page_header) / (slice_size + 1) % 256
slice_count bitmap slice_size = page_frame_size / slice_size % 256

-- The three lists of a manager.
pub data ListName : Type 0 where
  free_list : ListName
  p_full_list : ListName
  full_list : ListName

unfoldable pub first : ListName → Manager → ℕ
first free_list m = m.free
first p_full_list m = m.p_full
first full_list m = m.full

unfoldable pub set_first : ListName → ℕ → Manager → Manager
set_first free_list i m = record m { free = i }
set_first p_full_list i m = record m { p_full = i }
set_first full_list i m = record m { full = i }

abbrev pub set_alloc : ℕ → Allocator → Manager → Manager
set_alloc i a m = record m { allocs = update m.allocs i a }

abbrev pub set_prev : ℕ → ℕ → Manager → Manager
set_prev i v m = set_alloc i (record (m.allocs i) { prev_allocator = v }) m

abbrev pub set_next : ℕ → ℕ → Manager → Manager
set_next i v m = set_alloc i (record (m.allocs i) { next_allocator = v }) m

-- kmalloc_helper takes the allocator that a list begins with out of it ...
unfoldable pub pop_first : ListName → ℕ → Manager → Manager
pop_first from i m =
    let a = m.allocs i in
    let m₁ =
      if a.next_allocator == end_flag then m else set_prev a.next_allocator a.prev_allocator m in
    set_first from a.next_allocator m₁

-- ... and puts it in front of another.
unfoldable pub push_first : ListName → ℕ → Manager → Manager
push_first to i m =
    let head = first to m in
    let m₁ = set_next i head m in
    let m₂ =
      if head == end_flag
      then m₁
      else set_prev head i (set_prev i (m₁.allocs head).prev_allocator m₁) in
    set_first to i m₂

-- kfree takes an allocator out of the middle of a list ...
unfoldable pub unlink : ListName → ℕ → Manager → Manager
unlink from i m =
    let prev = (m.allocs i).prev_allocator in
    let next = (m.allocs i).next_allocator in
    let m₁ = if next == end_flag then m else set_prev next prev m in
    if prev == end_flag then set_first from next m₁ else set_next prev next m₁

-- ... and puts it in front of another.
unfoldable pub relink : ListName → ℕ → Manager → Manager
relink to i m =
    let head = first to m in
    let m₁ = set_prev i end_flag (set_next i head m) in
    let m₂ = if head == end_flag then m₁ else set_prev head i m₁ in set_first to i m₂

-- `init_allocator_manager`: the allocators of a new manager, all in one list.
unfoldable pub init_allocator : ℕ → Allocator
init_allocator i = record {
  prev_allocator = if i == 0 then end_flag else i - 1;
  next_allocator = if i == end_flag - 1 then end_flag else i + 1;
  first_avai = 0;
  avai_num = 0;
  target_page = none;
}

-- A manager with no page yet.
unfoldable pub new_manager : ℕ → ℕ → Manager
new_manager slice_size next = record {
  slice_size = slice_size;
  free = 0;
  p_full = end_flag;
  full = end_flag;
  next = next;
  allocs = init_allocator;
}
