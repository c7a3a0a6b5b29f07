-- ===== src/Kmm/Heap.antt =====
-- kernel/kernel/kmm.c: init_kmm and kmalloc over the managers of the eight sizes and the zone of
-- pages. An outcome `none` is a call in which the code follows a null pointer to a frame or to an
-- allocator, or in which the bound on managers is used up.
use chao_s_os.Prelude.{
  ℕ, zero, suc, ◌+◌, ◌*◌, ◌%◌, ◌^◌, Option, none, some, List, [], ◌∷◌, ◌==◌, ltb, leb,
  if◌then◌else◌, get_or, update,
}
use chao_s_os.Buddy.{Zone, page_frame_size, set_frame, frame_alloc, physic_alloc}
use chao_s_os.Vmm.{page_offset}
use chao_s_os.Kmm.{
  Mode, linked, bitmap, slice_count, Manager, get_slice_addr, init_linked_page, set_alloc,
  pop_first, push_first, new_manager, slice_sizes, end_flag, max_alloc, allocator_bytes,
  manager_header, page_header, slice_end, free_list, p_full_list, full_list,
}

-- The zone, the entries of `kmms`, the managers by address, and memory.
pub record Heap : Type 0 where
  pub zone : Zone
  pub alloc_ms : ℕ → ℕ
  pub managers : ℕ → Manager
  pub bytes : ℕ → ℕ

-- `&manager->allocs[i]`
unfoldable pub allocator_address : ℕ → ℕ → ℕ
allocator_address p i = p + manager_header + i * allocator_bytes

-- `physic_addr + PAGE_OFFSET` of a frame
unfoldable pub page_address : ℕ → Zone → ℕ
page_address f z = ((z.frames f).physic_addr + page_offset) % 2 ^ 32

abbrev pub set_manager : ℕ → Manager → Heap → Heap
set_manager p m h = record h { managers = update h.managers p m }

-- A manager in the page that physic_alloc returned, in front of the managers of its size.
unfoldable pub place_manager : ℕ → ℕ → Heap → Option (ℕ × Zone) → Option (ℕ × Heap)
place_manager level next h none = none
place_manager level next h (some (a, z)) =
    let p = (a + page_offset) % 2 ^ 32 in
    some (
      p,
      record (set_manager p (new_manager (get_or slice_sizes level 0) next) h) {
        zone = z;
        alloc_ms = update h.alloc_ms level p;
      },
    )

-- (A zone with no page left gives the address PAGE_OFFSET.)
unfoldable pub add_manager : ℕ → ℕ → Heap → Option (ℕ × Heap)
add_manager level next h = place_manager level next h (physic_alloc page_frame_size h.zone)

-- `init_kmm`, `k` sizes before its end
unfoldable pub init_managers : ℕ → ℕ → Heap → Option Heap
init_managers zero level h = some h
init_managers (suc k) level h = elim (add_manager level 0 h) [
  | none ↦ none
  | some (p, h') ↦ init_managers k (level + 1) h'
]

unfoldable pub init_kmm : Heap → Option Heap
init_kmm h = init_managers 8 0 h

-- `allocator->avai_num -= 1` and the new `first_avai`, of allocator `i`
unfoldable pub take_from : ℕ → ℕ → Manager → Manager
take_from i first_avai m =
    set_alloc i
      (record (m.allocs i) {
        first_avai = first_avai;
        avai_num = ((m.allocs i).avai_num + 255) % 256;
      })
      m

-- The branch of kmalloc_helper for a partially full allocator `i`, whose page is frame `f`.
unfoldable pub take_partial : Mode → ℕ → ℕ → ℕ → Heap → ℕ × Heap
take_partial mode p f i h =
    let m = h.managers p in
    let t =
      get_slice_addr mode (page_address f h.zone) m.slice_size (m.allocs i).first_avai h.bytes in
    let m₁ = if t.is_last then push_first full_list i (pop_first p_full_list i m) else m in
    (t.addr, record (set_manager p (take_from i t.first_avai m₁) h) { bytes = t.bytes })

unfoldable pub from_partial : Mode → ℕ → Heap → Option (ℕ × Heap)
from_partial mode p h = elim ((h.managers p).allocs (h.managers p).p_full).target_page [
  | none ↦ none
  | some f ↦ some (take_partial mode p f (h.managers p).p_full h)
]

-- A page for an allocator that has none: its frame gets the allocator's address.
unfoldable pub prepare_page : Mode → ℕ → ℕ → ℕ → (ℕ → ℕ) → ℕ → ℕ
prepare_page linked allocator page slice_size bytes =
    init_linked_page allocator page slice_size bytes
prepare_page bitmap allocator page slice_size bytes = bytes

unfoldable pub own_page : ℕ → ℕ → Zone → Zone
own_page f allocator z = set_frame f (record (z.frames f) { allocator = allocator }) z

unfoldable pub assign_page : Mode → ℕ → ℕ → ℕ → Heap → Heap
assign_page mode p i f h =
    let m = h.managers p in
    let z = own_page f (allocator_address p i) h.zone in
    record (set_manager p
      (set_alloc i
        (record (m.allocs i) { target_page = some f; avai_num = slice_count mode m.slice_size }) m)
      h) {
        zone = z;
        bytes = prepare_page mode (allocator_address p i) (page_address f z) m.slice_size h.bytes;
      }

-- What frame_alloc returned becomes the page of allocator `i`. (With no frame left the code writes
-- through the null pointer.)
unfoldable pub give_page : Mode → ℕ → ℕ → Heap → Option (Option ℕ × Zone) → Option (ℕ × Heap)
give_page mode p i h none = none
give_page mode p i h (some (none, z)) = none
give_page mode p i h (some (some f, z)) = some (f, assign_page mode p i f (record h { zone = z }))

-- The frame of the first free allocator, which is given one if it has none.
unfoldable pub ensure_page : Mode → ℕ → Heap → Option (ℕ × Heap)
ensure_page mode p h =
    let i = (h.managers p).free in
    elim ((h.managers p).allocs i).target_page [
      | some f ↦ some (f, h)
      | none ↦ give_page mode p i h (frame_alloc 1 h.zone)
    ]

-- The first slice of the page: its address, the allocator's new `first_avai`, and the bytes.
unfoldable pub first_slice : Mode → ℕ → (ℕ → ℕ) → ℕ × ℕ × (ℕ → ℕ)
first_slice linked page bytes =
    let addr = (page + page_header) % 2 ^ 32 in
    ((addr + 1) % 2 ^ 32, bytes addr, update bytes addr slice_end)
first_slice bitmap page bytes = (page, 0x80, bytes)

-- The branch for a free allocator `i`, which has frame `f`.
unfoldable pub take_free : Mode → ℕ → ℕ → ℕ → Heap → ℕ × Heap
take_free mode p f i h =
    let (addr, first_avai, bytes) = first_slice mode (page_address f h.zone) h.bytes in
    let m = push_first p_full_list i (pop_first free_list i (h.managers p)) in
    (addr, record (set_manager p (take_from i first_avai m) h) { bytes = bytes })

unfoldable pub from_free : Mode → ℕ → Heap → Option (ℕ × Heap)
from_free mode p h = elim (ensure_page mode p h) [
  | none ↦ none
  | some (f, h') ↦ some (take_free mode p f (h.managers p).free h')
]

-- The body of kmalloc_helper at a manager; `rest` is the call for the next one.
unfoldable pub serve : Mode → ℕ → Heap → Option (ℕ × Heap) → Option (ℕ × Heap)
serve mode p h rest =
    let m = h.managers p in
    if m.p_full == end_flag
    then (if m.free == end_flag then rest else from_free mode p h)
    else from_partial mode p h

unfoldable pub ensure_manager : ℕ → ℕ → Heap → Option (ℕ × Heap)
ensure_manager p level h = if p == 0 then add_manager level (h.alloc_ms level) h else some (p, h)

-- `kmalloc_helper`, with a bound on the managers that it visits
unfoldable pub kmalloc_helper : ℕ → Mode → ℕ → ℕ → Heap → Option (ℕ × Heap)
kmalloc_helper zero mode p level h = none
kmalloc_helper (suc k) mode p level h = elim (ensure_manager p level h) [
  | none ↦ none
  | some (p', h') ↦ serve mode p' h' (kmalloc_helper k mode (h'.managers p').next level h')
]

-- The loop of kmalloc: the first size that is large enough.
unfoldable pub size_level : List ℕ → ℕ → ℕ → Option ℕ
size_level [] i n = none
size_level (s ∷ ss) i n = if leb n s then some i else size_level ss (i + 1) n

unfoldable pub kmalloc : ℕ → ℕ → Heap → Option (ℕ × Heap)
kmalloc k byte_size h =
    if ltb max_alloc byte_size then some (0, h) else elim (size_level slice_sizes 0 byte_size) [
      | some i ↦ kmalloc_helper k (if leb i 4 then linked else bitmap) (h.alloc_ms i) i h
      | none ↦ elim (physic_alloc byte_size h.zone) [
        | none ↦ none
        | some (a, z) ↦ some ((a + page_offset) % 2 ^ 32, record h { zone = z })
      ]
    ]
