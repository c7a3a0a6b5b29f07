-- ===== src/Kmm/Tests.antt =====
-- The allocator of the kernel's memory on small heaps.
use chao_s_os.Prelude.{
  ℕ, ◌+◌, ◌*◌, ◌^◌, ◌%◌, ◌≤◌, ◌≡◌, refl, ◌∙◌, true, some, [], ◌∷◌, arith, ◌==◌, if◌then◌else◌,
  get_or,
}
use chao_s_os.Math.{next_power_of_2, power_of_2}
use chao_s_os.Buddy.{Frame, Zone, get_block, find_level, frame_alloc}
use chao_s_os.Kmm.{
  linked, bitmap, Manager, new_manager, init_allocator, take_linked, take_bitmap, init_linked_page,
  slice_count, slice_end, slice_sizes, set_alloc, push_first, pop_first, first, set_first,
  get_slice_addr, free_list, p_full_list, full_list, page_header, page_frame_size,
}
use chao_s_os.Kmm.Slices.{place}
use chao_s_os.Kmm.Laying.{from}
use chao_s_os.Kmm.Taking.{take_nth, init_linked_page-take_nth}
use chao_s_os.Kmm.Returns.{TakesSlot, IsBitmapSize, take_bitmap-TakesSlot, put_linked-take_linked}
use chao_s_os.Kmm.Moves.{View, put, Represents}
use chao_s_os.Kmm.Pushing.{push_first-Represents}
use chao_s_os.Kmm.Serving.{
  all_free, new_manager-Represents, Alike-Represents, set_alloc-Alike, from_partial-Represents,
  from_free-Represents,
}
use chao_s_os.Kmm.Search.{Managers, search_managers}
use chao_s_os.Kmm.Sizes.{Least, mode_of, kmalloc-search_managers}
use chao_s_os.Kmm.Freeing.{Freed, free_slice-Represents}
use chao_s_os.Kmm.Heap.{
  Heap, kmalloc, page_address, from_partial, from_free, ensure_page, give_page, assign_page,
  first_slice, allocator_address,
}
use chao_s_os.Kmm.Release.{put_linked, put_slice, free_slice, is_linked_mode}

-- One free block of one frame.
abbrev frame : ℕ → Frame
frame i = record {
  flags = 2;
  level = 0;
  physic_addr = 2 ^ 20 + i * 4096;
  index = i;
  prev_frame = 1024;
  next_frame = 1024;
  allocator = 0;
}

abbrev zone : Zone
zone = record {
  base = 2 ^ 20;
  length = 2 ^ 22;
  frames_number = 1024;
  free_lists = λ l. if l == 0 then 7 else 1024;
  frames = frame;
}

abbrev no_bytes : ℕ → ℕ
no_bytes a = 0

-- A manager for each size, in the pages from 1 on.
abbrev heap : Heap
heap = record {
  zone = zone;
  alloc_ms = λ i. (i + 1) * 4096;
  managers = λ p. new_manager 64 0;
  bytes = no_bytes;
}

init_linked_page-take_nth_example :
    let t = take_nth 2 0xC0100000 64 0 (init_linked_page 0 0xC0100000 64 no_bytes) in
    (t.addr ≡ 0xC0100000 + page_header + 2 * (64 + 1) + 1)
    × (t.addr + 64 ≤ 0xC0100000 + page_frame_size)
    × (t.is_last ≡ (3 == slice_count linked 64))
unfolding slice_count
init_linked_page-take_nth_example =
    init_linked_page-take_nth 0 0xC0100000 64 2 no_bytes (omega arith) (omega arith) (omega arith)
      (omega arith)

-- Of the four slots of a page, the second one is taken.
take_bitmap-TakesSlot_example :
    TakesSlot (0xC0100 * 4096) 1024 4 0xA0 (take_bitmap (0xC0100 * 4096) 1024 0xA0 no_bytes)
take_bitmap-TakesSlot_example =
    take_bitmap-TakesSlot 0xC0100 1024 4 0xA0 no_bytes IsBitmapSize.quarters (omega arith) refl
      (omega arith)

-- The bytes of a page in which slice 3 is in use.
abbrev in_use : ℕ → ℕ
in_use a = slice_end

put_linked-take_linked_example :
    let r = put_linked (place (0xC0100 * 4096) 64 3 + 1) 64 4 in_use in
    let t = take_linked (0xC0100 * 4096) 64 r.0 r.1 in
    (t.addr ≡ place (0xC0100 * 4096) 64 3 + 1) × (t.is_last ≡ true) × (t.first_avai ≡ slice_end)
put_linked-take_linked_example =
    put_linked-take_linked 0xC0100 64 3 4 in_use (omega arith) (omega arith) (omega arith)
      (omega arith) refl

kmalloc-search_managers_example :
    (i : ℕ) × Least slice_sizes 40 i
    × (kmalloc 2 40 heap
        ≡ search_managers (mode_of (get_or slice_sizes i 0)) i ((i + 1) * 4096 ∷ []) heap)
unfolding Managers new_manager
kmalloc-search_managers_example =
    kmalloc-search_managers 2 40 heap (λ i. (i + 1) * 4096 ∷ []) (omega arith)
      (λ i l. (refl, (λ e. absurd (omega (arith, e))), refl)) (λ i l. omega arith)

abbrev with_page : Heap
with_page = assign_page linked 4096 0 7 (record heap { zone = (get_block 0 zone).1 })

ensured : ensure_page linked 4096 heap ≡ some (7, with_page)
unfolding ensure_page give_page frame_alloc power_of_2 next_power_of_2 get_block find_level
    new_manager init_allocator
ensured = refl

from_free-Represents_example :
    let v' = put free_list (from 407 1) all_free in
    (h' : Heap) × (from_free linked 4096 heap
      ≡ some ((first_slice linked (page_address 7 with_page.zone) with_page.bytes).0, h'))
    × Represents (h'.managers 4096) (put p_full_list (0 ∷ v' p_full_list) v')
from_free-Represents_example =
    from_free-Represents linked 4096 7 0 (from 407 1) heap with_page all_free
      (new_manager-Represents 64 0) refl ensured

-- A manager of slices of 512 bytes whose first allocator has seven of its eight slices free.
abbrev opened : View
opened = put p_full_list (0 ∷ []) (put free_list (from 407 1) all_free)

abbrev moved : Manager
moved = push_first p_full_list 0 (pop_first free_list 0 (new_manager 512 0))

abbrev in_part : Manager
in_part =
    set_alloc 0 (record (moved.allocs 0) { first_avai = 0x80; avai_num = 7; target_page = some 7 })
      moved

in_part-Represents : Represents in_part opened
in_part-Represents = Alike-Represents moved in_part opened (set_alloc-Alike 0 _ moved refl refl) (
    push_first-Represents (new_manager 512 0) all_free (new_manager-Represents 512 0) free_list
      p_full_list 0 (from 407 1) refl)

abbrev part_heap : Heap
part_heap = record heap { managers = λ p. in_part }

from_partial-Represents_example :
    let t =
      get_slice_addr bitmap
        (page_address 7 zone)
        in_part.slice_size
        (in_part.allocs 0).first_avai
        no_bytes in
    let v' = put p_full_list [] opened in
    (h' : Heap) × (from_partial bitmap 4096 part_heap ≡ some (t.addr, h'))
    × Represents
        (h'.managers 4096)
        (if t.is_last then put full_list (0 ∷ v' full_list) v' else opened)
from_partial-Represents_example =
    from_partial-Represents bitmap 4096 7 0 [] part_heap opened in_part-Represents refl refl

slots : (put_slice 0xC0107000 in_part.slice_size (in_part.allocs 0).first_avai no_bytes).0 ≡ 8
unfolding put_slice is_linked_mode slice_count pop_first push_first new_manager first set_first
    init_allocator
slots = refl

avai : ((in_part.allocs 0).avai_num + 1) % 256 ≡ 8
avai = refl

free_slice-Represents_example :
    Represents
      ((free_slice 0xC0107000 0x107000 7 (allocator_address (1 * 4096) 0) part_heap).managers
        (1 * 4096))
      (put free_list (0 ∷ put p_full_list [] opened free_list) (put p_full_list [] opened))
free_slice-Represents_example =
    free_slice-Represents 0xC0107000 0x107000 7 1 0 part_heap opened
      (put free_list (0 ∷ put p_full_list [] opened free_list) (put p_full_list [] opened))
      (omega arith) (omega arith) in_part-Represents (Freed.empties [] [] (slots ∙ refl) refl)
