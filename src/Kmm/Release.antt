-- ===== src/Kmm/Release.antt =====
-- kernel/kernel/kmm.c: kfree, which finds the allocator of a slice in the frame of its page. An outcome
-- `none` is a page that has no allocator, where the code goes on with the null pointer.
use chao_s_os.Prelude.{
  ℕ, ◌+◌, ◌-◌, ◌/◌, ◌%◌, ◌^◌, bit_and, bit_xor, Bool, Option, none, some, ◌==◌, leb, if◌then◌else◌,
  update,
}
use chao_s_os.Buddy.{physic_free, frame_index}
use chao_s_os.Vmm.{page_offset, page_mask}
use chao_s_os.Kmm.{
  linked, bitmap, slice_count, set_alloc, unlink, relink, allocator_bytes, manager_header,
  page_header, free_list, p_full_list, full_list,
}
use chao_s_os.Kmm.Heap.{Heap, set_manager, own_page}

-- The manager and the index of the allocator at an address
unfoldable pub manager_of : ℕ → ℕ
manager_of allocator = bit_and allocator page_mask

unfoldable pub index_of : ℕ → ℕ
index_of allocator =
    (allocator + 2 ^ 32 - (manager_of allocator + manager_header))
    % 2 ^ 32
    / allocator_bytes
    % 2 ^ 16

-- The first half of kfree gives the slice back to its page: the allocator's new `first_avai`, the
-- bytes, and the number of slices of the page.
unfoldable pub put_linked : ℕ → ℕ → ℕ → (ℕ → ℕ) → ℕ × (ℕ → ℕ)
put_linked addr slice_size first_avai bytes =
    let index = (addr % 4096 + 2 ^ 16 - page_header) % 2 ^ 16 / (slice_size + 1) in
    (index % 256, update bytes addr first_avai)

unfoldable pub put_bitmap : ℕ → ℕ → ℕ → ℕ
put_bitmap addr slice_size map =
    let index = addr % 4096 / slice_size in bit_xor map (2 ^ (7 - index)) % 256

unfoldable pub is_linked_mode : ℕ → Bool
is_linked_mode slice_size = leb slice_size 256

unfoldable pub put_slice : ℕ → ℕ → ℕ → (ℕ → ℕ) → ℕ × ℕ × (ℕ → ℕ)
put_slice addr slice_size first_avai bytes =
    if is_linked_mode slice_size
    then (let (first', bytes') = put_linked addr slice_size first_avai bytes in
        (slice_count linked slice_size, first', bytes'))
    else (slice_count bitmap slice_size, put_bitmap addr slice_size first_avai, bytes)

-- The second half: an allocator with no slice in use gives up its page, and one that was full is
-- partially full again.
unfoldable pub give_up_page : ℕ → ℕ → ℕ → ℕ → Heap → Heap
give_up_page page f p i h =
    let m = h.managers p in
    let (ret, z) = physic_free page (own_page f 0 h.zone) in
    let m₁ = set_alloc i (record (m.allocs i) { target_page = none; avai_num = 0 }) m in
    record (set_manager p (relink free_list i (unlink p_full_list i m₁)) h) { zone = z }

unfoldable pub classify : ℕ → ℕ → ℕ → ℕ → ℕ → Heap → Heap
classify sum page f p i h =
    let m = h.managers p in
    if sum == (m.allocs i).avai_num
    then give_up_page page f p i h
    else (if (m.allocs i).avai_num == 1
        then set_manager p (relink p_full_list i (unlink full_list i m)) h
        else h)

-- `kfree` of a slice of allocator `i` of a manager
unfoldable pub free_at : ℕ → ℕ → ℕ → ℕ → ℕ → Heap → Heap
free_at addr page f p i h =
    let m = h.managers p in
    let a = m.allocs i in
    let (sum, first_avai, bytes) = put_slice addr m.slice_size a.first_avai h.bytes in
    let a' = record a { first_avai = first_avai; avai_num = (a.avai_num + 1) % 256 } in
    classify sum page f p i (record (set_manager p (set_alloc i a' m) h) { bytes = bytes })

-- ... which is found from the address of the allocator.
unfoldable pub free_slice : ℕ → ℕ → ℕ → ℕ → Heap → Heap
free_slice addr page f allocator h =
    free_at addr page f (manager_of allocator) (index_of allocator) h

unfoldable pub kfree : ℕ → Heap → Option Heap
kfree addr h =
    let page = (bit_and addr page_mask + 2 ^ 32 - page_offset) % 2 ^ 32 in
    let f = frame_index page h.zone in
    let allocator = (h.zone.frames f).allocator in
    if addr == 0
    then some h
    else (if allocator == 0 then none else some (free_slice addr page f allocator h))
