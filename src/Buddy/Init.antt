-- ===== src/Buddy/Init.antt =====
-- `init_normal_mem_zone` (kernel/kernel/pmm.c): the memory map of the boot loader, the layout of the
-- zone behind the kernel, and the first free blocks.
use chao_s_os.Prelude.{
  ℕ, zero, suc, ◌+◌, ◌-◌, ◌*◌, ◌/◌, ◌%◌, ◌^◌, bit_and, ◌&&◌, List, [], ◌∷◌, ◌==◌, ltb,
  if◌then◌else◌,
}
use chao_s_os.Buddy.{
  Zone, max_level, page_frame_size, frame_bytes, allocated, block_head, set_list, set_flags,
  set_level, set_next, set_prev,
}

-- `mmap_entry_t`
pub record MmapEntry : Type 0 where
  pub base_addr_low : ℕ
  pub base_addr_high : ℕ
  pub length_low : ℕ
  pub length_high : ℕ
  pub kind : ℕ

-- Where the zone begins, and how many frames it has.
pub record Sizes : Type 0 where
  pub table : ℕ
  pub mem_base : ℕ
  pub frames_number : ℕ

abbrev pub align_mask : ℕ
align_mask = 0xFFFFF000

-- The arithmetic of the branch, in 32 bits: `region_base` and `region_length` are what the entry
-- says, and `kernel_end` is the physical address of the linker's symbol.
unfoldable pub sizes : ℕ → ℕ → ℕ → Sizes
sizes region_base region_length kernel_end =
    let end_addr = (region_base + region_length) % 2 ^ 32 in
    let length = (end_addr + 2 ^ 32 - kernel_end) % 2 ^ 32 in
    let frames_number = (length / (page_frame_size + frame_bytes) + 2 ^ 32 - 1) % 2 ^ 32 in
    let mem_base = (kernel_end + frames_number * frame_bytes) % 2 ^ 32 in
    record {
      table = kernel_end;
      mem_base = bit_and ((mem_base + 0xFFF) % 2 ^ 32) align_mask;
      frames_number = frames_number;
    }

-- `(high << 16) + low`
abbrev pub joined : ℕ → ℕ → ℕ
joined high low = (high * 2 ^ 16 + low) % 2 ^ 32

-- The first loop: every frame starts out as allocated and in no list.
unfoldable pub blank_zone : Sizes → Zone
blank_zone s = record {
  base = s.mem_base;
  length = s.frames_number * page_frame_size % 2 ^ 32;
  frames_number = s.frames_number;
  free_lists = λ level. s.frames_number;
  frames = λ i. record {
    flags = allocated;
    level = 0;
    index = i;
    next_frame = s.frames_number;
    prev_frame = s.frames_number;
    physic_addr = (s.mem_base + i * page_frame_size) % 2 ^ 32;
    allocator = 0;
  };
}

-- `while (i > frames_number - block_page_size)`, with `block_page_size` as the power of two of
-- `block_level`; the difference wraps in 32 bits.
unfoldable pub shrink : ℕ → ℕ → ℕ → ℕ
shrink n i zero = 0
shrink n i (suc level) =
    let rest = shrink n i level in
    if ltb ((n + 2 ^ 32 - 2 ^ suc level) % 2 ^ 32) i then rest else suc level

-- The body of the second loop behind it: one free block at `i`.
unfoldable pub add_block : ℕ → ℕ → Zone → Zone
add_block level i z =
    let z₁ = set_level i level (set_flags i block_head z) in
    let head = z₁.free_lists level in
    let z₂ = set_prev head i (set_next i head z₁) in set_list level i z₂

-- The second loop, from index `i` and with `level` as `block_level`; each round takes at least one
-- frame. The blocks are listed beside it.
unfoldable pub carve : ℕ → ℕ → ℕ → ℕ → List (ℕ × ℕ)
carve zero n i level = []
carve (suc f) n i level =
    let smaller = shrink n i level in
    let rest = carve f n (i + 2 ^ smaller) smaller in if ltb i n then (i, smaller) ∷ rest else []

unfoldable pub add_blocks : List (ℕ × ℕ) → Zone → Zone
unfolding add_block
add_blocks [] z = z
add_blocks ((i, level) ∷ blocks) z = add_blocks blocks (add_block level i z)

abbrev pub blocks_of : ℕ → List (ℕ × ℕ)
blocks_of n = carve (suc n) n 0 (max_level - 1)

unfoldable pub zone_of : Sizes → Zone
unfolding add_blocks blank_zone carve shrink
zone_of s = add_blocks (blocks_of s.frames_number) (blank_zone s)

-- The loop over the memory map: the first entry at 1 MiB that is available sets the zone up.
unfoldable pub init_normal_mem_zone : ℕ → List MmapEntry → Zone → Zone
unfolding zone_of sizes
init_normal_mem_zone kernel_end [] z = z
init_normal_mem_zone kernel_end (e ∷ entries) z =
    let rest = init_normal_mem_zone kernel_end entries z in
    if e.base_addr_low == 0x100000 && e.kind == 1
    then zone_of (
        sizes (joined e.base_addr_high e.base_addr_low) (joined e.length_high e.length_low)
          kernel_end)
    else rest
