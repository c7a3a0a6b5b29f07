-- ===== src/Buddy/Layout.antt =====
-- The memory zone that `init_normal_mem_zone` (kernel/kernel/pmm.c) lays out.
use chao_s_os.Prelude.{
  ℕ, ◌+◌, ◌-◌, ◌*◌, ◌/◌, ◌%◌, ◌^◌, ◌≤◌, ◌<◌, ◌≡◌, ap, sym, subst, ◌∙◌, bit_and, arith,
  bit_and_fields, bit_and_mask,
}
use chao_s_os.Buddy.{page_frame_size, frame_bytes}
use chao_s_os.Buddy.Init.{sizes, align_mask}

-- ALIGN_MASK rounds a 32-bit address down to a multiple of the frame size.
pub align-down : (a : ℕ) → a < 2 ^ 32 → bit_and a align_mask ≡ a / 4096 * 4096
align-down a l =
    let q = a / 4096 in
    let r = a % 4096 in
    let whole : a ≡ q * 2 ^ 12 + r = omega arith in
    let top : bit_and q (2 ^ 20 - 1) ≡ q = bit_and_mask 20 q ∙ omega arith in
    ap (λ (n : ℕ). bit_and n align_mask) whole
    ∙ bit_and_fields 12 q r (2 ^ 20 - 1) (omega arith)
    ∙ ap (λ (n : ℕ). n * 2 ^ 12) top

abbrev mem_base_of : ℕ → ℕ → ℕ
mem_base_of k n = bit_and (((k + n * 22) % 2 ^ 32 + 4095) % 2 ^ 32) align_mask

mem_base-eq :
    (k n : ℕ) → k + n * 22 + 4095 < 2 ^ 32 → mem_base_of k n ≡ (k + n * 22 + 4095) / 4096 * 4096
mem_base-eq k n l =
    let e : ((k + n * 22) % 2 ^ 32 + 4095) % 2 ^ 32 ≡ k + n * 22 + 4095 = omega arith in
    ap (λ (a : ℕ). bit_and a align_mask) e ∙ align-down (k + n * 22 + 4095) l

-- The number of frames, without the wrap.
frames-eq :
    (e k : ℕ)
    → e < 2 ^ 32
    → k + 8236 ≤ e
    → ((e % 2 ^ 32 + 2 ^ 32 - k) % 2 ^ 32 / 4118 + 2 ^ 32 - 1) % 2 ^ 32 ≡ (e - k) / 4118 - 1
frames-eq e k l room =
    let d : (e % 2 ^ 32 + 2 ^ 32 - k) % 2 ^ 32 ≡ e - k = omega arith in
    let q : (e % 2 ^ 32 + 2 ^ 32 - k) % 2 ^ 32 / 4118 ≡ (e - k) / 4118 = ap (λ t. t / 4118) d in
    omega arith

-- Where the available region ends behind the kernel, below 4 GiB, and has room for two frames, the
-- zone is aligned, begins behind the table of frames, has at least one frame, and every frame of it
-- lies inside the region.
pub sizes-fit :
    (region_base region_length kernel_end : ℕ)
    → region_base + region_length < 2 ^ 32
    → kernel_end + 2 * (page_frame_size + frame_bytes) ≤ region_base + region_length
    → let s = sizes region_base region_length kernel_end in
      (s.mem_base % page_frame_size ≡ 0)
      × (kernel_end + s.frames_number * frame_bytes ≤ s.mem_base)
      × (0 < s.frames_number)
      × (s.mem_base + s.frames_number * page_frame_size ≤ region_base + region_length)
unfolding sizes
sizes-fit b l k wraps room =
    subst
      (λ n.
        (mem_base_of k n % 4096 ≡ 0)
        × (k + n * 22 ≤ mem_base_of k n)
        × (0 < n)
        × (mem_base_of k n + n * 4096 ≤ b + l))
      (sym (frames-eq (b + l) k wraps room))
      (omega (arith, at_n), omega (arith, at_n), omega arith, omega (arith, at_n))
  where
    at_n :
        mem_base_of k ((b + l - k) / 4118 - 1)
        ≡ (k + ((b + l - k) / 4118 - 1) * 22 + 4095) / 4096 * 4096
    at_n = mem_base-eq k ((b + l - k) / 4118 - 1) (omega arith)
