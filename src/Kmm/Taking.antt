-- ===== src/Kmm/Taking.antt =====
-- The slices of a page in linked mode (kernel/kernel/kmm.c), taken one after the other.
use chao_s_os.Prelude.{ℕ, zero, suc, ◌+◌, ◌*◌, ◌/◌, ◌%◌, ◌^◌, ◌≤◌, ◌<◌, ◌≡◌, refl, ◌∙◌, arith, ◌==◌}
use native.Mathlib.Nat.{mod-eq_of_lt, mul-le-mul_left, div-mul-le_self, div-add-mod', mod-lt}
use chao_s_os.Buddy.{page_frame_size}
use chao_s_os.Kmm.{take_linked, init_linked_page, page_header, Taken, linked, slice_count}
use chao_s_os.Kmm.Slices.{place, FreeSlices, is_empty, take_linked-FreeSlices}
use chao_s_os.Kmm.Laying.{Fills, from, from-∉, place-fits, init_linked_page-FreeSlices}

-- get_slice_addr, after it has been called `n` times before
unfoldable pub take_nth : ℕ → ℕ → ℕ → ℕ → (ℕ → ℕ) → Taken
take_nth zero page s first bytes = take_linked page s first bytes
take_nth (suc n) page s first bytes =
    let t = take_linked page s first bytes in take_nth n page s t.first_avai t.bytes

-- The three parts of the count: with the sizes of linked mode it needs no wrap-around.
slice_count-Fills : (s : ℕ) → 16 ≤ s → s ≤ 256 → Fills s (slice_count linked s)
unfolding slice_count
slice_count-Fills s l u =
    let q = 4092 / (s + 1) in
    let fits : q * (s + 1) ≤ 4092 = div-mul-le_self 4092 (s + 1) in
    let rest = div-add-mod' 4092 (s + 1) in
    let low : 4092 % (s + 1) < s + 1 = mod-lt 4092 (omega arith) in
    let few : q * 17 ≤ q * (s + 1) = mul-le-mul_left q (omega (arith, l)) in
    let byte : q % 256 ≡ q = mod-eq_of_lt (omega (arith, few, fits)) in
    rw (byte)
      (record { fits = fits; tight = omega (arith, rest, low); few = omega (arith, few, fits) })

from-is_empty : (k i : ℕ) → is_empty (from k i) ≡ (0 == k)
from-is_empty zero i = refl
from-is_empty (suc k) i = ground arith

take_nth-from :
    (n k page s i first c : ℕ) (bytes : ℕ → ℕ)
    → Fills s c
    → 0 < s
    → suc k + i ≡ c
    → page + page_frame_size ≤ 2 ^ 32
    → n ≤ k
    → FreeSlices bytes page s first (from (suc k) i)
    → let t = take_nth n page s first bytes in
      (t.addr ≡ place page s (i + n) + 1) × (t.is_last ≡ (n == k))
unfolding take_nth
take_nth-from zero k page s i first c bytes f p e b l h =
    let in_page = place-fits page s i c f (omega (arith, e)) in
    let (addr, is_last, rest) =
      take_linked-FreeSlices bytes page s first i (from k (i + 1)) (omega (arith, in_page, b, p))
        (from-∉ k (i + 1) i (omega arith)) h in
    (rw (addr) omega arith, is_last ∙ from-is_empty k (i + 1))
take_nth-from (suc n) zero page s i first c bytes f p e b l h = absurd (omega (arith, l))
take_nth-from (suc n) (suc k) page s i first c bytes f p e b l h =
    let in_page = place-fits page s i c f (omega (arith, e)) in
    let (addr, is_last, rest) =
      take_linked-FreeSlices bytes page s first i (from (suc k) (i + 1))
        (omega (arith, in_page, b, p)) (from-∉ (suc k) (i + 1) i (omega arith)) h in
    let (addr', is_last') =
      take_nth-from n k page s (i + 1) _ c _ f p (omega (arith, e)) b (omega (arith, l)) rest in
    (addr' ∙ omega arith, is_last' ∙ ground arith)

init-take_nth :
    (allocator page s n c : ℕ) (bytes : ℕ → ℕ)
    → Fills s c
    → 0 < s
    → page + page_frame_size ≤ 2 ^ 32
    → n < c
    → let t = take_nth n page s 0 (init_linked_page allocator page s bytes) in
      (t.addr ≡ page + page_header + n * (s + 1) + 1)
      × (t.addr + s ≤ page + page_frame_size)
      × (t.is_last ≡ (suc n == c))
init-take_nth allocator page s n zero bytes f p b m = absurd (omega (arith, m))
init-take_nth allocator page s n (suc k) bytes f p b m =
    let free = init_linked_page-FreeSlices allocator page s (suc k) bytes f (omega arith) in
    let (addr, is_last) =
      take_nth-from n k page s 0 0 (suc k) _ f p (omega arith) b (omega (arith, m)) free in
    (
      addr ∙ omega arith,
      omega (arith, addr, place-fits page s n (suc k) f m),
      is_last ∙ ground arith,
    )

-- In a page that init_linked_page has laid out for a slice size from 16 to 256, and that ends
-- below 4 GiB, the slices that get_slice_addr takes one after the other are the slices of the page
-- in order, each inside the page, as many as kmalloc counts, and exactly the last one is reported
-- as such.
pub init_linked_page-take_nth :
    (allocator page s n : ℕ) (bytes : ℕ → ℕ)
    → 16 ≤ s
    → s ≤ 256
    → page + page_frame_size ≤ 2 ^ 32
    → n < slice_count linked s
    → let t = take_nth n page s 0 (init_linked_page allocator page s bytes) in
      (t.addr ≡ page + page_header + n * (s + 1) + 1)
      × (t.addr + s ≤ page + page_frame_size)
      × (t.is_last ≡ (suc n == slice_count linked s))
init_linked_page-take_nth allocator page s n bytes l u b m =
    init-take_nth allocator page s n _ bytes (slice_count-Fills s l u) (omega (arith, l)) b m
