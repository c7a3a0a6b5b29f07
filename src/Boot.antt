-- ===== src/Boot.antt =====
-- kernel/kernel/kernel.c: the page tables with which the kernel turns paging on, before it runs at its
-- own addresses. Physical memory is a map from the addresses of words. Loading CR3 and CR0 and moving
-- the stack are assembler, and the calls behind it are those of the other modules.
pub mod Paged
pub mod Start
mod Tests
use chao_s_os.Prelude.{
  ℕ, zero, suc, ◌+◌, ◌*◌, ◌/◌, ◌%◌, ◌^◌, bit_and, bit_or, Option, none, some, ◌==◌, if◌then◌else◌,
  update,
}
use chao_s_os.Vmm.{page_present, page_write, page_offset, page_mask, pgd_index, pte_index}

-- The addresses of the directory and of its two tables
abbrev pub pgd_tmp : ℕ
pgd_tmp = 0x1000

abbrev pub pt0 : ℕ
pt0 = 0x2000

abbrev pub pt1 : ℕ
pt1 = 0x3000

-- `x | PAGE_PRESENT | PAGE_WRITE`, with the flags joined first
unfoldable pub present : ℕ → ℕ
present x = bit_or x (bit_or page_present page_write)

-- The loop that fills both tables, `k` rounds before its end
unfoldable pub fill_tables : ℕ → ℕ → (ℕ → ℕ) → ℕ → ℕ
fill_tables zero i m = m
fill_tables (suc k) i m =
    let word = present (i * 2 ^ 12 % 2 ^ 32) in
    fill_tables k (i + 1) (update (update m (pt0 + 4 * i) word) (pt1 + 4 * i) word)

-- The memory that kernel_main_init leaves when it loads CR3.
unfoldable pub kernel_main_init : (ℕ → ℕ) → ℕ → ℕ
kernel_main_init m =
    let m₁ = update m (pgd_tmp + 4 * 0) (present pt0) in
    fill_tables 1024 0 (update m₁ (pgd_tmp + 4 * pgd_index page_offset) (present pt1))

-- The processor's walk of two levels, from the directory at `cr3`: the physical address of a virtual
-- one, or none for a page fault.
unfoldable pub physical_in : ℕ → ℕ → Option ℕ
physical_in word va =
    if bit_and word page_present == 0 then none else some (bit_and word page_mask + va % 2 ^ 12)

unfoldable pub translate : ℕ → (ℕ → ℕ) → ℕ → Option ℕ
translate cr3 m va =
    let directory_word = m (cr3 + 4 * pgd_index va) in
    if bit_and directory_word page_present == 0
    then none
    else physical_in (m (bit_and directory_word page_mask + 4 * pte_index va)) va
