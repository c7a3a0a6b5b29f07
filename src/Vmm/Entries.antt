-- ===== src/Vmm/Entries.antt =====
-- The fields of a virtual address and of a page table's entry (kernel/include/kernel/vmm.h).
use chao_s_os.Prelude.{
  ℕ, ◌+◌, ◌*◌, ◌/◌, ◌%◌, ◌^◌, ◌<◌, ◌≡◌, ap, ◌∙◌, bit_and, bit_or, arith, bit_and_mask,
  bit_or_fields,
}
use chao_s_os.Buddy.Layout.{align-down}
use chao_s_os.Vmm.{pgd_index, pte_index, page_mask}

pub pgd_index-eq : (va : ℕ) → va < 2 ^ 32 → pgd_index va ≡ va / 2 ^ 22
unfolding pgd_index
pgd_index-eq va l = bit_and_mask 10 (va / 2 ^ 22) ∙ omega arith

pub pte_index-eq : (va : ℕ) → pte_index va ≡ va / 2 ^ 12 % 1024
unfolding pte_index
pte_index-eq va = bit_and_mask 10 (va / 2 ^ 12)

pub pte_index-bound : (va : ℕ) → pte_index va < 1024
pte_index-bound va = omega (arith, pte_index-eq va)

pub mask-eq : (a : ℕ) → a < 2 ^ 32 → bit_and a page_mask ≡ a / 4096 * 4096
mask-eq a l = align-down a l

-- An entry is the page's address and, below it, the flags.
pub entry-eq :
    (a flags : ℕ) → flags < 4096 → bit_or (a / 4096 * 4096) flags ≡ a / 4096 * 4096 + flags
entry-eq a flags l = bit_or_fields 12 (a / 4096) flags l

-- The mask gives back the address that an entry was made from.
pub mask-entry :
    (a flags : ℕ)
    → a < 2 ^ 32
    → flags < 4096
    → bit_and (bit_or (bit_and a page_mask) flags) page_mask ≡ a / 4096 * 4096
mask-entry a flags l f =
    let e : bit_or (bit_and a page_mask) flags ≡ a / 4096 * 4096 + flags =
      ap (λ (n : ℕ). bit_or n flags) (mask-eq a l) ∙ entry-eq a flags f in
    ap (λ (n : ℕ). bit_and n page_mask) e
    ∙ mask-eq (a / 4096 * 4096 + flags) (omega arith)
    ∙ omega arith
