-- ===== src/Vmm/Tables.antt =====
-- Page tables and their entries (kernel/kernel/vmm.c): which words an entry stands in, and what a new table is.
use chao_s_os.Prelude.{
  ℕ, ◌%◌, ◌^◌, ◌<◌, ◌≡◌, ◌≢◌, ◌⊎◌, refl, bit_and, false, some, arith, ◌==◌, if◌then◌else◌,
}
use chao_s_os.Vmm.{Paging, pgd_index, pte_index, page_mask, table_of, set_entry, get_mapping, entry}
use chao_s_os.Vmm.Entries.{mask-eq}

-- The address of a page.
unfoldable pub IsPage : ℕ → Type 0
IsPage a = (a < 2 ^ 32) × (a % 4096 ≡ 0)

-- The directory's entries are 32-bit words.
unfoldable pub IsValid : Paging → Type 0
IsValid p = (i : ℕ) → p.directory i < 2 ^ 32

pub table_of-IsPage : (va : ℕ) (p : Paging) → IsValid p → IsPage (table_of va p)
unfolding table_of IsPage IsValid
table_of-IsPage va p v =
    let e = mask-eq (p.directory (pgd_index va)) (v (pgd_index va)) in
    let bound = v (pgd_index va) in (omega (arith, e), omega (arith, e))

pub entries_apart :
    (t t' i i' : ℕ)
    → IsPage t
    → IsPage t'
    → i < 1024
    → i' < 1024
    → (t ≢ t') ⊎ (i ≢ i')
    → entry t i ≢ entry t' i'
unfolding IsPage
entries_apart t t' i i' (a, b) (c, d) l l' o e = omega (arith, e, a, b, c, d)

pub same_directory :
    (va' : ℕ) (p p' : Paging)
    → p'.directory (pgd_index va') ≡ p.directory (pgd_index va')
    → p'.memory (entry (table_of va' p) (pte_index va'))
      ≡ p.memory (entry (table_of va' p) (pte_index va'))
    → get_mapping va' p' ≡ get_mapping va' p
unfolding get_mapping table_of
same_directory va' p p' d m = rw (d, m) refl

pub get_mapping-set_entry :
    (va v table : ℕ) (p : Paging)
    → table_of va p ≡ table
    → table ≢ 0
    → v ≢ 0
    → get_mapping va (set_entry table (pte_index va) v p) ≡ some (bit_and v page_mask)
unfolding get_mapping set_entry table_of
get_mapping-set_entry va v table p e n w =
    let there : (table == 0) ≡ false = ground arith in
    let stored : (if entry table (pte_index va) == entry table (pte_index va)
          then v
          else p.memory (entry table (pte_index va)))
        ≡ v =
      ground arith in
    let word : (v == 0) ≡ false = ground arith in rw (e, there, stored, word) refl

-- An address whose entry is another one: another entry of the same table, or an entry of a table that
-- is not `table`.
unfoldable pub Separate : ℕ → ℕ → ℕ → Paging → Type 0
Separate va va' table p =
    ((pgd_index va' ≡ pgd_index va) × (pte_index va' ≢ pte_index va))
    ⊎ ((pgd_index va' ≢ pgd_index va) × (table_of va' p ≢ table))
