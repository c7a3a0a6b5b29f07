-- ===== src/Vmm/Mapping.antt =====
-- `map`, `unmap` and `get_mapping` (kernel/kernel/vmm.c).
use chao_s_os.Prelude.{
  ℕ, ◌+◌, ◌^◌, ◌≤◌, ◌<◌, ◌≡◌, ◌≢◌, ◌⊎◌, inl, inr, refl, sym, subst, bit_and, bit_or, true, false,
  Bool-cases, none, some, arith, ◌==◌,
}
use chao_s_os.Buddy.{Zone, physic_alloc}
use chao_s_os.Vmm.{
  Paging, pgd_index, pte_index, page_mask, table_of, clear_table, set_entry, new_table, map, unmap,
  get_mapping, size_of_page_size, entry, page_offset, page_size,
}
use chao_s_os.Vmm.Entries.{pte_index-bound}
use chao_s_os.Vmm.Tables.{IsValid, table_of-IsPage, entries_apart, Separate}
use chao_s_os.Vmm.Writes.{
  Ready, set_entry-other, set_entry-Maps, table_of-new_table, zero-IsPage, get_mapping-none,
  get_mapping-unset, new_table-Maps, Maps,
}

-- `map` of a 32-bit physical address with some flags below 4096 set, when the directory has a table for
-- the virtual address or `physic_alloc` returns a page other than 0 for one: it ends, get_mapping then
-- finds the physical address's page at the virtual address, and finds what it found before at every
-- virtual address with another entry.
pub map-Maps :
    (va pa flags table : ℕ) (p : Paging)
    → IsValid p
    → Ready va table p
    → pa < 2 ^ 32
    → flags < 4096
    → 0 < flags
    → (p' : Paging) × (map va pa flags p ≡ some p') × Maps va pa table p p'
unfolding map Ready
map-Maps va pa flags table p v (inl (n, same)) l f s =
    let there : (table_of va p == 0) ≡ false = ground arith in
    let w = bit_or (bit_and pa page_mask) flags in
    (
      set_entry (table_of va p) (pte_index va) w p,
      rw there refl,
      subst (λ t. Maps va pa t p (set_entry (table_of va p) (pte_index va) w p)) (sym same)
          (set_entry-Maps va pa flags (table_of va p) p v refl n l f s),
    )
map-Maps va pa flags table p v (inr (e, z, got, a, n)) l f s =
    let missing : (table_of va p == 0) ≡ true = ground arith in
    let w = bit_or (bit_and pa page_mask) flags in
    (
      set_entry table (pte_index va) w (new_table (pgd_index va) table flags z p),
      rw (missing, got) refl,
      new_table-Maps va pa flags table z p v a n e l f s,
    )

set_entry-own :
    (va : ℕ) (p : Paging)
    → let p' = set_entry (table_of va p) (pte_index va) 0 p in
      p'.memory (entry (table_of va p') (pte_index va)) ≡ 0
unfolding set_entry table_of
set_entry-own va p = ground arith

Separate-either :
    (va va' : ℕ) (p : Paging)
    → Separate va va' (table_of va p) p
    → (table_of va' p ≢ table_of va p) ⊎ (pte_index va' ≢ pte_index va)
unfolding Separate
Separate-either va va' p (inl (e, d)) = inr d
Separate-either va va' p (inr (e, d)) = inl d

-- After `unmap`, get_mapping finds nothing at the virtual address, and what it found before at every
-- virtual address with another entry.
pub unmap-get_mapping :
    (va : ℕ) (p : Paging)
    → IsValid p
    → (get_mapping va (unmap va p) ≡ none)
      × ((va' : ℕ)
          → Separate va va' (table_of va p) p
          → get_mapping va' (unmap va p) ≡ get_mapping va' p)
unfolding unmap
unmap-get_mapping va p v = elim (Bool-cases (table_of va p == 0)) [
  | inl y ↦ rw y (get_mapping-none va p (ground arith), λ va' o. refl)
  | inr n ↦ rw n (
    get_mapping-unset va (set_entry (table_of va p) (pte_index va) 0 p) (set_entry-own va p),
    λ va' o. other va' o,
  )
]
  where
    other :
        (va' : ℕ)
        → Separate va va' (table_of va p) p
        → get_mapping va' (set_entry (table_of va p) (pte_index va) 0 p) ≡ get_mapping va' p
    other va' o = set_entry-other va' (table_of va p) (pte_index va) 0 p (
        entries_apart (table_of va' p) (table_of va p) (pte_index va') (pte_index va)
          (table_of-IsPage va' p v) (table_of-IsPage va p v) (pte_index-bound va')
          (pte_index-bound va) (Separate-either va va' p o))

-- `map` where the directory has no table for the virtual address and `physic_alloc` has no frame left,
-- and returns 0: it takes the page at physical address 0 for a table and clears it, but for the one
-- entry, and get_mapping finds nothing at the virtual address afterwards.
pub map-exhausted :
    (va pa flags : ℕ) (z : Zone) (p : Paging)
    → table_of va p ≡ 0
    → physic_alloc size_of_page_size p.zone ≡ some (0, z)
    → flags < 4096
    → (p' : Paging) × (map va pa flags p ≡ some p')
      × (get_mapping va p' ≡ none)
      × ((a : ℕ)
          → page_offset ≤ a
          → a < page_offset + page_size
          → a ≢ entry 0 (pte_index va)
          → p'.memory a ≡ 0)
unfolding map new_table set_entry clear_table table_of
map-exhausted va pa flags z p e got f =
    let missing : (table_of va p == 0) ≡ true = ground arith in
    let w = bit_or (bit_and pa page_mask) flags in
    (
      set_entry 0 (pte_index va) w (new_table (pgd_index va) 0 flags z p),
      rw (missing, got) refl,
      get_mapping-none va (set_entry 0 (pte_index va) w (new_table (pgd_index va) 0 flags z p))
          (table_of-new_table va 0 flags z p zero-IsPage f),
      λ a l u n. ground arith,
    )
