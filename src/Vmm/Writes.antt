-- ===== src/Vmm/Writes.antt =====
-- What the writing of an entry and a new table do to the mappings (kernel/kernel/vmm.c).
use chao_s_os.Prelude.{
  ℕ, ◌+◌, ◌*◌, ◌/◌, ◌^◌, ◌<◌, ◌≡◌, ◌≢◌, ◌⊎◌, inl, inr, refl, ap, sym, subst, ◌∙◌, bit_and, bit_or,
  true, false, Bool-cases, none, some, arith, ◌==◌, if◌then◌else◌,
}
use chao_s_os.Buddy.{Zone, physic_alloc}
use chao_s_os.Vmm.{
  Paging, pgd_index, pte_index, page_mask, table_of, clear_table, set_entry, new_table, get_mapping,
  size_of_page_size, entry,
}
use chao_s_os.Vmm.Entries.{mask-eq, entry-eq, mask-entry, pte_index-bound}
use chao_s_os.Vmm.Tables.{
  IsPage, IsValid, table_of-IsPage, entries_apart, same_directory, get_mapping-set_entry, Separate,
}

-- What `map` promises, for an entry in `table`.
pub record Maps (va pa table : ℕ) (p p' : Paging) : Type 0 where
  pub here : get_mapping va p' ≡ some (pa / 4096 * 4096)
  pub others : (va' : ℕ) → Separate va va' table p → get_mapping va' p' ≡ get_mapping va' p

-- `map` finds a table in the directory, or gets a page for one.
unfoldable pub Ready : ℕ → ℕ → Paging → Type 0
Ready va table p =
    ((table_of va p ≢ 0) × (table ≡ table_of va p))
    ⊎ ((table_of va p ≡ 0)
        × (z : Zone) × (physic_alloc size_of_page_size p.zone ≡ some (table, z))
        × IsPage table
        × (table ≢ 0))

pub set_entry-other :
    (va' table i v : ℕ) (p : Paging)
    → entry (table_of va' p) (pte_index va') ≢ entry table i
    → get_mapping va' (set_entry table i v p) ≡ get_mapping va' p
unfolding set_entry
set_entry-other va' table i v p n = same_directory va' p (set_entry table i v p) refl (ground arith)

pgd_table :
    (va va' : ℕ) (p : Paging) → pgd_index va' ≡ pgd_index va → table_of va' p ≡ table_of va p
unfolding table_of
pgd_table va va' p e = ap (λ (i : ℕ). bit_and (p.directory i) page_mask) e

word-eq :
    (pa flags : ℕ)
    → pa < 2 ^ 32
    → flags < 4096
    → 0 < flags
    → bit_or (bit_and pa page_mask) flags ≢ 0
word-eq pa flags l f s e =
    omega (arith, e, ap (λ (n : ℕ). bit_or n flags) (mask-eq pa l) ∙ entry-eq pa flags f)

pub set_entry-Maps :
    (va pa flags table : ℕ) (p : Paging)
    → IsValid p
    → table_of va p ≡ table
    → table ≢ 0
    → pa < 2 ^ 32
    → flags < 4096
    → 0 < flags
    → Maps va pa table p (set_entry table (pte_index va) (bit_or (bit_and pa page_mask) flags) p)
unfolding Separate
set_entry-Maps va pa flags table p v t n l f s = record {
  here =
      get_mapping-set_entry va (bit_or (bit_and pa page_mask) flags) table p t n
        (word-eq pa flags l f s)
      ∙ ap some (mask-entry pa flags l f);
  others = λ va' o.
      set_entry-other va' table (pte_index va) (bit_or (bit_and pa page_mask) flags) p (
        subst (λ h. entry (table_of va' p) (pte_index va') ≢ entry h (pte_index va)) t
          (entries_apart (table_of va' p) (table_of va p) (pte_index va') (pte_index va)
            (table_of-IsPage va' p v) (table_of-IsPage va p v) (pte_index-bound va')
            (pte_index-bound va) (apart va' o)));
}
  where
    apart :
        (va' : ℕ)
        → Separate va va' table p
        → (table_of va' p ≢ table_of va p) ⊎ (pte_index va' ≢ pte_index va)
    apart va' (inl (e, d)) = inr d
    apart va' (inr (e, d)) = inl (λ same. d (same ∙ t))

pub table_of-new_table :
    (va table flags : ℕ) (z : Zone) (p : Paging)
    → IsPage table
    → flags < 4096
    → table_of va (new_table (pgd_index va) table flags z p) ≡ table
unfolding table_of new_table IsPage
table_of-new_table va table flags z p (b, a) f =
    let i = pgd_index va in
    let own : (if i == i then bit_or table flags else p.directory i) ≡ bit_or table flags =
      ground arith in
    let whole : table / 4096 * 4096 ≡ table = omega arith in
    let word : bit_or table flags ≡ table + flags =
      ap (λ (n : ℕ). bit_or n flags) (sym whole) ∙ entry-eq table flags f ∙ omega arith in
    ap (λ (n : ℕ). bit_and n page_mask) (own ∙ word)
    ∙ mask-eq (table + flags) (omega arith)
    ∙ omega arith

new_table-IsValid :
    (i table flags : ℕ) (z : Zone) (p : Paging)
    → IsPage table
    → flags < 4096
    → IsValid p
    → IsValid (new_table i table flags z p)
unfolding IsValid new_table IsPage
new_table-IsValid i table flags z p (b, a) f v j =
    let whole : table / 4096 * 4096 ≡ table = omega arith in
    let word : bit_or table flags ≡ table + flags =
      ap (λ (n : ℕ). bit_or n flags) (sym whole) ∙ entry-eq table flags f ∙ omega arith in
    let old = v j in
    elim (Bool-cases (j == i)) [ inl y ↦ rw y (omega (arith, word)) | inr n ↦ rw n old ]

cleared :
    (t table i : ℕ) (m : ℕ → ℕ)
    → IsPage t
    → IsPage table
    → i < 1024
    → t ≢ table
    → clear_table table m (entry t i) ≡ m (entry t i)
unfolding clear_table IsPage
cleared t table i m (a, b) (c, d) l n = ground arith

pub zero-IsPage : IsPage 0
unfolding IsPage
zero-IsPage = (omega arith, refl)

table_of-other :
    (va va' table flags : ℕ) (z : Zone) (p : Paging)
    → pgd_index va' ≢ pgd_index va
    → table_of va' (new_table (pgd_index va) table flags z p) ≡ table_of va' p
unfolding table_of new_table
table_of-other va va' table flags z p n =
    let other : (pgd_index va' == pgd_index va) ≡ false = ground arith in rw other refl

pub get_mapping-none : (va : ℕ) (p : Paging) → table_of va p ≡ 0 → get_mapping va p ≡ none
unfolding get_mapping
get_mapping-none va p e = let z : (table_of va p == 0) ≡ true = ground arith in rw z refl

pub get_mapping-unset :
    (va : ℕ) (p : Paging)
    → p.memory (entry (table_of va p) (pte_index va)) ≡ 0
    → get_mapping va p ≡ none
unfolding get_mapping
get_mapping-unset va p e = elim (Bool-cases (table_of va p == 0)) [
  | inl y ↦ rw y refl
  | inr n ↦
      let z : (p.memory (entry (table_of va p) (pte_index va)) == 0) ≡ true = ground arith in
      rw (n, z) refl
]

cleared_own : (table i : ℕ) (m : ℕ → ℕ) → i < 1024 → clear_table table m (entry table i) ≡ 0
unfolding clear_table
cleared_own table i m l = ground arith

new_table-memory :
    (i table flags : ℕ) (z : Zone) (p : Paging) (a : ℕ)
    → (new_table i table flags z p).memory a ≡ clear_table table p.memory a
unfolding new_table
new_table-memory i table flags z p a = refl

new_table-directory :
    (i j table flags : ℕ) (z : Zone) (p : Paging)
    → j ≢ i
    → (new_table i table flags z p).directory j ≡ p.directory j
unfolding new_table
new_table-directory i j table flags z p n = ground arith

-- A new table maps no address, and takes no mapping away.
new_table-get_mapping :
    (va va' table flags : ℕ) (z : Zone) (p : Paging)
    → IsValid p
    → IsPage table
    → flags < 4096
    → table_of va p ≡ 0
    → Separate va va' table p
    → get_mapping va' (new_table (pgd_index va) table flags z p) ≡ get_mapping va' p
unfolding Separate
new_table-get_mapping va va' table flags z p v a f e (inl (same, d)) =
    let p₁ = new_table (pgd_index va) table flags z p in
    let t : table_of va' p₁ ≡ table =
      pgd_table va va' p₁ same ∙ table_of-new_table va table flags z p a f in
    let word : p₁.memory (entry (table_of va' p₁) (pte_index va')) ≡ 0 =
      ap (λ (h : ℕ). p₁.memory (entry h (pte_index va'))) t
      ∙ new_table-memory (pgd_index va) table flags z p (entry table (pte_index va'))
      ∙ cleared_own table (pte_index va') p.memory (pte_index-bound va') in
    get_mapping-unset va' p₁ word ∙ sym (get_mapping-none va' p (pgd_table va va' p same ∙ e))
new_table-get_mapping va va' table flags z p v a f e (inr (n, d)) =
    same_directory va' p (new_table (pgd_index va) table flags z p)
      (new_table-directory (pgd_index va) (pgd_index va') table flags z p n)
      (new_table-memory (pgd_index va) table flags z p (entry (table_of va' p) (pte_index va'))
        ∙ cleared (table_of va' p) table (pte_index va') p.memory (table_of-IsPage va' p v) a
            (pte_index-bound va') d)

pub new_table-Maps :
    (va pa flags table : ℕ) (z : Zone) (p : Paging)
    → IsValid p
    → IsPage table
    → table ≢ 0
    → table_of va p ≡ 0
    → pa < 2 ^ 32
    → flags < 4096
    → 0 < flags
    → Maps va pa table p (
        set_entry table
          (pte_index va)
          (bit_or (bit_and pa page_mask) flags)
          (new_table (pgd_index va) table flags z p))
unfolding Separate
new_table-Maps va pa flags table z p v a n e l f s =
    let p₁ = new_table (pgd_index va) table flags z p in
    let maps =
      set_entry-Maps va pa flags table p₁ (new_table-IsValid (pgd_index va) table flags z p a f v)
        (table_of-new_table va table flags z p a f) n l f s in
    record {
      here = maps.here;
      others = λ va' o.
          maps.others va' (carried va' o) ∙ new_table-get_mapping va va' table flags z p v a f e o;
    }
  where
    carried :
        (va' : ℕ)
        → Separate va va' table p
        → Separate va va' table (new_table (pgd_index va) table flags z p)
    carried va' (inl o) = inl o
    carried va' (inr (d, m)) =
        inr (d, subst (λ h. h ≢ table) (sym (table_of-other va va' table flags z p d)) m)
