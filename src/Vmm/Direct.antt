-- ===== src/Vmm/Direct.antt =====
-- The direct mapping of the kernel's memory that `init_vmm` (kernel/kernel/vmm.c) sets up.
use chao_s_os.Prelude.{
  ℕ, ◌+◌, ◌-◌, ◌*◌, ◌/◌, ◌%◌, ◌^◌, ◌≤◌, ◌<◌, ◌≡◌, refl, ap, sym, ◌∙◌, bit_and, bit_or, true, false,
  some, arith, ◌==◌, ltb, leb,
}
use chao_s_os.Vmm.{
  Paging, pgd_index, pte_index, page_mask, page_offset, table_of, get_mapping, init_table,
  init_directory, init_memory, init_vmm,
}
use chao_s_os.Vmm.Entries.{mask-eq, entry-eq, pgd_index-eq, pte_index-eq}

-- A page's word, as a sum, and its mask.
pub word-eq : (a : ℕ) → a % 4096 ≡ 0 → bit_or a 3 ≡ a + 3
word-eq a e =
    let whole : a / 4096 * 4096 ≡ a = omega arith in
    ap (λ (n : ℕ). bit_or n 3) (sym whole) ∙ entry-eq a 3 (omega arith) ∙ omega arith

pub word-mask : (a : ℕ) → a % 4096 ≡ 0 → a + 3 < 2 ^ 32 → bit_and (bit_or a 3) page_mask ≡ a
word-mask a e l =
    ap (λ (n : ℕ). bit_and n page_mask) (word-eq a e) ∙ mask-eq (a + 3) l ∙ omega arith

first-eq : pgd_index page_offset ≡ 768
first-eq = pgd_index-eq page_offset (omega arith)

-- The static tables lie in the kernel's part of the address space, at a page that is not its first.
pub record Placed (tables : ℕ) : Type 0 where
  pub aligned : tables % 4096 ≡ 0
  pub above : page_offset < tables
  pub within : tables + 224 * 4096 ≤ 2 ^ 32

directory-eq :
    (tables pt0 i : ℕ) (d : ℕ → ℕ)
    → Placed tables
    → i < 224
    → init_directory tables pt0 d (768 + i) ≡ bit_or (tables - page_offset + i * 4096) 3
unfolding init_directory
directory-eq tables pt0 i d p l =
    let aligned = p.aligned in
    let above = p.above in
    let within = p.within in
    let some_index : (768 + i == 0) ≡ false = ground arith in
    let late : ltb (768 + i) 768 ≡ false = ground arith in
    let early : ltb (768 + i) (768 + 224) ≡ true = ground arith in
    let same : (tables + (768 + i - 768) * 4096 + 2 ^ 32 - page_offset) % 2 ^ 32
        ≡ tables - page_offset + i * 4096 =
      omega arith in
    rw (first-eq, some_index, late, early, same) refl

memory-eq :
    (tables i j : ℕ) (m : ℕ → ℕ)
    → i < 224
    → j < 1024
    → init_memory tables m (tables + i * 4096 + 4 * j) ≡ init_table i j
unfolding init_memory
memory-eq tables i j m l u =
    let low : leb tables (tables + i * 4096 + 4 * j) ≡ true = ground arith in
    let high : ltb (tables + i * 4096 + 4 * j) (tables + 224 * 4096) ≡ true = ground arith in
    let row : (tables + i * 4096 + 4 * j - tables) / 4096 ≡ i = omega arith in
    let column : (tables + i * 4096 + 4 * j - tables) % 4096 / 4 ≡ j = omega arith in
    rw (low, high, row, column) refl

found :
    (tables x i j : ℕ) (p : Paging)
    → Placed tables
    → p.directory (pgd_index (page_offset + x)) ≡ bit_or (tables - page_offset + i * 4096) 3
    → pte_index (page_offset + x) ≡ j
    → p.memory (tables + i * 4096 + 4 * j) ≡ init_table i j
    → i < 224
    → j < 1024
    → get_mapping (page_offset + x) p ≡ some ((i * 1024 + j) * 4096)
unfolding get_mapping table_of init_table
found tables x i j p q d e w l u =
    let aligned = q.aligned in
    let above = q.above in
    let within = q.within in
    let t = tables - page_offset + i * 4096 in
    let masked : bit_and (bit_or t 3) page_mask ≡ t = word-mask t (omega arith) (omega arith) in
    let there : (t == 0) ≡ false = ground arith in
    let address : (t + page_offset) % 2 ^ 32 + 4 * j ≡ tables + i * 4096 + 4 * j = omega arith in
    let page : (i * 1024 + j) * 2 ^ 12 % 2 ^ 32 ≡ (i * 1024 + j) * 4096 = omega arith in
    let word : bit_or ((i * 1024 + j) * 4096) 3 ≡ (i * 1024 + j) * 4096 + 3 =
      word-eq ((i * 1024 + j) * 4096) (omega arith) in
    let set : (bit_or ((i * 1024 + j) * 4096) 3 == 0) ≡ false = ground arith in
    rw (d, masked, there, e, address, w, page, set)
      (ap some (word-mask ((i * 1024 + j) * 4096) (omega arith) (omega arith)))

-- After `init_vmm`, get_mapping finds the page of physical address x at the virtual address
-- PAGE_OFFSET + x, for every x in the 0x38000000 bytes of the kernel's normal zone.
pub init_vmm-get_mapping :
    (tables pt0 x : ℕ) (p : Paging)
    → Placed tables
    → x < 0x38000000
    → get_mapping (page_offset + x) (init_vmm tables pt0 p) ≡ some (x / 4096 * 4096)
unfolding init_vmm
init_vmm-get_mapping tables pt0 x p q l =
    let i = x / 2 ^ 22 in
    let j = x / 2 ^ 12 % 1024 in
    let index : pgd_index (page_offset + x) ≡ 768 + i =
      pgd_index-eq (page_offset + x) (omega arith) ∙ omega arith in
    let column : pte_index (page_offset + x) ≡ j = pte_index-eq (page_offset + x) ∙ omega arith in
    let whole : (i * 1024 + j) * 4096 ≡ x / 4096 * 4096 = omega arith in
    found tables x i j (init_vmm tables pt0 p) q
      (ap (init_directory tables pt0 p.directory) index
        ∙ directory-eq tables pt0 i p.directory q (omega arith))
      column (memory-eq tables i j p.memory (omega arith) (omega arith)) (omega arith) (omega arith)
    ∙ ap some whole
