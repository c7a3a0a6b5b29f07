-- ===== src/Boot/Paged.antt =====
-- What addresses mean once kernel_main_init (kernel/kernel/kernel.c) has turned paging on.
use chao_s_os.Prelude.{
  ℕ, zero, suc, ◌+◌, ◌*◌, ◌/◌, ◌%◌, ◌^◌, ◌≤◌, ◌<◌, ◌≡◌, ◌≢◌, ◌⊎◌, inl, inr, refl, ap, ◌∙◌, bit_and,
  bit_or, bit_and-one, false, some, arith, ◌==◌, update, update_self, update_other, subst,
}
use chao_s_os.Vmm.{page_present, page_offset, page_mask, pgd_index, pte_index}
use chao_s_os.Vmm.Entries.{pgd_index-eq, pte_index-eq}
use chao_s_os.Vmm.Direct.{word-eq, word-mask}
use chao_s_os.Boot.{
  pgd_tmp, pt0, pt1, present, fill_tables, kernel_main_init, physical_in, translate,
}

present-bit : (a : ℕ) → a % 4096 ≡ 0 → (bit_and (present a) page_present == 0) ≡ false
unfolding present
present-bit a e = ground (arith, word-eq a e, bit_and-one (bit_or a 3))

present-mask : (a : ℕ) → a % 4096 ≡ 0 → a + 3 < 2 ^ 32 → bit_and (present a) page_mask ≡ a
unfolding present
present-mask a e l = word-mask a e l

-- The rounds from `i` on leave every word alone that is in neither table behind it.
fill_tables-other :
    (k i : ℕ) (m : ℕ → ℕ) (a : ℕ)
    → ((j : ℕ) → i ≤ j → j < i + k → (a ≢ pt0 + 4 * j) × (a ≢ pt1 + 4 * j))
    → fill_tables k i m a ≡ m a
unfolding fill_tables
fill_tables-other zero i m a apart = refl
fill_tables-other (suc k) i m a apart =
    let word = present (i * 2 ^ 12 % 2 ^ 32) in
    let (first, second) = apart i (omega arith) (omega arith) in
    fill_tables-other k (i + 1) (update (update m (pt0 + 4 * i) word) (pt1 + 4 * i) word) a
      (λ j l u. apart j (omega arith) (omega arith))
    ∙ update_other (update m (pt0 + 4 * i) word) (pt1 + 4 * i) a word second
    ∙ update_other m (pt0 + 4 * i) a word first

-- Where the two tables have room for the rounds, entry `j` of both is page `j`.
fill_tables-entry :
    (k i j : ℕ) (m : ℕ → ℕ)
    → i ≤ j
    → j < i + k
    → i + k ≤ 1024
    → (fill_tables k i m (pt0 + 4 * j) ≡ present (j * 2 ^ 12))
      × (fill_tables k i m (pt1 + 4 * j) ≡ present (j * 2 ^ 12))
unfolding fill_tables
fill_tables-entry zero i j m l u b = absurd (omega arith)
fill_tables-entry (suc k) i j m l u b = elim (same_or_later i j l) [
  | inl e ↦
      let word = present (i * 2 ^ 12 % 2 ^ 32) in
      let m₁ = update m (pt0 + 4 * i) word in
      let m₂ = update m₁ (pt1 + 4 * i) word in
      let small : i * 2 ^ 12 % 2 ^ 32 ≡ i * 2 ^ 12 = omega arith in
      let first : fill_tables k (i + 1) m₂ (pt0 + 4 * i) ≡ present (i * 2 ^ 12) =
        fill_tables-other k (i + 1) m₂ (pt0 + 4 * i) (λ n p q. (omega arith, omega arith))
        ∙ update_other m₁ (pt1 + 4 * i) (pt0 + 4 * i) word (omega arith)
        ∙ update_self m (pt0 + 4 * i) word
        ∙ ap present small in
      let second : fill_tables k (i + 1) m₂ (pt1 + 4 * i) ≡ present (i * 2 ^ 12) =
        fill_tables-other k (i + 1) m₂ (pt1 + 4 * i) (λ n p q. (omega arith, omega arith))
        ∙ update_self m₁ (pt1 + 4 * i) word
        ∙ ap present small in
      subst
        (λ n.
          (fill_tables k (i + 1) m₂ (pt0 + 4 * n) ≡ present (n * 2 ^ 12))
          × (fill_tables k (i + 1) m₂ (pt1 + 4 * n) ≡ present (n * 2 ^ 12)))
        e (first, second)
  | inr later ↦ fill_tables-entry k (i + 1) j _ later (omega arith) (omega arith)
]
  where
    same_or_later : (i j : ℕ) → i ≤ j → (i ≡ j) ⊎ (i + 1 ≤ j)
    same_or_later i j l = omega arith

-- The walk through one present entry of the directory and one present entry of its table.
walk :
    (m : ℕ → ℕ) (va table frame : ℕ)
    → table % 4096 ≡ 0
    → table + 3 < 2 ^ 32
    → frame % 4096 ≡ 0
    → frame + 3 < 2 ^ 32
    → m (pgd_tmp + 4 * pgd_index va) ≡ present table
    → m (table + 4 * pte_index va) ≡ present frame
    → translate pgd_tmp m va ≡ some (frame + va % 2 ^ 12)
unfolding translate physical_in
walk m va table frame t u g h d e =
    rw
      (
        d,
        present-bit table t,
        present-mask table t u,
        e,
        present-bit frame g,
        present-mask frame g h,
      )
      refl

top-index : pgd_index page_offset ≡ 768
top-index = pgd_index-eq page_offset (omega arith)

-- The words of the directory that the two halves of the kernel's addresses use.
module _ (m : ℕ → ℕ) where
  abbrev with_directory : ℕ → ℕ
  with_directory =
      update (update m (pgd_tmp + 4 * 0) (present pt0)) (pgd_tmp + 4 * pgd_index page_offset)
        (present pt1)

  directory_low : fill_tables 1024 0 with_directory (pgd_tmp + 4 * 0) ≡ present pt0
  directory_low =
      fill_tables-other 1024 0 with_directory (pgd_tmp + 4 * 0)
        (λ n p q. (omega arith, omega arith))
      ∙ update_other (update m (pgd_tmp + 4 * 0) (present pt0))
          (pgd_tmp + 4 * pgd_index page_offset) (pgd_tmp + 4 * 0) (present pt1)
          (omega (arith, top-index))
      ∙ update_self m (pgd_tmp + 4 * 0) (present pt0)

  directory_high :
      fill_tables 1024 0 with_directory (pgd_tmp + 4 * pgd_index page_offset) ≡ present pt1
  directory_high =
      fill_tables-other 1024 0 with_directory (pgd_tmp + 4 * pgd_index page_offset)
        (λ n p q. (omega (arith, top-index), omega (arith, top-index)))
      ∙ update_self (update m (pgd_tmp + 4 * 0) (present pt0)) (pgd_tmp + 4 * pgd_index page_offset)
          (present pt1)

-- Once kernel_main_init loads CR3, whatever memory held before, each of the first 4 MiB of
-- physical memory is reached at its own address and at PAGE_OFFSET beyond it.
pub kernel_main_init-translate :
    (m : ℕ → ℕ) (x : ℕ)
    → x < 2 ^ 22
    → (translate pgd_tmp (kernel_main_init m) x ≡ some x)
      × (translate pgd_tmp (kernel_main_init m) (page_offset + x) ≡ some x)
unfolding kernel_main_init
kernel_main_init-translate m x l =
    let j = x / 4096 in
    let m₂ = with_directory m in
    let low : pgd_index x ≡ 0 = pgd_index-eq x (omega arith) ∙ omega arith in
    let high : pgd_index (page_offset + x) ≡ pgd_index page_offset =
      pgd_index-eq (page_offset + x) (omega arith) ∙ omega (arith, top-index) in
    let column : pte_index x ≡ j = pte_index-eq x ∙ omega arith in
    let column' : pte_index (page_offset + x) ≡ j = pte_index-eq (page_offset + x) ∙ omega arith in
    let rows = fill_tables-entry 1024 0 j m₂ (omega arith) (omega arith) (omega arith) in
    let d : fill_tables 1024 0 m₂ (pgd_tmp + 4 * pgd_index x) ≡ present pt0 =
      ap (λ n. fill_tables 1024 0 m₂ (pgd_tmp + 4 * n)) low ∙ directory_low m in
    let d' : fill_tables 1024 0 m₂ (pgd_tmp + 4 * pgd_index (page_offset + x)) ≡ present pt1 =
      ap (λ n. fill_tables 1024 0 m₂ (pgd_tmp + 4 * n)) high ∙ directory_high m in
    let whole : j * 2 ^ 12 + x % 2 ^ 12 ≡ x = omega arith in
    let whole' : j * 2 ^ 12 + (page_offset + x) % 2 ^ 12 ≡ x = omega arith in
    (
      walk (fill_tables 1024 0 m₂) x pt0 (j * 2 ^ 12) refl (omega arith) (omega arith) (omega arith)
            d (ap (λ n. fill_tables 1024 0 m₂ (pt0 + 4 * n)) column ∙ rows.0)
          ∙ ap some whole,
      walk (fill_tables 1024 0 m₂) (page_offset + x) pt1 (j * 2 ^ 12) refl (omega arith)
            (omega arith) (omega arith) d'
            (ap (λ n. fill_tables 1024 0 m₂ (pt1 + 4 * n)) column' ∙ rows.1)
          ∙ ap some whole',
    )
