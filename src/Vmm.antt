-- ===== src/Vmm.antt =====
-- kernel/kernel/vmm.c and kernel/include/kernel/vmm.h: page directories and page tables. A page table
-- is read and written through its address above PAGE_OFFSET; memory is a map from the addresses of
-- words. The directory is taken not to overlap with the page tables. Writing CR3 and `invlpg`, which
-- change no memory, have no counterpart.
pub mod Entries
pub mod Tables
pub mod Writes
pub mod Mapping
pub mod Direct
mod Tests
use chao_s_os.Prelude.{
  ℕ, zero, suc, ◌+◌, ◌-◌, ◌*◌, ◌/◌, ◌%◌, ◌^◌, bit_and, bit_or, Bool, true, false, ◌&&◌, not, Option,
  none, some, ◌==◌, ltb, leb, if◌then◌else◌,
}
use chao_s_os.Buddy.{Zone, physic_alloc}

abbrev pub page_offset : ℕ
page_offset = 0xC0000000

abbrev pub page_size : ℕ
page_size = 4096

-- PAGE_MASK, which is ALIGN_MASK
abbrev pub page_mask : ℕ
page_mask = 0xFFFFF000

abbrev pub page_present : ℕ
page_present = 1

abbrev pub page_write : ℕ
page_write = 2

-- sizeof(PAGE_SIZE): what `map` asks `physic_alloc` for
abbrev pub size_of_page_size : ℕ
size_of_page_size = 4

-- KERNEL_NORMAL_ZONE_DIRECTORY_SIZE
abbrev pub kernel_normal_zone_directory_size : ℕ
kernel_normal_zone_directory_size = 0x38000000 / 2 ^ 22

unfoldable pub pgd_index : ℕ → ℕ
pgd_index va = bit_and (va / 2 ^ 22) 0x3FF

unfoldable pub pte_index : ℕ → ℕ
pte_index va = bit_and (va / 2 ^ 12) 0x3FF

-- A page directory, the words of memory, and the zone that tables are allocated from.
pub record Paging : Type 0 where
  pub directory : ℕ → ℕ
  pub memory : ℕ → ℕ
  pub zone : Zone

-- `&table[i]`, for the table's physical address
abbrev pub entry : ℕ → ℕ → ℕ
entry table i = (table + page_offset) % 2 ^ 32 + 4 * i

unfoldable pub table_of : ℕ → Paging → ℕ
table_of va p = bit_and (p.directory (pgd_index va)) page_mask

-- `memset(table, 0, PAGE_SIZE)`
unfoldable pub clear_table : ℕ → (ℕ → ℕ) → ℕ → ℕ
clear_table table m a =
    let start = entry table 0 in if leb start a && ltb a (start + page_size) then 0 else m a

-- `table[pte_index] = v`
unfoldable pub set_entry : ℕ → ℕ → ℕ → Paging → Paging
set_entry table i v p = record p { memory = λ a. if a == entry table i then v else p.memory a }

-- The page table that `map` makes where there is none; physic_alloc has returned `table`.
unfoldable pub new_table : ℕ → ℕ → ℕ → Zone → Paging → Paging
new_table index table flags z p = record p {
  directory = λ i. if i == index then bit_or table flags else p.directory i;
  memory = clear_table table p.memory;
  zone = z;
}

-- `map`; `none` when `physic_alloc` does not end.
unfoldable pub map : ℕ → ℕ → ℕ → Paging → Option Paging
map va pa flags p =
    let v = bit_or (bit_and pa page_mask) flags in
    if table_of va p == 0
    then elim (physic_alloc size_of_page_size p.zone) [
      | none ↦ none
      | some (table, z) ↦
          some (set_entry table (pte_index va) v (new_table (pgd_index va) table flags z p))
    ]
    else some (set_entry (table_of va p) (pte_index va) v p)

unfoldable pub unmap : ℕ → Paging → Paging
unmap va p = if table_of va p == 0 then p else set_entry (table_of va p) (pte_index va) 0 p

-- `get_mapping` for a pointer that is not null: `none` for 0, and what is stored for 1.
unfoldable pub get_mapping : ℕ → Paging → Option ℕ
get_mapping va p =
    let word = p.memory (entry (table_of va p) (pte_index va)) in
    if table_of va p == 0 then none else if word == 0 then none else some (bit_and word page_mask)

-- The directory and the tables that `init_vmm` fills: `tables` is the address of the first static
-- table and `pt0` the boot code's. The indices that no assignment reaches keep what they hold.
unfoldable pub init_directory : ℕ → ℕ → (ℕ → ℕ) → ℕ → ℕ
init_directory tables pt0 d i =
    let first = pgd_index page_offset in
    let present = page_present + page_write in
    if i == 0
    then bit_or pt0 present
    else if ltb i first
    then 0
    else if ltb i (first + kernel_normal_zone_directory_size)
    then bit_or ((tables + (i - first) * page_size + 2 ^ 32 - page_offset) % 2 ^ 32) present
    else d i

-- What the code writes into `tables[i][j]`.
unfoldable pub init_table : ℕ → ℕ → ℕ
init_table i j = bit_or ((i * 1024 + j) * 2 ^ 12 % 2 ^ 32) (page_present + page_write)

unfoldable pub init_memory : ℕ → (ℕ → ℕ) → ℕ → ℕ
init_memory tables m a =
    if leb tables a && ltb a (tables + kernel_normal_zone_directory_size * page_size)
    then init_table ((a - tables) / page_size) ((a - tables) % page_size / 4)
    else m a

-- `init_vmm`, but for the switch to the directory
unfoldable pub init_vmm : ℕ → ℕ → Paging → Paging
init_vmm tables pt0 p = record p {
  directory = init_directory tables pt0 p.directory;
  memory = init_memory tables p.memory;
}
