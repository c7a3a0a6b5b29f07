-- ===== src/Vmm/Tests.antt =====
-- Mappings in a directory whose first entry has a table, at physical address 4096.
use chao_s_os.Prelude.{◌+◌, ◌*◌, ◌/◌, ◌^◌, ◌≡◌, ◌≢◌, inl, refl, arith, some, ◌==◌, if◌then◌else◌}
use chao_s_os.Buddy.{Zone, physic_alloc, page_count, frame_alloc, address_of, get_block, find_level}
use chao_s_os.Math.{next_power_of_2, power_of_2, is_power_of_2}
use chao_s_os.Vmm.{
  Paging, map, get_mapping, table_of, pgd_index, init_vmm, page_offset, size_of_page_size,
}
use chao_s_os.Vmm.Tables.{IsValid}
use chao_s_os.Vmm.Writes.{Ready, Maps}
use chao_s_os.Vmm.Mapping.{map-Maps}
use chao_s_os.Vmm.Direct.{Placed, init_vmm-get_mapping}

-- A zone without a free block.
abbrev full_zone : Zone
full_zone = record {
  base = 2 ^ 20;
  length = 2 ^ 22;
  frames_number = 1024;
  free_lists = λ l. 1024;
  frames = λ i. record {
    flags = 1;
    level = 0;
    physic_addr = 2 ^ 20 + i * 4096;
    index = i;
    prev_frame = 1024;
    next_frame = 1024;
    allocator = 0;
  };
}

abbrev paging : Paging
paging = record {
  directory = λ i. if i == 0 then 4096 + 3 else 0;
  memory = λ a. 0;
  zone = full_zone;
}

paging-IsValid : IsValid paging
unfolding IsValid
paging-IsValid i = ground arith

found : table_of 0x5000 paging ≡ 4096
unfolding table_of pgd_index
found = refl

table_there : table_of 0x5000 paging ≢ 0
table_there e = absurd (omega (arith, found, e))

ready : Ready 0x5000 (table_of 0x5000 paging) paging
unfolding Ready
ready = inl (table_there, refl)

map-Maps_example :
    (p' : Paging) × (map 0x5000 0x9123 3 paging ≡ some p')
    × Maps 0x5000 0x9123 (table_of 0x5000 paging) paging p'
map-Maps_example =
    map-Maps 0x5000 0x9123 3 (table_of 0x5000 paging) paging paging-IsValid ready (omega arith)
      (omega arith) (omega arith)

missing : table_of 0x40005000 paging ≡ 0
unfolding table_of pgd_index
missing = refl

no_frame : physic_alloc size_of_page_size full_zone ≡ some (0, full_zone)
unfolding physic_alloc page_count frame_alloc address_of get_block find_level next_power_of_2
    is_power_of_2 power_of_2
no_frame = refl

tables-Placed : Placed 0xC0200000
tables-Placed = record { aligned = refl; above = omega arith; within = omega arith }

init_vmm-get_mapping_example :
    get_mapping (page_offset + 0x123456) (init_vmm 0xC0200000 0x101000 paging)
    ≡ some (0x123456 / 4096 * 4096)
init_vmm-get_mapping_example =
    init_vmm-get_mapping 0xC0200000 0x101000 0x123456 paging tables-Placed (omega arith)
