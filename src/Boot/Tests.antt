-- ===== src/Boot/Tests.antt =====
-- Memory that holds zeros when the kernel starts.
use chao_s_os.Prelude.{ℕ, ◌+◌, ◌≡◌, some, arith}
use chao_s_os.Vmm.{page_offset}
use chao_s_os.Boot.{pgd_tmp, kernel_main_init, translate}
use chao_s_os.Boot.Paged.{kernel_main_init-translate}

abbrev zeros : ℕ → ℕ
zeros a = 0

kernel_main_init-translate_example :
    (translate pgd_tmp (kernel_main_init zeros) 0x101234 ≡ some 0x101234)
    × (translate pgd_tmp (kernel_main_init zeros) (page_offset + 0x101234) ≡ some 0x101234)
kernel_main_init-translate_example = kernel_main_init-translate zeros 0x101234 (omega arith)
