-- ===== src/Descriptors/Faults.antt =====
-- page_fault and isr_handler255 (kernel/kernel/interrupt.c): what they print, call by call.
use chao_s_os.Prelude.{ℕ, bit_and, List, [], ◌∷◌, ◌++◌, ◌==◌, if◌then◌else◌}

-- The calls of printf, by their texts; the numbers are the arguments.
pub data Report : Type 0 where
  processed_255 : Report
  at_thread : ℕ → Report
  page_fault_at : ℕ → ℕ → Report
  error_code : ℕ → Report
  not_present write_error read_error in_user_mode in_kernel_mode reserved_bits instruction_fetch :
      Report

unfoldable pub isr_handler255 : List Report
isr_handler255 = processed_255 ∷ []

-- `page_fault`, in front of its endless loop: the current task's pid, eip, the address in CR2, and the
-- error code
unfoldable pub page_fault : ℕ → ℕ → ℕ → ℕ → List Report
page_fault pid eip cr2 err_code =
    at_thread pid
      ∷ page_fault_at eip cr2
      ∷ error_code err_code
      ∷ (if bit_and err_code 0x1 == 0 then not_present ∷ [] else [])
    ++ (if bit_and err_code 0x2 == 0 then read_error else write_error)
      ∷ (if bit_and err_code 0x4 == 0 then in_kernel_mode else in_user_mode)
      ∷ (if bit_and err_code 0x8 == 0 then [] else reserved_bits ∷ [])
    ++ (if bit_and err_code 0x10 == 0 then [] else instruction_fetch ∷ [])
