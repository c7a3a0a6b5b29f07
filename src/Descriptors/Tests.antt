-- ===== src/Descriptors/Tests.antt =====
-- Descriptors of the kernel's segments and interrupts.
use chao_s_os.Prelude.{ℕ, ◌^◌, ◌<◌, ◌≡◌, ◌≢◌, refl, arith, some, []}
use chao_s_os.Descriptors.{
  GdtEntry, gdt_gate, init_gdt, gdt_set_gate, isr_handler, register_interrupt_handler,
  init_interrupt_handlers,
}
use chao_s_os.Descriptors.Dispatch.{Acknowledged, isr_handler-registered}

abbrev no_gates : ℕ → GdtEntry
no_gates i = record {
  limit_low = 0;
  base_low = 0;
  base_middle = 0;
  access = 0;
  granularity = 0;
  base_high = 0;
}

text_granularity : (init_gdt no_gates 1).granularity ≡ 0xCF
unfolding init_gdt gdt_set_gate gdt_gate
text_granularity = refl

page_fault_called : isr_handler 14 (init_interrupt_handlers 5 6) ≡ ([], some 6)
unfolding isr_handler init_interrupt_handlers register_interrupt_handler
page_fault_called = refl

abbrev stubs : ℕ → ℕ
stubs k = 0xC0100000

abbrev keys : ℕ
keys = 33

abbrev handler : ℕ
handler = 6

stubs_bound : (k : ℕ) → stubs k < 2 ^ 32
stubs_bound k = omega arith

real : handler ≢ 0
real e = absurd (omega (arith, e))

other : keys ≢ 32
other e = absurd (omega (arith, e))

isr_handler-registered_example :
    let (writes, called) =
      isr_handler 32 (register_interrupt_handler 33 8 (register_interrupt_handler 32 6 (λ i. 0))) in
    Acknowledged 32 writes × (called ≡ some 6)
isr_handler-registered_example = isr_handler-registered 32 6 33 8 32 (λ i. 0) refl real other
