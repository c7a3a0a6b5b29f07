-- ===== src/Descriptors.antt =====
-- kernel/arch/i386/gdt.c, kernel/arch/i386/idt.c and kernel/kernel/interrupt.c: the descriptor tables,
-- and the dispatch of interrupts. Loading a table (`gdt_flush`, `idt_flush`) is assembler. The tables are
-- maps from indices, the addresses of the assembler's stubs `isr0`, `isr1` and so on are a map `isr`, and
-- what goes to the ports is a list, latest first.
pub mod Fields
pub mod Dispatch
pub mod Faults
mod Tests
use chao_s_os.Prelude.{
  ℕ, zero, suc, ◌+◌, ◌-◌, ◌*◌, ◌/◌, ◌%◌, ◌^◌, bit_and, bit_or, Bool, true, false, ◌&&◌, Option,
  none, some, List, [], ◌∷◌, ◌==◌, ltb, leb, if◌then◌else◌,
}

-- `gdt_entry_t`
pub record GdtEntry : Type 0 where
  pub limit_low : ℕ
  pub base_low : ℕ
  pub base_middle : ℕ
  pub access : ℕ
  pub granularity : ℕ
  pub base_high : ℕ

-- What `gdt_set_gate` makes of its arguments.
unfoldable pub gdt_gate : ℕ → ℕ → ℕ → ℕ → GdtEntry
gdt_gate base limit access gran = record {
  base_low = bit_and base 0xFFFF;
  base_middle = bit_and (base / 2 ^ 16) 0xFF;
  base_high = bit_and (base / 2 ^ 24) 0xFF;
  limit_low = bit_and limit 0xFFFF;
  granularity = bit_or (bit_and (limit / 2 ^ 16) 0x0F) (bit_and gran 0xF0);
  access = access;
}

unfoldable pub gdt_set_gate : ℕ → ℕ → ℕ → ℕ → ℕ → (ℕ → GdtEntry) → ℕ → GdtEntry
gdt_set_gate num base limit access gran entries i =
    if i == num then gdt_gate base limit access gran else entries i

unfoldable pub init_gdt : (ℕ → GdtEntry) → ℕ → GdtEntry
init_gdt entries =
    let e₀ = gdt_set_gate 0 0 0 0 0 entries in
    let e₁ = gdt_set_gate 1 0 0xFFFFFFFF 0x9A 0xCF e₀ in
    let e₂ = gdt_set_gate 2 0 0xFFFFFFFF 0x92 0xCF e₁ in
    let e₃ = gdt_set_gate 3 0 0xFFFFFFFF 0xFA 0xCF e₂ in gdt_set_gate 4 0 0xFFFFFFFF 0xF2 0xCF e₃

-- `idt_entry_t`
pub record IdtEntry : Type 0 where
  pub base_lo : ℕ
  pub sel : ℕ
  pub always0 : ℕ
  pub flags : ℕ
  pub base_hi : ℕ

-- An entry that `memset` has cleared.
abbrev pub no_entry : IdtEntry
no_entry = record { base_lo = 0; sel = 0; always0 = 0; flags = 0; base_hi = 0 }

unfoldable pub idt_gate : ℕ → ℕ → ℕ → IdtEntry
idt_gate base sel flags = record {
  base_lo = bit_and base 0xFFFF;
  base_hi = bit_and (base / 2 ^ 16) 0xFFFF;
  sel = sel;
  always0 = 0;
  flags = flags;
}

unfoldable pub idt_set_gate : ℕ → ℕ → ℕ → ℕ → (ℕ → IdtEntry) → ℕ → IdtEntry
idt_set_gate num base sel flags entries i = if i == num then idt_gate base sel flags else entries i

-- `n` calls `idt_set_gate(k, isr_k, 0x08, 0x8E)` for the numbers from `k` on.
unfoldable pub set_gates : ℕ → ℕ → (ℕ → ℕ) → (ℕ → IdtEntry) → ℕ → IdtEntry
set_gates zero k isr entries = entries
set_gates (suc n) k isr entries = set_gates n (k + 1) isr (idt_set_gate k (isr k) 0x08 0x8E entries)

-- The writes that start the two interrupt controllers, in order.
unfoldable pub init_8259a : List (ℕ × ℕ)
init_8259a =
    (0x20, 0x11)
    ∷ (0xA0, 0x11)
    ∷ (0x21, 0x20)
    ∷ (0xA1, 0x28)
    ∷ (0x21, 0x04)
    ∷ (0xA1, 0x02)
    ∷ (0x21, 0x01)
    ∷ (0xA1, 0x01)
    ∷ (0x21, 0)
    ∷ (0xA1, 0)
    ∷ []

-- The table that `init_idt` leaves.
unfoldable pub init_idt : (ℕ → ℕ) → ℕ → IdtEntry
init_idt isr =
    idt_set_gate 255 (isr 255) 0x08 0x8E (set_gates 16 32 isr (set_gates 32 0 isr (λ i. no_entry)))

-- A handler is a number other than 0; `n` is an 8-bit number.
unfoldable pub register_interrupt_handler : ℕ → ℕ → (ℕ → ℕ) → ℕ → ℕ
register_interrupt_handler n h handlers i = if i == n % 2 ^ 8 then h else handlers i

-- The table that `init_interrupt_handlers` leaves.
unfoldable pub init_interrupt_handlers : ℕ → ℕ → ℕ → ℕ
init_interrupt_handlers handler255 page_fault =
    register_interrupt_handler 14 page_fault (register_interrupt_handler 255 handler255 (λ i. 0))

-- `isr_handler`: the writes to the interrupt controllers, in order, and the handler that is called.
unfoldable pub isr_handler : ℕ → (ℕ → ℕ) → List (ℕ × ℕ) × Option ℕ
isr_handler number handlers =
    let int_no = bit_and number 0xFF in
    let first = leb 32 int_no && ltb int_no 40 in
    let second = leb 40 int_no && leb int_no 47 in
    (
      if first then (0x20, 0x20) ∷ [] else if second then (0x20, 0x20) ∷ (0xA0, 0x20) ∷ [] else [],
      if handlers int_no == 0 then none else some (handlers int_no),
    )
