-- ===== src/Descriptors/Fields.antt =====
-- The fields of the descriptors (kernel/arch/i386/gdt.c, kernel/arch/i386/idt.c).
use chao_s_os.Prelude.{
  ℕ, zero, suc, ◌+◌, ◌-◌, ◌*◌, ◌/◌, ◌%◌, ◌^◌, ◌≤◌, ◌<◌, ◌≡◌, ◌≢◌, ◌⊎◌, refl, ap, ◌∙◌, bit_and,
  bit_or, Bool-cases, inl, inr, arith, ◌==◌, ltb, if◌then◌else◌, bit_and_mask, bit_and_fields,
  bit_or_low,
}
use chao_s_os.Descriptors.{
  GdtEntry, gdt_gate, IdtEntry, no_entry, idt_gate, idt_set_gate, set_gates, init_idt,
}

-- The base and the limit that the processor reads from a descriptor, and the granularity's flags.
pub base_of : GdtEntry → ℕ
base_of e = e.base_low + e.base_middle * 2 ^ 16 + e.base_high * 2 ^ 24

pub limit_of : GdtEntry → ℕ
limit_of e = e.limit_low + e.granularity % 16 * 2 ^ 16

high_half : (gran : ℕ) → gran < 2 ^ 8 → bit_and gran 0xF0 ≡ gran / 16 * 2 ^ 4
high_half gran l =
    let whole : gran ≡ gran / 16 * 2 ^ 4 + gran % 16 = omega arith in
    let q = gran / 16 in
    ap (λ (n : ℕ). bit_and n 0xF0) whole
    ∙ bit_and_fields 4 q (gran % 16) (2 ^ 4 - 1) (omega arith)
    ∙ ap (λ (n : ℕ). n * 2 ^ 4) (bit_and_mask 4 q ∙ omega arith)

granularity-eq :
    (limit gran : ℕ)
    → gran < 2 ^ 8
    → bit_or (bit_and (limit / 2 ^ 16) 0x0F) (bit_and gran 0xF0)
      ≡ gran / 16 * 2 ^ 4 + limit / 2 ^ 16 % 16
granularity-eq limit gran l =
    ap (λ (n : ℕ). bit_or n (bit_and gran 0xF0)) (bit_and_mask 4 (limit / 2 ^ 16))
    ∙ ap (λ (n : ℕ). bit_or (limit / 2 ^ 16 % 16) n) (high_half gran l)
    ∙ bit_or_low 4 (gran / 16) (limit / 2 ^ 16 % 16) (omega arith)

-- A descriptor that `gdt_set_gate` makes gives back the base, the limit's low 20 bits, the access byte
-- and the high four bits of `gran`.
pub gdt_gate_lem :
    (base limit access gran : ℕ)
    → base < 2 ^ 32
    → gran < 2 ^ 8
    → let e = gdt_gate base limit access gran in
      (base_of e ≡ base)
      × (limit_of e ≡ limit % 2 ^ 20)
      × (e.access ≡ access)
      × (e.granularity / 16 ≡ gran / 16)
unfolding gdt_gate base_of limit_of
gdt_gate_lem base limit access gran l g =
    let low = bit_and_mask 16 base in
    let middle = bit_and_mask 8 (base / 2 ^ 16) in
    let high = bit_and_mask 8 (base / 2 ^ 24) in
    let limit_low = bit_and_mask 16 limit in
    let eq = granularity-eq limit gran g in
    (omega (arith, low, middle, high), omega (arith, limit_low, eq), refl, omega (arith, eq))

-- The handler's address that the processor reads from an entry of the interrupt table.
pub offset_of : IdtEntry → ℕ
offset_of e = e.base_lo + e.base_hi * 2 ^ 16

set_gates_lem :
    (n k : ℕ) (isr : ℕ → ℕ) (entries : ℕ → IdtEntry) (i : ℕ)
    → set_gates n k isr entries i ≡ (
        if ltb i k
        then entries i
        else if ltb i (k + n)
        then idt_gate (isr i) 0x08 0x8E
        else entries i)
unfolding set_gates idt_set_gate
set_gates_lem zero k isr entries i = ground arith
set_gates_lem (suc n) k isr entries i =
    set_gates_lem n (k + 1) isr (idt_set_gate k (isr k) 0x08 0x8E entries) i
    ∙ elim (Bool-cases (i == k)) [
      | inl y ↦ let e : i ≡ k = ground arith in rw e (ground arith)
      | inr m ↦ ground arith
    ]

idt_gate-offset : (a : ℕ) → a < 2 ^ 32 → offset_of (idt_gate a 0x08 0x8E) ≡ a
unfolding idt_gate offset_of
idt_gate-offset a l = omega (arith, bit_and_mask 16 a, bit_and_mask 16 (a / 2 ^ 16))

init_idt-eq :
    (isr : ℕ → ℕ) (i : ℕ)
    → init_idt isr i ≡ (
        if i == 255
        then idt_gate (isr i) 0x08 0x8E
        else if ltb i 48
        then idt_gate (isr i) 0x08 0x8E
        else no_entry)
unfolding init_idt idt_set_gate
init_idt-eq isr i = elim (Bool-cases (i == 255)) [
  | inl y ↦ let e : i ≡ 255 = ground arith in rw e refl
  | inr n ↦ rw n (
      set_gates_lem 16 32 isr (set_gates 32 0 isr (λ i. no_entry)) i
      ∙ joined i (idt_gate (isr i) 0x08 0x8E) _ (set_gates_lem 32 0 isr (λ i. no_entry) i))
]
  where
    joined :
        (i : ℕ) (g e : IdtEntry)
        → e ≡ (if ltb i 0 then no_entry else if ltb i (0 + 32) then g else no_entry)
        → (if ltb i 32 then e else if ltb i (32 + 16) then g else e)
          ≡ (if ltb i 48 then g else no_entry)
    joined i g e h = ground arith

init_idt-set :
    (isr : ℕ → ℕ) (i : ℕ) → (i < 48) ⊎ (i ≡ 255) → init_idt isr i ≡ idt_gate (isr i) 0x08 0x8E
init_idt-set isr i o = init_idt-eq isr i ∙ ground arith

-- The gates below 48 and gate 255 of the table that `init_idt` leaves hold the address of their own
-- stub, for stubs at 32-bit addresses, with the kernel's code selector and flags 0x8E. Every other
-- entry is clear.
pub init_idt_lem :
    (isr : ℕ → ℕ) (i : ℕ)
    → ((k : ℕ) → isr k < 2 ^ 32)
    → ((i < 48) ⊎ (i ≡ 255)
        → (offset_of (init_idt isr i) ≡ isr i)
          × ((init_idt isr i).sel ≡ 0x08)
          × ((init_idt isr i).flags ≡ 0x8E))
      × (48 ≤ i → i ≢ 255 → init_idt isr i ≡ no_entry)
unfolding idt_gate
init_idt_lem isr i l = (
  λ o.
      let e = init_idt-set isr i o in
      (
        ap offset_of e ∙ idt_gate-offset (isr i) (l i),
        ap (λ (g : IdtEntry). g.sel) e,
        ap (λ (g : IdtEntry). g.flags) e,
      ),
  λ a b. init_idt-eq isr i ∙ ground arith,
)
