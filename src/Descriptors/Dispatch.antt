-- ===== src/Descriptors/Dispatch.antt =====
-- `isr_handler` and the table of handlers (kernel/arch/i386/idt.c, kernel/kernel/interrupt.c).
use chao_s_os.Prelude.{
  ℕ, ◌%◌, ◌^◌, ◌≤◌, ◌<◌, ◌≡◌, ◌≢◌, refl, ◌∙◌, bit_and, true, false, arith, some, List, [], ◌∷◌,
  ◌==◌, ltb, leb, ◌&&◌, if◌then◌else◌, bit_and_mask,
}
use chao_s_os.Descriptors.{isr_handler, register_interrupt_handler}

-- The writes that end an interrupt, by the controllers that it went through: number 32 to 39 through
-- the first, 40 to 47 through both, any other through none.
pub Acknowledged : ℕ → List (ℕ × ℕ) → Type 0
Acknowledged n writes =
    (32 ≤ n → n < 40 → writes ≡ (0x20, 0x20) ∷ [])
    × (40 ≤ n → n < 48 → writes ≡ (0x20, 0x20) ∷ (0xA0, 0x20) ∷ [])
    × (n < 32 → writes ≡ [])
    × (48 ≤ n → writes ≡ [])

ended-Acknowledged :
    (n : ℕ)
    → Acknowledged n (
        if leb 32 n && ltb n 40
        then (0x20, 0x20) ∷ []
        else if leb 40 n && leb n 47
        then (0x20, 0x20) ∷ (0xA0, 0x20) ∷ []
        else [])
unfolding Acknowledged
ended-Acknowledged n =
    (λ a b. ground arith, λ a b. ground arith, λ a. ground arith, λ a. ground arith)

-- Once a handler other than null is registered for an interrupt below 256, and another is
-- registered for one with a different low byte, isr_handler calls the first for every interrupt
-- number with that low byte, and ends the interrupt at exactly the controllers that it went
-- through.
pub isr_handler-registered :
    (n h n' h' number : ℕ) (handlers : ℕ → ℕ)
    → number % 2 ^ 8 ≡ n
    → h ≢ 0
    → n' % 2 ^ 8 ≢ n
    → let (writes, called) =
        isr_handler number
          (register_interrupt_handler n' h' (register_interrupt_handler n h handlers)) in
      Acknowledged n writes × (called ≡ some h)
unfolding isr_handler register_interrupt_handler
isr_handler-registered n h n' h' number handlers e s d =
    let low : bit_and number 0xFF ≡ n = bit_and_mask 8 number ∙ e in
    let other : (n == n' % 2 ^ 8) ≡ false = ground arith in
    let own : (n == n % 2 ^ 8) ≡ true = ground arith in
    let there : (h == 0) ≡ false = ground arith in
    rw (low, other, own, there) (ended-Acknowledged n, refl)
