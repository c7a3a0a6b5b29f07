-- ===== src/Terminal/Rolling.antt =====
-- main_terminal_roll (kernel/kernel/terminal.c): the picture moves up by the height of a character.
use chao_s_os.Prelude.{
  ℕ, zero, suc, ◌+◌, ◌-◌, ◌*◌, ◌%◌, ◌^◌, ◌≤◌, ◌<◌, ◌≡◌, inl, refl, sym, ap, ◌∙◌, ◌&&◌, arith, ◌==◌,
  ltb, if◌then◌else◌,
}
use native.Mathlib.Decide.{dec_lt}
use native.Mathlib.Nat.{mul-le-mul_right}
use chao_s_os.Strings.{Memory, memcpy}
use chao_s_os.Strings.Moves.{memcpy_lem, Moved}
use chao_s_os.Terminal.{Device, Terminal, plot, clear_row, clear_rows, main_terminal_roll}
use chao_s_os.Terminal.Pixels.{Depth, get_pixel, plot-get_pixel, pixel_address}
use chao_s_os.Terminal.Drawing.{within, join_round}

clear_row-get_pixel :
    (k x₀ y₀ x y w : ℕ) (d : Device) (t : Terminal) (m : Memory)
    → Depth d w
    → t.bc < 2 ^ 32
    → x < w
    → x₀ + k ≤ w
    → get_pixel d x y (clear_row k x₀ y₀ d t m)
      ≡ (if (y == y₀) && within x₀ k x then t.bc else get_pixel d x y m)
unfolding clear_row
clear_row-get_pixel zero x₀ y₀ x y w d t m p c l b = ground arith
clear_row-get_pixel (suc k) x₀ y₀ x y w d t m p c l b =
    let m' = plot d x₀ y₀ t.bc m in
    clear_row-get_pixel k (x₀ + 1) y₀ x y w d t m' p c l (omega (arith, b))
    ∙ join_round (y == y₀) x₀ k x _ _ _ t.bc
        (plot-get_pixel d w x y x₀ y₀ t.bc m p l (omega (arith, b)) c) (λ e. refl)

clear_rows-get_pixel :
    (k y₀ x y w : ℕ) (d : Device) (t : Terminal) (m : Memory)
    → Depth d w
    → t.bc < 2 ^ 32
    → x < w
    → t.width ≤ w
    → d.font.height ≤ t.height
    → t.height < 2 ^ 32
    → y₀ + k ≤ d.font.height
    → get_pixel d x y (clear_rows k y₀ d t m) ≡ (
        if within 0 t.width x && within (y₀ + t.height - d.font.height) k y
        then t.bc
        else get_pixel d x y m)
unfolding clear_rows
clear_rows-get_pixel zero y₀ x y w d t m p c l b f g r = ground arith
clear_rows-get_pixel (suc k) y₀ x y w d t m p c l b f g r =
    let y₁ = y₀ + t.height - d.font.height in
    let same : (y₀ + t.height + 2 ^ 32 - d.font.height) % 2 ^ 32 ≡ y₁ = omega (arith, f, g, r) in
    let m' = clear_row t.width 0 y₁ d t m in
    let next : y₀ + 1 + t.height - d.font.height ≡ y₁ + 1 = omega (arith, f) in
    rw same (
      clear_rows-get_pixel k (y₀ + 1) x y w d t m' p c l b f g (omega (arith, r))
      ∙ ap (λ a. if within 0 t.width x && within a k y then t.bc else get_pixel d x y m') next
      ∙ join_round (within 0 t.width x) y₁ k y _ _ _ t.bc
          (clear_row-get_pixel t.width 0 y₁ x y w d t m p c l (omega (arith, b))) (λ e. refl))

-- A mode whose lines have no gap, and a buffer of just its pixels, smaller than 4 GiB.
pub record Compact (d : Device) (t : Terminal) : Type 0 where
  pub bits : d.mode.bpp ≡ 32
  pub pitch : d.mode.pitch ≡ 4 * d.mode.x_res
  pub size : d.vram_size ≡ d.mode.y_res * d.mode.pitch
  pub width : t.width ≡ d.mode.x_res
  pub height : t.height ≡ d.mode.y_res
  pub font : d.font.height ≤ d.mode.y_res
  pub fits : d.vram_size < 2 ^ 32
  pub lines : d.mode.y_res < 2 ^ 32

-- The bytes that move.
moved-get_pixel :
    (x y : ℕ) (d : Device) (t : Terminal) (m : Memory)
    → Compact d t
    → 0 < d.font.height
    → x < d.mode.x_res
    → y + d.font.height < d.mode.y_res
    → let shift = d.font.height * d.mode.x_res * 4 in
      get_pixel d x y (memcpy d.buffer (d.buffer + shift) (d.vram_size - shift) m)
      ≡ get_pixel d x (y + d.font.height) m
unfolding get_pixel Moved
moved-get_pixel x y d t m c f l h =
    let p = d.mode.pitch in
    let shift = d.font.height * d.mode.x_res * 4 in
    let size = d.vram_size - shift in
    let lines : suc (y + d.font.height) * p ≤ d.mode.y_res * p = mul-le-mul_right p h in
    let shift_lines : shift ≡ d.font.height * p =
      omega arith ∙ ap (λ p. d.font.height * p) (sym c.pitch) in
    let some_shift : 1 * d.mode.x_res ≤ d.font.height * d.mode.x_res =
      mul-le-mul_right d.mode.x_res f in
    let (moved, kept) =
      memcpy_lem d.buffer (d.buffer + shift) size m (inl (omega (arith, some_shift, l))) in
    let byte = λ (k : ℕ) (b : k < 4).
      moved (4 * x + y * p + k) (omega (arith, b, lines, shift_lines, c.size, c.pitch, l)) in
    let m' = memcpy d.buffer (d.buffer + shift) size m in
    let from : (k : ℕ)
        → k < 4
        → m' (pixel_address d x y + k) ≡ m (pixel_address d x (y + d.font.height) + k) =
      λ k b.
        let at : pixel_address d x y + k ≡ d.buffer + (4 * x + y * p + k) = omega arith in
        let at' : d.buffer + shift + (4 * x + y * p + k)
            ≡ pixel_address d x (y + d.font.height) + k =
          omega (arith, shift_lines) in
        ap m' at ∙ byte k b ∙ ap m at' in
    let first : m' (pixel_address d x y) ≡ m (pixel_address d x (y + d.font.height)) =
      ap m' (omega arith) ∙ from 0 (omega arith) ∙ ap m (omega arith) in
    let b₁ = from 1 (omega arith) in
    let b₂ = from 2 (omega arith) in let b₃ = from 3 (omega arith) in rw (first, b₁, b₂, b₃) refl

-- main_terminal_roll moves the picture up by the height of a character and gives the lines at the
-- bottom the background's color, in a mode of 32 bits a pixel whose lines have no gap and whose
-- buffer, smaller than 4 GiB, holds just its pixels.
pub main_terminal_roll-get_pixel :
    (x y : ℕ) (d : Device) (t : Terminal) (m : Memory)
    → Compact d t
    → t.bc < 2 ^ 32
    → 0 < d.font.height
    → x < d.mode.x_res
    → y < d.mode.y_res
    → get_pixel d x y (main_terminal_roll d t m)
      ≡ (if ltb (y + d.font.height) d.mode.y_res then get_pixel d x (y + d.font.height) m else t.bc)
unfolding main_terminal_roll
main_terminal_roll-get_pixel x y d t m c b f l h =
    let shift = d.font.height * d.mode.x_res * 4 in
    let m' = memcpy d.buffer (d.buffer + shift) (d.vram_size - shift) m in
    let lines : d.font.height * d.mode.pitch ≤ d.mode.y_res * d.mode.pitch =
      mul-le-mul_right d.mode.pitch c.font in
    let inside : shift ≤ d.vram_size =
      omega (arith, c.size, lines, ap (λ p. d.font.height * p) c.pitch) in
    let wrapped : shift % 2 ^ 32 ≡ shift = omega (arith, inside, c.fits) in
    let rest : (d.vram_size + 2 ^ 32 - shift) % 2 ^ 32 ≡ d.vram_size - shift =
      omega (arith, inside, c.fits) in
    let depth : Depth d d.mode.x_res = record { bits = c.bits; line = omega (arith, c.pitch) } in
    let cleared =
      clear_rows-get_pixel d.font.height 0 x y d.mode.x_res d t m' depth b l
        (omega (arith, c.width)) (omega (arith, c.font, c.height))
        (omega (arith, c.height, c.lines)) (omega arith) in
    rw (wrapped, rest)
      (elim (dec_lt (y + d.font.height) d.mode.y_res) [
        | yes u ↦ cleared ∙ ground (arith, u, c.height, moved-get_pixel x y d t m c f l u)
        | no n ↦ cleared ∙ ground (arith, n, h, c.width, c.height, c.font, l)
      ])
