-- ===== src/Terminal/Drawing.antt =====
-- The loops of main_terminal_putchar (kernel/kernel/terminal.c), as the pixels that they leave.
use chao_s_os.Prelude.{
  ℕ, zero, suc, ◌+◌, ◌-◌, ◌^◌, ◌≤◌, ◌<◌, ◌≡◌, ap, ◌∙◌, Bool, true, false, ◌&&◌, arith, ◌==◌, leb,
  ltb, if◌then◌else◌,
}
use chao_s_os.Strings.{Memory}
use chao_s_os.Terminal.{Device, Terminal, plot, glyph_color, draw_row, draw_glyph}
use chao_s_os.Terminal.Pixels.{Depth, get_pixel, plot-get_pixel}

-- Both colors are words.
pub record Colors (t : Terminal) : Type 0 where
  pub back : t.bc < 2 ^ 32
  pub fore : t.fc < 2 ^ 32

glyph_color-small :
    (d : Device) (t : Terminal) (glyph i j : ℕ) → Colors t → glyph_color d t glyph i j < 2 ^ 32
unfolding glyph_color
glyph_color-small d t glyph i j c = ground (arith, c.back, c.fore)

-- `n` numbers from `a` on.
abbrev pub within : ℕ → ℕ → ℕ → Bool
within a n x = leb a x && ltb x (a + n)

-- A loop over the numbers from `a` on: what its first round changes, and the rounds behind it.
pub join_round :
    (b : Bool) (a k x g o o' c : ℕ)
    → o' ≡ (if (x == a) && b then c else o)
    → (x ≡ a → c ≡ g)
    → (if b && within (a + 1) k x then g else o') ≡ (if b && within a (suc k) x then g else o)
join_round true a k x g o o' c e f = ground (arith, e, f)
join_round false a k x g o o' c e f = ground (arith, e)

draw_row-get_pixel :
    (k j i glyph px py x y w : ℕ) (d : Device) (t : Terminal) (m : Memory)
    → Depth d w
    → Colors t
    → x < w
    → px + (j + k) ≤ w
    → get_pixel d x y (draw_row k j i glyph px py d t m) ≡ (
        if (y == py + i) && within (px + j) k x
        then glyph_color d t glyph i (x - px)
        else get_pixel d x y m)
unfolding draw_row
draw_row-get_pixel zero j i glyph px py x y w d t m p c l b = ground arith
draw_row-get_pixel (suc k) j i glyph px py x y w d t m p c l b =
    let color = glyph_color d t glyph i j in
    let m' = plot d (px + j) (py + i) color m in
    let ih = draw_row-get_pixel k (j + 1) i glyph px py x y w d t m' p c l (omega (arith, b)) in
    let one =
      plot-get_pixel d w x y (px + j) (py + i) color m p l (omega (arith, b))
        (glyph_color-small d t glyph i j c) in
    let next : px + (j + 1) ≡ px + j + 1 = omega arith in
    ih
    ∙ ap
        (λ a.
          if (y == py + i) && within a k x
          then glyph_color d t glyph i (x - px)
          else get_pixel d x y m')
        next
    ∙ join_round (y == py + i) (px + j) k x _ _ _ color one
        (λ e. ap (glyph_color d t glyph i) (omega (arith, e)))

-- A character drawn at (px, py): the pixels of its cell have the colors of the glyph, and the others
-- stay.
pub draw_glyph-get_pixel :
    (k i glyph px py x y w : ℕ) (d : Device) (t : Terminal) (m : Memory)
    → Depth d w
    → Colors t
    → x < w
    → px + d.font.width ≤ w
    → get_pixel d x y (draw_glyph k i glyph px py d t m) ≡ (
        if within px d.font.width x && within (py + i) k y
        then glyph_color d t glyph (y - py) (x - px)
        else get_pixel d x y m)
unfolding draw_glyph
draw_glyph-get_pixel zero i glyph px py x y w d t m p c l b = ground arith
draw_glyph-get_pixel (suc k) i glyph px py x y w d t m p c l b =
    let m' = draw_row d.font.width 0 i glyph px py d t m in
    let ih = draw_glyph-get_pixel k (i + 1) glyph px py x y w d t m' p c l b in
    let row =
      draw_row-get_pixel d.font.width 0 i glyph px py x y w d t m p c l (omega (arith, b)) in
    let start : px + 0 ≡ px = omega arith in
    let one =
      row
      ∙ ap
          (λ a.
            if (y == py + i) && within a d.font.width x
            then glyph_color d t glyph i (x - px)
            else get_pixel d x y m)
          start in
    let next : py + (i + 1) ≡ py + i + 1 = omega arith in
    ih
    ∙ ap
        (λ a.
          if within px d.font.width x && within a k y
          then glyph_color d t glyph (y - py) (x - px)
          else get_pixel d x y m')
        next
    ∙ join_round (within px d.font.width x) (py + i) k y _ _ _ (glyph_color d t glyph i (x - px))
        one (λ e. ap (λ i. glyph_color d t glyph i (x - px)) (omega (arith, e)))
