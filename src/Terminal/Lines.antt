-- ===== src/Terminal/Lines.antt =====
-- A text within a line (kernel/kernel/terminal.c): main_terminal_write draws each character in its cell.
use chao_s_os.Prelude.{
  ℕ, zero, suc, ◌+◌, ◌-◌, ◌*◌, ◌%◌, ◌^◌, ◌≤◌, ◌<◌, ◌≡◌, refl, ap, ◌∙◌, Bool, true, false, not, ◌&&◌,
  List, [], ◌∷◌, arith, ◌==◌, if◌then◌else◌, length, get_or,
}
use native.Mathlib.Nat.{mul-le-mul_right}
use chao_s_os.Strings.{Memory}
use chao_s_os.Terminal.{
  Device, Terminal, glyph_color, glyph_at, draw_glyph, main_terminal_putchar, main_terminal_write,
}
use chao_s_os.Terminal.Pixels.{Depth, get_pixel}
use chao_s_os.Terminal.Drawing.{Colors, within, draw_glyph-get_pixel}
use chao_s_os.Terminal.Cursor.{OnScreen}

-- A text of one line: no line feed, and it ends in front of the last column.
abbrev pub is_line : List ℕ → Bool
is_line [] = true
is_line (ch ∷ chs) = not (ch == 10) && is_line chs

putchar-in_line :
    (ch : ℕ) (d : Device) (t : Terminal) (m : Memory)
    → OnScreen t
    → (ch == 10) ≡ false
    → t.char_x + 1 < t.cols
    → main_terminal_putchar ch d (t, m) ≡ (
      record t { char_x = t.char_x + 1 },
      draw_glyph d.font.height 0
          (glyph_at ch d.font)
          (t.char_x * d.font.width)
          (t.char_y * d.font.height)
          d
          t
          m,
    )
unfolding main_terminal_putchar
putchar-in_line ch d t m o n l =
    let small : (t.char_x + 1) % 2 ^ 16 ≡ t.char_x + 1 = omega (arith, l, o.columns) in
    let inside : (t.char_x + 1 == t.cols) ≡ false = ground (arith, l) in
    rw (main_terminal_putchar, n, small, inside) refl

-- The pixel in column `x` of a line, left of the text, and the pixels of the text's cells.
line-left :
    (chs : List ℕ) (x y w : ℕ) (d : Device) (t : Terminal) (m : Memory)
    → OnScreen t
    → Depth d w
    → Colors t
    → t.cols * d.font.width ≤ w
    → is_line chs ≡ true
    → t.char_x + length chs < t.cols
    → x < t.char_x * d.font.width
    → get_pixel d x y (main_terminal_write chs d (t, m)).1 ≡ get_pixel d x y m
unfolding main_terminal_write
line-left [] x y w d t m o p c b n l h = refl
line-left (ch ∷ chs) x y w d t m o p c b n l h =
    let px = t.char_x * d.font.width in
    let t' = record t { char_x = t.char_x + 1 } in
    let m' = draw_glyph d.font.height 0 (glyph_at ch d.font) px (t.char_y * d.font.height) d t m in
    let step = putchar-in_line ch d t m o (ground (arith, n)) (omega (arith, l)) in
    let room : suc t.char_x * d.font.width ≤ t.cols * d.font.width =
      mul-le-mul_right d.font.width (omega (arith, l)) in
    let o' : OnScreen t' = record {
      column = omega (arith, l);
      row = o.row;
      columns = o.columns;
      lines = o.lines;
    } in
    let c' : Colors t' = record { back = c.back; fore = c.fore } in
    let drawn =
      draw_glyph-get_pixel d.font.height 0 (glyph_at ch d.font) px (t.char_y * d.font.height) x y w
        d t m p c (omega (arith, h, room, b)) (omega (arith, room, b)) in
    ap (λ s. get_pixel d x y (main_terminal_write chs d s).1) step
    ∙ line-left chs x y w d t' m' o' p c' b (ground (arith, n)) (omega (arith, l))
        (omega (arith, h))
    ∙ ground (arith, drawn, h)

-- main_terminal_write of a text with no line feed that ends in front of the last column, in a mode
-- of 32 bits a pixel: every pixel of every character's cell has the color that the glyph says.
pub main_terminal_write-shown :
    (chs : List ℕ) (n i j w : ℕ) (d : Device) (t : Terminal) (m : Memory)
    → OnScreen t
    → Depth d w
    → Colors t
    → t.cols * d.font.width ≤ w
    → is_line chs ≡ true
    → t.char_x + length chs < t.cols
    → n < length chs
    → i < d.font.height
    → j < d.font.width
    → get_pixel d
        ((t.char_x + n) * d.font.width + j)
        (t.char_y * d.font.height + i)
        (main_terminal_write chs d (t, m)).1
      ≡ glyph_color d t (glyph_at (get_or chs n 0) d.font) i j
unfolding main_terminal_write glyph_color
main_terminal_write-shown [] n i j w d t m o p c b k l q u v = absurd (omega (arith, q))
main_terminal_write-shown (ch ∷ chs) zero i j w d t m o p c b k l q u v =
    let px = t.char_x * d.font.width in
    let py = t.char_y * d.font.height in
    let t' = record t { char_x = t.char_x + 1 } in
    let m' = draw_glyph d.font.height 0 (glyph_at ch d.font) px py d t m in
    let step = putchar-in_line ch d t m o (ground (arith, k)) (omega (arith, l)) in
    let room : suc t.char_x * d.font.width ≤ t.cols * d.font.width =
      mul-le-mul_right d.font.width (omega (arith, l)) in
    let o' : OnScreen t' = record {
      column = omega (arith, l);
      row = o.row;
      columns = o.columns;
      lines = o.lines;
    } in
    let c' : Colors t' = record { back = c.back; fore = c.fore } in
    let x : (t.char_x + 0) * d.font.width + j ≡ px + j =
      ap (λ c. c * d.font.width + j) (omega arith) in
    let drawn =
      draw_glyph-get_pixel d.font.height 0 (glyph_at ch d.font) px py (px + j) (py + i) w d t m p c
        (omega (arith, v, room, b)) (omega (arith, room, b)) in
    let inside : within px d.font.width (px + j) && within (py + 0) d.font.height (py + i) ≡ true =
      ground (arith, u, v) in
    let shown =
      drawn
      ∙ ap
          (λ b.
            if b
            then glyph_color d t (glyph_at ch d.font) (py + i - py) (px + j - px)
            else get_pixel d (px + j) (py + i) m)
          inside in
    ap (λ x. get_pixel d x (py + i) (main_terminal_write (ch ∷ chs) d (t, m)).1) x
    ∙ ap (λ s. get_pixel d (px + j) (py + i) (main_terminal_write chs d s).1) step
    ∙ line-left chs (px + j) (py + i) w d t' m' o' p c' b (ground (arith, k)) (omega (arith, l))
        (omega (arith, v))
    ∙ shown
    ∙ ap (λ i. glyph_color d t (glyph_at ch d.font) i (px + j - px)) (omega arith)
    ∙ ap (glyph_color d t (glyph_at ch d.font) i) (omega arith)
main_terminal_write-shown (ch ∷ chs) (suc n) i j w d t m o p c b k l q u v =
    let px = t.char_x * d.font.width in
    let py = t.char_y * d.font.height in
    let t' = record t { char_x = t.char_x + 1 } in
    let m' = draw_glyph d.font.height 0 (glyph_at ch d.font) px py d t m in
    let step = putchar-in_line ch d t m o (ground (arith, k)) (omega (arith, l)) in
    let o' : OnScreen t' = record {
      column = omega (arith, l);
      row = o.row;
      columns = o.columns;
      lines = o.lines;
    } in
    let c' : Colors t' = record { back = c.back; fore = c.fore } in
    let x : (t.char_x + suc n) * d.font.width + j ≡ (t.char_x + 1 + n) * d.font.width + j =
      ap (λ c. c * d.font.width + j) (omega arith) in
    ap (λ x. get_pixel d x (py + i) (main_terminal_write (ch ∷ chs) d (t, m)).1) x
    ∙ ap
        (λ s.
          get_pixel d ((t.char_x + 1 + n) * d.font.width + j) (py + i)
            (main_terminal_write chs d s).1)
        step
    ∙ main_terminal_write-shown chs n i j w d t' m' o' p c' b (ground (arith, k)) (omega (arith, l))
        (omega (arith, q)) u v
