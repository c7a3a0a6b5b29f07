-- ===== src/Terminal/Cursor.antt =====
-- main_terminal_putchar and main_terminal_write (kernel/kernel/terminal.c): the cursor stays on the screen,
-- and a character is drawn in the cursor's cell.
use chao_s_os.Prelude.{
  ℕ, ◌+◌, ◌-◌, ◌%◌, ◌^◌, ◌<◌, ◌≡◌, inl, inr, refl, sym, ap, subst, ◌∙◌, List, [], ◌∷◌, arith, ◌==◌,
  if◌then◌else◌, Bool-cases,
}
use chao_s_os.Strings.{Memory}
use chao_s_os.Terminal.{
  Device, Terminal, main_terminal_newline, main_terminal_putchar, main_terminal_write,
}

-- The cursor is on a screen of 16-bit dimensions.
pub record OnScreen (t : Terminal) : Type 0 where
  pub column : t.char_x < t.cols
  pub row : t.char_y < t.rows
  pub columns : t.cols < 2 ^ 16
  pub lines : t.rows < 2 ^ 16

-- The dimensions and colors of a terminal are the same.
pub record SameShape (t t' : Terminal) : Type 0 where
  pub rows : t'.rows ≡ t.rows
  pub cols : t'.cols ≡ t.cols
  pub width : t'.width ≡ t.width
  pub height : t'.height ≡ t.height
  pub colors : (t'.bc ≡ t.bc) × (t'.fc ≡ t.fc)

-- The cursor after a line feed, and after another character.
abbrev pub next_line : Terminal → Terminal
next_line t = record t {
  char_x = 0;
  char_y = if t.char_y + 1 == t.rows then t.char_y else t.char_y + 1;
}

abbrev pub next_cell : ℕ → Terminal → Terminal
next_cell ch t =
    if ch == 10
    then next_line t
    else (if t.char_x + 1 == t.cols then next_line t else record t { char_x = t.char_x + 1 })

newline-next_line :
    (d : Device) (t : Terminal) (m : Memory)
    → t.char_y < t.rows
    → t.rows < 2 ^ 16
    → (main_terminal_newline d (t, m)).0 ≡ next_line t
unfolding main_terminal_newline
newline-next_line d t m r l =
    let small : (t.char_y + 1) % 2 ^ 16 ≡ t.char_y + 1 = omega (arith, r, l) in
    elim (Bool-cases (t.char_y + 1 == t.rows)) [
      | inl y ↦ let last : t.rows - 1 ≡ t.char_y = ground (arith, y) in rw (small, y, last) refl
      | inr n ↦ rw (small, n) refl
    ]

-- Where main_terminal_putchar leaves the cursor.
pub putchar-next_cell :
    (ch : ℕ) (d : Device) (t : Terminal) (m : Memory)
    → OnScreen t
    → (main_terminal_putchar ch d (t, m)).0 ≡ next_cell ch t
unfolding main_terminal_putchar
putchar-next_cell ch d t m o = elim (Bool-cases (ch == 10)) [
  | inl y ↦ rw (main_terminal_putchar, y) (newline-next_line d t m o.row o.lines)
  | inr n ↦
      let small : (t.char_x + 1) % 2 ^ 16 ≡ t.char_x + 1 = omega (arith, o.column, o.columns) in
      elim (Bool-cases (t.char_x + 1 == t.cols)) [
        | inl e ↦ rw (main_terminal_putchar, n, small, e) (newline-next_line d _ _ o.row o.lines)
        | inr e ↦ rw (main_terminal_putchar, n, small, e) refl
      ]
]

next_line-OnScreen : (t : Terminal) → OnScreen t → OnScreen (next_line t)
next_line-OnScreen t o = record {
  column = omega (arith, o.column);
  row = ground (arith, o.row);
  columns = o.columns;
  lines = o.lines;
}

next_cell-OnScreen : (ch : ℕ) (t : Terminal) → OnScreen t → OnScreen (next_cell ch t)
next_cell-OnScreen ch t o = elim (Bool-cases (ch == 10)) [
  | inl y ↦ rw (y) (next_line-OnScreen t o)
  | inr n ↦ elim (Bool-cases (t.char_x + 1 == t.cols)) [
    | inl y' ↦ rw (n, y') (next_line-OnScreen t o)
    | inr n' ↦
        rw (n, n')
          (record {
            column = ground (arith, n', o.column);
            row = o.row;
            columns = o.columns;
            lines = o.lines;
          })
  ]
]

-- The cursor after a text.
abbrev pub after_text : List ℕ → Terminal → Terminal
after_text [] t = t
after_text (ch ∷ chs) t = after_text chs (next_cell ch t)

-- Writing any text from a cursor on the screen leaves the cursor on the screen: in the next column
-- after a character, and at the start of the next line after a line feed or a character in the
-- last column, or of the same line where it is the last one.
pub main_terminal_write-OnScreen :
    (chs : List ℕ) (d : Device) (t : Terminal) (m : Memory)
    → OnScreen t
    → ((main_terminal_write chs d (t, m)).0 ≡ after_text chs t)
      × OnScreen (main_terminal_write chs d (t, m)).0
unfolding main_terminal_write
main_terminal_write-OnScreen [] d t m o = (refl, o)
main_terminal_write-OnScreen (ch ∷ chs) d t m o =
    let s = main_terminal_putchar ch d (t, m) in
    let e = putchar-next_cell ch d t m o in
    let o' = subst OnScreen (sym e) (next_cell-OnScreen ch t o) in
    let (at, on) = main_terminal_write-OnScreen chs d s.0 s.1 o' in (at ∙ ap (after_text chs) e, on)
