-- ===== src/Tty/Writing.antt =====
-- `terminal_newline`, `terminal_putchar` and `terminal_write` (kernel/arch/i386/tty.c).
use chao_s_os.Prelude.{
  ℕ, zero, suc, ◌+◌, ◌*◌, ◌/◌, ◌%◌, ◌^◌, ◌≤◌, ◌<◌, ◌≡◌, ◌≢◌, ◌⊎◌, refl, sym, ap, subst, ◌∙◌, true,
  false, Bool-cases, inl, inr, arith, List, [], ◌∷◌, ◌==◌, ltb, if◌then◌else◌, get_or,
}
use chao_s_os.Tty.{
  Tty, terminal_newline, terminal_cursor_move, terminal_putentryat, terminal_putchar, put_all,
  terminal_write, vga_entry, newline, blank,
}
use chao_s_os.Tty.Screen.{terminal_roll-SameRest, terminal_roll-cell}

-- The cursor is on the screen.
pub record InBounds (t : Tty) : Type 0 where
  pub row : t.terminal_row < 25
  pub column : t.terminal_column < 80

-- `terminal_newline` puts the cursor at the start of the next row. Where there is none, it stays on the
-- last one and the screen goes one row up: every cell gets the one below, and the last row is blank.
-- Otherwise no cell changes.
pub terminal_newline_lem :
    (t : Tty)
    → t.terminal_row < 25
    → let t' = terminal_newline t in
      (t'.terminal_column ≡ 0)
      × (t'.terminal_color ≡ t.terminal_color)
      × (t'.terminal_row ≡ (if t.terminal_row == 24 then 24 else t.terminal_row + 1))
      × ((j : ℕ)
          → t'.terminal_buffer j ≡ (
              if t.terminal_row == 24
              then (if ltb j 1920
                  then t.terminal_buffer (j + 80)
                  else if ltb j 2000
                  then vga_entry blank t.terminal_color
                  else t.terminal_buffer j)
              else t.terminal_buffer j))
unfolding terminal_newline terminal_cursor_move
terminal_newline_lem t l =
    let t₁ : Tty = record t { terminal_row = t.terminal_row + 1 } in
    elim (Bool-cases (t.terminal_row == 24)) [
      | inl e ↦
          let last : (t.terminal_row + 1 == 25) ≡ true = ground arith in
          let same = terminal_roll-SameRest t₁ in
          rw (e, last) (refl, same.color, refl, λ j. terminal_roll-cell t₁ j)
      | inr d ↦
          let more : (t.terminal_row + 1 == 25) ≡ false = ground arith in
          rw (d, more) (refl, refl, refl, λ j. refl)
    ]

-- What a step leaves: the cursor on the screen, and the cells behind the screen as they were.
record Stays (t t' : Tty) : Type 0 where
  pub bounds : InBounds t'
  pub outside : (j : ℕ) → 2000 ≤ j → t'.terminal_buffer j ≡ t.terminal_buffer j

terminal_newline-Stays : (t : Tty) → t.terminal_row < 25 → Stays t (terminal_newline t)
terminal_newline-Stays t l =
    let (column, color, row, cells) = terminal_newline_lem t l in
    record {
      bounds = record { row = ground arith; column = omega (arith, column) };
      outside = λ j u. cells j ∙ ground arith;
    }

terminal_putchar-Stays : (c : ℕ) (t : Tty) → InBounds t → Stays t (terminal_putchar c t)
unfolding terminal_putchar terminal_putentryat
terminal_putchar-Stays c t b =
    let in_row = b.row in
    let in_column = b.column in
    let index = t.terminal_row * 80 + t.terminal_column in
    let cell = vga_entry c t.terminal_color in
    let t₁ : Tty = record t {
      terminal_buffer = λ i. if i == index then cell else t.terminal_buffer i;
      terminal_column = t.terminal_column + 1;
    } in
    elim (Bool-cases (c == 10)) [
      | inl e ↦ rw e (terminal_newline-Stays t in_row)
      | inr n ↦ elim (Bool-cases (t.terminal_column + 1 == 80)) [
        | inl e ↦
            let s = terminal_newline-Stays t₁ in_row in
            rw (n, e) (record { bounds = s.bounds; outside = λ j u. s.outside j u ∙ ground arith })
        | inr m ↦
            rw (n, m)
              (record {
                bounds = record { row = in_row; column = ground arith };
                outside = λ j u. ground arith;
              })
      ]
    ]

put_all-Stays : (cs : List ℕ) (t : Tty) → InBounds t → Stays t (put_all cs t)
unfolding put_all
put_all-Stays [] t b = record { bounds = b; outside = λ j u. refl }
put_all-Stays (c ∷ cs) t b =
    let s = terminal_putchar-Stays c t b in
    let r = put_all-Stays cs (terminal_putchar c t) s.bounds in
    record { bounds = r.bounds; outside = λ j u. r.outside j u ∙ s.outside j u }

-- When the cursor is on the screen, `terminal_write` leaves it on the screen and changes no memory
-- behind the screen's 2000 cells, whatever it writes; and the bytes that it sends to the cursor's
-- registers 14 and 15 last are the high and the low byte of the cursor's cell.
pub terminal_write_lem :
    (cs : List ℕ) (t : Tty)
    → InBounds t
    → InBounds (terminal_write cs t)
      × ((j : ℕ) → 2000 ≤ j → (terminal_write cs t).terminal_buffer j ≡ t.terminal_buffer j)
      × ((hi : ℕ) × (lo : ℕ) × (earlier : List (ℕ × ℕ)) × ((terminal_write cs t).written
            ≡ (0x3D5, lo) ∷ (0x3D4, 15) ∷ (0x3D5, hi) ∷ (0x3D4, 14) ∷ earlier)
          × (hi * 256 + lo
              ≡ (terminal_write cs t).terminal_row * 80 + (terminal_write cs t).terminal_column))
unfolding terminal_write terminal_cursor_move
terminal_write_lem cs t b =
    let s = put_all-Stays cs t b in
    let row = s.bounds.row in
    let column = s.bounds.column in
    let u = put_all cs t in
    let location = (u.terminal_row * 80 + u.terminal_column) % 2 ^ 16 in
    (
      record { row = row; column = column },
      s.outside,
      (location / 2 ^ 8 % 2 ^ 8, location % 2 ^ 8, u.written, refl, omega arith),
    )

-- No newline among the characters.
unfoldable pub Plain : List ℕ → Type 0
Plain [] = Unit
Plain (c ∷ cs) = (c ≢ newline) × Plain cs

unfoldable pub count : List ℕ → ℕ
count [] = 0
count (c ∷ cs) = 1 + count cs

-- What writing `cs` leaves, on one row.
pub record Written (cs : List ℕ) (t t' : Tty) : Type 0 where
  pub row : t'.terminal_row ≡ t.terminal_row
  pub column : t'.terminal_column ≡ t.terminal_column + count cs
  pub color : t'.terminal_color ≡ t.terminal_color
  pub cells :
      (i : ℕ)
      → i < count cs
      → t'.terminal_buffer (t.terminal_row * 80 + t.terminal_column + i)
        ≡ vga_entry (get_or cs i 0) t.terminal_color
  pub others :
      (j : ℕ)
      → (j < t.terminal_row * 80 + t.terminal_column)
        ⊎ (t.terminal_row * 80 + t.terminal_column + count cs ≤ j)
      → t'.terminal_buffer j ≡ t.terminal_buffer j

-- The console after one character that is no newline and does not fill the row.
advanced : ℕ → Tty → Tty
advanced c t = record t {
  terminal_buffer = λ i.
      if i == t.terminal_row * 80 + t.terminal_column
      then vga_entry c t.terminal_color
      else t.terminal_buffer i;
  terminal_column = t.terminal_column + 1;
}

putchar-advanced :
    (c : ℕ) (t : Tty)
    → c ≢ newline
    → t.terminal_column + 1 < 80
    → terminal_putchar c t ≡ advanced c t
unfolding terminal_putchar terminal_putentryat advanced
putchar-advanced c t n l =
    let plain : (c == 10) ≡ false = ground arith in
    let room : (t.terminal_column + 1 == 80) ≡ false = ground arith in rw (plain, room) refl

advanced-Written :
    (c : ℕ) (cs : List ℕ) (t t' : Tty) → Written cs (advanced c t) t' → Written (c ∷ cs) t t'
unfolding advanced count
advanced-Written c cs t t' w = record {
  row = w.row;
  column = omega (arith, w.column);
  color = w.color;
  cells = cell;
  others = λ j o. w.others j (omega arith) ∙ ground arith;
}
  where
    cell :
        (i : ℕ)
        → i < count (c ∷ cs)
        → t'.terminal_buffer (t.terminal_row * 80 + t.terminal_column + i)
          ≡ vga_entry (get_or (c ∷ cs) i 0) t.terminal_color
    cell zero u =
        w.others (t.terminal_row * 80 + t.terminal_column + 0) (inl (omega arith)) ∙ ground arith
    cell (suc i) u =
        let same : t.terminal_row * 80 + t.terminal_column + suc i
            ≡ t.terminal_row * 80 + (t.terminal_column + 1) + i =
          omega arith in
        ap t'.terminal_buffer same ∙ w.cells i (omega arith)

-- Characters that are no newlines and do not fill the row go into the cells from the cursor on, in
-- the console's color; the cursor stands behind them, and no other cell changes.
pub put_all-Written :
    (cs : List ℕ) (t : Tty)
    → Plain cs
    → t.terminal_column + count cs < 80
    → Written cs t (put_all cs t)
unfolding put_all count Plain advanced
put_all-Written [] t p l = record {
  row = refl;
  column = omega arith;
  color = refl;
  cells = λ i u. absurd (omega arith);
  others = λ j o. refl;
}
put_all-Written (c ∷ cs) t (n, p) l =
    subst (λ u. Written (c ∷ cs) t (put_all cs u)) (sym (putchar-advanced c t n (omega arith)))
      (advanced-Written c cs t (put_all cs (advanced c t))
        (put_all-Written cs (advanced c t) p (omega arith)))
