-- ===== src/Tty/Tests.antt =====
-- The text console after some writes.
use chao_s_os.Prelude.{ℕ, ◌+◌, ◌*◌, ◌≤◌, ◌<◌, ◌≡◌, refl, List, [], ◌∷◌, arith}
use chao_s_os.Tty.{
  Tty, terminal_newline, terminal_write, put_all, terminal_putchar, terminal_putentryat,
  terminal_cursor_move,
}
use chao_s_os.Tty.Writing.{InBounds, terminal_write_lem, Plain, count}

-- The cursor on the last row, in the last column but one.
abbrev console : ℕ → ℕ → Tty
console row column = record {
  terminal_row = row;
  terminal_column = column;
  terminal_color = 7;
  terminal_buffer = λ i. 0;
  written = [];
}

abbrev hi : List ℕ
hi = 72 ∷ 105 ∷ []

next_row : (put_all (72 ∷ 10 ∷ []) (console 3 4)).terminal_row ≡ 4
unfolding put_all terminal_putchar terminal_putentryat terminal_newline terminal_cursor_move
next_row = refl

corner : InBounds (console 24 78)
corner = record { row = omega arith; column = omega arith }

terminal_write_lem_example :
    let t' = terminal_write hi (console 24 78) in
    InBounds t'
    × ((j : ℕ) → 2000 ≤ j → t'.terminal_buffer j ≡ 0)
    × ((hi : ℕ) × (lo : ℕ) × (earlier : List (ℕ × ℕ)) × (t'.written
          ≡ (0x3D5, lo) ∷ (0x3D4, 15) ∷ (0x3D5, hi) ∷ (0x3D4, 14) ∷ earlier)
        × (hi * 256 + lo ≡ t'.terminal_row * 80 + t'.terminal_column))
terminal_write_lem_example = terminal_write_lem hi (console 24 78) corner

hi-Plain : Plain hi
unfolding Plain
hi-Plain = (λ e. absurd (omega (arith, e)), (λ e. absurd (omega (arith, e)), tt))

fits : (console 2 5).terminal_column + count hi < 80
unfolding count
fits = omega arith
