-- ===== src/Tty.antt =====
-- kernel/arch/i386/tty.c and kernel/arch/i386/vga.h: the text console. The console's memory is a map
-- from cells, and what goes to the ports of the cursor is a list, latest first.
pub mod Screen
pub mod Writing
mod Tests
use chao_s_os.Prelude.{
  ℕ, zero, suc, ◌+◌, ◌-◌, ◌*◌, ◌/◌, ◌%◌, ◌^◌, bit_or, Bool, true, false, List, [], ◌∷◌, ◌==◌,
  if◌then◌else◌,
}

-- VGA_WIDTH and VGA_HEIGHT
abbrev pub vga_width : ℕ
vga_width = 80

abbrev pub vga_height : ℕ
vga_height = 25

abbrev pub vga_color_light_grey : ℕ
vga_color_light_grey = 7

abbrev pub vga_color_black : ℕ
vga_color_black = 0

abbrev pub newline : ℕ
newline = 10

abbrev pub blank : ℕ
blank = 32

unfoldable pub vga_entry_color : ℕ → ℕ → ℕ
vga_entry_color fg bg = bit_or fg (bg * 2 ^ 4) % 2 ^ 8

unfoldable pub vga_entry : ℕ → ℕ → ℕ
vga_entry uc color = bit_or uc (color * 2 ^ 8) % 2 ^ 16

-- The static variables of tty.c, and the pairs of a port and a byte that were written.
pub record Tty : Type 0 where
  pub terminal_row : ℕ
  pub terminal_column : ℕ
  pub terminal_color : ℕ
  pub terminal_buffer : ℕ → ℕ
  pub written : List (ℕ × ℕ)

abbrev pub set_cell : ℕ → ℕ → Tty → Tty
set_cell index v t = record t {
  terminal_buffer = λ i. if i == index then v else t.terminal_buffer i;
}

abbrev outb : ℕ → ℕ → Tty → Tty
outb port v t = record t { written = (port, v % 2 ^ 8) ∷ t.written }

-- `n` cells from `index` on get `v`: the loop over the columns of a row.
unfoldable pub fill : ℕ → ℕ → ℕ → Tty → Tty
fill zero index v t = t
fill (suc n) index v t = fill n (index + 1) v (set_cell index v t)

-- The loop over the rows in `terminal_initialize`.
unfoldable pub fill_rows : ℕ → ℕ → ℕ → Tty → Tty
fill_rows zero y v t = t
fill_rows (suc n) y v t = fill_rows n (y + 1) v (fill vga_width (y * vga_width) v t)

unfoldable pub terminal_initialize : Tty → Tty
terminal_initialize t =
    let color = vga_entry_color vga_color_light_grey vga_color_black in
    fill_rows vga_height 0 (vga_entry blank color)
      (record t { terminal_row = 0; terminal_column = 0; terminal_color = color })

unfoldable pub terminal_setcolor : ℕ → Tty → Tty
terminal_setcolor color t = record t { terminal_color = color }

unfoldable pub terminal_putentryat : ℕ → ℕ → ℕ → ℕ → Tty → Tty
terminal_putentryat c color x y t = set_cell (y * vga_width + x) (vga_entry c color) t

-- `memcpy` of `n` cells
unfoldable pub copy_cells : ℕ → ℕ → ℕ → Tty → Tty
copy_cells zero dst src t = t
copy_cells (suc n) dst src t =
    copy_cells n (dst + 1) (src + 1) (set_cell dst (t.terminal_buffer src) t)

-- The loop of `terminal_roll` over the rows, from row `i` on.
unfoldable pub roll_rows : ℕ → ℕ → Tty → Tty
roll_rows zero i t = t
roll_rows (suc n) i t =
    roll_rows n (i + 1) (copy_cells vga_width (i * vga_width) ((i + 1) * vga_width) t)

unfoldable pub terminal_roll : Tty → Tty
terminal_roll t =
    fill vga_width (vga_width * (vga_height - 1)) (vga_entry blank t.terminal_color)
      (roll_rows (vga_height - 1) 0 t)

unfoldable pub terminal_cursor_move : Tty → Tty
terminal_cursor_move t =
    let location = (t.terminal_row * vga_width + t.terminal_column) % 2 ^ 16 in
    outb 0x3D5 location (outb 0x3D4 15 (outb 0x3D5 (location / 2 ^ 8) (outb 0x3D4 14 t)))

unfoldable pub terminal_newline : Tty → Tty
terminal_newline t =
    let t₁ = record t { terminal_row = t.terminal_row + 1 } in
    let t₂ =
      if t₁.terminal_row == vga_height
      then record (terminal_roll t₁) { terminal_row = vga_height - 1 }
      else t₁ in
    terminal_cursor_move (record t₂ { terminal_column = 0 })

unfoldable pub terminal_putchar : ℕ → Tty → Tty
terminal_putchar c t =
    let t₁ = terminal_putentryat c t.terminal_color t.terminal_column t.terminal_row t in
    let t₂ = record t₁ { terminal_column = t₁.terminal_column + 1 } in
    if c == newline
    then terminal_newline t
    else if t₂.terminal_column == vga_width
    then terminal_newline t₂
    else t₂

-- The loop of `terminal_write`; the data's length is its size.
unfoldable pub put_all : List ℕ → Tty → Tty
put_all [] t = t
put_all (c ∷ cs) t = put_all cs (terminal_putchar c t)

unfoldable pub terminal_write : List ℕ → Tty → Tty
terminal_write cs t = terminal_cursor_move (put_all cs t)
