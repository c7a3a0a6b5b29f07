-- ===== src/Terminal.antt =====
-- kernel/kernel/terminal.c, kernel/kernel/vbe.c and kernel/kernel/psf.c: text in the graphic mode. The
-- frame buffer is a map from addresses to bytes; the font's glyphs stand in other memory.
pub mod Pixels
pub mod Drawing
pub mod Cursor
pub mod Lines
pub mod Rolling
mod Tests
use chao_s_os.Prelude.{
  ℕ, zero, suc, ◌+◌, ◌-◌, ◌*◌, ◌/◌, ◌%◌, ◌^◌, bit_and, bit_or, Bool, true, false, Option, none,
  some, List, [], ◌∷◌, ◌==◌, leb, if◌then◌else◌,
}
use chao_s_os.Strings.{Memory, store, memcpy}
use chao_s_os.Math.{next_power_of_2}
use chao_s_os.Vmm.{Paging, page_size, page_present, page_write, map}

-- The fields of `mode_info_block_t` that the code reads
pub record ModeInfo : Type 0 where
  pub pitch : ℕ
  pub x_res : ℕ
  pub y_res : ℕ
  pub bpp : ℕ
  pub physbase : ℕ

-- The fields of `PSF_font` that the code reads, and the bytes of the glyphs
pub record Font : Type 0 where
  pub bytes_per_glyph : ℕ
  pub height : ℕ
  pub width : ℕ
  pub glyphs : ℕ → ℕ

-- `terminal_t`, without its corner, which nothing reads
pub record Terminal : Type 0 where
  pub width : ℕ
  pub height : ℕ
  pub char_x : ℕ
  pub char_y : ℕ
  pub rows : ℕ
  pub cols : ℕ
  pub bc : ℕ
  pub fc : ℕ

-- What the functions of the terminal use: `vbe_mode_info`, `font`, `vbe_buffer` and `vram_size`
pub record Device : Type 0 where
  pub mode : ModeInfo
  pub font : Font
  pub buffer : ℕ
  pub vram_size : ℕ

-- `put_pixel`; the indices are taken to fit an int.
unfoldable pub put_pixel : ℕ → ℕ → ℕ → ℕ → ℕ → ℕ → Memory → Memory
put_pixel screen x bpp y pitch color m =
    let a = screen + (x * bpp / 8 + y * pitch) in
    store (a + 3) (color / 2 ^ 24 % 256) (
      store (a + 2) (color / 2 ^ 16 % 256)
        (store (a + 1) (color / 2 ^ 8 % 256) (store a (color % 256) m)))

-- `put_pixel` of the mode
unfoldable pub plot : Device → ℕ → ℕ → ℕ → Memory → Memory
plot d x y color m = put_pixel d.buffer x d.mode.bpp y d.mode.pitch color m

-- `swap_buffer`
unfoldable pub swap_buffer : ℕ → Device → Memory → Memory
swap_buffer vram d m = memcpy vram d.buffer d.vram_size m

-- The pages of the frame buffer that init_vbe counts
unfoldable pub frame_pages : ModeInfo → ℕ
frame_pages mode =
    mode.x_res * mode.y_res % 2 ^ 32 * (next_power_of_2 mode.bpp / 8) % 2 ^ 32 / page_size

-- The loop of init_vbe that maps them, `k` pages before its end
unfoldable pub map_frames : ℕ → ℕ → ℕ → Paging → Option Paging
map_frames zero i vram p = some p
map_frames (suc k) i vram p =
    let a = (vram + i * page_size) % 2 ^ 32 in
    elim (map a a (bit_or page_present page_write) p) [
      | none ↦ none
      | some p' ↦ map_frames k (i + 1) vram p'
    ]

-- The loops that make both buffers white, column by column
unfoldable pub whiten_column : ℕ → ℕ → ℕ → ℕ → Device → Memory → Memory
whiten_column zero x y vram d m = m
whiten_column (suc k) x y vram d m =
    let m₁ = put_pixel vram x d.mode.bpp y d.mode.pitch 0xFFFFFF m in
    whiten_column k x (y + 1) vram d (plot d x y 0xFFFFFF m₁)

unfoldable pub whiten : ℕ → ℕ → ℕ → Device → Memory → Memory
whiten zero x vram d m = m
whiten (suc k) x vram d m = whiten k (x + 1) vram d (whiten_column d.mode.y_res x 0 vram d m)

-- `init_main_terminal`; the dimensions are 16-bit numbers.
unfoldable pub init_main_terminal : Device → Terminal
init_main_terminal d = record {
  width = d.mode.x_res % 2 ^ 16;
  height = d.mode.y_res % 2 ^ 16;
  char_x = 0;
  char_y = 0;
  rows = d.mode.y_res % 2 ^ 16 / d.font.height % 2 ^ 16;
  cols = d.mode.x_res % 2 ^ 16 / d.font.width % 2 ^ 16;
  bc = 0xFFFFFF;
  fc = 0;
}

-- The color of pixel `j` of row `i` of the glyph at `glyph`
unfoldable pub glyph_color : Device → Terminal → ℕ → ℕ → ℕ → ℕ
glyph_color d t glyph i j =
    let n = j + i * d.font.width in
    if bit_and (d.font.glyphs (glyph + n / 8)) (2 ^ (7 - n % 8)) == 0 then t.bc else t.fc

-- The loops of main_terminal_putchar, `k` pixels or rows before their end
unfoldable pub draw_row : ℕ → ℕ → ℕ → ℕ → ℕ → ℕ → Device → Terminal → Memory → Memory
draw_row zero j i glyph px py d t m = m
draw_row (suc k) j i glyph px py d t m =
    draw_row k (j + 1) i glyph px py d t (plot d (px + j) (py + i) (glyph_color d t glyph i j) m)

unfoldable pub draw_glyph : ℕ → ℕ → ℕ → ℕ → ℕ → Device → Terminal → Memory → Memory
draw_glyph zero i glyph px py d t m = m
draw_glyph (suc k) i glyph px py d t m =
    draw_glyph k (i + 1) glyph px py d t (draw_row d.font.width 0 i glyph px py d t m)

-- The lines at the bottom that main_terminal_roll clears
unfoldable pub clear_row : ℕ → ℕ → ℕ → Device → Terminal → Memory → Memory
clear_row zero x y d t m = m
clear_row (suc k) x y d t m = clear_row k (x + 1) y d t (plot d x y t.bc m)

unfoldable pub clear_rows : ℕ → ℕ → Device → Terminal → Memory → Memory
clear_rows zero y d t m = m
clear_rows (suc k) y d t m =
    clear_rows k (y + 1) d t
      (clear_row t.width 0 ((y + t.height + 2 ^ 32 - d.font.height) % 2 ^ 32) d t m)

unfoldable pub main_terminal_roll : Device → Terminal → Memory → Memory
main_terminal_roll d t m =
    let shift = d.font.height * d.mode.x_res * 4 % 2 ^ 32 in
    let size = (d.vram_size + 2 ^ 32 - shift) % 2 ^ 32 in
    clear_rows d.font.height 0 d t (memcpy d.buffer (d.buffer + shift) size m)

unfoldable pub main_terminal_newline : Device → Terminal × Memory → Terminal × Memory
main_terminal_newline d (t, m) =
    let y = (t.char_y + 1) % 2 ^ 16 in
    if y == t.rows
    then (record t { char_x = 0; char_y = t.rows - 1 }, main_terminal_roll d t m)
    else (record t { char_x = 0; char_y = y }, m)

-- `glyphs + ch * font->bytesperglyph`; a `char` is signed.
unfoldable pub glyph_at : ℕ → Font → ℕ
glyph_at ch font = (ch + (if leb 128 ch then 2 ^ 32 - 256 else 0)) * font.bytes_per_glyph % 2 ^ 32

unfoldable pub main_terminal_putchar : ℕ → Device → Terminal × Memory → Terminal × Memory
main_terminal_putchar ch d (t, m) =
    let drawn =
      draw_glyph d.font.height 0 (glyph_at ch d.font) (t.char_x * d.font.width)
        (t.char_y * d.font.height) d t m in
    let x = (t.char_x + 1) % 2 ^ 16 in
    let t' = record t { char_x = x } in
    if ch == 10
    then main_terminal_newline d (t, m)
    else (if x == t.cols then main_terminal_newline d (t', drawn) else (t', drawn))

unfoldable pub main_terminal_write : List ℕ → Device → Terminal × Memory → Terminal × Memory
main_terminal_write [] d s = s
main_terminal_write (ch ∷ chs) d s = main_terminal_write chs d (main_terminal_putchar ch d s)
