-- ===== src/Terminal/Tests.antt =====
-- A screen of 4 by 4 pixels with characters of 1 by 1.
use chao_s_os.Prelude.{◌+◌, ◌*◌, ◌≡◌, refl, [], ◌∷◌, arith, ltb, ◌&&◌, if◌then◌else◌}
use chao_s_os.Strings.{Memory}
use chao_s_os.Math.{next_power_of_2}
use chao_s_os.Terminal.{
  Terminal, Device, glyph_color, glyph_at, draw_glyph, init_main_terminal, main_terminal_roll,
  main_terminal_write, frame_pages,
}
use chao_s_os.Terminal.Pixels.{Depth, get_pixel}
use chao_s_os.Terminal.Drawing.{Colors, within, draw_glyph-get_pixel}
use chao_s_os.Terminal.Cursor.{OnScreen, after_text, main_terminal_write-OnScreen}
use chao_s_os.Terminal.Lines.{main_terminal_write-shown}
use chao_s_os.Terminal.Rolling.{Compact, main_terminal_roll-get_pixel}

abbrev device : Device
device = record {
  mode = record { pitch = 16; x_res = 4; y_res = 4; bpp = 32; physbase = 0xFD000000 };
  font = record { bytes_per_glyph = 1; height = 1; width = 1; glyphs = λ a. a };
  buffer = 1000;
  vram_size = 64;
}

abbrev screen : Terminal
screen = record {
  width = 4;
  height = 4;
  char_x = 0;
  char_y = 1;
  rows = 4;
  cols = 4;
  bc = 0xFFFFFF;
  fc = 0;
}

abbrev blank : Memory
blank a = 0

starts : init_main_terminal device ≡ record screen { char_y = 0 }
unfolding init_main_terminal
starts = refl

-- The mode that the boot header asks for
boot_pages :
    frame_pages (record { pitch = 4096; x_res = 1024; y_res = 768; bpp = 32; physbase = 0 }) ≡ 768
unfolding frame_pages next_power_of_2
boot_pages = refl

screen-OnScreen : OnScreen screen
screen-OnScreen = omega arith

device-Depth : Depth device 4
device-Depth = omega arith

screen-Colors : Colors screen
screen-Colors = omega arith

draw_glyph-get_pixel_example :
    get_pixel device 2 1 (draw_glyph 1 0 0x41 2 1 device screen blank) ≡ (
      if within 2 1 2 && within (1 + 0) 1 1
      then glyph_color device screen 0x41 0 0
      else get_pixel device 2 1 blank)
draw_glyph-get_pixel_example =
    draw_glyph-get_pixel 1 0 0x41 2 1 2 1 4 device screen blank device-Depth screen-Colors
      (omega arith) (omega arith)

-- The last column leads to the next line.
main_terminal_write-OnScreen_example :
    ((main_terminal_write (65 ∷ 66 ∷ 67 ∷ 68 ∷ 69 ∷ []) device (screen, blank)).0
      ≡ after_text (65 ∷ 66 ∷ 67 ∷ 68 ∷ 69 ∷ []) screen)
    × OnScreen (main_terminal_write (65 ∷ 66 ∷ 67 ∷ 68 ∷ 69 ∷ []) device (screen, blank)).0
main_terminal_write-OnScreen_example =
    main_terminal_write-OnScreen (65 ∷ 66 ∷ 67 ∷ 68 ∷ 69 ∷ []) device screen blank screen-OnScreen

wraps : after_text (65 ∷ 66 ∷ 67 ∷ 68 ∷ 69 ∷ []) screen ≡ record screen { char_x = 1; char_y = 2 }
wraps = refl

main_terminal_write-shown_example :
    get_pixel device
      ((0 + 1) * 1 + 0)
      (1 * 1 + 0)
      (main_terminal_write (65 ∷ 66 ∷ []) device (screen, blank)).1
    ≡ glyph_color device screen (glyph_at 66 device.font) 0 0
main_terminal_write-shown_example =
    main_terminal_write-shown (65 ∷ 66 ∷ []) 1 0 0 4 device screen blank screen-OnScreen
      device-Depth screen-Colors (omega arith) refl (omega arith) (omega arith) (omega arith)
      (omega arith)

screen-Compact : Compact device screen
screen-Compact = omega arith

main_terminal_roll-get_pixel_example :
    get_pixel device 2 1 (main_terminal_roll device screen blank)
    ≡ (if ltb (1 + 1) 4 then get_pixel device 2 2 blank else 0xFFFFFF)
main_terminal_roll-get_pixel_example =
    main_terminal_roll-get_pixel 2 1 device screen blank screen-Compact (omega arith) (omega arith)
      (omega arith) (omega arith)
