-- ===== src/Keyboard/Tests.antt =====
-- The keyboard's handler at scan codes.
use chao_s_os.Prelude.{ℕ, ◌≡◌, ◌≢◌, refl, List, [], ◌∷◌, arith, ◌==◌}
use chao_s_os.Keyboard.{
  Keyboard, init_keyboard, interrupts, keyboard_input_handler, plain, character, output, key_at,
  keymap, is_letter, pick, differ,
}
use chao_s_os.Keyboard.Typing.{handler-typed, meant}

abbrev empty_buffer : ℕ → ℕ
empty_buffer i = 0

-- Shift, a, the release of shift, and a.
abbrev capital_and_small : List ℕ
capital_and_small = 0x2A ∷ 0x1E ∷ 0xAA ∷ 0x1E ∷ []

types_A : (interrupts capital_and_small (init_keyboard empty_buffer)).keyboard_output_buffer 0 ≡ 65
unfolding interrupts keyboard_input_handler plain character output key_at keymap is_letter pick
    differ init_keyboard
types_A = refl

types_a : (interrupts capital_and_small (init_keyboard empty_buffer)).keyboard_output_buffer 1 ≡ 97
unfolding interrupts keyboard_input_handler plain character output key_at keymap is_letter pick
    differ init_keyboard
types_a = refl

abbrev shifted : Keyboard
shifted = record {
  extend_flag = 0;
  crtl_status = 0;
  shift_status = 1;
  alt_status = 0;
  caps_lock_status = 0;
  k_index = 3;
  keyboard_output_buffer = empty_buffer;
}

a_typed : (key_at 0x1E).lower ≢ 0
unfolding key_at keymap
a_typed e = absurd (omega (arith, e))

handler-typed_example :
    keyboard_input_handler 0x1E shifted
    ≡ output
        (meant (key_at 0x1E) (shifted.shift_status == 1) (shifted.caps_lock_status == 1))
        shifted
handler-typed_example = handler-typed 0x1E shifted refl (omega arith) a_typed
