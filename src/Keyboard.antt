-- ===== src/Keyboard.antt =====
-- kernel/kernel/keyboard.c and kernel/include/io/keyboard.h: the handler of the keyboard's interrupt. A
-- character is its code. The output buffer is a map from indices, since the code tests no bound.
pub mod Handler
pub mod Typing
mod Tests
use chao_s_os.Prelude.{
  ℕ, zero, suc, ◌+◌, ◌-◌, ◌%◌, ◌^◌, Bool, true, false, ◌&&◌, List, [], ◌∷◌, ◌==◌, ltb, leb,
  if◌then◌else◌, get_or,
}

abbrev pub key_pressed : ℕ
key_pressed = 1

abbrev pub key_released : ℕ
key_released = 0

abbrev pub extend_code_prefix : ℕ
extend_code_prefix = 0xE0

abbrev pub extend_code_flush : ℕ
extend_code_flush = 0

abbrev pub char_invinsible : ℕ
char_invinsible = 0

abbrev pub keyboard_output_buffer_length : ℕ
keyboard_output_buffer_length = 512

-- The scan codes of the keys that the handler keeps a state of; an extended code is masked with
-- SCANCODE_MASK.
abbrev pub l_shift_pressed : ℕ
l_shift_pressed = 0x2A

abbrev pub l_shift_released : ℕ
l_shift_released = 0xAA

abbrev pub r_shift_pressed : ℕ
r_shift_pressed = 0x36

abbrev pub r_shift_released : ℕ
r_shift_released = 0xB6

abbrev pub alt_pressed : ℕ
alt_pressed = 0x38

abbrev pub alt_released : ℕ
alt_released = 0xB8

abbrev pub ctrl_pressed : ℕ
ctrl_pressed = 0x1D

abbrev pub ctrl_released : ℕ
ctrl_released = 0x9D

abbrev pub caps_lock_pressed : ℕ
caps_lock_pressed = 0x3A

-- The static variables of keyboard.c. (`ext_scancode` is never read.)
pub record Keyboard : Type 0 where
  pub extend_flag : ℕ
  pub crtl_status : ℕ
  pub shift_status : ℕ
  pub alt_status : ℕ
  pub caps_lock_status : ℕ
  pub k_index : ℕ
  pub keyboard_output_buffer : ℕ → ℕ

-- The characters of a scan code, without and with shift.
pub record Key : Type 0 where
  pub lower : ℕ
  pub upper : ℕ

abbrev key : ℕ → ℕ → Key
key a b = record { lower = a; upper = b }

unfoldable pub keymap : List Key
keymap =
    key 0 0
    ∷ key 3 3
    ∷ key 49 33
    ∷ key 50 64
    ∷ key 51 35
    ∷ key 52 36
    ∷ key 53 37
    ∷ key 54 94
    ∷ key 55 38
    ∷ key 56 42
    ∷ key 57 40
    ∷ key 48 41
    ∷ key 45 95
    ∷ key 61 43
    ∷ key 8 8
    ∷ key 9 9
    ∷ key 113 81
    ∷ key 119 87
    ∷ key 101 69
    ∷ key 114 82
    ∷ key 116 84
    ∷ key 121 89
    ∷ key 117 85
    ∷ key 105 73
    ∷ key 111 79
    ∷ key 112 80
    ∷ key 91 123
    ∷ key 93 125
    ∷ key 13 13
    ∷ key char_invinsible char_invinsible
    ∷ key 97 65
    ∷ key 115 83
    ∷ key 100 68
    ∷ key 102 70
    ∷ key 103 71
    ∷ key 104 72
    ∷ key 106 74
    ∷ key 107 75
    ∷ key 108 76
    ∷ key 59 58
    ∷ key 39 34
    ∷ key 96 126
    ∷ key char_invinsible char_invinsible
    ∷ key 92 124
    ∷ key 122 90
    ∷ key 120 88
    ∷ key 99 67
    ∷ key 118 86
    ∷ key 98 66
    ∷ key 110 78
    ∷ key 109 77
    ∷ key 44 60
    ∷ key 46 62
    ∷ key 47 63
    ∷ key char_invinsible char_invinsible
    ∷ key 42 42
    ∷ key char_invinsible char_invinsible
    ∷ key 32 32
    ∷ key char_invinsible char_invinsible
    ∷ []

unfoldable pub key_at : ℕ → Key
key_at scancode = get_or keymap scancode (key 0 0)

-- The static variables as `init_keyboard` leaves them; `buffer` is what kmalloc's memory holds.
unfoldable pub init_keyboard : (ℕ → ℕ) → Keyboard
init_keyboard buffer = record {
  extend_flag = 0;
  crtl_status = 0;
  shift_status = 0;
  alt_status = 0;
  caps_lock_status = 0;
  k_index = 0;
  keyboard_output_buffer = buffer;
}

-- `keyboard_output_buffer[k_index++] = c`
unfoldable pub output : ℕ → Keyboard → Keyboard
output c k = record k {
  keyboard_output_buffer = λ i. if i == k.k_index then c else k.keyboard_output_buffer i;
  k_index = (k.k_index + 1) % 2 ^ 32;
}

-- `^` on two truth values
unfoldable pub differ : Bool → Bool → Bool
differ true b = if b then false else true
differ false b = b

unfoldable pub pick : Bool → Key → ℕ
pick shifted p = if shifted then p.upper else p.lower

unfoldable pub is_letter : Key → Bool
is_letter p = leb 97 p.lower && leb p.upper 122

-- The `default` case.
unfoldable pub character : ℕ → Keyboard → Keyboard
character scancode k =
    let p = key_at scancode in
    let shift = k.shift_status == key_pressed in
    let caps = k.caps_lock_status == key_pressed in
    if ltb 0x3A scancode
    then k
    else if is_letter p
    then output (pick (differ shift caps) p) k
    else if p.lower == char_invinsible
    then k
    else output (pick shift p) k

unfoldable pub toggle_caps : Keyboard → Keyboard
toggle_caps k = record k {
  caps_lock_status = if k.caps_lock_status == key_pressed then key_released else key_pressed;
}

-- The switch for a code that follows 0xE0.
unfoldable pub extended : ℕ → Keyboard → Keyboard
extended scancode k =
    if scancode == alt_pressed
    then record k { alt_status = key_pressed }
    else if scancode == alt_released
    then record k { alt_status = key_released }
    else if scancode == ctrl_pressed
    then record k { crtl_status = key_pressed }
    else if scancode == ctrl_released
    then record k { crtl_status = key_released }
    else k

-- The switch for any other code.
unfoldable pub plain : ℕ → Keyboard → Keyboard
plain scancode k =
    if scancode == extend_code_prefix
    then record k { extend_flag = extend_code_prefix }
    else if scancode == l_shift_pressed
    then record k { shift_status = key_pressed }
    else if scancode == l_shift_released
    then record k { shift_status = key_released }
    else if scancode == r_shift_pressed
    then record k { shift_status = key_pressed }
    else if scancode == r_shift_released
    then record k { shift_status = key_released }
    else if scancode == alt_pressed
    then record k { alt_status = key_pressed }
    else if scancode == alt_released
    then record k { alt_status = key_released }
    else if scancode == ctrl_pressed
    then record k { crtl_status = key_pressed }
    else if scancode == ctrl_released
    then record k { crtl_status = key_released }
    else if scancode == caps_lock_pressed
    then toggle_caps k
    else character scancode k

-- `keyboard_input_handler`, for the scan code that it reads from the port
unfoldable pub keyboard_input_handler : ℕ → Keyboard → Keyboard
keyboard_input_handler scancode k =
    if k.extend_flag == extend_code_prefix
    then extended scancode (record k { extend_flag = extend_code_flush })
    else plain scancode k

-- A sequence of interrupts, one for each scan code.
unfoldable pub interrupts : List ℕ → Keyboard → Keyboard
interrupts [] k = k
interrupts (c ∷ cs) k = interrupts cs (keyboard_input_handler c k)
