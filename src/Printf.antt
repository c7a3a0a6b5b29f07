-- ===== src/Printf.antt =====
-- libc/stdio/printf.c, puts.c: the conversions of numbers to text and the interpreter of formats.
-- Text is the list of its bytes, without the closing NUL.
pub mod Decimal
pub mod Format
pub mod Hexadecimal
pub mod Count
pub mod Output
mod Tests
use chao_s_os.Prelude.{
  ℕ, zero, suc, ◌+◌, ◌-◌, ◌*◌, ◌/◌, ◌%◌, ◌^◌, ◌<◌, ◌≤◌, Bool, true, false, ◌&&◌, ◌||◌, Option, none,
  some, List, [], ◌∷◌, ◌++◌, ◌==◌, ltb, leb, if◌then◌else◌, length, get_or, drop,
}

abbrev pub Text : Type 0
Text = List ℕ

-- What a conversion leaves in `buf`: the index `i` of its first byte, and the text from there to the
-- NUL. `none` is a write in front of the buffer.
abbrev pub Converted : Type 0
Converted = Option (ℕ × Text)

-- The loop of `uint2string` at index `i`: it stops when no digit is left, and the write at
-- index -1 is the fault.
unfoldable pub uint_loop : ℕ → ℕ → Text → Converted
uint_loop zero n text = if n == 0 then some (0, text) else none
uint_loop (suc i) n text =
    let rest = uint_loop i (n / 10) ((n % 10 + b'0') ∷ text) in
    if n == 0 then some (suc i, text) else rest

unfoldable pub uint2string : ℕ → ℕ → Converted
uint2string n max_size =
    if n == 0 then some (max_size - 1 - 1, b'0' ∷ []) else uint_loop (max_size - 1) n []

-- `*(--tmp) = '-'`
unfoldable pub prepend : ℕ → Converted → Converted
prepend c none = none
prepend c (some (zero, text)) = none
prepend c (some (suc i, text)) = some (i, c ∷ text)

-- `num` of `int2string` for a negative `n`, given as its bit pattern.
unfoldable pub magnitude : ℕ → ℕ
magnitude w = let n = (w + 1) % 2 ^ 32 in let num = (2 ^ 32 - n) % 2 ^ 32 in (num + 1) % 2 ^ 32

-- An `int` is its bit pattern, below `2 ^ 32`; it is negative from `2 ^ 31` on.
unfoldable pub int2string : ℕ → ℕ → Converted
int2string w max_size =
    if leb (2 ^ 31) w
    then prepend b'-' (uint2string (magnitude w) (max_size - 1))
    else uint2string w max_size

-- The globals that a directive sets for `hex2string`.
pub record HexFormat : Type 0 where
  pub hex_digits_max : ℕ
  pub hex_flag : ℕ
  pub hex_complement : ℕ
  pub format_sign : ℕ

abbrev pub initial_format : HexFormat
initial_format = record {
  hex_digits_max = 0;
  hex_flag = b'x';
  hex_complement = b'0';
  format_sign = b'#';
}

-- `mapx` and `mapX`
abbrev pub map_lower : Text
map_lower =
    b'0' ∷ b'1' ∷ b'2' ∷ b'3' ∷ b'4' ∷ b'5' ∷ b'6' ∷ b'7' ∷ b'8' ∷ b'9' ∷ b'a' ∷ b'b' ∷ b'c' ∷ b'd'
    ∷ b'e' ∷ b'f' ∷ []

abbrev pub map_upper : Text
map_upper =
    b'0' ∷ b'1' ∷ b'2' ∷ b'3' ∷ b'4' ∷ b'5' ∷ b'6' ∷ b'7' ∷ b'8' ∷ b'9' ∷ b'A' ∷ b'B' ∷ b'C' ∷ b'D'
    ∷ b'E' ∷ b'F' ∷ []

unfoldable pub hex_digit : ℕ → ℕ → ℕ
hex_digit flag d = if flag == b'x' then get_or map_lower d 0 else get_or map_upper d 0

-- The loop of `hex2string`; the last part of the result is `num`, the digits written.
unfoldable pub hex_loop : ℕ → ℕ → ℕ → ℕ → Text → Option (ℕ × ℕ × Text)
unfolding hex_digit
hex_loop flag zero n num text = if n == 0 then some (0, num, text) else none
hex_loop flag (suc i) n num text =
    let rest = hex_loop flag i (n / 2 ^ 4) (num + 1) (hex_digit flag (n % 16) ∷ text) in
    if n == 0 then some (suc i, num, text) else rest

-- `while (num < hex_digits_max)`: `k` rounds are left.
unfoldable pub pad_loop : ℕ → ℕ → ℕ → Text → Converted
pad_loop zero c i text = some (i, text)
pad_loop (suc k) c zero text = none
pad_loop (suc k) c (suc i) text = pad_loop k c i (c ∷ text)

unfoldable pub hex_digits : HexFormat → ℕ → ℕ → Option (ℕ × ℕ × Text)
hex_digits g n max_size =
    if n == 0
    then some (max_size - 1 - 1, 1, b'0' ∷ [])
    else hex_loop g.hex_flag (max_size - 1) n 0 []

unfoldable pub pad : HexFormat → Option (ℕ × ℕ × Text) → Converted
pad g none = none
pad g (some (i, num, text)) = pad_loop (g.hex_digits_max - num) g.hex_complement i text

unfoldable pub hex2string : HexFormat → ℕ → ℕ → Converted
hex2string g n max_size =
    let padded = pad g (hex_digits g n max_size) in
    if g.format_sign == b'#' then prepend b'0' (prepend b'x' padded) else padded
