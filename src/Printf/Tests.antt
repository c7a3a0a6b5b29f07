-- ===== src/Printf/Tests.antt =====
-- `printf` at concrete formats, and its theorems at concrete arguments.
use chao_s_os.Prelude.{
  ℕ, ◌-◌, ◌^◌, ◌≤◌, ◌<◌, ◌≡◌, ◌⊎◌, refl, some, [], ◌∷◌, ◌++◌, arith, length, replicate,
}
use chao_s_os.Printf.{Text, HexFormat, initial_format, uint2string, int2string, hex2string}
use chao_s_os.Printf.{uint_loop, prepend, pad, hex_digits, hex_loop, pad_loop}
use chao_s_os.Printf.Decimal.{IsDecimal, int2string_lem}
use chao_s_os.Printf.Hexadecimal.{IsHexadecimal, prefix, hex2string_lem}
use chao_s_os.Printf.Format.{word, printf}
use chao_s_os.Printf.Count.{EndsCounted, printf-counted}

-- `%#08X`
abbrev sharp_eight : HexFormat
sharp_eight = record {
  hex_digits_max = 8;
  hex_flag = b'X';
  hex_complement = b'0';
  format_sign = b'#';
}

hex_runs :
    hex2string sharp_eight 0xC0DE 100
    ≡ some (89, b'0' ∷ b'x' ∷ b'0' ∷ b'0' ∷ b'0' ∷ b'0' ∷ b'C' ∷ b'0' ∷ b'D' ∷ b'E' ∷ [])
unfolding hex2string prepend pad hex_digits hex_loop pad_loop
hex_runs = refl

-- -2147483648
int2string_lem_example :
    (i : ℕ) × (text : Text) × ((2147483648 < 2 ^ 31)
        × (int2string 2147483648 100 ≡ some (i, text))
        × IsDecimal 2147483648 text
      ⊎ (2 ^ 31 ≤ 2147483648)
        × (int2string 2147483648 100 ≡ some (i, b'-' ∷ text))
        × IsDecimal (2 ^ 32 - 2147483648) text)
int2string_lem_example = int2string_lem 2147483648 (omega arith)

hex2string_lem_example :
    (j : ℕ) × (digits : Text) × (hex2string sharp_eight 0xC0DE 100
      ≡ some (j, prefix sharp_eight ++ (replicate (8 - length digits) b'0' ++ digits)))
    × (length digits ≤ 8)
    × IsHexadecimal b'X' 0xC0DE digits
hex2string_lem_example = hex2string_lem sharp_eight 0xC0DE (omega arith) (omega arith)

printf-counted_example : EndsCounted (printf initial_format (b'%' ∷ b'd' ∷ b'!' ∷ []) (word 7 ∷ []))
printf-counted_example = printf-counted initial_format (b'%' ∷ b'd' ∷ b'!' ∷ []) (word 7 ∷ [])

seven : int2string 7 100 ≡ some (98, b'7' ∷ [])
unfolding int2string uint2string uint_loop
seven = refl
