-- ===== src/Printf/Hexadecimal.antt =====
-- `hex2string` of printf.c against reading the text back.
use chao_s_os.Prelude.{
  ℕ, zero, suc, ◌+◌, ◌-◌, ◌*◌, ◌/◌, ◌%◌, ◌^◌, ◌≤◌, ◌<◌, ◌≡◌, ◌≢◌, ◌⊎◌, refl, true, Bool, ◌&&◌, ◌||◌,
  some, inl, inr, [], ◌∷◌, ◌++◌, ap, ◌∙◌, arith, ◌==◌, leb, Bool-cases, if◌then◌else◌, length,
  get_or, replicate, below, below_sound, ==_iff,
}
use native.Mathlib.Nat.{pow-suc}
use chao_s_os.Printf.Decimal.{first_byte}
use chao_s_os.Printf.{
  Text, HexFormat, map_lower, map_upper, hex_digit, hex_loop, pad_loop, hex_digits, pad, prepend,
  hex2string,
}

-- The value of a hexadecimal digit of either case, and the number that a text of digits stands for,
-- read on from `n`.
abbrev pub digit_value : ℕ → ℕ
digit_value c = if leb c b'9' then c - b'0' else if leb c b'F' then c - 55 else c - 87

unfoldable pub read_hex : ℕ → Text → ℕ
read_hex n [] = n
read_hex n (c ∷ text) = read_hex (n * 16 + digit_value c) text

lower_table : below 16 (λ d. digit_value (get_or map_lower d 0) == d) ≡ true
lower_table = refl

upper_table : below 16 (λ d. digit_value (get_or map_upper d 0) == d) ≡ true
upper_table = refl

hex_digit-value : (flag d : ℕ) → d < 16 → digit_value (hex_digit flag d) ≡ d
unfolding hex_digit
hex_digit-value flag d l = elim (Bool-cases (flag == b'x')) [
  | inl lower ↦ rw lower (
      (==_iff _ d).0
        (below_sound 16 (λ d. digit_value (get_or map_lower d 0) == d) d lower_table l))
  | inr upper ↦ rw upper (
      (==_iff _ d).0
        (below_sound 16 (λ d. digit_value (get_or map_upper d 0) == d) d upper_table l))
]

-- A hexadecimal digit in the case that the directive asks for.
unfoldable pub in_case : ℕ → ℕ → Bool
in_case flag c =
    leb b'0' c && leb c b'9'
    || (if flag == b'x' then leb b'a' c && leb c b'f' else leb b'A' c && leb c b'F')

unfoldable pub AreInCase : ℕ → Text → Type 0
AreInCase flag [] = Unit
AreInCase flag (c ∷ text) = (in_case flag c ≡ true) × AreInCase flag text

lower_case : below 16 (λ d. in_case b'x' (get_or map_lower d 0)) ≡ true
unfolding in_case
lower_case = refl

upper_case : below 16 (λ d. in_case b'X' (get_or map_upper d 0)) ≡ true
unfolding in_case
upper_case = refl

hex_digit-in_case : (flag d : ℕ) → d < 16 → in_case flag (hex_digit flag d) ≡ true
unfolding hex_digit in_case
hex_digit-in_case flag d l = elim (Bool-cases (flag == b'x')) [
  | inl lower ↦ rw lower (below_sound 16 (λ d. in_case b'x' (get_or map_lower d 0)) d lower_case l)
  | inr upper ↦ rw upper (below_sound 16 (λ d. in_case b'X' (get_or map_upper d 0)) d upper_case l)
]

-- Only the digit 0 is written as 0.
hex_digit-zero : (flag d : ℕ) → d < 16 → d ≢ 0 → hex_digit flag d ≢ b'0'
hex_digit-zero flag d l n e = ground (arith, hex_digit-value flag d l, e, n)

-- What the digit loop has done from `n`, with `num` digits written, at index `i`.
record HexDigits (flag n i num k : ℕ) (text : Text) (r : ℕ × ℕ × Text) : Type 0 where
  value : read_hex 0 r.2 ≡ read_hex n text
  count : r.1 ≡ length r.2
  few : r.1 ≤ num + k
  place : r.0 + r.1 ≡ i + num
  cased : AreInCase flag r.2
  none_for_zero : n ≡ 0 → r ≡ (i, num, text)
  lead : n ≢ 0 → first_byte r.2 ≢ b'0'

hex_loop-HexDigits :
    (flag k i n num : ℕ) (text : Text)
    → n < 16 ^ k
    → k ≤ i
    → num ≡ length text
    → AreInCase flag text
    → (r : ℕ × ℕ × Text) × (hex_loop flag i n num text ≡ some r) × HexDigits flag n i num k text r
unfolding hex_loop read_hex AreInCase
hex_loop-HexDigits flag zero zero n num text l m c d =
    let none_left : n ≡ 0 = omega arith in
    (
      (0, num, text),
      rw none_left,
      record {
        value = rw none_left;
        count = c;
        few = omega arith;
        place = omega arith;
        cased = d;
        none_for_zero = λ z. refl;
        lead = λ z. absurd (z none_left);
      },
    )
hex_loop-HexDigits flag zero (suc i) n num text l m c d =
    let none_left : n ≡ 0 = omega arith in
    (
      (suc i, num, text),
      rw none_left,
      record {
        value = rw none_left;
        count = c;
        few = omega arith;
        place = omega arith;
        cased = d;
        none_for_zero = λ z. refl;
        lead = λ z. absurd (z none_left);
      },
    )
hex_loop-HexDigits flag (suc k) zero n num text l m c d = absurd (omega arith)
hex_loop-HexDigits flag (suc k) (suc i) n num text l m c d = elim (Bool-cases (n == 0)) [
  | inl done ↦ (
    (suc i, num, text),
    rw done,
    record {
      value = ground arith;
      count = c;
      few = omega arith;
      place = omega arith;
      cased = d;
      none_for_zero = λ z. refl;
      lead = λ z. absurd (ground arith);
    },
  )
  | inr more ↦
      let (r, ends, got) =
        hex_loop-HexDigits flag k i (n / 2 ^ 4) (num + 1) (hex_digit flag (n % 16) ∷ text)
          (omega (arith, pow-suc 16 k)) (omega arith) (omega arith)
          (hex_digit-in_case flag (n % 16) (omega arith), d) in
      (
        r,
        rw more ends,
        record {
          value =
              got.value
              ∙ ap (λ m. read_hex m text)
                  (omega (arith, hex_digit-value flag (n % 16) (omega arith)));
          count = got.count;
          few = omega (arith, got.few);
          place = omega (arith, got.place);
          cased = got.cased;
          none_for_zero = λ z. absurd (ground arith);
          lead = λ z. leads flag k i n num text r z got;
        },
      )
]
  where
    leads :
        (flag k i n num : ℕ) (text : Text) (r : ℕ × ℕ × Text)
        → n ≢ 0
        → HexDigits flag (n / 2 ^ 4) i (num + 1) k (hex_digit flag (n % 16) ∷ text) r
        → first_byte r.2 ≢ b'0'
    leads flag k i n num text r z got = elim (Bool-cases (n / 2 ^ 4 == 0)) [
      | inl last ↦
          let e = got.none_for_zero (ground arith) in
          let some_digit = hex_digit-zero flag (n % 16) (omega arith) (λ d. ground arith) in
          rw e some_digit
      | inr more ↦ got.lead (ground arith)
    ]

replicate-snoc : (k c : ℕ) (text : Text) → replicate k c ++ c ∷ text ≡ c ∷ replicate k c ++ text
replicate-snoc zero c text = refl
replicate-snoc (suc k) c text = ap (λ t. c ∷ t) (replicate-snoc k c text)

pad_loop_lem :
    (k c i : ℕ) (text : Text) → k ≤ i → pad_loop k c i text ≡ some (i - k, replicate k c ++ text)
unfolding pad_loop
pad_loop_lem zero c i text l = ap (λ j. some (j, text)) (omega arith)
pad_loop_lem (suc k) c zero text l = absurd (omega arith)
pad_loop_lem (suc k) c (suc i) text l =
    pad_loop_lem k c i (c ∷ text) (omega arith)
    ∙ ap (λ t. some (i - k, t)) (replicate-snoc k c text)
    ∙ ap (λ j. some (j, c ∷ replicate k c ++ text)) (omega arith)

-- What a hexadecimal conversion promises of its digits: one at least, in the case that the directive
-- asks for, that read back as the number, and no digit 0 in front of another digit.
pub record IsHexadecimal (flag n : ℕ) (text : Text) : Type 0 where
  pub reads_back : read_hex 0 text ≡ n
  pub cased : AreInCase flag text
  pub some_digit : 0 < length text
  pub canonical : (text ≡ b'0' ∷ []) ⊎ (first_byte text ≢ b'0')

some_hex : (text : Text) → read_hex 0 text ≢ 0 → 0 < length text
unfolding read_hex
some_hex [] n = absurd (n refl)
some_hex (c ∷ text) n = omega arith

-- The digits of a 32-bit number: at most eight, in the buffer of `printf`.
record EightDigits (flag n : ℕ) (r : ℕ × ℕ × Text) : Type 0 where
  written : IsHexadecimal flag n r.2
  count : r.1 ≡ length r.2
  few : r.1 ≤ 8
  place : 90 ≤ r.0

hex_digits-lem :
    (g : HexFormat) (n : ℕ)
    → n < 2 ^ 32
    → (r : ℕ × ℕ × Text) × (hex_digits g n 100 ≡ some r) × EightDigits g.hex_flag n r
unfolding hex_digits read_hex AreInCase in_case
hex_digits-lem g n l = elim (Bool-cases (n == 0)) [
  | inl none_left ↦ (
    (98, 1, b'0' ∷ []),
    rw none_left,
    record {
      written = record {
        reads_back = ground arith;
        cased = (ground arith, tt);
        some_digit = omega arith;
        canonical = inl refl;
      };
      count = refl;
      few = omega arith;
      place = omega arith;
    },
  )
  | inr more ↦
      let (r, ends, got) =
        hex_loop-HexDigits g.hex_flag 8 99 n 0 [] (omega arith) (omega arith) refl tt in
      (
        r,
        rw more ends,
        record {
          written = record {
            reads_back = got.value;
            cased = got.cased;
            some_digit = some_hex r.2 (λ z. absurd (ground (arith, z, got.value)));
            canonical = inr (got.lead (ground arith));
          };
          count = got.count;
          few = omega (arith, got.few);
          place = omega (arith, got.few, got.place);
        },
      )
]

abbrev pub prefix : HexFormat → Text
prefix g = if g.format_sign == b'#' then b'0' ∷ b'x' ∷ [] else []

padded :
    (g : HexFormat) (n : ℕ) (r : ℕ × ℕ × Text)
    → g.hex_digits_max ≤ 8
    → hex_digits g n 100 ≡ some r
    → EightDigits g.hex_flag n r
    → pad g (hex_digits g n 100)
      ≡ some (
        r.0 - (g.hex_digits_max - r.1),
        replicate (g.hex_digits_max - r.1) g.hex_complement ++ r.2,
      )
unfolding pad
padded g n r w e d =
    rw e (pad_loop_lem (g.hex_digits_max - r.1) g.hex_complement r.0 r.2 (omega (arith, d.place)))

prefixed :
    (g : HexFormat) (n i : ℕ) (text : Text)
    → pad g (hex_digits g n 100) ≡ some (suc (suc i), text)
    → (j : ℕ) × (hex2string g n 100 ≡ some (j, prefix g ++ text))
unfolding hex2string prepend
prefixed g n i text e = elim (Bool-cases (g.format_sign == b'#')) [
  | inl sharp ↦ (i, rw (sharp, e))
  | inr plain ↦ (suc (suc i), rw (plain, e))
]

abbrev filled_text : HexFormat → Text → Text
filled_text g digits =
    prefix g ++ (replicate (g.hex_digits_max - length digits) g.hex_complement ++ digits)

hex_text :
    (g : HexFormat) (n i num : ℕ) (text : Text)
    → g.hex_digits_max ≤ 8
    → hex_digits g n 100 ≡ some (i, num, text)
    → EightDigits g.hex_flag n (i, num, text)
    → (j : ℕ) × (hex2string g n 100 ≡ some (j, filled_text g text))
hex_text g n i num text w e d =
    let short = g.hex_digits_max - num in
    let two : i - short ≡ suc (suc (i - short - 2)) = omega (arith, d.place) in
    let same : g.hex_digits_max - num ≡ g.hex_digits_max - length text = omega (arith, d.count) in
    prefixed g n (i - short - 2)
      (replicate (g.hex_digits_max - length text) g.hex_complement ++ text)
      (padded g n (i, num, text) w e d
        ∙ ap (λ k. some (k, replicate short g.hex_complement ++ text)) two
        ∙ ap (λ k. some (suc (suc (i - short - 2)), replicate k g.hex_complement ++ text)) same)

-- hex2string of a 32-bit number, for the widths 0 to 8 that the directives of printf ask for,
-- stays inside the buffer; its text is 0x if the directive has a #, then as many fill bytes as the
-- digits fall short of the width, then one to eight digits of the case that the directive asks
-- for, which read back as the number, with no digit 0 in front of another one.
pub hex2string_lem :
    (g : HexFormat) (n : ℕ)
    → g.hex_digits_max ≤ 8
    → n < 2 ^ 32
    → (j : ℕ) × (digits : Text) × (hex2string g n 100
        ≡ some (
          j,
          prefix g ++ (replicate (g.hex_digits_max - length digits) g.hex_complement ++ digits),
        ))
      × (length digits ≤ 8)
      × IsHexadecimal g.hex_flag n digits
hex2string_lem g n w l =
    let (r, ends, d) = hex_digits-lem g n l in
    let (j, done) = hex_text g n r.0 r.1 r.2 w ends d in
    (j, r.2, done, omega (arith, d.few, d.count), d.written)
