-- ===== src/Printf/Decimal.antt =====
-- The decimal conversions of printf.c against reading the text back.
use chao_s_os.Prelude.{
  ℕ, zero, suc, ◌+◌, ◌-◌, ◌*◌, ◌/◌, ◌%◌, ◌^◌, ◌≤◌, ◌<◌, ◌≡◌, ◌≢◌, refl, some, inl, inr, ◌⊎◌, [],
  ◌∷◌, ap, ◌∙◌, arith, ◌==◌, leb, length, true, false, Bool-cases,
}
use native.Mathlib.Decide.{dec_lt}
use native.Mathlib.Nat.{pow-suc}
use chao_s_os.Printf.{Text, uint_loop, uint2string, int2string, magnitude, prepend}

-- The number that a text of digits stands for, read on from `n`.
unfoldable pub read_decimal : ℕ → Text → ℕ
read_decimal n [] = n
read_decimal n (c ∷ text) = read_decimal (n * 10 + (c - b'0')) text

abbrev pub IsDigits : Text → Type 0
IsDigits [] = Unit
IsDigits (c ∷ text) = (b'0' ≤ c) × (c ≤ b'9') × IsDigits text

abbrev pub first_byte : Text → ℕ
first_byte [] = 0
first_byte (c ∷ text) = c

-- The digits of `n` in front of `text`, with no digit 0 in front of them.
record Digits (n : ℕ) (text : Text) (i : ℕ) (r : ℕ × Text) : Type 0 where
  value : read_decimal 0 r.1 ≡ read_decimal n text
  digits : IsDigits r.1
  room : r.0 ≤ i
  none_for_zero : n ≡ 0 → r ≡ (i, text)
  lead : n ≢ 0 → (first_byte r.1 ≢ b'0') × (r.0 < i)

uint_loop-Digits :
    (i n : ℕ) (text : Text)
    → n < 10 ^ i
    → IsDigits text
    → (r : ℕ × Text) × (uint_loop i n text ≡ some r) × Digits n text i r
unfolding uint_loop read_decimal
uint_loop-Digits zero n text l d =
    let none_left : n ≡ 0 = omega arith in
    (
      (0, text),
      rw none_left,
      record {
        value = rw none_left;
        digits = d;
        room = omega arith;
        none_for_zero = λ z. refl;
        lead = λ z. absurd (z none_left);
      },
    )
uint_loop-Digits (suc i) n text l d = elim (Bool-cases (n == 0)) [
  | inl done ↦ (
    (suc i, text),
    rw done,
    record {
      value = ground arith;
      digits = d;
      room = omega arith;
      none_for_zero = λ z. refl;
      lead = λ z. absurd (ground arith);
    },
  )
  | inr more ↦
      let (r, ends, got) =
        uint_loop-Digits i (n / 10) ((n % 10 + b'0') ∷ text) (omega (arith, pow-suc 10 i))
          (omega arith, omega arith, d) in
      (
        r,
        rw more ends,
        record {
          value = got.value ∙ ap (λ k. read_decimal k text) (omega arith);
          digits = got.digits;
          room = omega (arith, got.room);
          none_for_zero = λ z. absurd (ground arith);
          lead = λ z. leads i n text r z got;
        },
      )
]
  where
    leads :
        (i n : ℕ) (text : Text) (r : ℕ × Text)
        → n ≢ 0
        → Digits (n / 10) ((n % 10 + b'0') ∷ text) i r
        → (first_byte r.1 ≢ b'0') × (r.0 < suc i)
    leads i n text r z got = elim (Bool-cases (n / 10 == 0)) [
      | inl last ↦
          let e = got.none_for_zero (ground arith) in
          let small : n / 10 ≡ 0 = ground arith in (rw e (omega arith), omega (arith, got.room))
      | inr more ↦ ((got.lead (ground arith)).0, omega (arith, got.room))
    ]

-- A text that does not read as 0 has a digit.
digits_left : (text : Text) → read_decimal 0 text ≢ 0 → 0 < length text
unfolding read_decimal
digits_left [] n = absurd (n refl)
digits_left (c ∷ text) n = omega arith

-- What a decimal conversion promises of its text: at least one digit, digits that read back as the number, and no digit
-- 0 in front of another digit.
pub record IsDecimal (n : ℕ) (text : Text) : Type 0 where
  pub reads_back : read_decimal 0 text ≡ n
  pub digits : IsDigits text
  pub some_digit : 0 < length text
  pub canonical : (text ≡ b'0' ∷ []) ⊎ (first_byte text ≢ b'0')

uint2string_any :
    (n max_size : ℕ)
    → n < 10 ^ (max_size - 1)
    → 2 ≤ max_size
    → (i : ℕ) × (text : Text) × (uint2string n max_size ≡ some (i, text))
      × (i < max_size - 1)
      × IsDecimal n text
unfolding uint2string read_decimal
uint2string_any n max_size l m = elim (Bool-cases (n == 0)) [
  | inl none_left ↦ (
    max_size - 1 - 1,
    b'0' ∷ [],
    rw none_left,
    omega arith,
    record {
      reads_back = ground arith;
      digits = omega arith;
      some_digit = omega arith;
      canonical = inl refl;
    },
  )
  | inr some_left ↦
      let (r, ends, got) = uint_loop-Digits (max_size - 1) n [] l tt in
      let lead = got.lead (ground arith) in
      (
        r.0,
        r.1,
        rw some_left ends,
        lead.1,
        record {
          reads_back = got.value;
          digits = got.digits;
          some_digit = digits_left r.1 (λ z. absurd (ground (arith, z, got.value)));
          canonical = inr lead.0;
        },
      )
]

-- `uint2string` of a 32-bit number into the buffer of `printf` stays inside the buffer and returns
-- the number's decimal digits: read back they give the number, and no 0 stands in front.
pub uint2string_lem :
    (n : ℕ)
    → n < 2 ^ 32
    → (i : ℕ) × (text : Text) × (uint2string n 100 ≡ some (i, text)) × (i < 99) × IsDecimal n text
uint2string_lem n l = uint2string_any n 100 (omega arith) (omega arith)

magnitude_lem : (w : ℕ) → 2 ^ 31 ≤ w → w < 2 ^ 32 → magnitude w ≡ 2 ^ 32 - w
unfolding magnitude
magnitude_lem w l h = omega arith

prepend-some : (c i : ℕ) (text : Text) → 0 < i → prepend c (some (i, text)) ≡ some (i - 1, c ∷ text)
unfolding prepend
prepend-some c zero text l = absurd (omega arith)
prepend-some c (suc i) text l = ap (λ k. some (k, c ∷ text)) (omega arith)

-- A number of at most `k` digits takes at most `k` places.
uint_loop-room :
    (k i n : ℕ) (text : Text) (r : ℕ × Text)
    → n < 10 ^ k
    → uint_loop i n text ≡ some r
    → i ≤ r.0 + k
unfolding uint_loop
uint_loop-room zero zero n text r l e = omega arith
uint_loop-room (suc k) zero n text r l e = omega arith
uint_loop-room zero (suc i) n text r l e = let none_left : n ≡ 0 = omega arith in ground arith
uint_loop-room (suc k) (suc i) n text r l e = elim (Bool-cases (n == 0)) [
  | inl done ↦ ground arith
  | inr more ↦ omega (
    arith,
    uint_loop-room k i (n / 10) ((n % 10 + b'0') ∷ text) r (omega (arith, pow-suc 10 k))
        (rw more at e),
  )
]

uint2string_room :
    (n max_size i : ℕ) (text : Text)
    → 12 ≤ max_size
    → n < 10 ^ 10
    → uint2string n max_size ≡ some (i, text)
    → 0 < i
unfolding uint2string
uint2string_room n max_size i text m l e = elim (Bool-cases (n == 0)) [
  | inl none_left ↦ ground arith
  | inr more ↦ omega (arith, uint_loop-room 10 (max_size - 1) n [] (i, text) l (rw more at e))
]

int2string_negative :
    (w i : ℕ) (text : Text)
    → 2 ^ 31 ≤ w
    → w < 2 ^ 32
    → uint2string (2 ^ 32 - w) 99 ≡ some (i, text)
    → int2string w 100 ≡ some (i - 1, b'-' ∷ text)
unfolding int2string
int2string_negative w i text low l ends =
    let negative : leb (2 ^ 31) w ≡ true = ground arith in
    rw (negative, magnitude_lem w low l, ends)
      (prepend-some b'-' i text
        (uint2string_room (2 ^ 32 - w) 99 i text (omega arith) (omega arith) ends))

int2string_positive : (w : ℕ) → w < 2 ^ 31 → int2string w 100 ≡ uint2string w 100
unfolding int2string
int2string_positive w l =
    let not_negative : leb (2 ^ 31) w ≡ false = ground arith in rw not_negative

-- int2string of an int into the buffer of printf: a number that is not negative is written as its
-- decimal digits, one at least and none of them a 0 in front of another, and a negative one, down
-- to -2147483648, as - and the decimal digits of its absolute value.
pub int2string_lem :
    (w : ℕ)
    → w < 2 ^ 32
    → (i : ℕ) × (text : Text) × ((w < 2 ^ 31)
          × (int2string w 100 ≡ some (i, text))
          × IsDecimal w text
        ⊎ (2 ^ 31 ≤ w) × (int2string w 100 ≡ some (i, b'-' ∷ text)) × IsDecimal (2 ^ 32 - w) text)
int2string_lem w l = elim (dec_lt w (2 ^ 31)) [
  | yes small ↦
      let (i, text, ends, inside, got) = uint2string_any w 100 (omega arith) (omega arith) in
      (i, text, inl (small, int2string_positive w small ∙ ends, got))
  | no large ↦
      let low : 2 ^ 31 ≤ w = omega arith in
      let (i, text, ends, inside, got) =
        uint2string_any (2 ^ 32 - w) 99 (omega arith) (omega arith) in
      (i - 1, text, inr (low, int2string_negative w i text low l ends, got))
]
