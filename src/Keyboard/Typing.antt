-- ===== src/Keyboard/Typing.antt =====
-- What the keyboard's handler types (kernel/kernel/keyboard.c).
use chao_s_os.Prelude.{
  ℕ, zero, suc, ◌+◌, ◌-◌, ◌^◌, ◌≤◌, ◌<◌, ◌≡◌, ◌≢◌, refl, sym, subst, ◌∙◌, Bool, true, false, arith,
  List, [], ◌∷◌, ◌==◌, ◌&&◌, ◌||◌, not, ltb, leb, if◌then◌else◌, below_sound,
}
use native.Mathlib.Decide.{ℕ_discrete}
use chao_s_os.Keyboard.{
  Keyboard, Key, keyboard_input_handler, plain, character, output, interrupts, is_letter, pick,
  differ, key_at, init_keyboard, keymap, keyboard_output_buffer_length,
}

-- The keys of the letters hold a lower case letter and its capital.
is_paired : Key → Bool
is_paired p = if is_letter p then p.upper + 32 == p.lower else true

letters-is_paired : (c : ℕ) → c < 59 → is_paired (key_at c) ≡ true
unfolding is_paired key_at keymap is_letter
letters-is_paired c l = below_sound 59 (λ c. is_paired (key_at c)) c refl l

-- No key of a character has a modifier's code or the prefix.
is_modifier : ℕ → Bool
is_modifier c =
    c == 0xE0
    || (c == 0x2A
        || (c == 0xAA
            || (c == 0x36
                || (c == 0xB6
                    || (c == 0x38 || (c == 0xB8 || (c == 0x1D || (c == 0x9D || c == 0x3A))))))))

not_modifier : (l : ℕ) (m : Bool) → l ≢ 0 → (l == 0 || not m) ≡ true → m ≡ false
not_modifier l true n h = ground arith
not_modifier l false n h = refl

typed_test : ℕ → Bool
typed_test c = (key_at c).lower == 0 || not (is_modifier c)

-- A code of the table that has a character is no modifier's.
typed_code : (c : ℕ) → c < 59 → (key_at c).lower ≢ 0 → is_modifier c ≡ false
unfolding typed_test is_modifier key_at keymap
typed_code c l n =
    not_modifier (key_at c).lower (is_modifier c) n (below_sound 59 typed_test c refl l)

plain-character : (c : ℕ) (k : Keyboard) → is_modifier c ≡ false → plain c k ≡ character c k
unfolding plain is_modifier
plain-character c k m =
    let e₁ : (c == 0xE0) ≡ false = ground arith in
    let e₂ : (c == 0x2A) ≡ false = ground arith in
    let e₃ : (c == 0xAA) ≡ false = ground arith in
    let e₄ : (c == 0x36) ≡ false = ground arith in
    let e₅ : (c == 0xB6) ≡ false = ground arith in
    let e₆ : (c == 0x38) ≡ false = ground arith in
    let e₇ : (c == 0xB8) ≡ false = ground arith in
    let e₈ : (c == 0x1D) ≡ false = ground arith in
    let e₉ : (c == 0x9D) ≡ false = ground arith in
    let e : (c == 0x3A) ≡ false = ground arith in rw (e₁, e₂, e₃, e₄, e₅, e₆, e₇, e₈, e₉, e) refl

-- What a letter and another key are meant to type, by the states of shift and caps lock: a letter is a
-- capital when exactly one of them is on, and any other key is shifted by shift alone.
unfoldable pub letter : ℕ → Bool → Bool → ℕ
letter l false false = l
letter l true false = l - 32
letter l false true = l - 32
letter l true true = l

unfoldable pub meant : Key → Bool → Bool → ℕ
meant p shift caps =
    if leb 97 p.lower && leb p.lower 122
    then letter p.lower shift caps
    else (if shift then p.upper else p.lower)

-- The two agree on every key of the table.
agrees : Key → Bool → Bool → Bool
agrees p shift caps =
    (if is_letter p then pick (differ shift caps) p else pick shift p) == meant p shift caps

all_agree : Key → Bool
all_agree p =
    agrees p true true && (agrees p true false && (agrees p false true && agrees p false false))

one_agrees : (p : Key) (s c : Bool) → all_agree p ≡ true → agrees p s c ≡ true
unfolding all_agree
one_agrees p true true h = ground arith
one_agrees p true false h = ground arith
one_agrees p false true h = ground arith
one_agrees p false false h = ground arith

picked :
    (c : ℕ) (s b : Bool)
    → c < 59
    → (if is_letter (key_at c) then pick (differ s b) (key_at c) else pick s (key_at c))
      ≡ meant (key_at c) s b
unfolding agrees all_agree key_at keymap is_letter pick differ meant letter
picked c s b l =
    equal _ _ (one_agrees (key_at c) s b (below_sound 59 (λ c. all_agree (key_at c)) c refl l))
  where
    equal : (x y : ℕ) → (x == y) ≡ true → x ≡ y
    equal x y h = ground arith

-- A scan code below 0x3B that has a character and does not follow 0xE0 puts one character into the
-- output buffer: for a letter, its capital exactly when one of shift and caps lock is on; for any
-- other key, the one that shift selects. Nothing else changes.
pub handler-typed :
    (c : ℕ) (k : Keyboard)
    → k.extend_flag ≡ 0
    → c < 59
    → (key_at c).lower ≢ 0
    → keyboard_input_handler c k
      ≡ output (meant (key_at c) (k.shift_status == 1) (k.caps_lock_status == 1)) k
unfolding keyboard_input_handler character
handler-typed c k e l n =
    let unprefixed : (k.extend_flag == 0xE0) ≡ false = ground arith in
    let in_table : ltb 0x3A c ≡ false = ground arith in
    let visible : ((key_at c).lower == 0) ≡ false = ground arith in
    rw
      (
        unprefixed,
        plain-character c k (typed_code c l n),
        in_table,
        visible,
        ← picked c (k.shift_status == 1) (k.caps_lock_status == 1) l,
      )
      (either (is_letter (key_at c)) _ _ k)
  where
    either :
        (b : Bool) (x y : ℕ) (k : Keyboard)
        → (if b then output x k else output y k) ≡ output (if b then x else y) k
    either true x y k = refl
    either false x y k = refl

meant-plain : (p : Key) → meant p false false ≡ p.lower
unfolding meant letter
meant-plain p = ground arith

-- `n` interrupts with one scan code.
pub repeated : ℕ → ℕ → List ℕ
repeated zero c = []
repeated (suc n) c = c ∷ repeated n c

-- What the interrupts leave behind an index, and in the indices that they fill.
record Filled (n ch : ℕ) (k k' : Keyboard) : Type 0 where
  pub index : k'.k_index ≡ k.k_index + n
  pub before : (i : ℕ) → i < k.k_index → k'.keyboard_output_buffer i ≡ k.keyboard_output_buffer i
  pub filled : (i : ℕ) → k.k_index ≤ i → i < k.k_index + n → k'.keyboard_output_buffer i ≡ ch

output-Filled :
    (n ch : ℕ) (k k' : Keyboard)
    → k.k_index + suc n < 2 ^ 32
    → Filled n ch (output ch k) k'
    → Filled (suc n) ch k k'
unfolding output
output-Filled n ch k k' l f = record {
  index = omega (arith, f.index);
  before = λ i b. f.before i (omega arith) ∙ ground arith;
  filled = λ i a b. elim (ℕ_discrete k.k_index i) [
    | yes e ↦ f.before i (omega arith) ∙ ground arith
    | no d ↦ f.filled i (omega arith) (omega arith)
  ];
}

repeated-Filled :
    (n c : ℕ) (k : Keyboard)
    → k.extend_flag ≡ 0
    → c < 59
    → (key_at c).lower ≢ 0
    → k.k_index + n < 2 ^ 32
    → Filled n
        (meant (key_at c) (k.shift_status == 1) (k.caps_lock_status == 1))
        k
        (interrupts (repeated n c) k)
unfolding interrupts repeated output
repeated-Filled zero c k e l v b = record {
  index = omega arith;
  before = λ i b. refl;
  filled = λ i a b. absurd (omega arith);
}
repeated-Filled (suc n) c k e l v b =
    let ch = meant (key_at c) (k.shift_status == 1) (k.caps_lock_status == 1) in
    subst (λ h. Filled (suc n) ch k (interrupts (repeated n c) h)) (sym (handler-typed c k e l v))
      (output-Filled n ch k (interrupts (repeated n c) (output ch k)) b
        (repeated-Filled n c (output ch k) e l v (omega arith)))

-- Holding down a key that types a character, right after `init_keyboard`: every interrupt stores the
-- key's unshifted character at the next index, and for more than 512 interrupts, fewer than 2 ^ 32,
-- the bytes behind the end of the output buffer of 512 bytes are among those stored.
pub typing_past_the_end :
    (buffer : ℕ → ℕ) (n c : ℕ)
    → c < 59
    → (key_at c).lower ≢ 0
    → keyboard_output_buffer_length < n
    → n < 2 ^ 32
    → let k = interrupts (repeated n c) (init_keyboard buffer) in
      (k.k_index ≡ n)
      × ((i : ℕ) → i < n → k.keyboard_output_buffer i ≡ (key_at c).lower)
      × (k.keyboard_output_buffer keyboard_output_buffer_length ≡ (key_at c).lower)
unfolding init_keyboard
typing_past_the_end buffer n c l v long b =
    let f = repeated-Filled n c (init_keyboard buffer) refl l v (omega arith) in
    let unshifted : meant (key_at c) false false ≡ (key_at c).lower = meant-plain (key_at c) in
    (
      omega (arith, f.index),
      λ i u. f.filled i (omega arith) (omega arith) ∙ unshifted,
      f.filled 512 (omega arith) (omega arith) ∙ unshifted,
    )
