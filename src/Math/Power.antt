-- ===== src/Math/Power.antt =====
-- next_power_of_2 and power_of_2 of math.c against the powers of two themselves.
use chao_s_os.Prelude.{
  ℕ, zero, suc, ◌+◌, ◌-◌, ◌*◌, ◌/◌, ◌%◌, ◌^◌, ◌≤◌, ◌<◌, ◌≡◌, ◌≢◌, refl, ap, subst, ◌∙◌, bit_and,
  bit_or, true, false, some, none, inl, inr, arith, Bool-cases, below_sound, bit_and-one, lt_wf,
  bit_or_step, bit_and_step,
}
use mathlib.Core.WellFounded
use native.Mathlib.Decide.{ℕ_discrete, dec_lt}
use native.Mathlib.Nat.{pow-suc, pow-le-pow_right}
use chao_s_os.Math.{is_power_of_2, smear_all, next_power_of_2, power_loop, power_of_2}

-- `|` digit by digit: shifting commutes with it, and the lowest digit is the larger one.
bit_or-half : (a b : ℕ) → bit_or a b / 2 ≡ bit_or (a / 2) (b / 2)
bit_or-half a b = omega (arith, bit_or_step a b)

bit_or-low :
    (a b : ℕ)
    → (bit_or a b % 2 ≡ 0 → (a % 2 ≡ 0) × (b % 2 ≡ 0))
      × (a % 2 ≡ 0 → b % 2 ≡ 0 → bit_or a b % 2 ≡ 0)
bit_or-low a b = omega (arith, bit_or_step a b)

-- A function that halving commutes with.
abbrev Halves : (ℕ → ℕ) → Type 0
Halves f = (n : ℕ) → f n / 2 ≡ f (n / 2)

module _ (f : ℕ → ℕ) (h : Halves f) where
  shift_2 : (n : ℕ) → f n / 4 ≡ f (n / 4)
  shift_2 n = let e : n / 2 / 2 ≡ n / 4 = omega arith in omega (arith, h n, h (n / 2), ap f e)

  shift_4 : (n : ℕ) → f n / 16 ≡ f (n / 16)
  shift_4 n =
      let e : n / 4 / 4 ≡ n / 16 = omega arith in omega (arith, shift_2 n, shift_2 (n / 4), ap f e)

  shift_8 : (n : ℕ) → f n / 256 ≡ f (n / 256)
  shift_8 n =
      let e : n / 16 / 16 ≡ n / 256 = omega arith in
      omega (arith, shift_4 n, shift_4 (n / 16), ap f e)

  shift_16 : (n : ℕ) → f n / 65536 ≡ f (n / 65536)
  shift_16 n =
      let e : n / 256 / 256 ≡ n / 65536 = omega arith in
      omega (arith, shift_8 n, shift_8 (n / 256), ap f e)

-- The next stage of the smearing, where `m` is the power of two of its distance.
stage-Halves :
    (f : ℕ → ℕ) (m : ℕ)
    → Halves f
    → ((n : ℕ) → n / m / 2 ≡ n / 2 / m)
    → Halves (λ n. bit_or (f n) (f n / m))
stage-Halves f m h comm n =
    bit_or-half (f n) (f n / m)
    ∙ ap (λ a. bit_or a (f n / m / 2)) (h n)
    ∙ ap (λ a. bit_or (f (n / 2)) a) (comm (f n) ∙ ap (λ a. a / m) (h n))

abbrev after_1 : ℕ → ℕ
after_1 n = bit_or n (n / 2)

abbrev after_2 : ℕ → ℕ
after_2 n = bit_or (after_1 n) (after_1 n / 4)

abbrev after_4 : ℕ → ℕ
after_4 n = bit_or (after_2 n) (after_2 n / 16)

abbrev after_8 : ℕ → ℕ
after_8 n = bit_or (after_4 n) (after_4 n / 256)

Halves-1 : Halves after_1
Halves-1 = stage-Halves (λ n. n) 2 (λ n. refl) (λ n. refl)

Halves-2 : Halves after_2
Halves-2 = stage-Halves after_1 4 Halves-1 (λ n. omega arith)

Halves-4 : Halves after_4
Halves-4 = stage-Halves after_2 16 Halves-2 (λ n. omega arith)

Halves-8 : Halves after_8
Halves-8 = stage-Halves after_4 256 Halves-4 (λ n. omega arith)

smear_all-half : Halves smear_all
unfolding smear_all
smear_all-half = stage-Halves after_8 65536 Halves-8 (λ n. omega arith)

-- The lowest digit after each stage is 0 only if all the digits that it gathers are 0.
low_1 : (n : ℕ) → after_1 n % 2 ≡ 0 → n % 4 ≡ 0
low_1 n e = let (a, b) = (bit_or-low n (n / 2)).0 e in omega arith

low_2 : (n : ℕ) → after_2 n % 2 ≡ 0 → n % 16 ≡ 0
low_2 n e =
    let (a, b) = (bit_or-low (after_1 n) (after_1 n / 4)).0 e in
    omega (arith, low_1 n a, low_1 (n / 4) (rw (← shift_2 after_1 Halves-1 n) b))

low_4 : (n : ℕ) → after_4 n % 2 ≡ 0 → n % 256 ≡ 0
low_4 n e =
    let (a, b) = (bit_or-low (after_2 n) (after_2 n / 16)).0 e in
    omega (arith, low_2 n a, low_2 (n / 16) (rw (← shift_4 after_2 Halves-2 n) b))

low_8 : (n : ℕ) → after_8 n % 2 ≡ 0 → n % 65536 ≡ 0
low_8 n e =
    let (a, b) = (bit_or-low (after_4 n) (after_4 n / 256)).0 e in
    omega (arith, low_4 n a, low_4 (n / 256) (rw (← shift_8 after_4 Halves-4 n) b))

smear_all-low : (n : ℕ) → smear_all n % 2 ≡ 0 → n % 2 ^ 32 ≡ 0
unfolding smear_all
smear_all-low n e =
    let (a, b) = (bit_or-low (after_8 n) (after_8 n / 65536)).0 e in
    omega (arith, low_8 n a, low_8 (n / 65536) (rw (← shift_16 after_8 Halves-8 n) b))

smear_all-one : (n : ℕ) → 0 < n → n < 2 ^ 32 → smear_all n % 2 ≡ 1
smear_all-one n p l = elim (ℕ_discrete (smear_all n % 2) 0) [
  | yes e ↦ absurd (omega (arith, smear_all-low n e))
  | no e ↦ omega arith
]

smear_1 : smear_all 1 ≡ 1
unfolding smear_all
smear_1 = refl

-- `r` is the least power of two above `n`.
abbrev Above : ℕ → ℕ → Type 0
Above n r = (k : ℕ) × (r ≡ 2 ^ suc k) × (n < 2 ^ suc k) × (2 ^ k ≤ n)

smear_all-Above : (n : ℕ) → 0 < n → n < 2 ^ 32 → Above n (smear_all n + 1)
smear_all-Above n =
    WellFounded.induction lt_wf {C = λ n. 0 < n → n < 2 ^ 32 → Above n (smear_all n + 1)} n go
  where
    go :
        (n : ℕ)
        → ((m : ℕ) → m < n → 0 < m → m < 2 ^ 32 → Above m (smear_all m + 1))
        → 0 < n
        → n < 2 ^ 32
        → Above n (smear_all n + 1)
    go zero ih p l = absurd (omega arith)
    go (suc zero) ih p l = (0, omega (arith, smear_1), omega arith, omega arith)
    go (suc (suc n)) ih p l =
        let m = suc (suc n) / 2 in
        let (k, e, a, b) = ih m (omega arith) (omega arith) (omega arith) in
        (
          suc k,
          omega (
            arith,
            smear_all-half (suc (suc n)),
            smear_all-one (suc (suc n)) p l,
            pow-suc 2 (suc k),
          ),
          omega (arith, pow-suc 2 (suc k)),
          omega (arith, pow-suc 2 k),
        )

-- A power of two is not changed, and its test is passed by powers of two alone.
pub is_power_of_2-pow : (k : ℕ) → k < 32 → is_power_of_2 (2 ^ k) ≡ true
unfolding is_power_of_2
is_power_of_2-pow k l = below_sound 32 (λ k. is_power_of_2 (2 ^ k)) k refl l

bit_and_self : (n : ℕ) → bit_and n n ≡ n
bit_and_self n = WellFounded.induction lt_wf {C = λ n. bit_and n n ≡ n} n go
  where
    go : (n : ℕ) → ((m : ℕ) → m < n → bit_and m m ≡ m) → bit_and n n ≡ n
    go zero ih = refl
    go (suc n) ih = omega (arith, bit_and_step (suc n) (suc n), ih (suc n / 2) (omega arith))

-- A number that has no digit in common with its predecessor is a power of two.
pow_of_bit_and : (n : ℕ) → 0 < n → bit_and (n - 1) n ≡ 0 → (k : ℕ) × (n ≡ 2 ^ k)
pow_of_bit_and n =
    WellFounded.induction lt_wf {C = λ n. 0 < n → bit_and (n - 1) n ≡ 0 → (k : ℕ) × (n ≡ 2 ^ k)} n
      go
  where
    even :
        (n : ℕ)
        → ((m : ℕ) → m < n → 0 < m → bit_and (m - 1) m ≡ 0 → (k : ℕ) × (m ≡ 2 ^ k))
        → 0 < n
        → n % 2 ≡ 0
        → bit_and (n - 1) n ≡ 0
        → (k : ℕ) × (n ≡ 2 ^ k)
    even n ih p z e =
        let half : (n - 1) / 2 ≡ n / 2 - 1 = omega arith in
        let rest : bit_and ((n - 1) / 2) (n / 2) ≡ 0 = omega (arith, bit_and_step (n - 1) n) in
        let (k, q) = ih (n / 2) (omega arith) (omega arith) (rw half at rest) in
        (suc k, omega (arith, pow-suc 2 k))

    go :
        (n : ℕ)
        → ((m : ℕ) → m < n → 0 < m → bit_and (m - 1) m ≡ 0 → (k : ℕ) × (m ≡ 2 ^ k))
        → 0 < n
        → bit_and (n - 1) n ≡ 0
        → (k : ℕ) × (n ≡ 2 ^ k)
    go n ih p e = elim (ℕ_discrete (n % 2) 0) [
      | yes z ↦ even n ih p z e
      | no o ↦
          let half : (n - 1) / 2 ≡ n / 2 = omega arith in
          let rest : bit_and ((n - 1) / 2) (n / 2) ≡ 0 = omega (arith, bit_and_step (n - 1) n) in
          (0, omega (arith, bit_and_self (n / 2), rw half at rest))
    ]

is_power_of_2-inv : (n : ℕ) → 0 < n → n < 2 ^ 32 → is_power_of_2 n ≡ true → (k : ℕ) × (n ≡ 2 ^ k)
unfolding is_power_of_2
is_power_of_2-inv n p l e =
    let before : (n + 2 ^ 32 - 1) % 2 ^ 32 ≡ n - 1 = omega arith in
    pow_of_bit_and n p (ground (arith, ap (λ m. bit_and m n) before))

exponent-lt : (k : ℕ) → 2 ^ k < 2 ^ 32 → k < 32
exponent-lt k l = elim (dec_lt k 32) [
  | yes small ↦ small
  | no large ↦
      let grows : 2 ^ 32 ≤ 2 ^ k =
        pow-le-pow_right {n = 2} (omega arith) {i = 32} {j = k} (omega arith) in
      absurd (omega arith)
]

smear_all-next :
    (n : ℕ)
    → 0 < n
    → n ≤ 2 ^ 31
    → is_power_of_2 n ≡ false
    → (k : ℕ) × ((smear_all n + 1) % 2 ^ 32 ≡ 2 ^ k) × (n ≤ 2 ^ k) × (2 ^ k < 2 * n)
smear_all-next n p l e =
    let (k, same, above, below) = smear_all-Above n p (omega arith) in
    let not_equal : 2 ^ k ≢ n = λ q.
      let yes_power : is_power_of_2 n ≡ true =
        subst (λ m. is_power_of_2 m ≡ true) q (is_power_of_2-pow k (exponent-lt k (omega arith))) in
      cc in
    let doubled : 2 ^ suc k ≡ 2 ^ k * 2 = pow-suc 2 k in
    (suc k, omega arith, omega arith, omega arith)

-- `next_power_of_2` of a number from 1 to 2147483648 is the least power of two that is not below it:
-- it is a power of two, at least the number, and less than twice the number.
pub next_power_of_2_lem :
    (n : ℕ)
    → 0 < n
    → n ≤ 2 ^ 31
    → (k : ℕ) × (next_power_of_2 n ≡ 2 ^ k) × (n ≤ 2 ^ k) × (2 ^ k < 2 * n)
unfolding next_power_of_2
next_power_of_2_lem n p l = elim (Bool-cases (is_power_of_2 n)) [
  | inl power ↦
      let (k, e) = is_power_of_2-inv n p (omega arith) power in
      (k, rw power e, omega arith, omega arith)
  | inr other ↦ let (k, e, a, b) = smear_all-next n p l other in (k, rw other e, a, b)
]

pow_even : (k : ℕ) → (2 ^ suc k % 2 ≡ 0) × (2 ^ suc k / 2 ≡ 2 ^ k)
pow_even k = omega (arith, pow-suc 2 k)

power_loop-pow : (f k i : ℕ) → k < f → power_loop f (2 ^ k) i ≡ some (i + k)
unfolding power_loop
power_loop-pow zero k i l = absurd (omega arith)
power_loop-pow (suc f) zero i l = ap some (omega arith)
power_loop-pow (suc f) (suc k) i l =
    let low : bit_and (2 ^ suc k) 1 ≡ 0 = omega (arith, bit_and-one (2 ^ suc k), pow_even k) in
    rw (low, (pow_even k).1) (power_loop-pow f k (i + 1) (omega arith) ∙ ap some (omega arith))

-- `power_of_2` returns the exponent of every power of two that fits 32 bits.
pub power_of_2-pow : (k : ℕ) → k < 32 → power_of_2 (2 ^ k) ≡ some k
unfolding power_of_2
power_of_2-pow k l = power_loop-pow 32 k 0 l ∙ ap some (omega arith)

-- For 0 the loop of `power_of_2` never ends, whatever number of rounds it is given.
pub power_loop-zero : (f i : ℕ) → power_loop f 0 i ≡ none
unfolding power_loop
power_loop-zero zero i = refl
power_loop-zero (suc f) i = power_loop-zero f (i + 1)
