-- ===== src/Prelude/BitSteps.antt =====
-- One binary digit of a bitwise operation of C at a time: the lowest digit, and twice what the halves
-- give.
use Prim.Native.Nat.{ℕ, zero, suc, ◌+◌, ◌*◌, ◌/◌, ◌%◌, ◌≤◌, ◌<◌, min, max, digits, differ}
use Prim.Native.Nat.{bit_and, bit_or, bit_xor, bit_and-bitwise, bit_or-bitwise, bit_xor-bitwise}
use mathlib.Core.Path.{◌≡◌, refl, sym, ◌∙◌, ap}
use mathlib.Core.WellFounded
use native.Mathlib.Omega.{arith}
use chao_s_os.Prelude.Order.{lt_wf}

-- The operation `op` on digits, `left` where the first number has run out.
module _ (left : ℕ → ℕ) (op : ℕ → ℕ → ℕ) where
  -- A number is fuel enough for its own digits.
  Sated : ℕ → Type 0
  Sated a = (f b : ℕ) → a ≤ f → digits left op f a b ≡ digits left op a a b

  sated : (a : ℕ) → Sated a
  unfolding Sated
  sated a = WellFounded.induction lt_wf {C = Sated} a go
    where
      go : (n : ℕ) → ((m : ℕ) → m < n → Sated m) → Sated n
      go zero ih zero b l = refl
      go zero ih (suc f) b l = refl
      go (suc n) ih zero b l = absurd (omega arith)
      go (suc n) ih (suc f) b l =
          let smaller = ih (suc n / 2) (omega arith) in
          ap (λ (d : ℕ). d * 2 + op (suc n % 2) (b % 2))
            (smaller f (b / 2) (omega arith) ∙ sym (smaller n (b / 2) (omega arith)))

  lowest_digit :
      (n b : ℕ)
      → digits left op (suc n) (suc n) b
        ≡ op (suc n % 2) (b % 2) + 2 * digits left op (suc n / 2) (suc n / 2) (b / 2)
  unfolding Sated
  lowest_digit n b =
      let enough = sated (suc n / 2) n (b / 2) (omega arith) in
      ap (λ (d : ℕ). d * 2 + op (suc n % 2) (b % 2)) enough ∙ omega arith

pub bit_and_step : (x y : ℕ) → bit_and x y ≡ min (x % 2) (y % 2) + 2 * bit_and (x / 2) (y / 2)
bit_and_step zero y = simp bit_and-bitwise (omega arith)
bit_and_step (suc n) y = simp bit_and-bitwise (lowest_digit (λ d. 0) min n y)

pub bit_or_step : (x y : ℕ) → bit_or x y ≡ max (x % 2) (y % 2) + 2 * bit_or (x / 2) (y / 2)
bit_or_step zero y = simp bit_or-bitwise (omega arith)
bit_or_step (suc n) y = simp bit_or-bitwise (lowest_digit (λ d. d) max n y)

pub bit_xor_step : (x y : ℕ) → bit_xor x y ≡ differ (x % 2) (y % 2) + 2 * bit_xor (x / 2) (y / 2)
bit_xor_step zero y = simp bit_xor-bitwise (low y (y % 2) refl)
  where
    low : (y r : ℕ) → y % 2 ≡ r → y ≡ differ 0 r + 2 * (y / 2)
    low y r e = omega arith
bit_xor_step (suc n) y = simp bit_xor-bitwise (lowest_digit (λ d. d) differ n y)
