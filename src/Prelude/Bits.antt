-- ===== src/Prelude/Bits.antt =====
-- Laws of `&`, `|` and of shifts, at every width: fields of a word are sums of multiples of powers
-- of two.
use Prim.Native.Nat.{
  ℕ, zero, suc, ◌+◌, ◌-◌, ◌*◌, ◌/◌, ◌%◌, ◌^◌, ◌<◌, bit_and, bit_or, bit_xor, differ,
}
use mathlib.Core.Path.{◌≡◌, refl, ap, ◌∙◌}
use mathlib.Core.WellFounded
use native.Mathlib.Nat.{pow-suc, one-le-pow}
use native.Mathlib.Omega.{arith}
use chao_s_os.Prelude.Order.{lt_wf}
use chao_s_os.Prelude.BitSteps.{bit_and_step, bit_or_step, bit_xor_step}

-- What holds of 0, and of every number whose half it holds of, holds of every number.
halving {ℓ} : (P : ℕ → Type ℓ) → P 0 → ((n : ℕ) → 0 < n → P (n / 2) → P n) → (n : ℕ) → P n
halving P base step n = WellFounded.induction lt_wf n go
  where
    go : (k : ℕ) → ((j : ℕ) → j < k → P j) → P k
    go zero ih = base
    go (suc k) ih = step (suc k) (omega arith) (ih (suc k / 2) (omega arith))

pub bit_or-zero : (a : ℕ) → bit_or a 0 ≡ a
bit_or-zero = halving _ refl (λ n p ih. omega (arith, bit_or_step n 0))

pub bit_and-zero : (a : ℕ) → bit_and a 0 ≡ 0
bit_and-zero = halving _ refl (λ n p ih. omega (arith, bit_and_step n 0))

pub double_pow : (q k : ℕ) → q * 2 ^ suc k ≡ 2 * (q * 2 ^ k)
double_pow q k = omega (arith, ap (λ (t : ℕ). q * t) (pow-suc 2 k))

-- `q << k | r` is a sum where `r` has at most `k` bits.
pub bit_or_fields : (k q r : ℕ) → r < 2 ^ k → bit_or (q * 2 ^ k) r ≡ q * 2 ^ k + r
bit_or_fields zero q r small = let none_left : r ≡ 0 = omega arith in ground (arith, bit_or-zero q)
bit_or_fields (suc k) q r small =
    let half : r / 2 < 2 ^ k = omega (arith, pow-suc 2 k) in
    let halves = bit_or_fields k q (r / 2) half in
    ground (arith, halves, double_pow q k, pow-suc 2 k, bit_or_step (q * 2 ^ suc k) r)

bit_or-zero_left : (a : ℕ) → bit_or 0 a ≡ a
bit_or-zero_left = halving _ refl (λ n p ih. omega (arith, bit_or_step 0 n))

-- The same with the low field first.
pub bit_or_low : (k q r : ℕ) → r < 2 ^ k → bit_or r (q * 2 ^ k) ≡ q * 2 ^ k + r
bit_or_low zero q r fits = let e : r ≡ 0 = omega arith in ground (arith, bit_or-zero_left q)
bit_or_low (suc k) q r fits = ground (
  arith,
  bit_or_step r (q * 2 ^ suc k),
  double_pow q k,
  pow-suc 2 k,
  bit_or_low k q (r / 2) (omega (arith, pow-suc 2 k)),
)

-- A mask with `k` low zeros works on the quotient by `2 ^ k`.
pub bit_and_fields :
    (k q r m : ℕ) → r < 2 ^ k → bit_and (q * 2 ^ k + r) (m * 2 ^ k) ≡ bit_and q m * 2 ^ k
bit_and_fields zero q r m fits = let e : r ≡ 0 = omega arith in ground (arith)
bit_and_fields (suc k) q r m fits = ground (
  arith,
  bit_and_step (q * 2 ^ suc k + r) (m * 2 ^ suc k),
  double_pow q k,
  double_pow m k,
  double_pow (bit_and q m) k,
  bit_and_fields k q (r / 2) m (omega (arith, pow-suc 2 k)),
)

low_bits : (k q r : ℕ) → r < 2 ^ k → bit_and (q * 2 ^ k + r) (2 ^ k - 1) ≡ r
low_bits zero q r small = bit_and-zero (q * 1 + r) ∙ omega arith
low_bits (suc k) q r small =
    let half : r / 2 < 2 ^ k = omega (arith, pow-suc 2 k) in
    let halves = low_bits k q (r / 2) half in
    let digit = bit_and_step (q * 2 ^ suc k + r) (2 ^ suc k - 1) in
    ground (arith, halves, digit, pow-suc 2 k, double_pow q k)

-- A mask of `k` ones is the remainder by `2 ^ k`.
pub bit_and_mask : (k a : ℕ) → bit_and a (2 ^ k - 1) ≡ a % 2 ^ k
bit_and_mask k a = ground (arith, one-le-pow k 2, low_bits k (a / 2 ^ k) (a % 2 ^ k))

pub bit_and-one : (a : ℕ) → bit_and a 1 ≡ a % 2
bit_and-one a = bit_and_mask 1 a

pub bit_xor-zero : (a : ℕ) → bit_xor a 0 ≡ a
bit_xor-zero = halving _ refl (λ n p ih. omega (arith, bit_xor_step n 0, differ-zero (n % 2)))
  where
    differ-zero : (r : ℕ) → differ r 0 ≡ r
    differ-zero zero = refl
    differ-zero (suc r) = refl

-- `^` of two even numbers, and of an even or odd number and 1.
bit_xor_double : (a b : ℕ) → bit_xor (2 * a) (2 * b) ≡ 2 * bit_xor a b
bit_xor_double a b =
    let ea : 2 * a / 2 ≡ a = omega arith in
    let eb : 2 * b / 2 ≡ b = omega arith in
    let ra : 2 * a % 2 ≡ 0 = omega arith in
    let rb : 2 * b % 2 ≡ 0 = omega arith in
    bit_xor_step (2 * a) (2 * b) ∙ rw (ea, eb, ra, rb) (omega arith)

bit_xor_low : (a r : ℕ) → r < 2 → bit_xor (2 * a + r) 1 ≡ 2 * a + differ r 1
bit_xor_low a r l =
    let ea : (2 * a + r) / 2 ≡ a = omega arith in
    let ra : (2 * a + r) % 2 ≡ r = omega arith in
    bit_xor_step (2 * a + r) 1 ∙ rw (ea, ra, bit_xor-zero a) (omega arith)

-- Flipping digit `k` of a number whose digits up to `k` are 0 sets it, and flipping it again clears
-- it.
pub bit_xor_set : (k q : ℕ) → bit_xor (q * 2 ^ suc k) (2 ^ k) ≡ q * 2 ^ suc k + 2 ^ k
bit_xor_set zero q =
    let e : q * 2 ≡ 2 * q + 0 = omega arith in rw e (bit_xor_low q 0 (omega arith) ∙ omega arith)
bit_xor_set (suc k) q =
    let b : 2 ^ suc k ≡ 2 * 2 ^ k = omega (arith, pow-suc 2 k) in
    ap (λ (n : ℕ). bit_xor n (2 ^ suc k)) (double_pow q (suc k))
    ∙ ap (λ (n : ℕ). bit_xor (2 * (q * 2 ^ suc k)) n) b
    ∙ bit_xor_double (q * 2 ^ suc k) (2 ^ k)
    ∙ omega (arith, bit_xor_set k q, double_pow q (suc k))

pub bit_xor_clear : (k q : ℕ) → bit_xor (q * 2 ^ suc k + 2 ^ k) (2 ^ k) ≡ q * 2 ^ suc k
bit_xor_clear zero q =
    let e : q * 2 ≡ 2 * q = omega arith in rw e (bit_xor_low q 1 (omega arith) ∙ omega arith)
bit_xor_clear (suc k) q =
    let a : q * 2 ^ suc (suc k) + 2 ^ suc k ≡ 2 * (q * 2 ^ suc k + 2 ^ k) =
      omega (arith, double_pow q (suc k), pow-suc 2 k) in
    let b : 2 ^ suc k ≡ 2 * 2 ^ k = omega (arith, pow-suc 2 k) in
    ap (λ (n : ℕ). bit_xor n (2 ^ suc k)) a
    ∙ ap (λ (n : ℕ). bit_xor (2 * (q * 2 ^ suc k + 2 ^ k)) n) b
    ∙ bit_xor_double (q * 2 ^ suc k + 2 ^ k) (2 ^ k)
    ∙ omega (arith, bit_xor_clear k q, double_pow q (suc k))
