-- ===== src/Math.antt =====
-- kernel/kernel/math.c: powers of two in 32-bit arithmetic.
pub mod Power
mod Tests
use chao_s_os.Prelude.{
  ℕ, zero, suc, ◌+◌, ◌-◌, ◌/◌, ◌%◌, ◌^◌, bit_and, bit_or, Bool, true, false, ◌&&◌, not, Option,
  none, some, ◌==◌, if◌then◌else◌,
}

-- `!((n-1) & n) && n`
unfoldable pub is_power_of_2 : ℕ → Bool
is_power_of_2 n = bit_and ((n + 2 ^ 32 - 1) % 2 ^ 32) n == 0 && not (n == 0)

-- `n |= n >> k`
abbrev pub smear : ℕ → ℕ → ℕ
smear k n = bit_or n (n / 2 ^ k)

unfoldable pub smear_all : ℕ → ℕ
smear_all n = smear 16 (smear 8 (smear 4 (smear 2 (smear 1 n))))

unfoldable pub next_power_of_2 : ℕ → ℕ
unfolding is_power_of_2 smear_all
next_power_of_2 n = if is_power_of_2 n then n else (smear_all n + 1) % 2 ^ 32

-- The loop of `power_of_2`; `none` means that the fuel ran out.
unfoldable pub power_loop : ℕ → ℕ → ℕ → Option ℕ
power_loop zero n i = none
power_loop (suc f) n i =
    let rest = power_loop f (n / 2) (i + 1) in if bit_and n 1 == 0 then rest else some i

-- A 32-bit number that is not zero has a digit 1 among its 32: 32 rounds are enough.
unfoldable pub power_of_2 : ℕ → Option ℕ
unfolding power_loop
power_of_2 n = power_loop 32 n 0
