-- ===== src/Strings.antt =====
-- libc/string: memory is a map from addresses to bytes, and a pointer is an address.
pub mod Moves
mod Tests
use chao_s_os.Prelude.{
  ℕ, zero, suc, ◌+◌, ◌-◌, ◌%◌, ◌^◌, ◌≤◌, Bool, true, false, Option, none, some, ◌==◌, ltb,
  if◌then◌else◌,
}

abbrev pub Memory : Type 0
Memory = ℕ → ℕ

-- `p[i] = v`, for the address that is meant
abbrev pub store : ℕ → ℕ → Memory → Memory
store a v m i = if i == a then v else m i

-- The result of `memcmp`.
pub data Sign : Type 0 where
  minus_one : Sign
  nought : Sign
  one : Sign

-- The loops from index `i` on; `n` indices are left.
unfoldable pub memset_loop : ℕ → ℕ → ℕ → ℕ → Memory → Memory
memset_loop zero i buf value m = m
memset_loop (suc n) i buf value m =
    memset_loop n (i + 1) buf value (store (buf + i) (value % 2 ^ 8) m)

unfoldable pub memset : ℕ → ℕ → ℕ → Memory → Memory
memset buf value size m = memset_loop size 0 buf value m

unfoldable pub copy_up : ℕ → ℕ → ℕ → ℕ → Memory → Memory
copy_up zero i dst src m = m
copy_up (suc n) i dst src m = copy_up n (i + 1) dst src (store (dst + i) (m (src + i)) m)

-- The loop that counts down from `size`.
unfoldable pub copy_down : ℕ → ℕ → ℕ → Memory → Memory
copy_down zero dst src m = m
copy_down (suc i) dst src m = copy_down i dst src (store (dst + i) (m (src + i)) m)

unfoldable pub memcpy : ℕ → ℕ → ℕ → Memory → Memory
memcpy dst src size m = copy_up size 0 dst src m

unfoldable pub memmove : ℕ → ℕ → ℕ → Memory → Memory
memmove dst src size m = if ltb dst src then copy_up size 0 dst src m else copy_down size dst src m

unfoldable pub memcmp_loop : ℕ → ℕ → ℕ → ℕ → Memory → Sign
memcmp_loop zero i a b m = Sign.nought
memcmp_loop (suc n) i a b m =
    let rest = memcmp_loop n (i + 1) a b m in
    if ltb (m (a + i)) (m (b + i))
    then Sign.minus_one
    else if ltb (m (b + i)) (m (a + i))
    then Sign.one
    else rest

unfoldable pub memcmp : ℕ → ℕ → ℕ → Memory → Sign
memcmp a b size m = memcmp_loop size 0 a b m

-- The loop of `strlen`, on fuel: `none` when the fuel ends before the string does.
unfoldable pub strlen_loop : ℕ → ℕ → ℕ → Memory → Option ℕ
strlen_loop zero len str m = none
strlen_loop (suc n) len str m =
    let rest = strlen_loop n (len + 1) str m in if m (str + len) == 0 then some len else rest

-- `strlen`; a null pointer's string is empty.
unfoldable pub strlen : ℕ → ℕ → Memory → Option ℕ
strlen fuel str m = if str == 0 then some 0 else strlen_loop fuel 0 str m
