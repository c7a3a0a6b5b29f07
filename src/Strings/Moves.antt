-- ===== src/Strings/Moves.antt =====
-- What the loops of libc/string leave in memory.
use chao_s_os.Prelude.{
  ℕ, zero, suc, ◌+◌, ◌%◌, ◌^◌, ◌≤◌, ◌<◌, ◌≡◌, ◌≢◌, ◌⊎◌, inl, inr, refl, sym, ap, subst, ◌∙◌, false,
  Bool-cases, arith, some, ◌==◌, ltb, if◌then◌else◌,
}
use native.Mathlib.Decide.{ℕ_discrete}
use chao_s_os.Strings.{
  Memory, store, memset_loop, memset, copy_up, copy_down, memcpy, memmove, memcmp_loop, memcmp,
  strlen_loop, strlen, Sign,
}

-- The memory after a block of `size` bytes at `dst` has got the bytes that were at `src`.
unfoldable pub Moved : ℕ → ℕ → ℕ → Memory → Memory → Type 0
Moved dst src size m m' =
    ((i : ℕ) → i < size → m' (dst + i) ≡ m (src + i))
    × ((a : ℕ) → (a < dst) ⊎ (dst + size ≤ a) → m' a ≡ m a)

copy_up-outside :
    (n i dst src : ℕ) (m : Memory) (a : ℕ)
    → (a < dst + i) ⊎ (dst + i + n ≤ a)
    → copy_up n i dst src m a ≡ m a
unfolding copy_up
copy_up-outside zero i dst src m a o = refl
copy_up-outside (suc n) i dst src m a o =
    copy_up-outside n (i + 1) dst src (store (dst + i) (m (src + i)) m) a (omega arith)
    ∙ ground arith

copy_up-inside :
    (n i dst src : ℕ) (m : Memory) (j : ℕ)
    → (dst < src) ⊎ (src + i + n ≤ dst)
    → i ≤ j
    → j < i + n
    → copy_up n i dst src m (dst + j) ≡ m (src + j)
unfolding copy_up
copy_up-inside zero i dst src m j l u v = absurd (omega arith)
copy_up-inside (suc n) i dst src m j l u v = elim (ℕ_discrete i j) [
  | yes e ↦
      copy_up-outside n (i + 1) dst src (store (dst + i) (m (src + i)) m) (dst + j)
        (inl (omega arith))
      ∙ ground arith
  | no d ↦
      copy_up-inside n (i + 1) dst src (store (dst + i) (m (src + i)) m) j (omega arith)
        (omega arith) (omega arith)
      ∙ ground arith
]

copy_down-outside :
    (n dst src : ℕ) (m : Memory) (a : ℕ) → (a < dst) ⊎ (dst + n ≤ a) → copy_down n dst src m a ≡ m a
unfolding copy_down
copy_down-outside zero dst src m a o = refl
copy_down-outside (suc n) dst src m a o =
    copy_down-outside n dst src (store (dst + n) (m (src + n)) m) a (omega arith) ∙ ground arith

copy_down-inside :
    (n dst src : ℕ) (m : Memory) (j : ℕ)
    → src ≤ dst
    → j < n
    → copy_down n dst src m (dst + j) ≡ m (src + j)
unfolding copy_down
copy_down-inside zero dst src m j l v = absurd (omega arith)
copy_down-inside (suc n) dst src m j l v = elim (ℕ_discrete n j) [
  | yes e ↦
      copy_down-outside n dst src (store (dst + n) (m (src + n)) m) (dst + j) (inr (omega arith))
      ∙ ground arith
  | no d ↦
      copy_down-inside n dst src (store (dst + n) (m (src + n)) m) j l (omega arith) ∙ ground arith
]

-- `memmove` gives the block at `dst` the bytes that the block at `src` had, however the two blocks
-- overlap, and changes no byte outside the block at `dst`.
pub memmove_lem : (dst src size : ℕ) (m : Memory) → Moved dst src size m (memmove dst src size m)
unfolding memmove Moved
memmove_lem dst src size m = elim (Bool-cases (ltb dst src)) [
  | inl y ↦ rw y (
    λ i l. copy_up-inside size 0 dst src m i (inl (ground arith)) (omega arith) (omega arith),
    λ a o. copy_up-outside size 0 dst src m a (omega arith),
  )
  | inr n ↦ rw n (
    λ i l. copy_down-inside size dst src m i (ground arith) l,
    λ a o. copy_down-outside size dst src m a o,
  )
]

-- `memcpy` gives the block at `dst` the bytes that the block at `src` had and changes no other byte, when
-- `dst` lies in front of `src` or the block at `src` ends in front of `dst`.
pub memcpy_lem :
    (dst src size : ℕ) (m : Memory)
    → (dst < src) ⊎ (src + size ≤ dst)
    → Moved dst src size m (memcpy dst src size m)
unfolding memcpy Moved
memcpy_lem dst src size m o = (
  λ i l. copy_up-inside size 0 dst src m i (omega arith) (omega arith) (omega arith),
  λ a r. copy_up-outside size 0 dst src m a (omega arith),
)

memset_loop_lem :
    (n i buf value : ℕ) (m : Memory) (a : ℕ)
    → memset_loop n i buf value m a
      ≡ (if ltb a (buf + i) then m a else if ltb a (buf + i + n) then value % 2 ^ 8 else m a)
unfolding memset_loop
memset_loop_lem zero i buf value m a = ground arith
memset_loop_lem (suc n) i buf value m a =
    memset_loop_lem n (i + 1) buf value (store (buf + i) (value % 2 ^ 8) m) a ∙ ground arith

-- `memset` stores the value's lowest byte in the block and changes no byte outside it.
pub memset_lem :
    (buf value size : ℕ) (m : Memory) (a : ℕ)
    → memset buf value size m a
      ≡ (if ltb a buf then m a else if ltb a (buf + size) then value % 2 ^ 8 else m a)
unfolding memset
memset_lem buf value size m a =
    let same : buf + 0 ≡ buf = omega arith in
    memset_loop_lem size 0 buf value m a
    ∙ ap (λ (b : ℕ). if ltb a b then m a else if ltb a (b + size) then value % 2 ^ 8 else m a) same

-- What `memcmp` tells: the blocks are equal, or they agree in front of an index at which the first
-- one's byte is the lesser, or the greater.
pub Compared : ℕ → ℕ → ℕ → Memory → Sign → Type 0
Compared a b size m Sign.nought = (i : ℕ) → i < size → m (a + i) ≡ m (b + i)
Compared a b size m Sign.minus_one =
    (k : ℕ) × (k < size) × ((i : ℕ) → i < k → m (a + i) ≡ m (b + i)) × (m (a + k) < m (b + k))
Compared a b size m Sign.one =
    (k : ℕ) × (k < size) × ((i : ℕ) → i < k → m (a + i) ≡ m (b + i)) × (m (b + k) < m (a + k))

memcmp_loop_lem :
    (n i a b : ℕ) (m : Memory)
    → ((j : ℕ) → j < i → m (a + j) ≡ m (b + j))
    → Compared a b (i + n) m (memcmp_loop n i a b m)
unfolding memcmp_loop Compared
memcmp_loop_lem zero i a b m h = λ j l. h j (omega arith)
memcmp_loop_lem (suc n) i a b m h = elim (Bool-cases (ltb (m (a + i)) (m (b + i)))) [
  | inl y ↦ rw y (i, omega arith, h, ground arith)
  | inr x ↦ elim (Bool-cases (ltb (m (b + i)) (m (a + i)))) [
    | inl y ↦ rw (x, y) (i, omega arith, h, ground arith)
    | inr z ↦
        let same : i + suc n ≡ i + 1 + n = omega arith in
        rw (x, z)
          (subst (λ s. Compared a b s m (memcmp_loop n (i + 1) a b m)) (sym same)
            (memcmp_loop_lem n (i + 1) a b m (λ j l. next j l (ground arith))))
  ]
]
  where
    next : (j : ℕ) → j < i + 1 → m (a + i) ≡ m (b + i) → m (a + j) ≡ m (b + j)
    next j l e = elim (ℕ_discrete j i) [ yes s ↦ rw s e | no d ↦ h j (omega arith) ]

-- `memcmp` finds the first index at which the blocks differ, and returns the sign of the difference
-- there, or 0 when there is none.
pub memcmp_lem : (a b size : ℕ) (m : Memory) → Compared a b size m (memcmp a b size m)
unfolding memcmp
memcmp_lem a b size m =
    let same : 0 + size ≡ size = omega arith in
    subst (λ s. Compared a b s m (memcmp_loop size 0 a b m)) same
      (memcmp_loop_lem size 0 a b m (λ j l. absurd (omega arith)))

strlen_loop_lem :
    (fuel len str n : ℕ) (m : Memory)
    → len ≤ n
    → n < len + fuel
    → m (str + n) ≡ 0
    → ((i : ℕ) → i < n → m (str + i) ≢ 0)
    → strlen_loop fuel len str m ≡ some n
unfolding strlen_loop
strlen_loop_lem zero len str n m l u z h = absurd (omega arith)
strlen_loop_lem (suc fuel) len str n m l u z h = elim (ℕ_discrete len n) [
  | yes e ↦ ground arith
  | no d ↦
      let more : (m (str + len) == 0) ≡ false = ground (arith, h len) in
      rw more (strlen_loop_lem fuel (len + 1) str n m (omega arith) (omega arith) z h)
]

-- `strlen` of a pointer that is not null returns the index of the first zero byte, when the loop may
-- run one step more than that.
pub strlen_lem :
    (fuel str n : ℕ) (m : Memory)
    → str ≢ 0
    → n < fuel
    → m (str + n) ≡ 0
    → ((i : ℕ) → i < n → m (str + i) ≢ 0)
    → strlen fuel str m ≡ some n
unfolding strlen
strlen_lem fuel str n m p l z h =
    let real : (str == 0) ≡ false = ground arith in
    rw real (strlen_loop_lem fuel 0 str n m (omega arith) (omega arith) z h)
