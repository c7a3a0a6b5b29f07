-- ===== src/Buddy/Tiling.antt =====
-- The free blocks that `init_normal_mem_zone` (kernel/kernel/pmm.c) carves out of the zone.
use chao_s_os.Prelude.{
  ℕ, zero, suc, ◌+◌, ◌-◌, ◌*◌, ◌%◌, ◌^◌, ◌≤◌, ◌<◌, ◌≡◌, refl, ap, false, List, [], ◌∷◌, inl, inr,
  arith, ltb, ltb→lt, Bool-cases,
}
use native.Mathlib.Nat.{pow-suc, one-le-pow}
use chao_s_os.Buddy.{max_level}
use chao_s_os.Buddy.Init.{shrink, carve, blocks_of}

-- A multiple of the size of a block of `level`.
abbrev pub IsAligned : ℕ → ℕ → Type 0
IsAligned level i = (q : ℕ) × (i ≡ q * 2 ^ level)

-- The blocks cover the frames from `i` up to `n`, each frame once, and each block is aligned to its
-- size and belongs to a level of the free lists.
abbrev pub Tiles : ℕ → ℕ → List (ℕ × ℕ) → Type 0
Tiles i n [] = i ≡ n
Tiles i n ((j, level) ∷ blocks) =
    (j ≡ i) × (level < max_level) × IsAligned level i × Tiles (i + 2 ^ level) n blocks

record Shrunk (n i level s : ℕ) : Type 0 where
  no_larger : s ≤ level
  fits : i + 2 ^ s ≤ n
  aligned : IsAligned s i
  in_zone : 2 ^ s ≤ n

shrink-Shrunk :
    (n i level : ℕ)
    → n < 2 ^ 32
    → i < n
    → 2 ^ level ≤ n
    → IsAligned level i
    → Shrunk n i level (shrink n i level)
unfolding shrink
shrink-Shrunk n i zero l p m a = record {
  no_larger = omega arith;
  fits = omega arith;
  aligned = a;
  in_zone = m;
}
shrink-Shrunk n i (suc level) l p m a =
    elim (Bool-cases (ltb ((n + 2 ^ 32 - 2 ^ suc level) % 2 ^ 32) i)) [
      | inl large ↦
          let half : IsAligned level i =
            (a.0 * 2, omega (arith, a.1, ap (λ (t : ℕ). a.0 * t) (pow-suc 2 level))) in
          let s = shrink-Shrunk n i level l p (omega (arith, pow-suc 2 level)) half in
          rw large (record {
            no_larger = omega (arith, s.no_larger);
            fits = s.fits;
            aligned = s.aligned;
            in_zone = s.in_zone;
          })
      | inr small ↦ rw small (record {
        no_larger = omega arith;
        fits = room (2 ^ suc level) small m;
        aligned = a;
        in_zone = m;
      })
    ]
  where
    room : (p : ℕ) → ltb ((n + 2 ^ 32 - p) % 2 ^ 32) i ≡ false → p ≤ n → i + p ≤ n
    room p small m = let plain : (n + 2 ^ 32 - p) % 2 ^ 32 ≡ n - p = omega arith in ground arith

carve-Tiles :
    (f n i level : ℕ)
    → n < 2 ^ 32
    → i ≤ n
    → n - i < f
    → level < max_level
    → 2 ^ level ≤ n
    → IsAligned level i
    → Tiles i n (carve f n i level)
unfolding carve
carve-Tiles zero n i level l p m b r a = absurd (omega arith)
carve-Tiles (suc f) n i level l p m b r a = elim (Bool-cases (ltb i n)) [
  | inl more ↦
      let s = shrink-Shrunk n i level l (ltb→lt i n more) r a in
      let q = s.aligned in
      rw more (
        refl,
        omega (arith, s.no_larger),
        q,
        carve-Tiles f n (i + 2 ^ shrink n i level) (shrink n i level) l s.fits
            (omega (arith, s.fits, one-le-pow (shrink n i level) 2 (omega arith)))
            (omega (arith, s.no_larger)) s.in_zone (q.0 + 1, omega (arith, q.1)),
      )
  | inr done ↦ rw done (ground arith)
]

-- In a zone of at least 1024 frames the free blocks that the initialisation makes cover the frames
-- exactly: each frame lies in one block, and each block is aligned to its size and inside the zone.
pub blocks_of-Tiles : (n : ℕ) → 1024 ≤ n → n < 2 ^ 32 → Tiles 0 n (blocks_of n)
blocks_of-Tiles n m l =
    carve-Tiles (suc n) n 0 10 l (omega arith) (omega arith) (omega arith) m (0, refl)

shrink-zero : (n level : ℕ) → shrink n 0 level ≡ level
unfolding shrink
shrink-zero n zero = refl
shrink-zero n (suc level) = ground arith

-- In a zone of 1 to 1023 frames the initialisation makes one block of 1024 frames, which passes the
-- end of the zone: `frames_number - block_page_size` wraps.
pub blocks_of-small : (n : ℕ) → 0 < n → n < 1024 → blocks_of n ≡ (0, 10) ∷ []
unfolding carve
blocks_of-small zero p l = absurd (omega arith)
blocks_of-small (suc n) p l = ground (arith, shrink-zero (suc n) 10)
