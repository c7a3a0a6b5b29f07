-- ===== src/Buddy/Free.antt =====
-- Blocks and their buddies, what freeing rejects, and the frame of an address (kernel/kernel/pmm.c).
use chao_s_os.Prelude.{
  ℕ, suc, ◌+◌, ◌-◌, ◌*◌, ◌/◌, ◌%◌, ◌^◌, ◌≤◌, ◌<◌, ◌≡◌, ◌⊎◌, refl, sym, ap, ◌∙◌, bit_and, bit_xor,
  true, false, Bool-cases, inl, inr, arith, ◌==◌, ltb, leb, if◌then◌else◌, bit_xor_set,
  bit_xor_clear,
}
use native.Mathlib.Decide.{ℕ_discrete}
use native.Mathlib.Nat.{pow-suc, one-le-pow}
use chao_s_os.Buddy.{Zone, block_head, free_block, frame_index, physic_free}
use chao_s_os.Buddy.Tiling.{IsAligned}

-- The lower half of the joined block, for the lower and for the upper one of two buddies.
pub buddy_half :
    (n page : ℕ)
    → IsAligned n page
    → (r : ℕ) × (((page ≡ r * 2 ^ suc n) × (bit_xor page (2 ^ n) ≡ page + 2 ^ n))
        ⊎ ((page ≡ r * 2 ^ suc n + 2 ^ n) × (bit_xor page (2 ^ n) ≡ r * 2 ^ suc n)))
buddy_half n page (q, e) =
    let r = q / 2 in
    let double = double_pow_suc r n in
    elim (ℕ_discrete (q % 2) 0) [
      | yes even ↦
          let whole : page ≡ r * 2 ^ suc n =
            e ∙ ap (λ (t : ℕ). t * 2 ^ n) (omega arith) ∙ sym double in
          (
            r,
            inl (
              whole,
              ap (λ (t : ℕ). bit_xor t (2 ^ n)) whole
                  ∙ bit_xor_set n r
                  ∙ ap (λ (t : ℕ). t + 2 ^ n) (sym whole),
            ),
          )
      | no odd ↦
          let whole : page ≡ r * 2 ^ suc n + 2 ^ n =
            e
            ∙ ap (λ (t : ℕ). t * 2 ^ n) (omega arith)
            ∙ suc_times (r * 2) (2 ^ n)
            ∙ ap (λ (t : ℕ). t + 2 ^ n) (sym double) in
          (r, inr (whole, ap (λ (t : ℕ). bit_xor t (2 ^ n)) whole ∙ bit_xor_clear n r))
    ]
  where
    double_pow_suc : (r n : ℕ) → r * 2 ^ suc n ≡ r * 2 * 2 ^ n
    double_pow_suc r n = omega (arith, ap (λ (t : ℕ). r * t) (pow-suc 2 n))

    suc_times : (a b : ℕ) → (a + 1) * b ≡ a * b + b
    suc_times a b = omega arith

-- The block at `page'` of `level'` holds the one at `page` of `level`, at a multiple of its size.
pub record Contains (level page level' page' : ℕ) : Type 0 where
  pub grows : level ≤ level'
  pub aligned : IsAligned level' page'
  pub start : page' ≤ page
  pub end : page + 2 ^ level ≤ page' + 2 ^ level'

pub Contains-refl : (level page : ℕ) → IsAligned level page → Contains level page level page
Contains-refl level page a = record {
  grows = omega arith;
  aligned = a;
  start = omega arith;
  end = omega arith;
}

pub Contains-trans :
    (l p l' p' l'' p'' : ℕ) → Contains l p l' p' → Contains l' p' l'' p'' → Contains l p l'' p''
Contains-trans l p l' p' l'' p'' a b = record {
  grows = omega (arith, a.grows, b.grows);
  aligned = b.aligned;
  start = omega (arith, a.start, b.start);
  end = omega (arith, a.end, b.end);
}

-- The lower of two buddies, as the loop chooses it, starts the block of both.
pub joined_Contains :
    (n page : ℕ)
    → IsAligned n page
    → Contains n page
        (n + 1)
        (if ltb (bit_xor page (2 ^ n)) page then bit_xor page (2 ^ n) else page)
joined_Contains n page a =
    let (r, o) = buddy_half n page a in
    elim o [
      | inl (whole, buddy) ↦
          let size = pow-suc 2 n in
          let here : ltb (bit_xor page (2 ^ n)) page ≡ false = ground (arith, buddy) in
          let next : n + 1 ≡ suc n = omega arith in
          rw (here, next)
            (record {
              grows = omega arith;
              aligned = (r, whole);
              start = omega arith;
              end = omega (arith, size);
            })
      | inr (whole, buddy) ↦
          let size = pow-suc 2 n in
          let some_size = one-le-pow n 2 (omega arith) in
          let here : ltb (bit_xor page (2 ^ n)) page ≡ true = ground (arith, buddy) in
          let next : n + 1 ≡ suc n = omega arith in
          rw (here, next)
            (record {
              grows = omega arith;
              aligned = (r, buddy);
              start = omega (arith, buddy);
              end = omega (arith, buddy, size);
            })
    ]

-- For any other index it returns 0 and changes nothing; and `physic_free` of a null address too.
pub free_block-rejects :
    (page : ℕ) (z : Zone)
    → (z.frames_number ≤ page) ⊎ (bit_and (z.frames page).flags block_head ≡ 0)
    → (free_block page z ≡ (0, z)) × (physic_free 0 z ≡ (0, z))
unfolding free_block physic_free
free_block-rejects page z (inl l) =
    let out : leb z.frames_number page ≡ true = ground arith in (rw out refl, refl)
free_block-rejects page z (inr e) =
    let none_head : (bit_and (z.frames page).flags block_head == 0) ≡ true = ground arith in
    elim (Bool-cases (leb z.frames_number page)) [
      | inl y ↦ (rw y refl, refl)
      | inr n ↦ (rw (n, none_head) refl, refl)
    ]

-- `physic_free` finds the frame that starts at a physical address: the index of frame i, for a zone
-- whose frames end below 4 GiB.
pub frame_index_lem :
    (i offset : ℕ) (z : Zone)
    → z.base + z.frames_number * 4096 ≤ 2 ^ 32
    → i < z.frames_number
    → offset < 4096
    → frame_index (z.base + i * 4096 + offset) z ≡ i
unfolding frame_index
frame_index_lem i offset z b l u =
    let same : (z.base + i * 4096 + offset + 2 ^ 32 - z.base) % 2 ^ 32 ≡ i * 4096 + offset =
      omega arith in
    ap (λ (n : ℕ). n / 4096) same ∙ omega arith
