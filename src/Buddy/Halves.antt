-- ===== src/Buddy/Halves.antt =====
-- The halves that the splitting of a block leaves in the free lists (kernel/kernel/pmm.c).
use chao_s_os.Prelude.{
  ℕ, zero, suc, ◌+◌, ◌-◌, ◌*◌, ◌^◌, ◌≤◌, ◌<◌, ◌≡◌, ◌≢◌, ◌⊎◌, refl, sym, ap, subst, ◌∙◌, bit_xor,
  false, inr, arith, ◌==◌, bit_xor_set,
}
use native.Mathlib.Decide.{ℕ_discrete}
use native.Mathlib.Nat.{pow-suc, one-le-pow, pow-le-pow_right}
use chao_s_os.Buddy.{Zone, split_once, split, block_head}
use chao_s_os.Buddy.Tiling.{IsAligned}
use chao_s_os.Buddy.Split.{
  SameButPrev, SameButPrev-refl, SameButPrev-trans, split_once-frame, split_once-right,
  split_once-list, split_once-number,
}

pub IsAligned-weaken : (k n i : ℕ) → IsAligned (n + k) i → IsAligned n i
IsAligned-weaken zero n i (q, e) = (q, e ∙ ap (λ (m : ℕ). q * 2 ^ m) (omega arith))
IsAligned-weaken (suc k) n i (q, e) =
    let same : n + suc k ≡ suc (n + k) = omega arith in
    let doubled : i ≡ q * 2 * 2 ^ (n + k) =
      e
      ∙ ap (λ (m : ℕ). q * 2 ^ m) same
      ∙ omega (arith, ap (λ (t : ℕ). q * t) (pow-suc 2 (n + k))) in
    IsAligned-weaken k n i (q * 2, doubled)

-- The upper half of a block of a level above `j`, at level `j`.
pub upper_half : (n j page : ℕ) → IsAligned n page → j < n → bit_xor page (2 ^ j) ≡ page + 2 ^ j
upper_half n j page a l =
    let same : n ≡ suc j + (n - suc j) = omega arith in
    let (q, e) = IsAligned-weaken (n - suc j) (suc j) page (subst (λ m. IsAligned m page) same a) in
    ap (λ (m : ℕ). bit_xor m (2 ^ j)) e ∙ bit_xor_set j q ∙ ap (λ (m : ℕ). m + 2 ^ j) (sym e)

pow_injective : (i j : ℕ) → i < j → 2 ^ i < 2 ^ j
pow_injective i j l =
    let grows : 2 ^ suc i ≤ 2 ^ j = pow-le-pow_right {n = 2} (omega arith) {i = suc i} {j = j} l in
    omega (arith, pow-suc 2 i, one-le-pow i 2 (omega arith))

pub split-frame :
    (k level page i : ℕ) (z : Zone)
    → ((j : ℕ) → level ≤ j → j < level + k → i ≢ bit_xor page (2 ^ j))
    → SameButPrev (z.frames i) ((split k level page z).frames i)
unfolding split
split-frame zero level page i z n = SameButPrev-refl (z.frames i)
split-frame (suc k) level page i z n =
    SameButPrev-trans
      (split_once-frame page (level + k) i z (n (level + k) (omega arith) (omega arith)))
      (split-frame k level page i (split_once page (level + k) z) (λ j a b. n j a (omega arith)))

pub split-list :
    (k level page j : ℕ) (z : Zone)
    → (j < level) ⊎ (level + k ≤ j)
    → (split k level page z).free_lists j ≡ z.free_lists j
unfolding split
split-list zero level page j z o = refl
split-list (suc k) level page j z o =
    let other : (j == level + k) ≡ false = ground arith in
    split-list k level page j (split_once page (level + k) z) (omega arith)
    ∙ split_once-list page (level + k) j z
    ∙ rw other

pub split-number :
    (k level page : ℕ) (z : Zone) → (split k level page z).frames_number ≡ z.frames_number
unfolding split
split-number zero level page z = refl
split-number (suc k) level page z =
    split-number k level page (split_once page (level + k) z) ∙ split_once-number page (level + k) z

-- A free block of level `j` at index `i` heads its list, in front of what the list held before.
pub record Heads (z z' : Zone) (j i : ℕ) : Type 0 where
  pub first : z'.free_lists j ≡ i
  pub free : (z'.frames i).flags ≡ block_head
  pub size : (z'.frames i).level ≡ j
  pub rest : (z'.frames i).next_frame ≡ z.free_lists j

-- The block that a split put in front of its list is still there when the lower levels are split.
last_split :
    (k level page : ℕ) (z : Zone)
    → IsAligned (level + suc k) page
    → Heads z
        (split k level page (split_once page (level + k) z))
        (level + k)
        (page + 2 ^ (level + k))
last_split k level page z a =
    let top = level + k in
    let z₁ = split_once page top z in
    let half : bit_xor page (2 ^ top) ≡ page + 2 ^ top =
      upper_half (level + suc k) top page a (omega arith) in
    let apart : (i : ℕ)
        → level ≤ i
        → i < level + k
        → bit_xor page (2 ^ top) ≢ bit_xor page (2 ^ i) =
      λ i l u e. omega (
        arith,
        e,
        half,
        upper_half (level + suc k) i page a (omega arith),
        pow_injective i top u,
      ) in
    let kept = split-frame k level page (bit_xor page (2 ^ top)) z₁ apart in
    let (flags, lev, next) = split_once-right page top z in
    subst (λ i. Heads z (split k level page z₁) top i) half
      (record {
        first =
            split-list k level page top z₁ (inr (omega arith))
            ∙ split_once-list page top top z
            ∙ ground arith;
        free = kept.flags ∙ flags;
        size = kept.level ∙ lev;
        rest = kept.next_frame ∙ next;
      })

-- The splitting puts the upper half of every level that it comes by in front of that level's list.
pub split-Heads :
    (k level page : ℕ) (z : Zone) (j : ℕ)
    → IsAligned (level + k) page
    → level ≤ j
    → j < level + k
    → Heads z (split k level page z) j (page + 2 ^ j)
unfolding split
split-Heads zero level page z j a l u = absurd (omega arith)
split-Heads (suc k) level page z j a l u = elim (ℕ_discrete j (level + k)) [
  | yes here ↦
      subst
        (λ (i : ℕ). Heads z (split k level page (split_once page (level + k) z)) i (page + 2 ^ i))
        (sym here) (last_split k level page z a)
  | no below ↦
      let same : level + suc k ≡ level + k + 1 = omega arith in
      let h =
        split-Heads k level page (split_once page (level + k) z) j
          (IsAligned-weaken 1 (level + k) page (subst (λ m. IsAligned m page) same a)) l
          (omega arith) in
      let other : (j == level + k) ≡ false = ground arith in
      record {
        first = h.first;
        free = h.free;
        size = h.size;
        rest = h.rest ∙ split_once-list page (level + k) j z ∙ rw other;
      }
]
