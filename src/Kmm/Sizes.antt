-- ===== src/Kmm/Sizes.antt =====
-- The sizes of slices (kernel/kernel/kmm.c): kmalloc takes the smallest one that is large enough, in the
-- mode that kfree finds for it.
use chao_s_os.Prelude.{
  ℕ, zero, suc, ◌+◌, ◌≤◌, ◌<◌, ◌≡◌, refl, sym, ap, ◌∙◌, Bool, true, false, not, ◌&&◌, ◌||◌, some,
  List, [], ◌∷◌, arith, leb, ltb, if◌then◌else◌, length, get_or, below_sound,
}
use native.Mathlib.Decide.{dec_lt}
use chao_s_os.Kmm.{Mode, linked, bitmap, slice_sizes, max_alloc}
use chao_s_os.Kmm.Heap.{Heap, size_level, kmalloc}
use chao_s_os.Kmm.Release.{is_linked_mode}
use chao_s_os.Kmm.Search.{Managers, search_managers, kmalloc_helper-search_managers}

-- The first of some sizes that is not below `n`.
pub record Least (ss : List ℕ) (n j : ℕ) : Type 0 where
  pub in_range : j < length ss
  pub enough : n ≤ get_or ss j 0
  pub smaller : (m : ℕ) → m < j → get_or ss m 0 < n

Least-next : (s : ℕ) (ss : List ℕ) (n j : ℕ) → s < n → Least ss n j → Least (s ∷ ss) n (suc j)
Least-next s ss n j g r = record {
  in_range = omega (arith, r.in_range);
  enough = r.enough;
  smaller = smaller;
}
  where
    smaller : (m : ℕ) → m < suc j → get_or (s ∷ ss) m 0 < n
    smaller zero o = g
    smaller (suc m) o = r.smaller m (omega (arith, o))

-- A size that is too small is passed over.
size_level-next :
    (s : ℕ) (ss : List ℕ) (i n k : ℕ)
    → s < n
    → k < length (s ∷ ss)
    → n ≤ get_or (s ∷ ss) k 0
    → ((k : ℕ)
        → k < length ss
        → n ≤ get_or ss k 0
        → (j : ℕ) × (size_level ss (i + 1) n ≡ some (i + 1 + j)) × Least ss n j)
    → (j : ℕ) × (size_level (s ∷ ss) i n ≡ some (i + j)) × Least (s ∷ ss) n j
unfolding size_level
size_level-next s ss i n zero g l h ih = absurd (omega (arith, g, h))
size_level-next s ss i n (suc k) g l h ih =
    let (j, e, r) = ih k (omega (arith, l)) h in
    let test : leb n s ≡ false = ground (arith, g) in
    (suc j, rw (test) (e ∙ ap some (omega arith)), Least-next s ss n j g r)

pub size_level-Least :
    (ss : List ℕ) (i n k : ℕ)
    → k < length ss
    → n ≤ get_or ss k 0
    → (j : ℕ) × (size_level ss i n ≡ some (i + j)) × Least ss n j
unfolding size_level
size_level-Least [] i n k l h = absurd (omega (arith, l))
size_level-Least (s ∷ ss) i n k l h = elim (dec_lt s n) [
  | no g ↦ (
    0,
    ground (arith, g),
    record {
      in_range = omega arith;
      enough = omega (arith, g);
      smaller = λ m o. absurd (omega (arith, o));
    },
  )
  | yes g ↦ size_level-next s ss i n k g l h (size_level-Least ss (i + 1) n)
]

-- The mode of a size, as kfree finds it.
abbrev pub mode_of : ℕ → Mode
mode_of slice_size = if is_linked_mode slice_size then linked else bitmap

same_truth : (a b : Bool) → ((a && b) || not (a || b)) ≡ true → a ≡ b
same_truth true true e = refl
same_truth false false e = refl
same_truth true false e = sym e
same_truth false true e = e

modes-agree : (i : ℕ) → i < 8 → leb i 4 ≡ is_linked_mode (get_or slice_sizes i 0)
unfolding is_linked_mode
modes-agree i l = same_truth _ _ (
    below_sound 8
      (λ i.
        (leb i 4 && is_linked_mode (get_or slice_sizes i 0))
        || not (leb i 4 || is_linked_mode (get_or slice_sizes i 0)))
      i refl l)

-- kmalloc of at most 2048 bytes takes the smallest slice size that is large enough, in the mode in
-- which kfree takes a slice of that size back; and where the bound on the managers that
-- kmalloc_helper visits exceeds the number of managers of each size, it does what a search says:
-- it takes a slice of the first manager with an allocator that is not full, and of a new manager
-- where there is none.
pub kmalloc-search_managers :
    (k n : ℕ) (h : Heap) (ps : ℕ → List ℕ)
    → n ≤ 2048
    → ((i : ℕ) → i < 8 → Managers h (h.alloc_ms i) (ps i))
    → ((i : ℕ) → i < 8 → length (ps i) < k)
    → (i : ℕ) × Least slice_sizes n i
      × (kmalloc k n h ≡ search_managers (mode_of (get_or slice_sizes i 0)) i (ps i) h)
unfolding kmalloc
kmalloc-search_managers k n h ps l c f =
    let (i, e, r) = size_level-Least slice_sizes 0 n 7 (omega arith) l in
    let fits : ltb max_alloc n ≡ false = ground (arith, l) in
    let range : i < 8 = r.in_range in
    let e' : size_level slice_sizes 0 n ≡ some i = e ∙ ap some (omega arith) in
    (
      i,
      r,
      rw (fits, e')
          (kmalloc_helper-search_managers k _ (h.alloc_ms i) i (ps i) h (c i range) (f i range)
            ∙ ap (λ b. search_managers (if b then linked else bitmap) i (ps i) h)
                (modes-agree i range)),
    )
