-- ===== src/Kmm/Slices.antt =====
-- Pages in linked mode (kernel/kernel/kmm.c): the slices that are free form a stack, threaded through the
-- byte in front of each slice.
use chao_s_os.Prelude.{
  ℕ, ◌+◌, ◌*◌, ◌^◌, ◌<◌, ◌≡◌, ◌≢◌, ap, subst, ◌∙◌, Bool, true, false, List, [], ◌∷◌, arith, ◌==◌,
  update,
}
use chao_s_os.Links.Ring.{◌∉◌}
use native.Mathlib.Nat.{mod-eq_of_lt, mul-lt-mul_of_pos_right}
use chao_s_os.Kmm.{slice_at, take_linked, slice_end}

-- The address of the byte in front of slice `x`, with no wrap-around.
abbrev pub place : ℕ → ℕ → ℕ → ℕ
place page slice_size x = page + 4 + x * (slice_size + 1)

-- The free slices `xs`, from the first one on.
unfoldable pub FreeSlices : (ℕ → ℕ) → ℕ → ℕ → ℕ → List ℕ → Type 0
FreeSlices bytes page slice_size first [] = first ≡ slice_end
FreeSlices bytes page slice_size first (x ∷ xs) =
    (first ≡ x)
    × (x < slice_end)
    × FreeSlices bytes page slice_size (bytes (place page slice_size x)) xs

abbrev pub is_empty : List ℕ → Bool
is_empty [] = true
is_empty (x ∷ xs) = false

pub place-lt : (page s x y : ℕ) → x < y → place page s x < place page s y
place-lt page s x y l =
    let d : x * (s + 1) < y * (s + 1) = mul-lt-mul_of_pos_right l (omega arith) in omega (arith, d)

pub place-ne : (page s x y : ℕ) → x ≢ y → place page s x ≢ place page s y
place-ne page s x y n = ground (arith, place-lt page s x y, place-lt page s y x)

pub slice_at-place : (page s x : ℕ) → place page s x < 2 ^ 32 → slice_at page s x ≡ place page s x
unfolding slice_at
slice_at-place page s x h = mod-eq_of_lt h

-- A write in front of a slice that is in use.
FreeSlices-update :
    (bytes : ℕ → ℕ) (page s x v first : ℕ) (xs : List ℕ)
    → x ∉ xs
    → FreeSlices bytes page s first xs
    → FreeSlices (update bytes (place page s x) v) page s first xs
unfolding FreeSlices
FreeSlices-update bytes page s x v first [] n h = h
FreeSlices-update bytes page s x v first (y ∷ xs) n h =
    let (e, l, r) = h in
    let d : place page s x ≢ place page s y = place-ne page s x y (λ e. ground arith) in
    let r' = FreeSlices-update bytes page s x v (bytes (place page s y)) xs (ground arith) r in
    (
      e,
      l,
      subst (λ b. FreeSlices (update bytes (place page s x) v) page s b xs) (ground (arith, d)) r',
    )

FreeSlices-is_last :
    (bytes : ℕ → ℕ) (page s first : ℕ) (xs : List ℕ)
    → FreeSlices bytes page s first xs
    → (first == slice_end) ≡ is_empty xs
unfolding FreeSlices
FreeSlices-is_last bytes page s first [] h = ground arith
FreeSlices-is_last bytes page s first (y ∷ xs) h = ground arith

-- Taking a slice is popping that stack.
pub take_linked-FreeSlices :
    (bytes : ℕ → ℕ) (page s first x : ℕ) (xs : List ℕ)
    → place page s x + 1 < 2 ^ 32
    → x ∉ xs
    → FreeSlices bytes page s first (x ∷ xs)
    → let t = take_linked page s first bytes in
      (t.addr ≡ place page s x + 1)
      × (t.is_last ≡ is_empty xs)
      × FreeSlices t.bytes page s t.first_avai xs
unfolding take_linked FreeSlices
take_linked-FreeSlices bytes page s first x xs l n (e, b, r) =
    let at = ap (slice_at page s) e ∙ slice_at-place page s x (omega (arith, l)) in
    rw (at) (
      mod-eq_of_lt l,
      FreeSlices-is_last bytes page s (bytes (place page s x)) xs r,
      FreeSlices-update bytes page s x slice_end (bytes (place page s x)) xs n r,
    )
