-- ===== src/Kmm/Laying.antt =====
-- `init_linked_page` (kernel/kernel/kmm.c) threads the slices of a page, and the slices that are then
-- taken one after the other.
use chao_s_os.Prelude.{
  ℕ, zero, suc, ◌+◌, ◌-◌, ◌*◌, ◌%◌, ◌≤◌, ◌<◌, ◌≡◌, refl, sym, subst, true, false, List, [], ◌∷◌,
  arith, leb, if◌then◌else◌, update,
}
use native.Mathlib.Decide.{dec_lt}
use native.Mathlib.Nat.{mod-eq_of_lt, mul-le-mul_right}
use chao_s_os.Links.Ring.{◌∉◌}
use chao_s_os.Buddy.{page_frame_size}
use chao_s_os.Kmm.{lay_slices, store_word, init_linked_page, slice_end, page_header}
use chao_s_os.Kmm.Slices.{place, place-lt, FreeSlices}

-- `n` slices fill a page.
pub record Fills (s n : ℕ) : Type 0 where
  pub fits : n * (s + 1) ≤ 4092
  pub tight : 4092 < suc n * (s + 1)
  pub few : n < slice_end

-- What the loop leaves from round `i` on.
record Laid (page s i n last : ℕ) (b : ℕ → ℕ) (r : ℕ × (ℕ → ℕ)) : Type 0 where
  threaded : (j : ℕ) → i ≤ j → j < n → r.1 (place page s j) ≡ j + 1
  kept : (a : ℕ) → a < place page s i → r.1 a ≡ b a
  end : r.0 ≡ (if leb n i then last else place page s (n - 1))

pub place-fits :
    (page s i n : ℕ) → Fills s n → i < n → place page s i + (s + 1) ≤ page + page_frame_size
place-fits page s i n f l =
    let d : suc i * (s + 1) ≤ n * (s + 1) = mul-le-mul_right (s + 1) l in omega (arith, d, f.fits)

place-full : (page s n : ℕ) → Fills s n → page + page_frame_size < place page s n + (s + 1)
place-full page s n f = omega (arith, f.tight)

Laid-round :
    (page s i n last : ℕ) (b : ℕ → ℕ) (r : ℕ × (ℕ → ℕ))
    → i < n
    → Laid page s (i + 1) n (place page s i) (update b (place page s i) (i + 1)) r
    → Laid page s i n last b r
Laid-round page s i n last b r l h = record {
  threaded = λ j m o. elim (dec_lt i j) [
    | yes g ↦ h.threaded j (omega (arith, g)) o
    | no g ↦
        (let e : j ≡ i = omega (arith, m, g) in
          rw (e) ground (arith, h.kept (place page s i), place-lt page s i (i + 1)))
  ];
  kept = λ a m. ground (arith, h.kept a, place-lt page s i (i + 1));
  end = ground (arith, h.end, l);
}

lay_slices-Laid :
    (k page s i n last : ℕ) (b : ℕ → ℕ)
    → Fills s n
    → i ≤ n
    → n < k + i
    → Laid page s i n last b (lay_slices k page s (place page s i) i last b)
unfolding lay_slices
lay_slices-Laid zero page s i n last b f l k = absurd (omega (arith, l, k))
lay_slices-Laid (suc k) page s i n last b f l h = elim (dec_lt i n) [
  | yes m ↦
      let step : place page s i + (s + 1) ≡ place page s (i + 1) = omega arith in
      let byte : (i + 1) % 256 ≡ i + 1 = mod-eq_of_lt (omega (arith, m, f.few)) in
      let test : leb (place page s (i + 1)) (page + page_frame_size) ≡ true =
        ground (arith, place-fits page s i n f m) in
      let rest =
        lay_slices-Laid k page s (i + 1) n (place page s i) (update b (place page s i) (i + 1)) f
          (omega (arith, m)) (omega (arith, h)) in
      rw (step, byte, test) (Laid-round page s i n last b _ m rest)
  | no g ↦
      let e : i ≡ n = omega (arith, l, g) in
      let test : leb (place page s i + (s + 1)) (page + page_frame_size) ≡ false =
        rw (e) ground (arith, place-full page s n f) in
      rw (test) (record {
        threaded = λ j m o. absurd (omega (arith, m, o, e));
        kept = λ a m. refl;
        end = ground (arith, e);
      })
]

-- The slices from `i` on.
abbrev pub from : ℕ → ℕ → List ℕ
from zero i = []
from (suc k) i = i ∷ from k (i + 1)

pub from-∉ : (k i x : ℕ) → x < i → x ∉ from k i
from-∉ zero i x l = refl
from-∉ (suc k) i x l = ground (arith, from-∉ k (i + 1) x)

-- A threaded page whose last slice ends the thread.
threaded-FreeSlices :
    (k page s i n : ℕ) (bytes : ℕ → ℕ)
    → n < slice_end
    → suc k + i ≡ n
    → ((j : ℕ) → i ≤ j → suc j < n → bytes (place page s j) ≡ j + 1)
    → bytes (place page s (n - 1)) ≡ slice_end
    → FreeSlices bytes page s i (from (suc k) i)
unfolding FreeSlices
threaded-FreeSlices zero page s i n bytes f e t end = (
  refl,
  omega (arith, e, f),
  subst (λ j. bytes (place page s j) ≡ slice_end) (omega (arith, e)) end,
)
threaded-FreeSlices (suc k) page s i n bytes f e t end =
    let rest =
      threaded-FreeSlices k page s (i + 1) n bytes f (omega (arith, e))
        (λ j l. t j (omega (arith, l))) end in
    (
      refl,
      omega (arith, e, f),
      subst (λ a. FreeSlices bytes page s a (from (suc k) (i + 1)))
          (sym (t i (omega arith) (omega (arith, e)))) rest,
    )

pub init_linked_page-FreeSlices :
    (allocator page s n : ℕ) (bytes : ℕ → ℕ)
    → Fills s n
    → 0 < n
    → FreeSlices (init_linked_page allocator page s bytes) page s 0 (from n 0)
unfolding init_linked_page
init_linked_page-FreeSlices allocator page s zero bytes f p = absurd (omega (arith, p))
init_linked_page-FreeSlices allocator page s (suc n) bytes f p =
    let base : place page s 0 ≡ page + page_header = omega arith in
    let bytes₁ = store_word page allocator bytes in
    let laid =
      subst
        (λ a. Laid page s 0 (suc n) page bytes₁ (lay_slices page_frame_size page s a 0 page bytes₁))
        base
        (lay_slices-Laid page_frame_size page s 0 (suc n) page bytes₁ f (omega arith)
          (omega (arith, f.few))) in
    threaded-FreeSlices n page s 0 (suc n) _ f.few (omega arith)
      (λ j m l. ground (arith, laid.threaded j, laid.end, place-lt page s j n))
      (ground (arith, laid.end))
