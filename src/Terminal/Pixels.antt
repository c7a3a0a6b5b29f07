-- ===== src/Terminal/Pixels.antt =====
-- `put_pixel` (kernel/kernel/vbe.c) in a mode of 32 bits a pixel: the pixel that is read back.
use chao_s_os.Prelude.{
  ℕ, suc, ◌+◌, ◌*◌, ◌/◌, ◌%◌, ◌^◌, ◌≤◌, ◌<◌, ◌≡◌, ◌⊎◌, inl, inr, refl, ap, ◌∙◌, false, ◌&&◌, arith,
  ◌==◌, if◌then◌else◌, Bool-cases,
}
use native.Mathlib.Decide.{dec_lt}
use native.Mathlib.Nat.{mul-le-mul_right}
use chao_s_os.Strings.{Memory, store}
use chao_s_os.Terminal.{Device, put_pixel, plot}

-- The mode has four bytes a pixel, and a line holds `w` pixels.
pub record Depth (d : Device) (w : ℕ) : Type 0 where
  pub bits : d.mode.bpp ≡ 32
  pub line : 4 * w ≤ d.mode.pitch

abbrev pub pixel_address : Device → ℕ → ℕ → ℕ
pixel_address d x y = d.buffer + (4 * x + y * d.mode.pitch)

-- The color that the bytes of a pixel make up.
unfoldable pub get_pixel : Device → ℕ → ℕ → Memory → ℕ
get_pixel d x y m =
    let a = pixel_address d x y in m a + 2 ^ 8 * m (a + 1) + 2 ^ 16 * m (a + 2) + 2 ^ 24 * m (a + 3)

-- Two pixels have no byte in common.
later_line :
    (d : Device) (w x y x' y' : ℕ)
    → Depth d w
    → x < w
    → y < y'
    → pixel_address d x y + 4 ≤ pixel_address d x' y'
later_line d w x y x' y' p l m =
    let lines : suc y * d.mode.pitch ≤ y' * d.mode.pitch = mul-le-mul_right d.mode.pitch m in
    omega (arith, lines, p.line, l)

pixels_apart :
    (d : Device) (w x y x' y' : ℕ)
    → Depth d w
    → x < w
    → x' < w
    → ((x == x') && (y == y')) ≡ false
    → (pixel_address d x y + 4 ≤ pixel_address d x' y')
      ⊎ (pixel_address d x' y' + 4 ≤ pixel_address d x y)
pixels_apart d w x y x' y' p l l' n = elim (dec_lt y y') [
  | yes m ↦ inl (later_line d w x y x' y' p l m)
  | no g ↦ elim (dec_lt y' y) [
    | yes m ↦ inr (later_line d w x' y' x y p l' m)
    | no g' ↦
        let e : y ≡ y' = omega (arith, g, g') in
        let line = ap (λ y. y * d.mode.pitch) e in ground (arith, line, n, e)
  ]
]

-- The four bytes of a color at an address, and what they make up.
abbrev store_color : ℕ → ℕ → Memory → Memory
store_color a color m = store (a + 3) (color / 2 ^ 24 % 256) (
    store (a + 2) (color / 2 ^ 16 % 256)
      (store (a + 1) (color / 2 ^ 8 % 256) (store a (color % 256) m)))

abbrev load_color : ℕ → Memory → ℕ
load_color a m = m a + 2 ^ 8 * m (a + 1) + 2 ^ 16 * m (a + 2) + 2 ^ 24 * m (a + 3)

load_color_self :
    (a color : ℕ) (m : Memory) → color < 2 ^ 32 → load_color a (store_color a color m) ≡ color
load_color_self a color m l =
    let b₀ : store_color a color m a ≡ color % 256 = ground arith in
    let b₁ : store_color a color m (a + 1) ≡ color / 2 ^ 8 % 256 = ground arith in
    let b₂ : store_color a color m (a + 2) ≡ color / 2 ^ 16 % 256 = ground arith in
    let b₃ : store_color a color m (a + 3) ≡ color / 2 ^ 24 % 256 = ground arith in
    omega (arith, b₀, b₁, b₂, b₃, l)

store_color_other :
    (a b color : ℕ) (m : Memory) → (b < a) ⊎ (a + 4 ≤ b) → store_color a color m b ≡ m b
store_color_other a b color m o = ground (arith, o)

load_color_other :
    (a b color : ℕ) (m : Memory)
    → (b + 4 ≤ a) ⊎ (a + 4 ≤ b)
    → load_color b (store_color a color m) ≡ load_color b m
load_color_other a b color m o =
    let same = store_color_other a in
    omega (
      arith,
      same b color m (omega (arith, o)),
      same (b + 1) color m (omega (arith, o)),
      same (b + 2) color m (omega (arith, o)),
      same (b + 3) color m (omega (arith, o)),
    )

plot-store_color :
    (d : Device) (w x y color : ℕ) (m : Memory)
    → Depth d w
    → plot d x y color m ≡ store_color (pixel_address d x y) color m
unfolding plot put_pixel
plot-store_color d w x y color m p =
    let bytes : x * d.mode.bpp / 8 ≡ 4 * x = ap (λ b. x * b / 8) p.bits ∙ omega arith in
    rw (bytes) refl

pub plot-get_pixel :
    (d : Device) (w x y x' y' color : ℕ) (m : Memory)
    → Depth d w
    → x < w
    → x' < w
    → color < 2 ^ 32
    → get_pixel d x y (plot d x' y' color m)
      ≡ (if (x == x') && (y == y') then color else get_pixel d x y m)
unfolding get_pixel
plot-get_pixel d w x y x' y' color m p l l' c =
    let e = ap (load_color (pixel_address d x y)) (plot-store_color d w x' y' color m p) in
    e ∙ elim (Bool-cases ((x == x') && (y == y'))) [
      | inl t ↦
          let ex : x ≡ x' = ground (arith, t) in
          let ey : y ≡ y' = ground (arith, t) in
          let at : pixel_address d x y ≡ pixel_address d x' y' =
            ap (λ x. pixel_address d x y) ex ∙ ap (pixel_address d x') ey in
          rw (t) (
            ap (λ a. load_color a (store_color (pixel_address d x' y') color m)) at
            ∙ load_color_self (pixel_address d x' y') color m c)
      | inr f ↦ rw (f) (
          load_color_other (pixel_address d x' y') (pixel_address d x y) color m
            (pixels_apart d w x y x' y' p l l' f))
    ]
