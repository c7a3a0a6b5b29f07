-- ===== src/Tty/Screen.antt =====
-- What the loops of kernel/arch/i386/tty.c do to the cells of the screen.
use chao_s_os.Prelude.{
  ℕ, zero, suc, ◌+◌, ◌*◌, ◌≤◌, ◌≡◌, refl, ap, ◌∙◌, Bool-cases, inl, inr, arith, ◌==◌, ltb,
  if◌then◌else◌,
}
use chao_s_os.Tty.{Tty, fill, copy_cells, roll_rows, terminal_roll, set_cell, vga_entry, blank}

-- All but the cells.
pub record SameRest (t t' : Tty) : Type 0 where
  pub row : t'.terminal_row ≡ t.terminal_row
  pub column : t'.terminal_column ≡ t.terminal_column
  pub color : t'.terminal_color ≡ t.terminal_color

SameRest-refl : (t : Tty) → SameRest t t
SameRest-refl t = record { row = refl; column = refl; color = refl }

SameRest-trans : (t u v : Tty) → SameRest t u → SameRest u v → SameRest t v
SameRest-trans t u v a b = record {
  row = b.row ∙ a.row;
  column = b.column ∙ a.column;
  color = b.color ∙ a.color;
}

set_cell-SameRest : (i v : ℕ) (t : Tty) → SameRest t (set_cell i v t)
set_cell-SameRest i v t = record { row = refl; column = refl; color = refl }

fill-SameRest : (n index v : ℕ) (t : Tty) → SameRest t (fill n index v t)
unfolding fill
fill-SameRest zero index v t = SameRest-refl t
fill-SameRest (suc n) index v t =
    SameRest-trans t (set_cell index v t) _ (set_cell-SameRest index v t)
      (fill-SameRest n (index + 1) v (set_cell index v t))

fill-cell :
    (n index v : ℕ) (t : Tty) (j : ℕ)
    → (fill n index v t).terminal_buffer j ≡ (
        if ltb j index
        then t.terminal_buffer j
        else if ltb j (index + n)
        then v
        else t.terminal_buffer j)
unfolding fill
fill-cell zero index v t j = ground arith
fill-cell (suc n) index v t j = fill-cell n (index + 1) v (set_cell index v t) j ∙ ground arith

copy_cells-SameRest : (n dst src : ℕ) (t : Tty) → SameRest t (copy_cells n dst src t)
unfolding copy_cells
copy_cells-SameRest zero dst src t = SameRest-refl t
copy_cells-SameRest (suc n) dst src t =
    let u = set_cell dst (t.terminal_buffer src) t in
    SameRest-trans t u _ (set_cell-SameRest dst (t.terminal_buffer src) t)
      (copy_cells-SameRest n (dst + 1) (src + 1) u)

-- A row is copied upward: `gap` cells lie between a cell and its source.
copy_cells-cell :
    (n dst gap : ℕ) (t : Tty) (j : ℕ)
    → 1 ≤ gap
    → (copy_cells n dst (dst + gap) t).terminal_buffer j ≡ (
        if ltb j dst
        then t.terminal_buffer j
        else if ltb j (dst + n)
        then t.terminal_buffer (j + gap)
        else t.terminal_buffer j)
unfolding copy_cells
copy_cells-cell zero dst gap t j p = ground arith
copy_cells-cell (suc n) dst gap t j p =
    let u = set_cell dst (t.terminal_buffer (dst + gap)) t in
    let same : dst + gap + 1 ≡ dst + 1 + gap = omega arith in
    ap (λ (s : ℕ). (copy_cells n (dst + 1) s u).terminal_buffer j) same
    ∙ copy_cells-cell n (dst + 1) gap u j p
    ∙ copied n dst gap j (t.terminal_buffer) p
  where
    copied :
        (n dst gap j : ℕ) (b : ℕ → ℕ)
        → 1 ≤ gap
        → (if ltb j (dst + 1)
            then (if j == dst then b (dst + gap) else b j)
            else if ltb j (dst + 1 + n)
            then (if j + gap == dst then b (dst + gap) else b (j + gap))
            else (if j == dst then b (dst + gap) else b j))
          ≡ (if ltb j dst then b j else if ltb j (dst + suc n) then b (j + gap) else b j)
    copied n dst gap j b p = elim (Bool-cases (j == dst)) [
      | inl e ↦ let same : j ≡ dst = ground arith in rw same (ground arith)
      | inr d ↦ ground arith
    ]

roll_rows-SameRest : (n i : ℕ) (t : Tty) → SameRest t (roll_rows n i t)
unfolding roll_rows
roll_rows-SameRest zero i t = SameRest-refl t
roll_rows-SameRest (suc n) i t =
    let u = copy_cells 80 (i * 80) ((i + 1) * 80) t in
    SameRest-trans t u _ (copy_cells-SameRest 80 (i * 80) ((i + 1) * 80) t)
      (roll_rows-SameRest n (i + 1) u)

roll_rows-cell :
    (n i : ℕ) (t : Tty) (j : ℕ)
    → (roll_rows n i t).terminal_buffer j ≡ (
        if ltb j (i * 80)
        then t.terminal_buffer j
        else if ltb j ((i + n) * 80)
        then t.terminal_buffer (j + 80)
        else t.terminal_buffer j)
unfolding roll_rows
roll_rows-cell zero i t j = ground arith
roll_rows-cell (suc n) i t j =
    let same : (i + 1) * 80 ≡ i * 80 + 80 = omega arith in
    let u = copy_cells 80 (i * 80) ((i + 1) * 80) t in
    let below = λ (j : ℕ).
      ap (λ (s : ℕ). (copy_cells 80 (i * 80) s t).terminal_buffer j) same
      ∙ copy_cells-cell 80 (i * 80) 80 t j (omega arith) in
    roll_rows-cell n (i + 1) u j
    ∙ rolled n i j u.terminal_buffer t.terminal_buffer (below j) (below (j + 80))
  where
    rolled :
        (n i j : ℕ) (u b : ℕ → ℕ)
        → u j ≡ (if ltb j (i * 80) then b j else if ltb j (i * 80 + 80) then b (j + 80) else b j)
        → u (j + 80) ≡ (
            if ltb (j + 80) (i * 80)
            then b (j + 80)
            else if ltb (j + 80) (i * 80 + 80)
            then b (j + 80 + 80)
            else b (j + 80))
        → (if ltb j ((i + 1) * 80)
            then u j
            else if ltb j ((i + 1 + n) * 80)
            then u (j + 80)
            else u j)
          ≡ (if ltb j (i * 80) then b j else if ltb j ((i + suc n) * 80) then b (j + 80) else b j)
    rolled n i j u b e f = ground arith

pub terminal_roll-SameRest : (t : Tty) → SameRest t (terminal_roll t)
unfolding terminal_roll
terminal_roll-SameRest t =
    SameRest-trans t (roll_rows 24 0 t) _ (roll_rows-SameRest 24 0 t)
      (fill-SameRest 80 1920 (vga_entry blank t.terminal_color) (roll_rows 24 0 t))

-- The screen one row up: the first 24 rows get the cells of the row below, the last one is blank, and
-- no cell behind the screen changes.
pub terminal_roll-cell :
    (t : Tty) (j : ℕ)
    → (terminal_roll t).terminal_buffer j ≡ (
        if ltb j 1920
        then t.terminal_buffer (j + 80)
        else if ltb j 2000
        then vga_entry blank t.terminal_color
        else t.terminal_buffer j)
unfolding terminal_roll
terminal_roll-cell t j =
    fill-cell 80 1920 (vga_entry blank t.terminal_color) (roll_rows 24 0 t) j
    ∙ last j (vga_entry blank t.terminal_color) (roll_rows 24 0 t).terminal_buffer t.terminal_buffer
        (roll_rows-cell 24 0 t j)
  where
    last :
        (j e : ℕ) (u b : ℕ → ℕ)
        → u j ≡ (if ltb j (0 * 80) then b j else if ltb j ((0 + 24) * 80) then b (j + 80) else b j)
        → (if ltb j 1920 then u j else if ltb j (1920 + 80) then e else u j)
          ≡ (if ltb j 1920 then b (j + 80) else if ltb j 2000 then e else b j)
    last j e u b h = ground arith
