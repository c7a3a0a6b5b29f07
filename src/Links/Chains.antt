-- ===== src/Links/Chains.antt =====
-- Chains of entries: what the assignments of `_list_add` and `_list_del` (kernel/include/klib/list.h) do to them.
use chao_s_os.Prelude.{◌≡◌, ◌≢◌, refl, ◌||◌, List, [], ◌∷◌, ◌++◌, arith}
use chao_s_os.Links.{Ptr, Links, set_next, set_prev, list_add_between, null}
use chao_s_os.Links.Ring.{
  has, ◌∉◌, Distinct, Chain, last_of, first_of_list, Chain-set_next, Chain-set_prev,
}

ne_last_of : (p a : Ptr) (xs : List Ptr) → p ≢ a → p ∉ xs → p ≢ last_of a xs
ne_last_of p a [] n o = n
ne_last_of p a (x ∷ xs) n o = ne_last_of p x xs (ground arith) (ground arith)

ne_first_of_list : (p : Ptr) (xs : List Ptr) (b : Ptr) → p ≢ b → p ∉ xs → p ≢ first_of_list xs b
ne_first_of_list p [] b n o = n
ne_first_of_list p (x ∷ xs) b n o = ground arith

-- One entry more at the end of a chain.
pub add_last :
    (h : Links) (new a : Ptr) (xs : List Ptr) (b : Ptr)
    → new ≢ a
    → new ≢ b
    → new ∉ xs
    → a ∉ xs
    → b ∉ xs
    → Distinct xs
    → Chain h a xs b
    → Chain (list_add_between new (last_of a xs) b h) a (xs ++ new ∷ []) b
unfolding list_add_between
add_last h new a [] b na nb nx ax bx d c = (ground arith, ground arith)
add_last h new a (x ∷ xs) b na nb nx ax bx d c = (
  ground (arith, ne_last_of a x xs),
  add_last h new x xs b (ground arith) nb (ground arith) d.0 (ground arith) d.1 c.1,
)

-- A chain is left alone by an insertion next to it: it may start at `right` and end at `left`.
pub frame_add :
    (h : Links) (new left right a : Ptr) (xs : List Ptr) (b : Ptr)
    → new ≢ a
    → new ≢ b
    → new ∉ xs
    → left ≢ a
    → left ∉ xs
    → right ≢ b
    → right ∉ xs
    → Chain h a xs b
    → Chain (list_add_between new left right h) a xs b
unfolding list_add_between
frame_add h new left right a xs b na nb nx la lx rb rx c =
    let h₁ = set_next new right h in
    let h₂ = set_prev new left h₁ in
    let h₃ = set_next left new h₂ in
    Chain-set_prev h₃ right new a xs b rb rx (
      Chain-set_next h₂ left new a xs b la lx
        (Chain-set_prev h₁ new left a xs b nb nx (Chain-set_next h new right a xs b na nx c)))

-- One entry more at the front of a chain.
pub add_first :
    (h : Links) (new a : Ptr) (xs : List Ptr) (b : Ptr)
    → new ≢ a
    → new ≢ b
    → new ∉ xs
    → a ∉ xs
    → b ∉ xs
    → Distinct xs
    → Chain h a xs b
    → Chain (list_add_between new a (first_of_list xs b) h) a (new ∷ xs) b
unfolding list_add_between
add_first h new a [] b na nb nx ax bx d c = (ground arith, ground arith)
add_first h new a (x ∷ xs) b na nb nx ax bx d c = (ground arith, (ground arith, add_rest))
  where
    add_rest : Chain (list_add_between new a x h) x xs b
    add_rest =
        frame_add h new a x x xs b (ground arith) nb (ground arith) (ground arith) (ground arith)
          (ground arith) d.0 c.1

pub has-append : (a : Ptr) (xs ys : List Ptr) → has a (xs ++ ys) ≡ (has a xs || has a ys)
has-append a [] ys = refl
has-append a (x ∷ xs) ys = ground (arith, has-append a xs ys)

-- The four writes of `list_del`, at the neighbours `left` and `right` of `entry`.
abbrev unlink : Ptr → Ptr → Ptr → Links → Links
unlink entry left right h =
    set_prev entry null (set_next entry null (set_prev right left (set_next left right h)))

-- A chain is left alone by a deletion next to it.
pub frame_del :
    (h : Links) (e left right a : Ptr) (xs : List Ptr) (b : Ptr)
    → e ≢ a
    → e ≢ b
    → e ∉ xs
    → left ≢ a
    → left ∉ xs
    → right ≢ b
    → right ∉ xs
    → Chain h a xs b
    → Chain (unlink e left right h) a xs b
frame_del h e left right a xs b na nb nx la lx rb rx c =
    let h₁ = set_next left right h in
    let h₂ = set_prev right left h₁ in
    let h₃ = set_next e null h₂ in
    Chain-set_prev h₃ e null a xs b nb nx (
      Chain-set_next h₂ e null a xs b na nx
        (Chain-set_prev h₁ right left a xs b rb rx (Chain-set_next h left right a xs b la lx c)))

del_here :
    (h : Links) (e a : Ptr) (ys : List Ptr) (b : Ptr)
    → a ∉ e ∷ ys
    → b ∉ e ∷ ys
    → Distinct (e ∷ ys)
    → Chain h a (e ∷ ys) b
    → Chain (unlink e a (first_of_list ys b) h) a ys b
del_here h e a [] b ax bx d c = ground arith
del_here h e a (y ∷ ys) b ax bx d c = (
  ground arith,
  frame_del h e a y y ys b (ground arith) (ground arith) (ground arith) (ground arith)
      (ground arith) (ground arith) d.1.0 c.1.1,
)

pub del_entry :
    (h : Links) (e a : Ptr) (xs ys : List Ptr) (b : Ptr)
    → a ∉ xs ++ e ∷ ys
    → b ∉ xs ++ e ∷ ys
    → Distinct (xs ++ e ∷ ys)
    → Chain h a (xs ++ e ∷ ys) b
    → Chain (unlink e (last_of a xs) (first_of_list ys b) h) a (xs ++ ys) b
del_entry h e a [] ys b ax bx d c = del_here h e a ys b ax bx d c
del_entry h e a (x ∷ xs) ys b ax bx d c = (
  ground (
    arith,
    ne_last_of a x xs,
    ne_first_of_list x ys b,
    has-append a xs (e ∷ ys),
    has-append x xs (e ∷ ys),
  ),
  del_entry h e x xs ys b d.0 (ground arith) d.1 c.1,
)

pub Distinct-snoc : (xs : List Ptr) (new : Ptr) → new ∉ xs → Distinct xs → Distinct (xs ++ new ∷ [])
Distinct-snoc [] new o d = (refl, tt)
Distinct-snoc (x ∷ xs) new o d =
    (ground (arith, has-append x xs (new ∷ [])), Distinct-snoc xs new (ground arith) d.1)

pub Distinct-remove :
    (xs : List Ptr) (e : Ptr) (ys : List Ptr) → Distinct (xs ++ e ∷ ys) → Distinct (xs ++ ys)
Distinct-remove [] e ys d = d.1
Distinct-remove (x ∷ xs) e ys d =
    (ground (arith, has-append x xs ys, has-append x xs (e ∷ ys)), Distinct-remove xs e ys d.1)

pub Distinct-middle :
    (xs : List Ptr) (e : Ptr) (ys : List Ptr) → Distinct (xs ++ e ∷ ys) → e ∉ xs ++ ys
Distinct-middle [] e ys d = d.0
Distinct-middle (x ∷ xs) e ys d =
    ground (arith, has-append x xs (e ∷ ys), Distinct-middle xs e ys d.1)
