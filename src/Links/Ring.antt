-- ===== src/Links/Ring.antt =====
-- What a circular list stands for: the sequence of its entries, read from the head.
use chao_s_os.Prelude.{◌≡◌, ◌≢◌, Bool, false, ◌||◌, List, [], ◌∷◌, ◌++◌, arith, ◌==◌}
use chao_s_os.Links.{Ptr, Links, set_next, set_prev}

abbrev pub has : Ptr → List Ptr → Bool
has a [] = false
has a (x ∷ xs) = (a == x) || has a xs

infix 40 ◌∉◌
abbrev pub ◌∉◌ : Ptr → List Ptr → Type 0
a ∉ xs = has a xs ≡ false

-- No entry twice.
abbrev pub Distinct : List Ptr → Type 0
Distinct [] = Unit
Distinct (x ∷ xs) = (x ∉ xs) × Distinct xs

-- `a` is linked to `b` in both directions.
pub record Linked (h : Links) (a b : Ptr) : Type 0 where
  pub forth : h.next a ≡ b
  pub back : h.prev b ≡ a

-- From `a` the links lead through `xs` to `b`, and back.
abbrev pub Chain : Links → Ptr → List Ptr → Ptr → Type 0
Chain h a [] b = Linked h a b
Chain h a (x ∷ xs) b = Linked h a x × Chain h x xs b

-- The ring of `head` holds exactly the entries `xs`, in this order, none of them twice.
pub record Ring (h : Links) (head : Ptr) (xs : List Ptr) : Type 0 where
  pub chain : Chain h head xs head
  pub apart : head ∉ xs
  pub distinct : Distinct xs

-- The last entry, or the start where there is none.
abbrev pub last_of : Ptr → List Ptr → Ptr
last_of a [] = a
last_of a (x ∷ xs) = last_of x xs

abbrev pub first_of_list : List Ptr → Ptr → Ptr
first_of_list [] b = b
first_of_list (x ∷ xs) b = x

module _ (h : Links) where
  -- The neighbours that the ends point at.
  pub Chain-next :
      (a : Ptr) (xs : List Ptr) (b : Ptr) → Chain h a xs b → h.next a ≡ first_of_list xs b
  Chain-next a [] b c = c.forth
  Chain-next a (x ∷ xs) b c = c.0.forth

  pub Chain-prev : (a : Ptr) (xs : List Ptr) (b : Ptr) → Chain h a xs b → h.prev b ≡ last_of a xs
  Chain-prev a [] b c = c.back
  Chain-prev a (x ∷ xs) b c = Chain-prev x xs b c.1

  -- A chain splits at any entry, and two chains that meet join.
  pub Chain-split :
      (a : Ptr) (xs : List Ptr) (e : Ptr) (ys : List Ptr) (b : Ptr)
      → Chain h a (xs ++ e ∷ ys) b
      → Chain h a xs e × Chain h e ys b
  Chain-split a [] e ys b c = c
  Chain-split a (x ∷ xs) e ys b c = let r = Chain-split x xs e ys b c.1 in ((c.0, r.0), r.1)

  pub Chain-join :
      (a : Ptr) (xs : List Ptr) (e : Ptr) (ys : List Ptr) (b : Ptr)
      → Chain h a xs e
      → Chain h e ys b
      → Chain h a (xs ++ e ∷ ys) b
  Chain-join a [] e ys b c d = (c, d)
  Chain-join a (x ∷ xs) e ys b c d = (c.0, Chain-join x xs e ys b c.1 d)

  -- Writing `next` of the start and `prev` of the end is all that can change of a chain's ends:
  -- a write to `next` outside the start and the entries, or to `prev` outside the entries and the
  -- end, leaves it alone.
  pub Chain-set_next :
      (p q : Ptr) (a : Ptr) (xs : List Ptr) (b : Ptr)
      → p ≢ a
      → p ∉ xs
      → Chain h a xs b
      → Chain (set_next p q h) a xs b
  Chain-set_next p q a [] b n o c = ground arith
  Chain-set_next p q a (x ∷ xs) b n o c =
      (ground arith, Chain-set_next p q x xs b (ground arith) (ground arith) c.1)

  pub Chain-set_prev :
      (p q : Ptr) (a : Ptr) (xs : List Ptr) (b : Ptr)
      → p ≢ b
      → p ∉ xs
      → Chain h a xs b
      → Chain (set_prev p q h) a xs b
  Chain-set_prev p q a [] b n o c = ground arith
  Chain-set_prev p q a (x ∷ xs) b n o c =
      (ground arith, Chain-set_prev p q x xs b n (ground arith) c.1)
