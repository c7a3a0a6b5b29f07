-- ===== src/Links/Rotation.antt =====
-- A ring of kernel/include/klib/list.h read from one of its entries: the head is then an entry.
use chao_s_os.Prelude.{
  ◌≡◌, ◌≢◌, refl, ap, subst, inl, inr, true, List, [], ◌∷◌, ◌++◌, arith, Bool-cases,
}
use chao_s_os.Links.{Ptr, Links}
use chao_s_os.Links.Ring.{has, ◌∉◌, Distinct, Ring, Chain-split, Chain-join}
use chao_s_os.Links.Chains.{has-append}

pub append_assoc : (xs : List Ptr) (t : Ptr) (ys : List Ptr) → (xs ++ t ∷ []) ++ ys ≡ xs ++ t ∷ ys
append_assoc [] t ys = refl
append_assoc (x ∷ xs) t ys = ap (λ zs. x ∷ zs) (append_assoc xs t ys)

pub append_middle :
    (ys : List Ptr) (h : Ptr) (xs zs : List Ptr) → (ys ++ h ∷ xs) ++ zs ≡ ys ++ h ∷ (xs ++ zs)
append_middle [] h xs zs = refl
append_middle (y ∷ ys) h xs zs = ap (λ zs. y ∷ zs) (append_middle ys h xs zs)

-- Two lists with no entry in common.
abbrev Disjoint : List Ptr → List Ptr → Type 0
Disjoint xs ys = (z : Ptr) → has z xs ≡ true → z ∉ ys

Distinct-split :
    (xs ys : List Ptr) → Distinct (xs ++ ys) → Distinct xs × Distinct ys × Disjoint xs ys
Distinct-split [] ys d = (tt, d, λ z h. absurd (ground (arith, h)))
Distinct-split (x ∷ xs) ys (a, d) =
    let (dx, dy, o) = Distinct-split xs ys d in
    (
      (ground (arith, a, has-append x xs ys), dx),
      dy,
      λ z h. elim (Bool-cases (has z xs)) [
        | inl y ↦ o z y
        | inr n ↦
            let e : x ≡ z = ground (arith, h, n) in
            subst (λ z. z ∉ ys) e (ground (arith, a, has-append x xs ys))
      ],
    )

Distinct-join :
    (xs ys : List Ptr) → Distinct xs → Distinct ys → Disjoint xs ys → Distinct (xs ++ ys)
Distinct-join [] ys d e o = e
Distinct-join (x ∷ xs) ys (a, d) e o = (
  ground (arith, a, has-append x xs ys, o x),
  Distinct-join xs ys d e (λ z h. o z (ground (arith, h))),
)

pub Ring-rotate :
    (h : Links) (head : Ptr) (xs : List Ptr) (e : Ptr) (ys : List Ptr)
    → Ring h head (xs ++ e ∷ ys)
    → Ring h e (ys ++ head ∷ xs)
Ring-rotate h head xs e ys r =
    let (c, d) = Chain-split h head xs e ys head r.chain in
    let (dx, (ey, dy), o) = Distinct-split xs (e ∷ ys) r.distinct in
    let swapped : Disjoint ys xs = λ z m. elim (Bool-cases (has z xs)) [
      | inl y ↦ absurd (ground (arith, o z y, m))
      | inr n ↦ n
    ] in
    let apart = r.apart in
    let outside : (head ∉ xs) × (head ∉ (e ∷ ys)) = (
      ground (arith, apart, has-append head xs (e ∷ ys)),
      ground (arith, apart, has-append head xs (e ∷ ys)),
    ) in
    let first : e ∉ xs = elim (Bool-cases (has e xs)) [
      | inl y ↦ absurd (ground (arith, o e y))
      | inr n ↦ n
    ] in
    let e_head : e ≢ head = ground (arith, outside.1) in
    record {
      chain = Chain-join h e ys head xs e d c;
      apart = ground (arith, ey, first, e_head, has-append e ys (head ∷ xs));
      distinct =
          Distinct-join ys (head ∷ xs) dy (outside.0, dx)
            (λ z m. ground (arith, m, outside.1, swapped z m));
    }
