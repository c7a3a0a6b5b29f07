-- ===== src/Links/Laws.antt =====
-- list_add, list_add_tail, list_del and the moves of klib/list.h, as operations on the sequence of
-- entries that a ring holds.
use chao_s_os.Prelude.{◌≡◌, ◌≢◌, sym, subst, inl, inr, true, Bool-cases, List, [], ◌∷◌, ◌++◌, arith}
use chao_s_os.Links.{
  Ptr, Links, list_add_between, list_add, list_add_tail, list_del, list_move_to_tail, null,
}
use chao_s_os.Links.Ring.{
  has, ◌∉◌, Chain, Ring, last_of, first_of_list, Chain-next, Chain-prev, Chain-split,
}
use chao_s_os.Links.Chains.{
  add_last, frame_add, add_first, has-append, frame_del, del_entry, Distinct-snoc, Distinct-remove,
  Distinct-middle,
}

-- `list_add_tail` puts a new entry behind the last one of the ring, and the ring stays one: every
-- link of it, in both directions, leads to the right neighbour.
pub list_add_tail-Ring :
    (new : Ptr) {head : Ptr} {h : Links} {xs : List Ptr}
    → new ≢ head
    → new ∉ xs
    → Ring h head xs
    → Ring (list_add_tail new head h) head (xs ++ new ∷ [])
unfolding list_add_tail
list_add_tail-Ring new {head} {h} {xs} n o r = record {
  chain =
      rw (Chain-prev h head xs head r.chain)
        (add_last h new head xs head n n o r.apart r.apart r.distinct r.chain);
  apart = ground (arith, has-append head xs (new ∷ []), r.apart);
  distinct = Distinct-snoc xs new o r.distinct;
}

-- `list_add` puts a new entry in front of the first one of the ring, and the ring stays one.
pub list_add-Ring :
    (new : Ptr) {head : Ptr} {h : Links} {xs : List Ptr}
    → new ≢ head
    → new ∉ xs
    → Ring h head xs
    → Ring (list_add new head h) head (new ∷ xs)
unfolding list_add
list_add-Ring new {head} {h} {xs} n o r = record {
  chain =
      subst (λ right. Chain (list_add_between new head right h) head (new ∷ xs) head)
        (sym (Chain-next h head xs head r.chain))
        (add_first h new head xs head n n o r.apart r.apart r.distinct r.chain);
  apart = ground (arith, r.apart);
  distinct = (o, r.distinct);
}

-- What the two fields of an entry of a chain hold.
neighbours :
    (h : Links) (a : Ptr) (xs : List Ptr) (e : Ptr) (ys : List Ptr) (b : Ptr)
    → Chain h a (xs ++ e ∷ ys) b
    → (h.prev e ≡ last_of a xs) × (h.next e ≡ first_of_list ys b)
neighbours h a xs e ys b c =
    let parts = Chain-split h a xs e ys b c in
    (Chain-prev h a xs e parts.0, Chain-next h e ys b parts.1)

-- `list_del` takes an entry out of the ring wherever it stands, joins its neighbours, keeps the
-- order of the others, and leaves the two fields of the entry null.
pub list_del-Ring :
    (xs : List Ptr) (e : Ptr) (ys : List Ptr) {head : Ptr} {h : Links}
    → Ring h head (xs ++ e ∷ ys)
    → Ring (list_del e h) head (xs ++ ys)
      × ((list_del e h).next e ≡ null)
      × ((list_del e h).prev e ≡ null)
unfolding list_del
list_del-Ring xs e ys {head} {h} r =
    let n = neighbours h head xs e ys head r.chain in
    (
      record {
        chain = rw (n.0, n.1) (del_entry h e head xs ys head r.apart r.apart r.distinct r.chain);
        apart = ground (arith, r.apart, has-append head xs (e ∷ ys), has-append head xs ys);
        distinct = Distinct-remove xs e ys r.distinct;
      },
      ground arith,
      ground arith,
    )

-- The two lists have no member in common.
abbrev pub Apart : List Ptr → List Ptr → Type 0
Apart xs ys = (p : Ptr) → has p xs ≡ true → p ∉ ys

has-middle : (xs : List Ptr) (e : Ptr) (ys : List Ptr) → has e (xs ++ e ∷ ys) ≡ true
has-middle xs e ys = ground (arith, has-append e xs (e ∷ ys))

has-last_of : (a : Ptr) (xs : List Ptr) → has (last_of a xs) (a ∷ xs) ≡ true
has-last_of a [] = ground arith
has-last_of a (x ∷ xs) = ground (arith, has-last_of x xs)

has-first_of_list : (ys : List Ptr) (b : Ptr) → has (first_of_list ys b) (b ∷ ys) ≡ true
has-first_of_list [] b = ground arith
has-first_of_list (y ∷ ys) b = ground arith

-- The two neighbours of an entry are members of the ring or its head.
neighbours_in :
    (head : Ptr) (xs : List Ptr) (e : Ptr) (ys : List Ptr)
    → (has (last_of head xs) (head ∷ xs ++ e ∷ ys) ≡ true)
      × (has (first_of_list ys head) (head ∷ xs ++ e ∷ ys) ≡ true)
neighbours_in head xs e ys = (
  ground (arith, has-last_of head xs, has-append (last_of head xs) xs (e ∷ ys)),
  ground (arith, has-first_of_list ys head, has-append (first_of_list ys head) xs (e ∷ ys)),
)

out_of_ring : (p head : Ptr) (zs : List Ptr) → p ∉ head ∷ zs → (p ≢ head) × (p ∉ zs)
out_of_ring p head zs o = (ground arith, ground arith)

module _ (xs : List Ptr) (e : Ptr) (ys : List Ptr) {head head' : Ptr} {zs : List Ptr} {h : Links}
    (r : Ring h head (xs ++ e ∷ ys)) (apart : Apart (head ∷ xs ++ e ∷ ys) (head' ∷ zs))
    (r' : Ring h head' zs) where
  entry_out : (e ≢ head') × (e ∉ zs)
  entry_out = out_of_ring e head' zs (apart e (ground (arith, has-middle xs e ys)))

  -- Deleting an entry of one ring leaves a ring apart from it alone.
  pub list_del-frame : Ring (list_del e h) head' zs
  unfolding list_del
  list_del-frame =
      let n = neighbours h head xs e ys head r.chain in
      let i = neighbours_in head xs e ys in
      let l = out_of_ring (last_of head xs) head' zs (apart _ i.0) in
      let f = out_of_ring (first_of_list ys head) head' zs (apart _ i.1) in
      record {
        chain =
            rw (n.0, n.1)
              (frame_del h e (last_of head xs) (first_of_list ys head) head' zs head' entry_out.0
                entry_out.0 entry_out.1 l.0 l.1 f.0 f.1 r'.chain);
        apart = r'.apart;
        distinct = r'.distinct;
      }

  not_in_ring : (p : Ptr) → has p (head' ∷ zs) ≡ true → (p ≢ head) × (p ∉ xs ++ e ∷ ys)
  not_in_ring p i = elim (Bool-cases (has p (head ∷ xs ++ e ∷ ys))) [
    | inl inside ↦ absurd (ground (arith, apart p inside))
    | inr outside ↦ out_of_ring p head (xs ++ e ∷ ys) outside
  ]

  drop_entry : (p : Ptr) → p ∉ xs ++ e ∷ ys → p ∉ xs ++ ys
  drop_entry p o = ground (arith, has-append p xs (e ∷ ys), has-append p xs ys)

  -- `list_move_to_tail` from one ring to the tail of another: the first ring loses exactly that
  -- entry and keeps its order, and the second one gains it behind its last entry.
  pub list_move_to_tail-Ring :
      Ring (list_move_to_tail e head' h) head (xs ++ ys)
      × Ring (list_move_to_tail e head' h) head' (zs ++ e ∷ [])
  unfolding list_move_to_tail
  list_move_to_tail-Ring =
      let d = list_del-Ring xs e ys r in
      let s = list_del-frame in
      let l = not_in_ring (last_of head' zs) (has-last_of head' zs) in
      let f = not_in_ring head' (ground arith) in
      let m = d.0 in
      (
        record {
          chain = rw (Chain-prev (list_del e h) head' zs head' s.chain) (
              frame_add (list_del e h) e (last_of head' zs) head' head (xs ++ ys) head
                (ground (arith, has-append head xs (e ∷ ys), r.apart))
                (ground (arith, has-append head xs (e ∷ ys), r.apart))
                (Distinct-middle xs e ys r.distinct) l.0 (drop_entry _ l.1) f.0 (drop_entry _ f.1)
                m.chain);
          apart = m.apart;
          distinct = m.distinct;
        },
        list_add_tail-Ring e entry_out.0 entry_out.1 s,
      )
