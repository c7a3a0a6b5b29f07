-- ===== src/HashMap/Contents.antt =====
-- The pairs that a table without deleted slots holds, and what the writing of one slot makes of them
-- (kernel/kernel/klib/map.c, map_insert behind its test of the load).
use chao_s_os.Prelude.{
  ℕ, zero, suc, ◌+◌, ◌≡◌, ◌≢◌, ◌↔◌, refl, some, inl, inr, ◌⊎◌, arith, ◌==◌, Bool-cases, subst, sym,
  ◌∙◌, ap,
}
use chao_s_os.HashMap.{
  Map, MapNode, occupied, deleted, slot, probe_slot, find_loop, insert_loop, place, hash, map_find,
  insert_probing, uint32_max,
}
use chao_s_os.HashMap.Lookup.{
  IsValid, Target, insert_loop-Target, find_after_place, find_other_after_place, find_loop-key,
  map_find-of_found, map_find-inv, hash-place, slot-place_self, slot-place_ne, insert_probing-inv,
}

-- Some slot holds the pair.
pub record Stored (m : Map) (k v : ℕ) : Type 0 where
  pub index : ℕ
  pub full : (slot m index).status ≡ occupied
  pub has_key : (slot m index).key ≡ k
  pub has_value : (slot m index).value ≡ v

-- No slot is deleted, and the probe for the key of a pair ends at the slot of the pair within `f`
-- steps, so that no key stands twice.
pub record Sound (f : ℕ) (m : Map) : Type 0 where
  pub no_deleted : (j : ℕ) → (slot m j).status ≢ deleted
  pub small : (j : ℕ) → (slot m j).status ≡ occupied → j ≢ uint32_max
  pub reachable :
      (j : ℕ)
      → (slot m j).status ≡ occupied
      → find_loop f (slot m j).key m (hash (slot m j).key m) 0 ≡ some j

-- Where no slot is deleted, the probe of an insertion stops at the key that a search finds.
probes_agree :
    (f key : ℕ) (m : Map) (h i found index : ℕ)
    → ((j : ℕ) → (slot m j).status ≢ deleted)
    → found ≢ uint32_max
    → find_loop f key m h i ≡ some found
    → insert_loop f key m h i ≡ some index
    → found ≡ index
unfolding find_loop insert_loop
probes_agree zero key m h i found index n p e at = cc
probes_agree (suc f) key m h i found index n p e at =
    ground (arith, n (probe_slot m h i), probes_agree f key m h (i + 1) found index n p)

-- What an insertion does to the pairs: the key has the value and no other one, and the pairs of the
-- other keys are what they were.
pub record Inserts (f key value : ℕ) (m m' : Map) : Type 0 where
  pub sound : Sound f m'
  pub pair : Stored m' key value
  pub only : (k v : ℕ) → Stored m' k v → (k ≡ key) × (v ≡ value) ⊎ (k ≢ key) × Stored m k v
  pub others : (k v : ℕ) → k ≢ key → Stored m k v → Stored m' k v

module _ (f key value index : ℕ) (m : Map) (v : IsValid m) (s : Sound f m)
    (at : insert_loop f key m (hash key m) 0 ≡ some index) where
  abbrev target : Target m key index
  target = insert_loop-Target f key m (hash key m) 0 index v at

  -- A pair in another slot than the one that is written has another key.
  other_key : (j : ℕ) → index ≢ j → (slot m j).status ≡ occupied → (slot m j).key ≢ key
  other_key j n o same = n (
      sym (
        probes_agree f key m (hash key m) 0 j index s.no_deleted (s.small j o)
          (subst (λ k. find_loop f k m (hash k m) 0 ≡ some j) same (s.reachable j o)) at))

  placed_small : index ≢ uint32_max
  placed_small = omega (arith, v.small, v.slots, target.in_range)

  place_no_deleted : (j : ℕ) → (slot (place index key value m) j).status ≢ deleted
  place_no_deleted j = ground (
    arith,
    s.no_deleted j,
    slot-place_self m index key value target.in_range,
    slot-place_ne m index key value j,
  )

  place_small : (j : ℕ) → (slot (place index key value m) j).status ≡ occupied → j ≢ uint32_max
  place_small j o = ground (arith, placed_small, s.small j, slot-place_ne m index key value j)

  place_reachable :
      (j : ℕ)
      → (slot (place index key value m) j).status ≡ occupied
      → find_loop f
          (slot (place index key value m) j).key
          (place index key value m)
          (hash (slot (place index key value m) j).key (place index key value m))
          0
        ≡ some j
  place_reachable j o = elim (Bool-cases (index == j)) [
    | inl y ↦
        let same : index ≡ j = ground arith in
        subst
          (λ i.
            find_loop f (slot (place index key value m) i).key (place index key value m)
              (hash (slot (place index key value m) i).key (place index key value m)) 0
            ≡ some i)
          same
          (rw (slot-place_self m index key value target.in_range, hash-place m index key value key)
            (find_after_place f key value m (hash key m) 0 index target at))
    | inr y ↦
        let n : index ≢ j = ground arith in
        let e = slot-place_ne m index key value j n in
        let o' : (slot m j).status ≡ occupied = rw e at o in
        rw (e, hash-place m index key value (slot m j).key)
          (find_other_after_place f key (slot m j).key value m (hash (slot m j).key m) 0 index j
            (λ q. other_key j n o' (sym q)) target (s.small j o') (s.reachable j o'))
  ]

  place-Sound : Sound f (place index key value m)
  place-Sound = record {
    no_deleted = place_no_deleted;
    small = place_small;
    reachable = place_reachable;
  }

  place-Stored : Stored (place index key value m) key value
  place-Stored =
      let e = slot-place_self m index key value target.in_range in
      record { index = index; full = rw e refl; has_key = rw e refl; has_value = rw e refl }

  place_only :
      (k w : ℕ)
      → Stored (place index key value m) k w
      → (k ≡ key) × (w ≡ value) ⊎ (k ≢ key) × Stored m k w
  place_only k w stored =
      let record { index = j; full = o; has_key = p; has_value = q } = stored in
      elim (Bool-cases (index == j)) [
        | inl y ↦
            let same : index ≡ j = ground arith in
            let e = slot-place_self m index key value target.in_range in
            inl (
              sym p
                  ∙ ap (λ i. (slot (place index key value m) i).key) (sym same)
                  ∙ ap (λ (n : MapNode). n.key) e,
              sym q
                  ∙ ap (λ i. (slot (place index key value m) i).value) (sym same)
                  ∙ ap (λ (n : MapNode). n.value) e,
            )
        | inr y ↦
            let n : index ≢ j = ground arith in
            let e = slot-place_ne m index key value j n in
            let o' : (slot m j).status ≡ occupied = rw e at o in
            let p' : (slot m j).key ≡ k = rw e at p in
            let q' : (slot m j).value ≡ w = rw e at q in
            inr (
              λ r. other_key j n o' (p' ∙ r),
              record { index = j; full = o'; has_key = p'; has_value = q' },
            )
      ]

  place_others : (k w : ℕ) → k ≢ key → Stored m k w → Stored (place index key value m) k w
  place_others k w n stored =
      let record { index = j; full = o; has_key = p; has_value = q } = stored in
      let apart : index ≢ j = (λ r. clash j n o p r) in
      let e = slot-place_ne m index key value j apart in
      record { index = j; full = rw e o; has_key = rw e p; has_value = rw e q }
    where
      clash :
          {k : ℕ} (j : ℕ)
          → k ≢ key
          → (slot m j).status ≡ occupied
          → (slot m j).key ≡ k
          → index ≡ j
          → ⊥
      clash {k} j n o p r =
          let o' : (slot m index).status ≡ occupied = rw r o in
          let p' : (slot m index).key ≡ k = rw r p in ground (arith, target.free_or_same)

  place-Inserts : Inserts f key value m (place index key value m)
  place-Inserts = record {
    sound = place-Sound;
    pair = place-Stored;
    only = place_only;
    others = place_others;
  }

-- An insertion behind the test of the load, into a table without deleted slots.
pub insert_probing-Inserts :
    (f key value : ℕ) (m m' : Map)
    → IsValid m
    → Sound f m
    → insert_probing f key value m ≡ some m'
    → Inserts f key value m m'
insert_probing-Inserts f key value m m' v s e =
    let (index, at, same) = insert_probing-inv f key value m e in
    subst (Inserts f key value m) same (place-Inserts f key value index m v s at)

-- In such a table, `map_find` answers with the pairs that are stored, and with no others.
pub map_find-Stored :
    (f k v : ℕ) (m : Map) → Sound f m → map_find f k m ≡ some (some v) ↔ Stored m k v
map_find-Stored f k v m s = (forth, back)
  where
    forth : map_find f k m ≡ some (some v) → Stored m k v
    forth e =
        let (found, seen, n, w) = map_find-inv f k v m e in
        let at = find_loop-key f k m (hash k m) 0 found n seen in
        record { index = found; full = at.1; has_key = at.0; has_value = w }

    back : Stored m k v → map_find f k m ≡ some (some v)
    back stored =
        let record { index = j; full = o; has_key = p; has_value = q } = stored in
        map_find-of_found f k v m j
          (subst (λ i. find_loop f i m (hash i m) 0 ≡ some j) p (s.reachable j o)) (s.small j o) q
