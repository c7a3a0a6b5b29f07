-- ===== src/HashMap/Lookup.antt =====
-- What `map_find` sees after an insertion that did not rehash (map.c, map_insert, _map_find).
use chao_s_os.Prelude.{
  ℕ, zero, suc, ◌+◌, ◌^◌, ◌<◌, ◌≡◌, ◌≢◌, refl, false, ◌&&◌, not, some, inl, inr, arith, ◌==◌,
  length, length-set, get_or-set_self, get_or-set_ne, Option-cases, subst,
}
use chao_s_os.HashMap.{
  Map, occupied, is_occupied, slot, blank_node, probe_slot, find_loop, insert_loop, place, hash,
  map_find, insert_probing, uint32_max,
}

-- The list has the slots that the capacity says, and no slot's index is UINT32_MAX.
pub record IsValid (m : Map) : Type 0 where
  pub positive : 0 < m.capacity
  pub slots : length m.list ≡ m.capacity
  pub small : m.capacity < 2 ^ 32
  pub level : m.capacity_level < 29

pub probe_slot-lt : {m : Map} (h i : ℕ) → IsValid m → probe_slot m h i < length m.list
unfolding probe_slot
probe_slot-lt h i v = omega arith

pub place-IsValid : {m : Map} (index key value : ℕ) → IsValid m → IsValid (place index key value m)
unfolding place
place-IsValid {m} index key value v =
    ground (arith, length-set m.list index (record { key = key; value = value; status = occupied }))

pub probe_slot-place :
    (m : Map) (index key value h i : ℕ)
    → probe_slot (place index key value m) h i ≡ probe_slot m h i
unfolding probe_slot place
probe_slot-place m index key value h i = refl

pub slot-place_self :
    (m : Map) (index key value : ℕ)
    → index < length m.list
    → slot (place index key value m) index ≡ record { key = key; value = value; status = occupied }
unfolding place
slot-place_self m index key value l = get_or-set_self m.list index _ blank_node l

pub slot-place_ne :
    (m : Map) (index key value j : ℕ) → index ≢ j → slot (place index key value m) j ≡ slot m j
unfolding place
slot-place_ne m index key value j n = get_or-set_ne m.list index j _ blank_node n

-- The slot at which the probe of `map_insert` ends: in range, and not another key's.
pub record Target (m : Map) (key index : ℕ) : Type 0 where
  pub in_range : index < length m.list
  pub free_or_same : (is_occupied (slot m index).status && not ((slot m index).key == key)) ≡ false

pub insert_loop-Target :
    (f key : ℕ) (m : Map) (h i index : ℕ)
    → IsValid m
    → insert_loop f key m h i ≡ some index
    → Target m key index
unfolding insert_loop
insert_loop-Target zero key m h i index v e = cc
insert_loop-Target (suc f) key m h i index v e =
    ground (arith, probe_slot-lt h i v, insert_loop-Target f key m h (i + 1) index v)

-- The probe of `_map_find` retraces that of `map_insert`, and ends at the slot written.
pub find_after_place :
    (f key value : ℕ) (m : Map) (h i index : ℕ)
    → Target m key index
    → insert_loop f key m h i ≡ some index
    → find_loop f key (place index key value m) h i ≡ some index
unfolding insert_loop find_loop
find_after_place zero key value m h i index t e = cc
find_after_place (suc f) key value m h i index t e = ground (
  arith,
  probe_slot-place m index key value h i,
  slot-place_self m index key value t.in_range,
  slot-place_ne m index key value (probe_slot m h i),
  find_after_place f key value m h (i + 1) index t,
)

-- A probe that ends at another key's slot ends there after the write too.
pub find_other_after_place :
    (f key other value : ℕ) (m : Map) (h i index found : ℕ)
    → key ≢ other
    → Target m key index
    → found ≢ uint32_max
    → find_loop f other m h i ≡ some found
    → find_loop f other (place index key value m) h i ≡ some found
unfolding find_loop
find_other_after_place zero key other value m h i index found n t p e = cc
find_other_after_place (suc f) key other value m h i index found n t p e = ground (
  arith,
  probe_slot-place m index key value h i,
  slot-place_self m index key value t.in_range,
  slot-place_ne m index key value (probe_slot m h i),
  find_other_after_place f key other value m h (i + 1) index found n t p,
)

-- Where `_map_find` ends other than by UINT32_MAX stands the key.
pub find_loop-key :
    (f key : ℕ) (m : Map) (h i found : ℕ)
    → found ≢ uint32_max
    → find_loop f key m h i ≡ some found
    → ((slot m found).key ≡ key) × ((slot m found).status ≡ occupied)
unfolding find_loop
find_loop-key zero key m h i found p e = cc
find_loop-key (suc f) key m h i found p e = ground (arith, find_loop-key f key m h (i + 1) found p)

-- What `map_find` answers, given where the probe ends.
pub map_find-of_found :
    (f key value : ℕ) (m : Map) (index : ℕ)
    → find_loop f key m (hash key m) 0 ≡ some index
    → index ≢ uint32_max
    → (slot m index).value ≡ value
    → map_find f key m ≡ some (some value)
unfolding map_find
map_find-of_found f key value m index e n w = rw e (ground arith)

pub hash-place :
    (m : Map) (index key value other : ℕ) → hash other (place index key value m) ≡ hash other m
unfolding hash place
hash-place m index key value other = refl

-- An insertion that returns has found its slot, and has written there.
pub insert_probing-inv :
    (f key value : ℕ) (m : Map) {m' : Map}
    → insert_probing f key value m ≡ some m'
    → (index : ℕ) × (insert_loop f key m (hash key m) 0 ≡ some index)
      × (place index key value m ≡ m')
unfolding insert_probing
insert_probing-inv f key value m e = elim (Option-cases (insert_loop f key m (hash key m) 0)) [
  | inl none_left ↦ absurd (ground arith)
  | inr (index, at) ↦ (index, at, ground arith)
]

-- After an insertion that does not rehash, with the key in the table before or not, `map_find` of
-- the key returns the value, within the number of probes that the insertion was given.
pub insert_probing-find :
    (f key value : ℕ) (m : Map) {m' : Map}
    → IsValid m
    → insert_probing f key value m ≡ some m'
    → map_find f key m' ≡ some (some value)
insert_probing-find f key value m v e =
    let (index, at, same) = insert_probing-inv f key value m e in
    let t = insert_loop-Target f key m (hash key m) 0 index v at in
    subst (λ r. map_find f key r ≡ some (some value)) same
      (map_find-of_found f key value (place index key value m) index
        (rw (hash-place m index key value key) (find_after_place f key value m _ 0 index t at))
        (omega (arith, v.small, v.slots, t.in_range))
        (rw (slot-place_self m index key value t.in_range)))

-- What `map_find` reports comes from the slot where the probe ends.
pub map_find-inv :
    (f key value : ℕ) (m : Map)
    → map_find f key m ≡ some (some value)
    → (index : ℕ) × (find_loop f key m (hash key m) 0 ≡ some index)
      × (index ≢ uint32_max)
      × ((slot m index).value ≡ value)
unfolding map_find
map_find-inv f key value m e = elim (Option-cases (find_loop f key m (hash key m) 0)) [
  | inl none_left ↦ absurd (ground arith)
  | inr (index, at) ↦ (index, at, ground arith, ground arith)
]

-- An insertion that does not rehash leaves what `map_find` returns for every other key that it
-- found: no pair is overwritten, and no probe is cut short.
pub insert_probing-find_ne :
    (f key value other kept : ℕ) (m : Map) {m' : Map}
    → IsValid m
    → key ≢ other
    → map_find f other m ≡ some (some kept)
    → insert_probing f key value m ≡ some m'
    → map_find f other m' ≡ some (some kept)
insert_probing-find_ne f key value other kept m v n b e =
    let (index, at, same) = insert_probing-inv f key value m e in
    let t = insert_loop-Target f key m (hash key m) 0 index v at in
    let (found, seen, small, w) = map_find-inv f other kept m b in
    let k = find_loop-key f other m (hash other m) 0 found small seen in
    subst (λ r. map_find f other r ≡ some (some kept)) same
      (map_find-of_found f other kept (place index key value m) found
        (rw (hash-place m index key value other)
          (find_other_after_place f key other value m _ 0 index found n t small seen))
        small (rw (slot-place_ne m index key value found (ground (arith, t.free_or_same))) w))
