-- ===== src/HashMap/Occupancy.antt =====
-- What the probes and the counter of map.c do with slots that are taken, deleted or already hold the
-- key.
use chao_s_os.Prelude.{
  ℕ, zero, suc, ◌+◌, ◌-◌, ◌*◌, ◌/◌, ◌%◌, ◌^◌, ◌≤◌, ◌<◌, ◌≡◌, ◌≢◌, refl, none, some, arith, length,
  List, [], ◌∷◌, set, get_or, if◌then◌else◌, ap, ◌∙◌, ◌⊎◌, length-set,
}
use chao_s_os.HashMap.{
  Map, MapNode, occupied, deleted, is_occupied, slot, blank_node, probe_slot, find_loop,
  insert_loop, hash, map_find, insert_probing, delete_probing, mark_deleted, place, uint32_max,
}
use chao_s_os.HashMap.Lookup.{
  IsValid, Target, insert_loop-Target, find_loop-key, find_after_place, map_find-of_found,
  map_find-inv, hash-place, slot-place_ne, probe_slot-place,
}
use chao_s_os.HashMap.Deletion.{slot-mark_self, slot-mark_ne, hash-mark, probe_slot-mark}

-- How many slots are occupied.
unfoldable pub count_occupied : List MapNode → ℕ
count_occupied [] = 0
count_occupied (s ∷ list) = (if is_occupied s.status then 1 else 0) + count_occupied list

count-set :
    (list : List MapNode) (i : ℕ) (s : MapNode)
    → i < length list
    → s.status ≡ occupied
    → (get_or list i blank_node).status ≡ occupied
    → count_occupied (set list i s) ≡ count_occupied list
unfolding count_occupied
count-set [] i s l o p = absurd (omega arith)
count-set (x ∷ list) zero s l o p = ground arith
count-set (x ∷ list) (suc i) s l o p = omega (arith, count-set list i s (omega arith) o p)

-- `map_insert` of a key that its probe finds in the table overwrites the pair: the table holds as
-- many pairs as before, and yet `size` has grown by one.
pub insert_probing-size :
    (f key value index : ℕ) (m : Map) {m' : Map}
    → IsValid m
    → m.size < 2 ^ 32 - 1
    → insert_loop f key m (hash key m) 0 ≡ some index
    → (slot m index).status ≡ occupied
    → insert_probing f key value m ≡ some m'
    → (count_occupied m'.list ≡ count_occupied m.list) × (m'.size ≡ m.size + 1)
unfolding insert_probing
insert_probing-size f key value index m v small at o e =
    let t = insert_loop-Target f key m (hash key m) 0 index v at in
    let node : MapNode = record { key = key; value = value; status = occupied } in
    ground (arith, count-set m.list index node t.in_range refl o)

-- Two tables that differ at one slot, which is deleted in both, are probed alike.
find_loop-deleted :
    (f key : ℕ) (m m' : Map) (h i index : ℕ)
    → ((h i : ℕ) → probe_slot m' h i ≡ probe_slot m h i)
    → ((j : ℕ) → index ≢ j → slot m' j ≡ slot m j)
    → (slot m index).status ≡ deleted
    → (slot m' index).status ≡ deleted
    → find_loop f key m' h i ≡ find_loop f key m h i
unfolding find_loop
find_loop-deleted zero key m m' h i index same others d d' = refl
find_loop-deleted (suc f) key m m' h i index same others d d' = ground (
  arith,
  same h i,
  others (probe_slot m h i),
  find_loop-deleted f key m m' h (i + 1) index same others d d',
)

insert_of_found :
    (f key value index : ℕ) (m : Map)
    → insert_loop f key m (hash key m) 0 ≡ some index
    → insert_probing f key value m ≡ some (place index key value m)
unfolding insert_probing
insert_of_found f key value index m at = rw at

delete_of_found :
    (f key index : ℕ) (m : Map)
    → find_loop f key m (hash key m) 0 ≡ some index
    → index ≢ uint32_max
    → delete_probing f key m ≡ some (mark_deleted index m)
unfolding delete_probing
delete_of_found f key index m at n = rw at (ground arith)

length-place :
    (m : Map) (index key value : ℕ) → length (place index key value m).list ≡ length m.list
unfolding place
length-place m index key value = length-set m.list index _

module _ (key value index : ℕ) (m : Map) (t : Target m key index) where
  abbrev written : Map
  written = place index key value m

  abbrev erased : Map
  erased = mark_deleted index written

  still_in : index < length written.list
  still_in = omega (arith, t.in_range, length-place m index key value)

  erased_here : (slot erased index).status ≡ deleted
  erased_here = rw (slot-mark_self written index still_in)

  erased_elsewhere : (j : ℕ) → index ≢ j → slot erased j ≡ slot m j
  erased_elsewhere j n = slot-mark_ne written index j n ∙ slot-place_ne m index key value j n

  erased-hash : hash key erased ≡ hash key m
  erased-hash = hash-mark written index key ∙ hash-place m index key value key

  erased_probe : (h i : ℕ) → probe_slot erased h i ≡ probe_slot m h i
  erased_probe h i = probe_slot-mark written index h i ∙ probe_slot-place m index key value h i

-- Where a deleted slot stands on the probe in front of the slot that holds a key, `map_insert` of the
-- key takes the deleted slot and leaves the old pair behind it: after `map_delete` of the key, which
-- returns, `map_find` still answers, with the value from before the insertion. (Both operations are
-- taken behind their tests of the load.)
pub stale_pair :
    (f key value stale index : ℕ) (m : Map)
    → IsValid m
    → insert_loop f key m (hash key m) 0 ≡ some index
    → (slot m index).status ≡ deleted
    → map_find f key m ≡ some (some stale)
    → (m₁ : Map) × (m₂ : Map) × (insert_probing f key value m ≡ some m₁)
      × (delete_probing f key m₁ ≡ some m₂)
      × (map_find f key m₂ ≡ some (some stale))
stale_pair f key value stale index m v at d b =
    let t = insert_loop-Target f key m (hash key m) 0 index v at in
    let small : index ≢ uint32_max = omega (arith, t.in_range, v.small, v.slots) in
    let (found, seen, n, w) = map_find-inv f key stale m b in
    let k = find_loop-key f key m (hash key m) 0 found n seen in
    let other : index ≢ found = ground arith in
    let probes =
      find_loop-deleted f key m (erased key value index m t) (hash key m) 0 index
        (erased_probe key value index m t) (erased_elsewhere key value index m t) d
        (erased_here key value index m t) in
    (
      written key value index m t,
      erased key value index m t,
      insert_of_found f key value index m at,
      delete_of_found f key index (written key value index m t)
          (rw (hash-place m index key value key)
            (find_after_place f key value m (hash key m) 0 index t at))
          small,
      map_find-of_found f key stale (erased key value index m t) found
          (rw (erased-hash key value index m t) (probes ∙ seen)) n
          (ap (λ (s : MapNode). s.value) (erased_elsewhere key value index m t found other) ∙ w),
    )

square_lt : (i : ℕ) → i < 2 ^ 16 → i * i < 2 ^ 32
square_lt i l = let a : i * i ≤ 65535 * i = grind arith in omega arith

square_digits : (i q r : ℕ) → i ≡ 7 * q + r → i * i ≡ 7 * (7 * (q * q) + 2 * (q * r)) + r * r
square_digits i q r e = omega (arith, ap (λ (t : ℕ). t * t) e)

abbrev IsResidue : ℕ → Type 0
IsResidue n = (n ≡ 0) ⊎ (n ≡ 1) ⊎ (n ≡ 2) ⊎ (n ≡ 4)

residue : (n k r : ℕ) → n ≡ 7 * k + r * r → r < 7 → IsResidue (n % 7)
residue n k zero e l = omega arith
residue n k (suc zero) e l = omega arith
residue n k (suc (suc zero)) e l = omega arith
residue n k (suc (suc (suc zero))) e l = omega arith
residue n k (suc (suc (suc (suc zero)))) e l = omega arith
residue n k (suc (suc (suc (suc (suc zero))))) e l = omega arith
residue n k (suc (suc (suc (suc (suc (suc zero)))))) e l = omega arith
residue n k (suc (suc (suc (suc (suc (suc (suc r))))))) e l = absurd (omega arith)

-- A square is 0, 1, 2 or 4 modulo 7.
square-mod_seven : (i : ℕ) → IsResidue (i * i % 7)
square-mod_seven i =
    residue (i * i) (7 * (i / 7 * (i / 7)) + 2 * (i / 7 * (i % 7))) (i % 7)
      (square_digits i (i / 7) (i % 7) (omega arith)) (omega arith)

-- In a table of capacity 7, a probe that starts at slot 0 reaches the slots 0, 1, 2 and 4 alone as
-- long as its squares fit 32 bits.
probe_slot_seven : (m : Map) (i : ℕ) → m.capacity ≡ 7 → i < 2 ^ 16 → IsResidue (probe_slot m 0 i)
unfolding probe_slot
probe_slot_seven m i e l = rw e (ground (arith, square_lt i l, square-mod_seven i))

-- A slot that the probe of `map_insert` has to pass.
pub record Taken (m : Map) (key index : ℕ) : Type 0 where
  pub full : (slot m index).status ≡ occupied
  pub other : (slot m index).key ≢ key

-- In a table of capacity 7 whose slots 0, 1, 2 and 4 hold other keys, the probe of `map_insert` for
-- a key with hash 0 finds no slot in its first 65536 steps, whatever the slots 3, 5 and 6 hold: they
-- may all be empty.
pub probes_in_vain :
    (f key i : ℕ) (m : Map)
    → m.capacity ≡ 7
    → Taken m key 0
    → Taken m key 1
    → Taken m key 2
    → Taken m key 4
    → i + f ≤ 2 ^ 16
    → insert_loop f key m 0 i ≡ none
unfolding insert_loop
probes_in_vain zero key i m e a b c d l = refl
probes_in_vain (suc f) key i m e a b c d l = ground (
  arith,
  probe_slot_seven m i e (omega arith),
  probes_in_vain f key (i + 1) m e a b c d (omega arith),
)
