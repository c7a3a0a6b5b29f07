-- ===== src/HashMap/Insertion.antt =====
-- `map_insert` returns (kernel/kernel/klib/map.c).
use chao_s_os.Prelude.{
  ℕ, zero, suc, ◌+◌, ◌<◌, ◌≡◌, ◌≢◌, refl, false, Bool-cases, inl, inr, some, arith, ◌==◌,
  if◌then◌else◌,
}
use chao_s_os.HashMap.{
  Status, empty, occupied, deleted, is_occupied, Map, slot, probe_slot, hash, insert_loop, place,
  insert_probing, map_find, overloaded, map_insert,
}
use chao_s_os.HashMap.Lookup.{IsValid, insert_probing-find}

-- A probe that meets a slot within its steps that holds no pair ends.
insert_loop-total :
    (f key : ℕ) (m : Map) (h i j : ℕ)
    → j < f
    → (slot m (probe_slot m h (i + j))).status ≢ occupied
    → (r : ℕ) × (insert_loop f key m h i ≡ some r)
unfolding insert_loop
insert_loop-total zero key m h i j l e = absurd (omega arith)
insert_loop-total (suc f) key m h i zero l e =
    let same : i + 0 ≡ i = omega arith in
    let here : (slot m (probe_slot m h i)).status ≢ occupied = rw same at e in
    vacant (slot m (probe_slot m h i)).status (slot m (probe_slot m h i)).key here
  where
    vacant :
        (st : Status) (k : ℕ)
        → st ≢ occupied
        → (r : ℕ) × ((if is_occupied st
              then (if k == key then some (probe_slot m h i) else insert_loop f key m h (i + 1))
              else some (probe_slot m h i))
            ≡ some r)
    vacant empty k n = (probe_slot m h i, refl)
    vacant deleted k n = (probe_slot m h i, refl)
    vacant occupied k n = absurd (n refl)
insert_loop-total (suc f) key m h i (suc j) l e =
    let same : i + suc j ≡ i + 1 + j = omega arith in
    let later : (slot m (probe_slot m h (i + 1 + j))).status ≢ occupied = rw same at e in
    let (r, ends) = insert_loop-total f key m h (i + 1) j (omega arith) later in
    stop (slot m (probe_slot m h i)).status (slot m (probe_slot m h i)).key r ends
  where
    stop :
        (st : Status) (k r : ℕ)
        → insert_loop f key m h (i + 1) ≡ some r
        → (r : ℕ) × ((if is_occupied st
              then (if k == key then some (probe_slot m h i) else insert_loop f key m h (i + 1))
              else some (probe_slot m h i))
            ≡ some r)
    stop empty k r e = (probe_slot m h i, refl)
    stop deleted k r e = (probe_slot m h i, refl)
    stop occupied k r e = elim (Bool-cases (k == key)) [
      | inl y ↦ (probe_slot m h i, rw y refl)
      | inr n ↦ (r, rw n e)
    ]

-- `map_insert` into a well formed table that its test of the load leaves as it is, where the probe for the
-- key meets a slot that holds no pair within the steps given: it returns, and `map_find` of the key then
-- returns the value within the same steps.
pub map_insert-returns :
    (d f key value j : ℕ) (m : Map)
    → IsValid m
    → overloaded m ≡ false
    → j < f
    → (slot m (probe_slot m (hash key m) (0 + j))).status ≢ occupied
    → (m' : Map) × (map_insert (suc d) f key value m ≡ some m')
      × (map_find f key m' ≡ some (some value))
unfolding map_insert insert_probing
map_insert-returns d f key value j m v o l e =
    let (index, at) = insert_loop-total f key m (hash key m) 0 j l e in
    let m' = place index key value m in
    let runs = probing_runs f key value index m at in
    (m', rw (o, at) refl, insert_probing-find f key value m v runs)
  where
    probing_runs :
        (f key value index : ℕ) (m : Map)
        → insert_loop f key m (hash key m) 0 ≡ some index
        → insert_probing f key value m ≡ some (place index key value m)
    probing_runs f key value index m at = rw at refl
