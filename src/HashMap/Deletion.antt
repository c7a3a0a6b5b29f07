-- ===== src/HashMap/Deletion.antt =====
-- map_delete of map.c behind its test of the load, and what a deletion does to later look-ups.
use chao_s_os.Prelude.{
  ℕ, zero, suc, ◌+◌, ◌<◌, ◌≡◌, ◌≢◌, refl, none, some, inl, inr, ◌⊎◌, arith, ◌==◌, length,
  get_or-set_self, get_or-set_ne, Option-cases, ◌&&◌, subst, sym, if◌then◌else◌, Bool-cases,
}
use chao_s_os.HashMap.{
  Map, Status, empty, occupied, deleted, is_empty, is_occupied, slot, blank_node, probe_slot,
  find_loop, hash, map_find, delete_probing, mark_deleted, uint32_max,
}
use chao_s_os.HashMap.Lookup.{IsValid, probe_slot-lt, find_loop-key}

pub slot-mark_self :
    (m : Map) (index : ℕ)
    → index < length m.list
    → slot (mark_deleted index m) index ≡ record (slot m index) { status = deleted }
unfolding mark_deleted
slot-mark_self m index l = get_or-set_self m.list index _ blank_node l

pub slot-mark_ne : (m : Map) (index j : ℕ) → index ≢ j → slot (mark_deleted index m) j ≡ slot m j
unfolding mark_deleted
slot-mark_ne m index j n = get_or-set_ne m.list index j _ blank_node n

pub probe_slot-mark :
    (m : Map) (index h i : ℕ) → probe_slot (mark_deleted index m) h i ≡ probe_slot m h i
unfolding probe_slot mark_deleted
probe_slot-mark m index h i = refl

-- Deleting a slot of one key leaves every probe for another key alone.
find_loop-mark :
    (f other : ℕ) (m : Map) (h i index : ℕ)
    → index < length m.list
    → (slot m index).key ≢ other
    → (slot m index).status ≡ occupied
    → find_loop f other (mark_deleted index m) h i ≡ find_loop f other m h i
unfolding find_loop
find_loop-mark zero other m h i index l n o = refl
find_loop-mark (suc f) other m h i index l n o = ground (
  arith,
  probe_slot-mark m index h i,
  slot-mark_self m index l,
  slot-mark_ne m index (probe_slot m h i),
  find_loop-mark f other m h (i + 1) index l n o,
)

find_loop-lt :
    (f key : ℕ) (m : Map) (h i found : ℕ)
    → IsValid m
    → found ≢ uint32_max
    → find_loop f key m h i ≡ some found
    → found < length m.list
unfolding find_loop
find_loop-lt zero key m h i found v p e = cc
find_loop-lt (suc f) key m h i found v p e =
    ground (arith, probe_slot-lt h i v, find_loop-lt f key m h (i + 1) found v p)

pub hash-mark : (m : Map) (index other : ℕ) → hash other (mark_deleted index m) ≡ hash other m
unfolding hash mark_deleted
hash-mark m index other = refl

value-mark :
    (m : Map) (index j : ℕ)
    → index < length m.list
    → (slot (mark_deleted index m) j).value ≡ (slot m j).value
value-mark m index j l = ground (arith, slot-mark_self m index l, slot-mark_ne m index j)

-- Equal probes and equal values make equal answers.
map_find-cong :
    (f key : ℕ) (m m' : Map)
    → find_loop f key m' (hash key m') 0 ≡ find_loop f key m (hash key m) 0
    → ((j : ℕ) → (slot m' j).value ≡ (slot m j).value)
    → map_find f key m' ≡ map_find f key m
unfolding map_find
map_find-cong f key m m' e same = elim (Option-cases (find_loop f key m (hash key m) 0)) [
  | inl none_left ↦ ground arith
  | inr (index, at) ↦ ground (arith, same index)
]

-- A deletion that returns ends at UINT32_MAX and changes nothing, or marks the slot of its key.
delete_probing-inv :
    (f key : ℕ) (m : Map) {m' : Map}
    → IsValid m
    → delete_probing f key m ≡ some m'
    → (index : ℕ) × (find_loop f key m (hash key m) 0 ≡ some index)
      × ((index ≡ uint32_max) × (m ≡ m')
          ⊎ (index ≢ uint32_max) × (index < length m.list) × (mark_deleted index m ≡ m'))
unfolding delete_probing
delete_probing-inv f key m v e = elim (Option-cases (find_loop f key m (hash key m) 0)) [
  | inl none_left ↦ absurd (ground arith)
  | inr (index, at) ↦ elim (Bool-cases (index == uint32_max)) [
    | inl absent ↦ (index, at, inl (ground arith, ground arith))
    | inr present ↦ (
      index,
      at,
      inr (
        ground arith,
        find_loop-lt f key m (hash key m) 0 index v (ground arith) at,
        ground arith,
      ),
    )
  ]
]

-- A deletion that does not rehash leaves every answer of `map_find` for another key as it was: the
-- value, the report that the key is absent, and a probe that has not ended.
pub delete_probing-find_ne :
    (f key other : ℕ) (m : Map) {m' : Map}
    → IsValid m
    → key ≢ other
    → delete_probing f key m ≡ some m'
    → map_find f other m' ≡ map_find f other m
delete_probing-find_ne f key other m v n e =
    let (index, at, result) = delete_probing-inv f key m v e in
    elim result [
      | inl (absent, same) ↦ subst (λ r. map_find f other r ≡ map_find f other m) same refl
      | inr (present, l, same) ↦
          let k = find_loop-key f key m (hash key m) 0 index present at in
          subst (λ r. map_find f other r ≡ map_find f other m) same
            (map_find-cong f other m (mark_deleted index m)
              (rw (hash-mark m index other)
                (find_loop-mark f other m (hash other m) 0 index l (ground (arith, k.0)) k.1))
              (λ j. value-mark m index j l))
    ]

-- No two occupied slots hold the same key.
pub record Unique (m : Map) : Type 0 where
  pub one_slot :
      (i j : ℕ)
      → (slot m i).status ≡ occupied
      → (slot m j).status ≡ occupied
      → (slot m i).key ≡ (slot m j).key
      → i ≡ j

not_found_of_gone :
    (f key : ℕ) (m : Map) (index h found : ℕ)
    → Unique m
    → index < length m.list
    → (slot m index).key ≡ key
    → (slot m index).status ≡ occupied
    → found ≢ uint32_max
    → find_loop f key (mark_deleted index m) h 0 ≡ some found
    → ⊥
not_found_of_gone f key m index h found u l k o p e = ground (
  arith,
  find_loop-key f key (mark_deleted index m) h 0 found p e,
  slot-mark_self m index l,
  slot-mark_ne m index found,
  u.one_slot index found,
)

-- A probe that meets an empty slot within its steps ends.
pub find_loop-total :
    (f key : ℕ) (m : Map) (h i j : ℕ)
    → j < f
    → (slot m (probe_slot m h (i + j))).status ≡ empty
    → (r : ℕ) × (find_loop f key m h i ≡ some r)
unfolding find_loop
find_loop-total zero key m h i j l e = absurd (omega arith)
find_loop-total (suc f) key m h i zero l e =
    let same : i + 0 ≡ i = omega arith in
    let here : (slot m (probe_slot m h i)).status ≡ empty = rw same at e in (uint32_max, rw here)
find_loop-total (suc f) key m h i (suc j) l e =
    let same : i + suc j ≡ i + 1 + j = omega arith in
    let later : (slot m (probe_slot m h (i + 1 + j))).status ≡ empty = rw same at e in
    let (r, ends) = find_loop-total f key m h (i + 1) j (omega arith) later in
    stop (slot m (probe_slot m h i)).status (slot m (probe_slot m h i)).key r ends
  where
    stop :
        (st : Status) (k r : ℕ)
        → find_loop f key m h (i + 1) ≡ some r
        → (r : ℕ) × ((if is_empty st
              then some uint32_max
              else if k == key && is_occupied st
              then some (probe_slot m h i)
              else find_loop f key m h (i + 1))
            ≡ some r)
    stop empty k r e = (uint32_max, refl)
    stop deleted k r e = (r, ground arith)
    stop occupied k r e = elim (Bool-cases (k == key)) [
      | inl same ↦ (probe_slot m h i, rw same)
      | inr other ↦ (r, rw other e)
    ]

empty-mark :
    (m : Map) (index j : ℕ)
    → index < length m.list
    → (slot m index).status ≡ occupied
    → (slot m j).status ≡ empty
    → (slot (mark_deleted index m) j).status ≡ empty
empty-mark m index j l o e = ground (arith, slot-mark_ne m index j)

absent-answer :
    (f key r : ℕ) (m : Map)
    → find_loop f key m (hash key m) 0 ≡ some r
    → (r ≢ uint32_max → ⊥)
    → map_find f key m ≡ some none
unfolding map_find
absent-answer f key r m e n = rw e (ground arith)

-- The key of the slot that a deletion marks is gone.
gone :
    (f key j index : ℕ) (m : Map)
    → IsValid m
    → Unique m
    → j < f
    → (slot m (probe_slot m (hash key m) (0 + j))).status ≡ empty
    → index ≢ uint32_max
    → find_loop f key m (hash key m) 0 ≡ some index
    → map_find f key (mark_deleted index m) ≡ some none
unfolding mark_deleted probe_slot
gone f key j index m v u l e n at =
    let k = find_loop-key f key m (hash key m) 0 index n at in
    let b = find_loop-lt f key m (hash key m) 0 index v n at in
    let still = empty-mark m index _ b k.1 e in
    let (r, ends) = find_loop-total f key (mark_deleted index m) (hash key m) 0 j l still in
    absent-answer f key r (mark_deleted index m)
      (subst (λ h. find_loop f key (mark_deleted index m) h 0 ≡ some r)
        (sym (hash-mark m index key)) ends)
      (λ p. not_found_of_gone f key m index (hash key m) r u b k.0 k.1 p ends)

delete_at :
    (f key j index : ℕ) (m : Map)
    → IsValid m
    → Unique m
    → j < f
    → (slot m (probe_slot m (hash key m) (0 + j))).status ≡ empty
    → find_loop f key m (hash key m) 0 ≡ some index
    → (m' : Map) × (delete_probing f key m ≡ some m') × (map_find f key m' ≡ some none)
unfolding delete_probing
delete_at f key j index m v u l e at = elim (Bool-cases (index == uint32_max)) [
  | inl absent ↦ (m, rw (at, absent), absent-answer f key index m at (λ n. n (ground arith)))
  | inr present ↦
      (mark_deleted index m, rw (at, present), gone f key j index m v u l e (ground arith) at)
]

-- In a table where no key stands twice, and where the probe for the key meets an empty slot within
-- the steps given, `map_delete` behind its test of the load returns, and `map_find` then reports the
-- key as absent.
pub delete_probing-find :
    (f key j : ℕ) (m : Map)
    → IsValid m
    → Unique m
    → j < f
    → (slot m (probe_slot m (hash key m) (0 + j))).status ≡ empty
    → (m' : Map) × (delete_probing f key m ≡ some m') × (map_find f key m' ≡ some none)
delete_probing-find f key j m v u l e =
    let (index, at) = find_loop-total f key m (hash key m) 0 j l e in
    delete_at f key j index m v u l e at
