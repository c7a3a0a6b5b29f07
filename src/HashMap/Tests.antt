-- ===== src/HashMap/Tests.antt =====
-- The hash table at a table of capacity 7 that holds the keys 7 and 14, both with hash 0.
use chao_s_os.Prelude.{
  ℕ, zero, suc, ◌≡◌, ◌≢◌, ◌+◌, ◌∙◌, sym, false, refl, some, none, [], ◌∷◌, arith, ◌<◌, ◌↔◌, ◌⊎◌,
  replicate,
}
use chao_s_os.HashMap.{
  Map, MapNode, empty, occupied, deleted, blank_node, map_insert, map_delete, map_find,
  insert_probing, delete_probing, insert_loop, find_loop, hash, slot, probe_slot, overloaded,
}
use chao_s_os.HashMap.Lookup.{IsValid}
use chao_s_os.HashMap.Insertion.{map_insert-returns}
use chao_s_os.HashMap.Growth.{map_insert-find}
use chao_s_os.HashMap.Deletion.{Unique, delete_probing-find}
use chao_s_os.HashMap.Contents.{Sound}
use chao_s_os.HashMap.Refinement.{map_insert-map_find}
use chao_s_os.HashMap.Occupancy.{stale_pair}

abbrev node : ℕ → ℕ → MapNode
node k v = record { key = k; value = v; status = occupied }

abbrev tombstone : ℕ → ℕ → MapNode
tombstone k v = record { key = k; value = v; status = deleted }

abbrev table_of : ℕ → MapNode → MapNode → MapNode → MapNode → Map
table_of n a b c e = record {
  capacity = 7;
  capacity_level = 3;
  size = n;
  list = a ∷ b ∷ c ∷ blank_node ∷ e ∷ blank_node ∷ blank_node ∷ [];
}

abbrev table : Map
table = table_of 2 (node 7 70) (node 14 140) blank_node blank_node

abbrev with_21 : Map
with_21 = table_of 3 (node 7 70) (node 14 140) blank_node (node 21 5)

table-IsValid : IsValid table
table-IsValid = omega arith

insert_runs : map_insert 2 9 21 5 table ≡ some with_21
unfolding map_insert probe_slot
insert_runs = refl

map_insert-find_example : map_find 9 21 with_21 ≡ some (some 5)
map_insert-find_example = map_insert-find 2 9 21 5 table with_21 table-IsValid insert_runs

not_overloaded : overloaded table ≡ false
unfolding overloaded
not_overloaded = refl

third_probe : (slot table (probe_slot table (hash 21 table) (0 + 2))).status ≢ occupied
unfolding probe_slot hash
third_probe e = ground arith

map_insert-returns_example :
    (m' : Map) × (map_insert 2 9 21 5 table ≡ some m') × (map_find 9 21 m' ≡ some (some 5))
map_insert-returns_example =
    map_insert-returns 1 9 21 5 2 table table-IsValid not_overloaded (omega arith) third_probe

delete_runs :
    map_delete 2 9 14 table ≡ some (table_of 1 (node 7 70) (tombstone 14 140) blank_node blank_node)
unfolding map_delete probe_slot
delete_runs = refl

find_14 : map_find 9 14 table ≡ some (some 140)
unfolding map_find probe_slot
find_14 = refl

insert_probing_runs : insert_probing 9 21 5 table ≡ some with_21
unfolding insert_probing probe_slot
insert_probing_runs = refl

delete_7 :
    delete_probing 9 7 table
    ≡ some (table_of 1 (tombstone 7 70) (node 14 140) blank_node blank_node)
unfolding delete_probing probe_slot
delete_7 = refl

abbrev single : Map
single = table_of 1 (node 7 70) blank_node blank_node blank_node

first_alone : (i : ℕ) → (slot single i).status ≡ occupied → i ≡ 0
first_alone zero p = refl
first_alone (suc zero) p = cc
first_alone (suc (suc zero)) p = cc
first_alone (suc (suc (suc zero))) p = cc
first_alone (suc (suc (suc (suc zero)))) p = cc
first_alone (suc (suc (suc (suc (suc zero))))) p = cc
first_alone (suc (suc (suc (suc (suc (suc zero)))))) p = cc
first_alone (suc (suc (suc (suc (suc (suc (suc i))))))) p = cc

single-Unique : Unique single
single-Unique = record { one_slot = λ i j p q e. first_alone i p ∙ sym (first_alone j q) }

empty_after : (slot single (probe_slot single (hash 7 single) (0 + 1))).status ≡ empty
unfolding probe_slot hash
empty_after = refl

delete_probing-find_example :
    (m' : Map) × (delete_probing 9 7 single ≡ some m') × (map_find 9 7 m' ≡ some none)
delete_probing-find_example =
    delete_probing-find 9 7 1 single (omega arith) single-Unique (omega arith) empty_after

-- 14 stands at slot 1 already.
again : insert_loop 9 14 table (hash 14 table) 0 ≡ some 1
unfolding insert_loop hash probe_slot
again = refl

insert_again :
    insert_probing 9 14 9 table ≡ some (table_of 3 (node 7 70) (node 14 9) blank_node blank_node)
unfolding insert_probing probe_slot
insert_again = refl

-- 7 was deleted, and 14 stands behind its slot.
abbrev holed : Map
holed = table_of 1 (tombstone 7 70) (node 14 140) blank_node blank_node

holed_slot : insert_loop 9 14 holed (hash 14 holed) 0 ≡ some 0
unfolding insert_loop hash probe_slot
holed_slot = refl

holed_find : map_find 9 14 holed ≡ some (some 140)
unfolding map_find probe_slot
holed_find = refl

stale_pair_example :
    (m₁ : Map) × (m₂ : Map) × (insert_probing 9 14 5 holed ≡ some m₁)
    × (delete_probing 9 14 m₁ ≡ some m₂)
    × (map_find 9 14 m₂ ≡ some (some 140))
stale_pair_example = stale_pair 9 14 5 140 0 holed (omega arith) holed_slot refl holed_find

-- Slots 3, 5 and 6 are empty, and 28 finds none of them.
abbrev crowded : Map
crowded = table_of 4 (node 7 0) (node 14 0) (node 2 0) (node 21 0)

crowded_not_overloaded : overloaded crowded ≡ false
unfolding overloaded
crowded_not_overloaded = refl

-- A table of capacity 7 with six pairs, into which the next insertion rehashes.
abbrev six_pairs : Map
six_pairs = record {
  capacity = 7;
  capacity_level = 3;
  size = 6;
  list = node 0 10 ∷ node 1 11 ∷ node 2 12 ∷ node 3 13 ∷ node 4 14 ∷ node 5 15 ∷ blank_node ∷ [];
}

abbrev rehashed : Map
rehashed = record {
  capacity = 19;
  capacity_level = 4;
  size = 7;
  list =
      node 0 10
      ∷ node 1 11
      ∷ node 2 12
      ∷ node 3 13
      ∷ node 4 14
      ∷ node 5 15
      ∷ node 100 99
      ∷ replicate 12 blank_node;
}

six_pairs-IsValid : IsValid six_pairs
six_pairs-IsValid = omega arith

six_pairs_at :
    (j : ℕ)
    → (slot six_pairs j).status ≡ occupied
    → find_loop 9 (slot six_pairs j).key six_pairs (hash (slot six_pairs j).key six_pairs) 0
      ≡ some j
unfolding find_loop hash probe_slot
six_pairs_at zero o = refl
six_pairs_at (suc zero) o = refl
six_pairs_at (suc (suc zero)) o = refl
six_pairs_at (suc (suc (suc zero))) o = refl
six_pairs_at (suc (suc (suc (suc zero)))) o = refl
six_pairs_at (suc (suc (suc (suc (suc zero))))) o = refl
six_pairs_at (suc (suc (suc (suc (suc (suc zero)))))) o = ground arith
six_pairs_at (suc (suc (suc (suc (suc (suc (suc j))))))) o = ground arith

six_pairs-Sound : Sound 9 six_pairs
six_pairs-Sound = record {
  no_deleted = live;
  small = λ j o. ground (arith, within j o);
  reachable = six_pairs_at;
}
  where
    live : (j : ℕ) → (slot six_pairs j).status ≢ deleted
    live zero e = ground arith
    live (suc zero) e = ground arith
    live (suc (suc zero)) e = ground arith
    live (suc (suc (suc zero))) e = ground arith
    live (suc (suc (suc (suc zero)))) e = ground arith
    live (suc (suc (suc (suc (suc zero))))) e = ground arith
    live (suc (suc (suc (suc (suc (suc zero)))))) e = ground arith
    live (suc (suc (suc (suc (suc (suc (suc j))))))) e = ground arith

    within : (j : ℕ) → (slot six_pairs j).status ≡ occupied → j < 6
    within zero o = omega arith
    within (suc zero) o = omega arith
    within (suc (suc zero)) o = omega arith
    within (suc (suc (suc zero))) o = omega arith
    within (suc (suc (suc (suc zero)))) o = omega arith
    within (suc (suc (suc (suc (suc zero))))) o = omega arith
    within (suc (suc (suc (suc (suc (suc zero)))))) o = ground arith
    within (suc (suc (suc (suc (suc (suc (suc j))))))) o = ground arith

rehash_runs : map_insert 2 9 100 99 six_pairs ≡ some rehashed
unfolding map_insert probe_slot
rehash_runs = refl

map_insert-map_find_example :
    IsValid rehashed
    × Sound 9 rehashed
    × ((k v : ℕ)
        → map_find 9 k rehashed ≡ some (some v)
          ↔ (k ≡ 100) × (v ≡ 99) ⊎ (k ≢ 100) × (map_find 9 k six_pairs ≡ some (some v)))
map_insert-map_find_example =
    map_insert-map_find 2 9 100 99 six_pairs rehashed six_pairs-IsValid six_pairs-Sound rehash_runs
