-- ===== src/HashMap.antt =====
-- kernel/kernel/klib/map.c and kernel/include/klib/map.h: the hash table from 32-bit keys to 32-bit
-- values in which the kernel keeps its tasks. Open addressing with quadratic probing.
pub mod Lookup
pub mod Growth
pub mod Insertion
pub mod Deletion
pub mod Occupancy
pub mod Contents
pub mod Refinement
mod Tests
use chao_s_os.Prelude.{
  ℕ, zero, suc, ◌+◌, ◌-◌, ◌*◌, ◌%◌, ◌^◌, ◌<◌, ◌≡◌, Bool, true, false, ◌&&◌, not, Option, none, some,
  List, [], ◌∷◌, ◌==◌, ltb, leb, if◌then◌else◌, length, get_or, set, replicate,
}

-- MAP_EMPTY, MAP_OCCUPIED, MAP_DELETED
pub data Status : Type 0 where
  empty occupied deleted : Status

abbrev pub is_occupied : Status → Bool
is_occupied occupied = true
is_occupied empty = false
is_occupied deleted = false

abbrev pub is_empty : Status → Bool
is_empty empty = true
is_empty occupied = false
is_empty deleted = false

-- `map_node_t`
pub record MapNode : Type 0 where
  pub key : ℕ
  pub value : ℕ
  pub status : Status

-- `map_t`; the list has `capacity` slots.
pub record Map : Type 0 where
  pub capacity : ℕ
  pub capacity_level : ℕ
  pub size : ℕ
  pub list : List MapNode

-- What `memset(list, 0, ...)` leaves in a slot.
abbrev pub blank_node : MapNode
blank_node = record { key = 0; value = 0; status = empty }

abbrev pub primes : List ℕ
primes =
    1 ∷ 2 ∷ 5 ∷ 7 ∷ 19 ∷ 41 ∷ 83 ∷ 167 ∷ 337 ∷ 677 ∷ 1361 ∷ 2729 ∷ 5449 ∷ 10909 ∷ 21841 ∷ 43669
    ∷ 87359 ∷ 174761 ∷ 349519 ∷ 699037 ∷ 1398091 ∷ 2796181 ∷ 5592373 ∷ 11184799 ∷ 22369601
    ∷ 44739181 ∷ 89478457 ∷ 178956937 ∷ 357913931 ∷ []

abbrev pub prime_at : ℕ → ℕ
prime_at level = get_or primes level 0

abbrev pub uint32_max : ℕ
uint32_max = 2 ^ 32 - 1

-- A slot that is read; an index past the list, which a valid map rules out, reads a blank one.
abbrev pub slot : Map → ℕ → MapNode
slot m i = get_or m.list i blank_node

unfoldable pub map_init : Map
map_init = record {
  capacity = prime_at 3;
  capacity_level = 3;
  size = 0;
  list = replicate (prime_at 3) blank_node;
}

-- `i * i` in 32 bits
unfoldable pub probe : ℕ → ℕ
probe i = i * i % 2 ^ 32

unfoldable pub hash : ℕ → Map → ℕ
hash key m = key % m.capacity

-- `index % map->capacity` at step `i` of a probe that starts at `h`; the sum wraps in 32 bits.
unfoldable pub probe_slot : Map → ℕ → ℕ → ℕ
unfolding probe
probe_slot m h i = (h + probe i) % 2 ^ 32 % m.capacity

-- The loop of `_map_find`; `none` means that the fuel ran out. UINT32_MAX stands for "absent".
unfoldable pub find_loop : ℕ → ℕ → Map → ℕ → ℕ → Option ℕ
find_loop zero key m h i = none
find_loop (suc f) key m h i =
    let rest = find_loop f key m h (i + 1) in
    let index = probe_slot m h i in
    let s = slot m index in
    if is_empty s.status
    then some uint32_max
    else if s.key == key && is_occupied s.status
    then some index
    else rest

-- `_map_find`
unfoldable pub map_find_index : ℕ → ℕ → Map → Option ℕ
unfolding find_loop hash
map_find_index f key m = find_loop f key m (hash key m) 0

-- What `map_find` tells its caller: 0, or 1 and the value.
unfoldable pub found_at : Map → ℕ → Option ℕ
found_at m index = if index == uint32_max then none else some (slot m index).value

infixl 5 ◌>>=◌
abbrev pub ◌>>=◌ {ℓ κ} : {A : Type ℓ} {B : Type κ} → Option A → (A → Option B) → Option B
none >>= f = none
some a >>= f = f a

unfoldable pub map_find : ℕ → ℕ → Map → Option (Option ℕ)
unfolding map_find_index found_at
map_find f key m = do index ← map_find_index f key m; some (found_at m index)

-- The probe loop of `map_insert`: a deleted slot ends it as an empty one does.
unfoldable pub insert_loop : ℕ → ℕ → Map → ℕ → ℕ → Option ℕ
insert_loop zero key m h i = none
insert_loop (suc f) key m h i =
    let rest = insert_loop f key m h (i + 1) in
    let index = probe_slot m h i in
    let s = slot m index in
    if is_occupied s.status then (if s.key == key then some index else rest) else some index

-- The three assignments to the slot, and `map->size++`.
unfoldable pub place : ℕ → ℕ → ℕ → Map → Map
place index key value m = record m {
  list = set m.list index (record { key = key; value = value; status = occupied });
  size = (m.size + 1) % 2 ^ 32;
}

-- `map_insert` behind its test of the load.
unfoldable pub insert_probing : ℕ → ℕ → ℕ → Map → Option Map
unfolding insert_loop hash place
insert_probing f key value m = do
  index ← insert_loop f key m (hash key m) 0
  some (place index key value m)

-- The load tests; `capacity - size` wraps in 32 bits.
abbrev pub free_slots : Map → ℕ
free_slots m = (m.capacity + 2 ^ 32 - m.size) % 2 ^ 32

unfoldable pub overloaded : Map → Bool
overloaded m =
    ltb m.capacity_level 27 && leb (free_slots m * 3 % 2 ^ 32) ((4 - 3) * m.size % 2 ^ 32)

unfoldable pub underloaded : Map → Bool
underloaded m =
    ltb 3 m.capacity_level && leb ((4 - 1) * m.size % 2 ^ 32) (free_slots m * 1 % 2 ^ 32)

-- The table that `map_rehash` sets up before it moves the pairs over.
unfoldable pub fresh_table : ℕ → Map → Map
fresh_table level m = record m {
  capacity = prime_at level;
  capacity_level = level;
  size = 0;
  list = replicate (prime_at level) blank_node;
}

-- The loop of `map_rehash` over the old slots; `ins` is `map_insert`.
unfoldable pub reinsert : (ℕ → ℕ → Map → Option Map) → List MapNode → Map → Option Map
reinsert ins [] m = some m
reinsert ins (s ∷ old) m =
    (if is_occupied s.status then ins s.key s.value m else some m) >>= reinsert ins old

unfoldable pub map_rehash : (ℕ → ℕ → Map → Option Map) → ℕ → Map → Option Map
unfolding reinsert fresh_table
map_rehash ins level m = reinsert ins m.list (fresh_table level m)

-- `map_insert` and `map_rehash` call one another: `d` bounds the depth of these calls, `f` the
-- steps of each probe.
unfoldable pub map_insert : ℕ → ℕ → ℕ → ℕ → Map → Option Map
unfolding map_rehash insert_probing overloaded
map_insert zero f key value m = none
map_insert (suc d) f key value m =
    (if overloaded m then map_rehash (map_insert d f) (m.capacity_level + 1) m else some m)
    >>= insert_probing f key value

-- `map->list[index].status = MAP_DELETED` and `map->size--`
unfoldable pub mark_deleted : ℕ → Map → Map
mark_deleted index m = record m {
  list = set m.list index (record (slot m index) { status = deleted });
  size = (m.size + 2 ^ 32 - 1) % 2 ^ 32;
}

-- `map_delete` behind its test of the load.
unfoldable pub delete_probing : ℕ → ℕ → Map → Option Map
unfolding map_find_index mark_deleted
delete_probing f key m = do
  index ← map_find_index f key m
  some (if index == uint32_max then m else mark_deleted index m)

unfoldable pub map_delete : ℕ → ℕ → ℕ → Map → Option Map
unfolding map_rehash map_insert delete_probing underloaded
map_delete d f key m =
    (if underloaded m then map_rehash (map_insert d f) (m.capacity_level - 1) m else some m)
    >>= delete_probing f key
