-- ===== src/HashMap/Growth.antt =====
-- map_insert, map_delete and map_rehash together (map.c): the table stays well formed through every
-- change of its capacity, and what was inserted last is found.
use chao_s_os.Prelude.{
  below, below_sound, ℕ, zero, suc, ◌+◌, ◌-◌, ◌<◌, ◌^◌, ◌≡◌, refl, true, false, Bool, ◌&&◌, Option,
  none, some, inl, inr, List, [], ◌∷◌, arith, ltb, length-set, length-replicate, Bool-cases, subst,
  if◌then◌else◌, ◌==◌,
}
use chao_s_os.HashMap.{
  Map, MapNode, deleted, is_occupied, prime_at, slot, blank_node, fresh_table, reinsert, map_rehash,
  map_init, map_insert, map_delete, map_find, insert_probing, delete_probing, mark_deleted,
  overloaded, underloaded, ◌>>=◌, map_find_index, uint32_max,
}
use chao_s_os.HashMap.Lookup.{IsValid, place-IsValid, insert_probing-inv, insert_probing-find}

-- The table of primes has no zero, and none of it passes 32 bits.
pub primes_bounds : (level : ℕ) → level < 29 → (0 < prime_at level) × (prime_at level < 2 ^ 32)
primes_bounds level l =
    let h = below_sound 29 (λ n. ltb 0 (prime_at n) && ltb (prime_at n) (2 ^ 32)) level checked l in
    ground arith
  where
    checked : below 29 (λ n. ltb 0 (prime_at n) && ltb (prime_at n) (2 ^ 32)) ≡ true
    checked = refl

pub fresh_table-IsValid : (level : ℕ) (m : Map) → level < 29 → IsValid (fresh_table level m)
unfolding fresh_table
fresh_table-IsValid level m l =
    omega (arith, primes_bounds level l, length-replicate (prime_at level) blank_node)

pub map_init-IsValid : IsValid map_init
unfolding map_init
map_init-IsValid = omega arith

-- What `m >>= f` returns comes from what `m` returns.
pub >>=-inv {ℓ κ} :
    {A : Type ℓ} {B : Type κ} (m : Option A) (f : A → Option B) {b : B}
    → (m >>= f) ≡ some b
    → (a : A) × (m ≡ some a) × (f a ≡ some b)
>>=-inv none f e = cc
>>=-inv (some a) f e = (a, refl, e)

insert_probing-IsValid :
    (f key value : ℕ) (m : Map) {m' : Map}
    → IsValid m
    → insert_probing f key value m ≡ some m'
    → IsValid m'
insert_probing-IsValid f key value m v e =
    let (index, at, same) = insert_probing-inv f key value m e in
    subst IsValid same (place-IsValid index key value v)

-- A rehash keeps what each of its insertions keeps.
pub reinsert-IsValid :
    (ins : ℕ → ℕ → Map → Option Map)
    → ((key value : ℕ) (m m' : Map) → IsValid m → ins key value m ≡ some m' → IsValid m')
    → (old : List MapNode) (m m' : Map) → IsValid m
    → reinsert ins old m ≡ some m'
    → IsValid m'
unfolding reinsert
reinsert-IsValid ins keep [] m m' v e = ground arith
reinsert-IsValid ins keep (s ∷ old) m m' v e = elim (Bool-cases (is_occupied s.status)) [
  | inl full ↦
      let e' : (ins s.key s.value m >>= reinsert ins old) ≡ some m' = rw full at e in
      let (m₁, first, rest) = >>=-inv (ins s.key s.value m) (reinsert ins old) e' in
      reinsert-IsValid ins keep old m₁ m' (keep s.key s.value m m₁ v first) rest
  | inr free ↦
      let e' : reinsert ins old m ≡ some m' = rw free at e in
      reinsert-IsValid ins keep old m m' v e'
]

module _ (ins : ℕ → ℕ → Map → Option Map)
    (keep : (key value : ℕ) (m m' : Map) → IsValid m → ins key value m ≡ some m' → IsValid m') where
  -- Whether or not the load asks for a rehash to a level of the table of primes.
  pub resize-IsValid :
      (wanted : Bool) (level : ℕ) (m m₁ : Map)
      → (wanted ≡ true → level < 29)
      → IsValid m
      → (if wanted then map_rehash ins level m else some m) ≡ some m₁
      → IsValid m₁
  unfolding map_rehash
  resize-IsValid true level m m₁ l v e =
      reinsert-IsValid ins keep m.list (fresh_table level m) m₁
        (fresh_table-IsValid level m (l refl)) e
  resize-IsValid false level m m₁ l v e = ground (arith, l)

pub grown_level : (m : Map) → IsValid m → overloaded m ≡ true → m.capacity_level + 1 < 29
unfolding overloaded
grown_level m v h = ground arith

pub shrunk_level : (m : Map) → IsValid m → underloaded m ≡ true → m.capacity_level - 1 < 29
unfolding underloaded
shrunk_level m v h = ground arith

-- An insertion, from the table that its rehash leaves, and that table is well formed.
insert_from_resized :
    (d f key value : ℕ) (m m' : Map)
    → ((key value : ℕ) (m m' : Map) → IsValid m → map_insert d f key value m ≡ some m' → IsValid m')
    → IsValid m
    → map_insert (suc d) f key value m ≡ some m'
    → (m₁ : Map) × IsValid m₁ × (insert_probing f key value m₁ ≡ some m')
unfolding map_insert
insert_from_resized d f key value m m' keep v e =
    let (m₁, resized, rest) = >>=-inv _ (insert_probing f key value) e in
    (
      m₁,
      resize-IsValid (map_insert d f) keep (overloaded m) (m.capacity_level + 1) m m₁
          (grown_level m v) v resized,
      rest,
    )

-- The table stays well formed through `map_insert`, with the rehash that it may make.
pub map_insert-IsValid :
    (d f key value : ℕ) (m m' : Map) → IsValid m → map_insert d f key value m ≡ some m' → IsValid m'
unfolding map_insert
map_insert-IsValid zero f key value m m' v e = cc
map_insert-IsValid (suc d) f key value m m' v e =
    let (m₁, v₁, rest) = insert_from_resized d f key value m m' (map_insert-IsValid d f) v e in
    insert_probing-IsValid f key value m₁ v₁ rest

-- After `map_insert` of a pair into a well formed table, whether the table had the key or not and
-- whether it was rehashed or not, `map_find` of the key returns the value.
pub map_insert-find :
    (d f key value : ℕ) (m m' : Map)
    → IsValid m
    → map_insert d f key value m ≡ some m'
    → map_find f key m' ≡ some (some value)
unfolding map_insert
map_insert-find zero f key value m m' v e = cc
map_insert-find (suc d) f key value m m' v e =
    let (m₁, v₁, rest) = insert_from_resized d f key value m m' (map_insert-IsValid d f) v e in
    insert_probing-find f key value m₁ v₁ rest

mark_deleted-IsValid : (index : ℕ) (m : Map) → IsValid m → IsValid (mark_deleted index m)
unfolding mark_deleted
mark_deleted-IsValid index m v =
    ground (arith, length-set m.list index (record (slot m index) { status = deleted }))

delete_probing-IsValid :
    (f key : ℕ) (m m' : Map) → IsValid m → delete_probing f key m ≡ some m' → IsValid m'
unfolding delete_probing
delete_probing-IsValid f key m m' v e =
    let (index, at, rest) =
      >>=-inv (map_find_index f key m)
        (λ index. some (if index == uint32_max then m else mark_deleted index m)) e in
    ground (arith, mark_deleted-IsValid index m v)

-- The table stays well formed through `map_delete`, with the rehash that it may make.
pub map_delete-IsValid :
    (d f key : ℕ) (m m' : Map) → IsValid m → map_delete d f key m ≡ some m' → IsValid m'
unfolding map_delete
map_delete-IsValid d f key m m' v e =
    let (m₁, resized, rest) = >>=-inv _ (delete_probing f key) e in
    delete_probing-IsValid f key m₁ m'
      (resize-IsValid (map_insert d f) (map_insert-IsValid d f) (underloaded m)
        (m.capacity_level - 1) m m₁ (shrunk_level m v) v resized)
      rest
