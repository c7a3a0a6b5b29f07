-- ===== src/HashMap/Refinement.antt =====
-- map_insert and map_rehash as the insertion into a finite map (kernel/kernel/klib/map.c): tables without
-- deleted slots, through every change of the capacity.
use chao_s_os.Prelude.{
  ℕ, zero, suc, ◌+◌, ◌<◌, ◌≡◌, ◌≢◌, ◌↔◌, refl, true, false, Bool, Option, some, inl, inr, ◌⊎◌, List,
  [], ◌∷◌, arith, Bool-cases, subst, sym, ◌∙◌, replicate, get_or, if◌then◌else◌,
}
use chao_s_os.HashMap.{
  Map, MapNode, occupied, is_occupied, slot, blank_node, prime_at, find_loop, hash, fresh_table,
  reinsert, map_rehash, map_init, map_insert, map_find, insert_probing, overloaded, ◌>>=◌,
}
use chao_s_os.HashMap.Lookup.{IsValid}
use chao_s_os.HashMap.Growth.{
  fresh_table-IsValid, resize-IsValid, grown_level, >>=-inv, map_insert-IsValid,
}
use chao_s_os.HashMap.Contents.{Stored, Sound, Inserts, insert_probing-Inserts, map_find-Stored}

-- Some slot of a list holds the pair.
unfoldable Entry : List MapNode → ℕ → ℕ → Type 0
Entry [] k v = ⊥
Entry (s ∷ list) k v = (s.status ≡ occupied) × (s.key ≡ k) × (s.value ≡ v) ⊎ Entry list k v

-- No key stands twice among the slots of a list that are occupied.
unfoldable OneEach : List MapNode → Type 0
OneEach [] = Unit
OneEach (s ∷ list) = (s.status ≡ occupied → (v : ℕ) → Entry list s.key v → ⊥) × OneEach list

entry_at :
    (list : List MapNode) (k v : ℕ)
    → Entry list k v
    → (j : ℕ) × ((get_or list j blank_node).status ≡ occupied)
      × ((get_or list j blank_node).key ≡ k)
      × ((get_or list j blank_node).value ≡ v)
unfolding Entry
entry_at [] k v e = absurd e
entry_at (s ∷ list) k v (inl (o, p, q)) = (zero, o, p, q)
entry_at (s ∷ list) k v (inr e) = let (j, o, p, q) = entry_at list k v e in (suc j, o, p, q)

at_entry :
    (list : List MapNode) (j : ℕ)
    → (get_or list j blank_node).status ≡ occupied
    → Entry list (get_or list j blank_node).key (get_or list j blank_node).value
unfolding Entry
at_entry [] j o = absurd (ground arith)
at_entry (s ∷ list) zero o = inl (o, refl, refl)
at_entry (s ∷ list) (suc j) o = inr (at_entry list j o)

one_each :
    (list : List MapNode)
    → ((i j : ℕ)
        → (get_or list i blank_node).status ≡ occupied
        → (get_or list j blank_node).status ≡ occupied
        → (get_or list i blank_node).key ≡ (get_or list j blank_node).key
        → i ≡ j)
    → OneEach list
unfolding OneEach
one_each [] u = tt
one_each (s ∷ list) u = (
  λ o v e.
      let (j, o', p, q) = entry_at list s.key v e in
      absurd (omega (arith, u zero (suc j) o o' (sym p))),
  one_each list (λ i j o o' p. omega (arith, u (suc i) (suc j) o o' p)),
)

-- In a table without deleted slots, no key stands twice.
Sound-OneEach : (f : ℕ) (m : Map) → Sound f m → OneEach m.list
Sound-OneEach f m s = one_each m.list (λ i j o o' p. same i j o o' p)
  where
    same :
        (i j : ℕ)
        → (slot m i).status ≡ occupied
        → (slot m j).status ≡ occupied
        → (slot m i).key ≡ (slot m j).key
        → i ≡ j
    same i j o o' p =
        let at = subst (λ k. find_loop f k m (hash k m) 0 ≡ some i) p (s.reachable i o) in
        let both = sym at ∙ s.reachable j o' in cc

slot_blank : (n j : ℕ) → get_or (replicate n blank_node) j blank_node ≡ blank_node
slot_blank zero j = refl
slot_blank (suc n) zero = refl
slot_blank (suc n) (suc j) = slot_blank n j

fresh-slot : (level : ℕ) (m : Map) (j : ℕ) → slot (fresh_table level m) j ≡ blank_node
unfolding fresh_table
fresh-slot level m j = slot_blank (prime_at level) j

fresh-Sound : (f level : ℕ) (m : Map) → Sound f (fresh_table level m)
fresh-Sound f level m = record {
  no_deleted = λ j o. ground (arith, fresh-slot level m j);
  small = λ j o. absurd (ground (arith, fresh-slot level m j));
  reachable = λ j o. absurd (ground (arith, fresh-slot level m j));
}

fresh-Stored : (level k v : ℕ) (m : Map) → Stored (fresh_table level m) k v → ⊥
fresh-Stored level k v m e = ground (arith, fresh-slot level m e.index, e.full)

-- What the insertions of the pairs of `old` make of a table.
record Moves (f : ℕ) (old : List MapNode) (m m' : Map) : Type 0 where
  sound : Sound f m'
  entries : (k v : ℕ) → Entry old k v → Stored m' k v
  others : (k v : ℕ) → ((w : ℕ) → Entry old k w → ⊥) → Stored m k v → Stored m' k v
  only : (k v : ℕ) → Stored m' k v → Entry old k v ⊎ ((w : ℕ) → Entry old k w → ⊥) × Stored m k v

Moves-none : (f : ℕ) (m : Map) → Sound f m → Moves f [] m m
unfolding Entry
Moves-none f m s = record {
  sound = s;
  entries = λ k v e. absurd e;
  others = λ k v n e. e;
  only = λ k v e. inr (λ w x. x, e);
}

module _ (f : ℕ) (s : MapNode) (old : List MapNode) (m m₁ m' : Map) where
  -- A slot that is not occupied is passed over.
  Moves-skip : s.status ≢ occupied → Moves f old m m' → Moves f (s ∷ old) m m'
  unfolding Entry
  Moves-skip n r = record {
    sound = r.sound;
    entries = λ k v e. elim e [ inl x ↦ absurd (n x.0) | inr x ↦ r.entries k v x ];
    others = λ k v no e. r.others k v (λ w x. no w (inr x)) e;
    only = λ k v e. elim (r.only k v e) [
      | inl x ↦ inl (inr x)
      | inr x ↦ inr (λ w y. elim y [ inl z ↦ n z.0 | inr z ↦ x.0 w z ], x.1)
    ];
  }

  -- The pair of an occupied slot is inserted, and none of the later ones has its key.
  Moves-step :
      s.status ≡ occupied
      → ((v : ℕ) → Entry old s.key v → ⊥)
      → Inserts f s.key s.value m m₁
      → Moves f old m₁ m'
      → Moves f (s ∷ old) m m'
  unfolding Entry
  Moves-step o once i r = record {
    sound = r.sound;
    entries = λ k v e. elim e [
      | inl x ↦
          subst (λ a. Stored m' a v) x.1
            (subst (λ b. Stored m' s.key b) x.2 (r.others s.key s.value once i.pair))
      | inr x ↦ r.entries k v x
    ];
    others = λ k v no e.
        r.others k v (λ w x. no w (inr x))
          (i.others k v (λ p. no s.value (inl (o, sym p, refl))) e);
    only = λ k v e. elim (r.only k v e) [
      | inl x ↦ inl (inr x)
      | inr x ↦ elim (i.only k v x.1) [
        | inl y ↦ inl (inl (o, sym y.0, sym y.1))
        | inr y ↦ inr (λ w z. elim z [ inl u ↦ y.0 (sym u.1) | inr u ↦ x.0 w u ], y.1)
      ]
    ];
  }

module _ (f : ℕ) (ins : ℕ → ℕ → Map → Option Map)
    (keep : (key value : ℕ) (m m' : Map) → IsValid m → ins key value m ≡ some m' → IsValid m')
    (inserts : (key value : ℕ) (m m' : Map)
      → IsValid m
      → Sound f m
      → ins key value m ≡ some m'
      → Inserts f key value m m') where
  reinsert-Moves :
      (old : List MapNode) (m m' : Map)
      → IsValid m
      → Sound f m
      → OneEach old
      → reinsert ins old m ≡ some m'
      → Moves f old m m'
  unfolding reinsert OneEach
  reinsert-Moves [] m m' v s u e =
      let same : m ≡ m' = ground arith in subst (Moves f [] m) same (Moves-none f m s)
  reinsert-Moves (x ∷ old) m m' v s u e = elim (Bool-cases (is_occupied x.status)) [
    | inl full ↦
        let e' : (ins x.key x.value m >>= reinsert ins old) ≡ some m' = rw full at e in
        let (m₁, first, rest) = >>=-inv (ins x.key x.value m) (reinsert ins old) e' in
        let o : x.status ≡ occupied = ground arith in
        let i = inserts x.key x.value m m₁ v s first in
        Moves-step f x old m m₁ m' o (u.0 o) i
          (reinsert-Moves old m₁ m' (keep x.key x.value m m₁ v first) i.sound u.1 rest)
    | inr free ↦
        let e' : reinsert ins old m ≡ some m' = rw free at e in
        Moves-skip f x old m m m' (ground arith) (reinsert-Moves old m m' v s u.1 e')
  ]

  -- A rehash keeps the pairs, and adds none.
  rehash-Stored :
      (level : ℕ) (m m' : Map)
      → level < 29
      → Sound f m
      → map_rehash ins level m ≡ some m'
      → Sound f m' × ((k v : ℕ) → Stored m' k v ↔ Stored m k v)
  unfolding map_rehash
  rehash-Stored level m m' l s e =
      let r =
        reinsert-Moves m.list (fresh_table level m) m' (fresh_table-IsValid level m l)
          (fresh-Sound f level m) (Sound-OneEach f m s) e in
      (r.sound, λ k v. (forth r k v, back r k v))
    where
      forth : Moves f m.list (fresh_table level m) m' → (k v : ℕ) → Stored m' k v → Stored m k v
      forth r k v e = elim (r.only k v e) [
        | inl x ↦
            let (j, o, p, q) = entry_at m.list k v x in
            record { index = j; full = o; has_key = p; has_value = q }
        | inr x ↦ absurd (fresh-Stored level k v m x.1)
      ]

      back : Moves f m.list (fresh_table level m) m' → (k v : ℕ) → Stored m k v → Stored m' k v
      back r k v x =
          subst (λ a. Stored m' a v) x.has_key
            (subst (λ b. Stored m' (slot m x.index).key b) x.has_value
              (r.entries (slot m x.index).key (slot m x.index).value
                (at_entry m.list x.index x.full)))

-- The table that an insertion writes into, after the rehash that the load asks for.
resized-Stored :
    (d f : ℕ) (wanted : Bool) (level : ℕ) (m m₁ : Map)
    → ((key value : ℕ) (m m' : Map)
        → IsValid m
        → Sound f m
        → map_insert d f key value m ≡ some m'
        → Inserts f key value m m')
    → (wanted ≡ true → level < 29)
    → Sound f m
    → (if wanted then map_rehash (map_insert d f) level m else some m) ≡ some m₁
    → Sound f m₁ × ((k v : ℕ) → Stored m₁ k v ↔ Stored m k v)
resized-Stored d f true level m m₁ inserts l s e =
    rehash-Stored f (map_insert d f) (map_insert-IsValid d f) inserts level m m₁ (l refl) s e
resized-Stored d f false level m m₁ inserts l s e =
    let same : m ≡ m₁ = ground (arith, e) in
    subst (λ r. Sound f r × ((k v : ℕ) → Stored r k v ↔ Stored m k v)) same
      (s, λ k v. (λ x. x, λ x. x))

-- An insertion into a table with the same pairs is an insertion.
Inserts-resized :
    (f key value : ℕ) (m m₁ m' : Map)
    → ((k v : ℕ) → Stored m₁ k v ↔ Stored m k v)
    → Inserts f key value m₁ m'
    → Inserts f key value m m'
Inserts-resized f key value m m₁ m' same i = record {
  sound = i.sound;
  pair = i.pair;
  only = λ k v e. elim (i.only k v e) [ inl x ↦ inl x | inr x ↦ inr (x.0, (same k v).0 x.1) ];
  others = λ k v n e. i.others k v n ((same k v).1 e);
}

pub map_insert-Inserts :
    (d f key value : ℕ) (m m' : Map)
    → IsValid m
    → Sound f m
    → map_insert d f key value m ≡ some m'
    → Inserts f key value m m'
unfolding map_insert
map_insert-Inserts zero f key value m m' v s e = cc
map_insert-Inserts (suc d) f key value m m' v s e =
    let (m₁, resized, rest) = >>=-inv _ (insert_probing f key value) e in
    let v₁ =
      resize-IsValid (map_insert d f) (map_insert-IsValid d f) (overloaded m) (m.capacity_level + 1)
        m m₁ (grown_level m v) v resized in
    let r =
      resized-Stored d f (overloaded m) (m.capacity_level + 1) m m₁ (map_insert-Inserts d f)
        (grown_level m v) s resized in
    Inserts-resized f key value m m₁ m' r.1 (insert_probing-Inserts f key value m₁ m' v₁ r.0 rest)

pub map_init-Sound : (f : ℕ) → Sound f map_init
unfolding map_init
map_init-Sound f = record {
  no_deleted = λ j o. ground (arith, slot_blank 7 j);
  small = λ j o. absurd (ground (arith, slot_blank 7 j));
  reachable = λ j o. absurd (ground (arith, slot_blank 7 j));
}

-- map_insert into a well formed table without deleted slots whose pairs are all within f probes,
-- whether it rehashes or not, when it returns: the table is again well formed and of this kind,
-- and map_find then answers a key with a value just if these are the key and the value inserted,
-- or it is another key and map_find gave this answer before.
pub map_insert-map_find :
    (d f key value : ℕ) (m m' : Map)
    → IsValid m
    → Sound f m
    → map_insert d f key value m ≡ some m'
    → IsValid m'
      × Sound f m'
      × ((k v : ℕ)
          → map_find f k m' ≡ some (some v)
            ↔ (k ≡ key) × (v ≡ value) ⊎ (k ≢ key) × (map_find f k m ≡ some (some v)))
map_insert-map_find d f key value m m' v s e =
    (map_insert-IsValid d f key value m m' v e, i.sound, λ k w. (forth k w, back k w))
  where
    i : Inserts f key value m m'
    i = map_insert-Inserts d f key value m m' v s e

    forth :
        (k w : ℕ)
        → map_find f k m' ≡ some (some w)
        → (k ≡ key) × (w ≡ value) ⊎ (k ≢ key) × (map_find f k m ≡ some (some w))
    forth k w a = elim (i.only k w ((map_find-Stored f k w m' i.sound).0 a)) [
      | inl x ↦ inl x
      | inr x ↦ inr (x.0, (map_find-Stored f k w m s).1 x.1)
    ]

    back :
        (k w : ℕ)
        → (k ≡ key) × (w ≡ value) ⊎ (k ≢ key) × (map_find f k m ≡ some (some w))
        → map_find f k m' ≡ some (some w)
    back k w (inl x) =
        (map_find-Stored f k w m' i.sound).1
          (subst (λ a. Stored m' a w) (sym x.0) (subst (λ b. Stored m' key b) (sym x.1) i.pair))
    back k w (inr x) =
        (map_find-Stored f k w m' i.sound).1 (i.others k w x.0 ((map_find-Stored f k w m s).0 x.1))
