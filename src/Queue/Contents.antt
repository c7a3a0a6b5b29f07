-- ===== src/Queue/Contents.antt =====
-- A circular queue (kernel/include/klib/queue.h) as the sequence of its elements.
use chao_s_os.Prelude.{
  ℕ, zero, suc, ◌+◌, ◌-◌, ◌*◌, ◌%◌, ◌^◌, ◌≤◌, ◌<◌, ◌≡◌, ◌≢◌, ◌⊎◌, inl, inr, refl, sym, ap, ◌∙◌,
  true, false, none, some, List, [], ◌∷◌, ◌++◌, arith, ◌==◌, leb, length, get_elem?, length-append,
  update,
}
use native.Mathlib.Decide.{dec_lt}
use native.Mathlib.Nat.{mod-eq_of_lt, mod-eq-sub-mod, mod-lt}
use chao_s_os.Sync.{World, mutex_round, mutex_release, sleep_on, wake_first, no_holder}
use chao_s_os.Queue.{
  Queue, circular_count, store, stored, fetch, fetched, circular_enqueue, circular_dequeue,
}

-- The index of element `i`.
abbrev pub slot : ℕ → ℕ → ℕ → ℕ
slot begin size i = (begin + i) % size

slot-cases :
    (b s i : ℕ)
    → b < s
    → i ≤ s
    → ((slot b s i ≡ b + i) × (b + i < s)) ⊎ ((slot b s i ≡ b + i - s) × (s ≤ b + i))
slot-cases b s i l m = elim (dec_lt (b + i) s) [
  | yes y ↦ inl (mod-eq_of_lt y, y)
  | no n ↦
      let le : s ≤ b + i = omega (arith, n) in
      inr (mod-eq-sub-mod le ∙ wrapped (b + i - s) s (omega (arith, l, m, le)), le)
]
  where
    wrapped : (n s : ℕ) → n < s → n % s ≡ n
    wrapped n s h = mod-eq_of_lt h

slot-ne : (b s i j : ℕ) → b < s → i < s → j < s → i ≢ j → slot b s i ≢ slot b s j
slot-ne b s i j l m o n e =
    ground
      (arith, slot-cases b s i l (omega (arith, m)), slot-cases b s j l (omega (arith, o)), e, n)

slot-next : (b s i : ℕ) → b < s → i < s → suc i < s → slot (slot b s 1) s i ≡ slot b s (suc i)
slot-next b s i l m o =
    let low : slot b s 1 < s = mod-lt (b + 1) (omega (arith, l)) in
    ground (
      arith,
      slot-cases b s 1 l (omega (arith, o)),
      slot-cases (slot b s 1) s i low (omega (arith, m)),
      slot-cases b s (suc i) l (omega (arith, o)),
    )

-- The queue holds `xs`, in this order, and its mutex is free.
pub record Holds (q : Queue) (xs : List ℕ) : Type 0 where
  pub count : q.count ≡ length xs
  pub begin : q.begin < q.size
  pub fits : length xs ≤ q.size
  pub small : 2 * q.size ≤ 2 ^ 32
  pub elements : (i x : ℕ) → get_elem? xs i ≡ some x → q.arr (slot q.begin q.size i) ≡ x
  pub free : q.lock.value ≡ 0

-- The queue after circular_count.
abbrev counted : ℕ → Queue → Queue
counted add q = record q {
  count = (q.count + add) % 2 ^ 32;
  lock = record q.lock { value = 0; holder = no_holder };
}

-- The tasks after circular_count: one that waits for the mutex is woken.
abbrev pub settled : Queue → World → World
settled q w = wake_first q.lock.waiting_list w

circular_count-counted :
    (tasks add : ℕ) (q : Queue) (w : World)
    → q.lock.value ≡ 0
    → circular_count tasks add q w ≡ some ((q.count + add) % 2 ^ 32, counted add q, settled q w)
unfolding circular_count mutex_round mutex_release
circular_count-counted tasks add q w e =
    let test : (q.lock.value == 0) ≡ true = ground (arith, e) in
    rw (circular_count, mutex_round, mutex_release, test) refl

get_elem?-snoc :
    (xs : List ℕ) (e i x : ℕ)
    → get_elem? (xs ++ e ∷ []) i ≡ some x
    → ((i ≡ length xs) × (e ≡ x)) ⊎ ((i < length xs) × (get_elem? xs i ≡ some x))
get_elem?-snoc [] e zero x h = inl (refl, ground (arith, h))
get_elem?-snoc [] e (suc i) x h = absurd (ground (arith, h))
get_elem?-snoc (y ∷ xs) e zero x h = inr (omega arith, h)
get_elem?-snoc (y ∷ xs) e (suc i) x h = elim (get_elem?-snoc xs e i x h) [
  | inl (l, k) ↦ inl (ap suc l, k)
  | inr (l, k) ↦ inr (omega (arith, l), k)
]

get_elem?-below : (xs : List ℕ) (i x : ℕ) → get_elem? xs i ≡ some x → i < length xs
get_elem?-below [] i x h = absurd (ground (arith, h))
get_elem?-below (y ∷ xs) zero x h = omega arith
get_elem?-below (y ∷ xs) (suc i) x h = omega (arith, get_elem?-below xs i x h)

stored-elements :
    (q : Queue) (xs : List ℕ) (ele : ℕ)
    → Holds q xs
    → length xs < q.size
    → (i x : ℕ) → get_elem? (xs ++ ele ∷ []) i ≡ some x
    → update q.arr (slot q.begin q.size (length xs)) ele (slot q.begin q.size i) ≡ x
stored-elements q xs ele k l i x h = elim (get_elem?-snoc xs ele i x h) [
  | inl (e, v) ↦
      let same : slot q.begin q.size i ≡ slot q.begin q.size (length xs) =
        ap (slot q.begin q.size) e in
      ground (arith, same, v)
  | inr (m, g) ↦
      let other =
        slot-ne q.begin q.size i (length xs) k.begin (omega (arith, m, l)) l (omega (arith, m)) in
      ground (arith, other, k.elements i x g)
]

-- A round of circular_enqueue on a queue with room left, whose mutex is free and whose size is at
-- most 2147483648, ends, puts the element behind the others, and wakes the first task that waits
-- for one.
pub circular_enqueue-Holds :
    (tasks ele : ℕ) (q : Queue) (w : World) (xs : List ℕ)
    → Holds q xs
    → length xs < q.size
    → (q' : Queue) × (circular_enqueue tasks ele q w
        ≡ some (true, q', wake_first q.consumer (settled q (settled q w))))
      × Holds q' (xs ++ ele ∷ [])
unfolding circular_enqueue stored store
circular_enqueue-Holds tasks ele q w xs k l =
    let q₁ = counted 0 q in
    let q₂ = counted 1 q₁ in
    let first = circular_count-counted tasks 0 q w k.free in
    let second = circular_count-counted tasks 1 q₁ (settled q w) refl in
    let c₁ : (q.count + 0) % 2 ^ 32 ≡ length xs = omega (arith, k.count, k.fits, k.small) in
    let c₂ : ((q.count + 0) % 2 ^ 32 + 1) % 2 ^ 32 ≡ length xs + 1 =
      omega (arith, c₁, k.fits, k.small) in
    let test : leb q.size ((q.count + 0) % 2 ^ 32) ≡ false = ground (arith, c₁, l) in
    let index : (q.begin + ((q.count + 0) % 2 ^ 32 + 1) % 2 ^ 32 + 2 ^ 32 - 1) % 2 ^ 32
        ≡ q.begin + length xs =
      omega (arith, c₂, k.begin, k.fits, k.small) in
    (
      record q₂ { arr = update q.arr (slot q.begin q.size (length xs)) ele },
      rw (circular_enqueue, first, test, second, index) refl,
      record {
        count = c₂ ∙ omega (arith, length-append xs (ele ∷ []));
        begin = k.begin;
        fits = omega (arith, length-append xs (ele ∷ []), l);
        small = k.small;
        elements = stored-elements q xs ele k l;
        free = refl;
      },
    )

-- A round of circular_dequeue on a queue that is not empty, whose mutex is free and whose size is
-- at most 2147483648, ends with the first element, leaves the others in their order, and wakes the
-- first task that waits for room.
pub circular_dequeue-Holds :
    (tasks x : ℕ) (q : Queue) (w : World) (xs : List ℕ)
    → Holds q (x ∷ xs)
    → (q' : Queue) × (circular_dequeue tasks q w
        ≡ some (some x, q', wake_first q.producer (settled q (settled q w))))
      × Holds q' xs
unfolding circular_dequeue fetched fetch
circular_dequeue-Holds tasks x q w xs k =
    let q₁ = counted 0 q in
    let q₂ = counted (2 ^ 32 - 1) q₁ in
    let first = circular_count-counted tasks 0 q w k.free in
    let second = circular_count-counted tasks (2 ^ 32 - 1) q₁ (settled q w) refl in
    let c₁ : (q.count + 0) % 2 ^ 32 ≡ suc (length xs) = omega (arith, k.count, k.fits, k.small) in
    let c₂ : ((q.count + 0) % 2 ^ 32 + (2 ^ 32 - 1)) % 2 ^ 32 ≡ length xs =
      omega (arith, c₁, k.fits, k.small) in
    let test : ((q.count + 0) % 2 ^ 32 == 0) ≡ false = ground (arith, c₁) in
    let next : (q.begin + 1) % 2 ^ 32 ≡ q.begin + 1 = omega (arith, k.begin, k.small) in
    let head : q.arr q.begin ≡ x =
      ap q.arr (sym (ap (λ b. b % q.size) (omega arith) ∙ mod-eq_of_lt k.begin))
      ∙ k.elements 0 x refl in
    (
      record q₂ { begin = slot q.begin q.size 1 },
      rw (circular_dequeue, first, test, second, next, head) refl,
      record {
        count = c₂;
        begin = mod-lt (q.begin + 1) (omega (arith, k.begin));
        fits = omega (arith, k.fits);
        small = k.small;
        elements = λ i y h.
            let below = get_elem?-below xs i y h in
            ap q.arr (
              slot-next q.begin q.size i k.begin (omega (arith, below, k.fits))
                (omega (arith, below, k.fits)))
            ∙ k.elements (suc i) y h;
        free = refl;
      },
    )

counted-Holds : (q : Queue) (xs : List ℕ) → Holds q xs → Holds (counted 0 q) xs
counted-Holds q xs k = record {
  count = omega (arith, k.count, k.fits, k.small);
  begin = k.begin;
  fits = k.fits;
  small = k.small;
  elements = k.elements;
  free = refl;
}

-- A full queue makes the task wait for a consumer, and an empty one for a producer.
pub circular_enqueue-full :
    (tasks ele : ℕ) (q : Queue) (w : World) (xs : List ℕ)
    → Holds q xs
    → length xs ≡ q.size
    → (q' : Queue) × (circular_enqueue tasks ele q w
        ≡ some (false, q', sleep_on tasks q.producer (settled q w)))
      × Holds q' xs
unfolding circular_enqueue
circular_enqueue-full tasks ele q w xs k l =
    let first = circular_count-counted tasks 0 q w k.free in
    let c : (q.count + 0) % 2 ^ 32 ≡ length xs = omega (arith, k.count, k.fits, k.small) in
    let test : leb q.size ((q.count + 0) % 2 ^ 32) ≡ true = ground (arith, c, l) in
    (counted 0 q, rw (circular_enqueue, first, test) refl, counted-Holds q xs k)

pub circular_dequeue-empty :
    (tasks : ℕ) (q : Queue) (w : World)
    → Holds q []
    → (q' : Queue) × (circular_dequeue tasks q w
        ≡ some (none, q', sleep_on tasks q.consumer (settled q w)))
      × Holds q' []
unfolding circular_dequeue
circular_dequeue-empty tasks q w k =
    let first = circular_count-counted tasks 0 q w k.free in
    let c : (q.count + 0) % 2 ^ 32 ≡ 0 = omega (arith, k.count) in
    let test : ((q.count + 0) % 2 ^ 32 == 0) ≡ true = ground (arith, c) in
    (counted 0 q, rw (circular_dequeue, first, test) refl, counted-Holds q [] k)
