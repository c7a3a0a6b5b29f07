-- ===== src/Queue/Tests.antt =====
-- A queue of three words that holds two, the second one at the start of the array.
use chao_s_os.Prelude.{
  ℕ, zero, suc, ◌≡◌, refl, true, false, some, [], ◌∷◌, arith, ◌==◌, if◌then◌else◌, get_elem?,
}
use chao_s_os.Sync.{World, task_runnable, no_holder, sleep_on, wake_first}
use chao_s_os.Queue.{Queue, circular_enqueue, circular_dequeue}
use chao_s_os.Queue.Contents.{
  Holds, slot, settled, circular_enqueue-Holds, circular_dequeue-Holds, circular_enqueue-full,
}

abbrev world : World
world = record {
  scheduler = record {
    links = record { next = λ a. a; prev = λ a. a };
    current_task = 1;
    upcoming = 1;
    switches = 0;
  };
  state = λ t. task_runnable;
  pid = λ t. t;
}

abbrev queue : Queue
queue = record {
  begin = 2;
  count = 2;
  size = 3;
  arr = λ i. if i == 2 then 7 else if i == 0 then 8 else 0;
  lock = record { value = 0; holder = no_holder; waiting_list = 20 };
  producer = 30;
  consumer = 40;
}

queue-elements :
    (i x : ℕ) → get_elem? (7 ∷ 8 ∷ []) i ≡ some x → queue.arr (slot queue.begin queue.size i) ≡ x
queue-elements zero x h = ground (arith, h)
queue-elements (suc zero) x h = ground (arith, h)
queue-elements (suc (suc i)) x h = absurd (ground (arith, h))

queue-Holds : Holds queue (7 ∷ 8 ∷ [])
queue-Holds = record {
  count = refl;
  begin = omega arith;
  fits = omega arith;
  small = omega arith;
  elements = queue-elements;
  free = refl;
}

circular_enqueue-Holds_example :
    (q' : Queue) × (circular_enqueue 10 9 queue world
      ≡ some (true, q', wake_first queue.consumer (settled queue (settled queue world))))
    × Holds q' (7 ∷ 8 ∷ 9 ∷ [])
circular_enqueue-Holds_example =
    circular_enqueue-Holds 10 9 queue world (7 ∷ 8 ∷ []) queue-Holds (omega arith)

circular_dequeue-Holds_example :
    (q' : Queue) × (circular_dequeue 10 queue world
      ≡ some (some 7, q', wake_first queue.producer (settled queue (settled queue world))))
    × Holds q' (8 ∷ [])
circular_dequeue-Holds_example = circular_dequeue-Holds 10 7 queue world (8 ∷ []) queue-Holds

-- The same array with two places.
abbrev full_queue : Queue
full_queue = record queue { begin = 1; size = 2; arr = λ i. if i == 1 then 7 else 8 }

full_queue-elements :
    (i x : ℕ)
    → get_elem? (7 ∷ 8 ∷ []) i ≡ some x
    → full_queue.arr (slot full_queue.begin full_queue.size i) ≡ x
full_queue-elements zero x h = ground (arith, h)
full_queue-elements (suc zero) x h = ground (arith, h)
full_queue-elements (suc (suc i)) x h = absurd (ground (arith, h))

full_queue-Holds : Holds full_queue (7 ∷ 8 ∷ [])
full_queue-Holds = record {
  count = refl;
  begin = omega arith;
  fits = omega arith;
  small = omega arith;
  elements = full_queue-elements;
  free = refl;
}

circular_enqueue-full_example :
    (q' : Queue) × (circular_enqueue 10 9 full_queue world
      ≡ some (false, q', sleep_on 10 full_queue.producer (settled full_queue world)))
    × Holds q' (7 ∷ 8 ∷ [])
circular_enqueue-full_example =
    circular_enqueue-full 10 9 full_queue world (7 ∷ 8 ∷ []) full_queue-Holds refl
