-- ===== src/Queue.antt =====
-- kernel/include/klib/queue.h: a circular queue of words, on the mutexes and waiting lists of Sync. A
-- function makes one round of the loop in which it waits. An outcome `none` is a queue whose mutex another
-- task holds: the wait for it is that of mutex_acquire.
pub mod Contents
mod Tests
use chao_s_os.Prelude.{
  ℕ, zero, suc, ◌+◌, ◌-◌, ◌%◌, ◌^◌, Bool, true, false, Option, none, some, ◌==◌, leb, if◌then◌else◌,
  update,
}
use chao_s_os.Links.{Ptr}
use chao_s_os.Sync.{World, Mutex, mutex_round, mutex_release, sleep_on, wake_first}

-- `circular_queue`, with the addresses of its two lists of waiting tasks
pub record Queue : Type 0 where
  pub begin : ℕ
  pub count : ℕ
  pub size : ℕ
  pub arr : ℕ → ℕ
  pub lock : Mutex
  pub producer : Ptr
  pub consumer : Ptr

-- `circular_count`: the new count. The number that is added is a word, and -1 is 2 ^ 32 - 1.
unfoldable pub circular_count : Ptr → ℕ → Queue → World → Option (ℕ × Queue × World)
circular_count tasks add q w =
    let (got, lock, w₁) = mutex_round tasks q.lock w in
    let count = (q.count + add) % 2 ^ 32 in
    let (lock', w₂) = mutex_release lock w₁ in
    if got then some (count, record q { count = count; lock = lock' }, w₂) else none

-- The element goes into the array, and the first task that waits for one is woken.
unfoldable pub store : ℕ → ℕ → Queue → World → Bool × Queue × World
store ele count q w =
    let index = (q.begin + count + 2 ^ 32 - 1) % 2 ^ 32 % q.size in
    (true, record q { arr = update q.arr index ele }, wake_first q.consumer w)

unfoldable pub stored : ℕ → Option (ℕ × Queue × World) → Option (Bool × Queue × World)
stored ele none = none
stored ele (some (count, q, w)) = some (store ele count q w)

-- A round of circular_enqueue, and whether it was the last one.
unfoldable pub circular_enqueue : Ptr → ℕ → Queue → World → Option (Bool × Queue × World)
circular_enqueue tasks ele q w = elim (circular_count tasks 0 q w) [
  | none ↦ none
  | some (count, q₁, w₁) ↦
      if leb q.size count
      then some (false, q₁, sleep_on tasks q.producer w₁)
      else stored ele (circular_count tasks 1 q₁ w₁)
]

-- The first element, and the first task that waits for room is woken.
unfoldable pub fetch : Queue → World → Option ℕ × Queue × World
fetch q w = (
  some (q.arr q.begin),
  record q { begin = (q.begin + 1) % 2 ^ 32 % q.size },
  wake_first q.producer w,
)

unfoldable pub fetched : Option (ℕ × Queue × World) → Option (Option ℕ × Queue × World)
fetched none = none
fetched (some (count, q, w)) = some (fetch q w)

-- A round of circular_dequeue, and the element if it was the last one.
unfoldable pub circular_dequeue : Ptr → Queue → World → Option (Option ℕ × Queue × World)
circular_dequeue tasks q w = elim (circular_count tasks 0 q w) [
  | none ↦ none
  | some (count, q₁, w₁) ↦
      if count == 0
      then some (none, q₁, sleep_on tasks q.consumer w₁)
      else fetched (circular_count tasks (2 ^ 32 - 1) q₁ w₁)
]
