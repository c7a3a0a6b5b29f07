-- ===== src/Sync.antt =====
-- kernel/include/kernel/sync.h: spin locks and mutexes, on the scheduler of Schedule. A task is known by
-- the address of the `list_head` in it. `cli` and `sti` have no counterpart. mutex_release runs with
-- interrupts off; mutex_acquire does so only up to the first task_schedule, which ends with `sti`, so
-- that its statements are functions of their own, and mutex_round is what they do without an interrupt
-- between them.
pub mod Exclusion
pub mod Handover
mod Tests
use chao_s_os.Prelude.{ℕ, ◌-◌, ◌^◌, Bool, true, false, ◌==◌, if◌then◌else◌, update}
use chao_s_os.Links.{Ptr, Links, list_move_to_tail}
use chao_s_os.Schedule.{Scheduler, task_schedule}

-- `task_state`
pub data TaskState : Type 0 where
  task_uninit : TaskState
  task_sleeping : TaskState
  task_runnable : TaskState
  task_zombie : TaskState

-- The scheduler's variables, and the fields `state` and `pid` of the tasks.
pub record World : Type 0 where
  pub scheduler : Scheduler
  pub state : Ptr → TaskState
  pub pid : Ptr → ℕ

-- The holder -1 of a lock that is free, as a 32-bit word
abbrev pub no_holder : ℕ
no_holder = 2 ^ 32 - 1

-- `spin_lock`
pub record SpinLock : Type 0 where
  pub value : ℕ
  pub holder : ℕ

-- `mutex_t`, with the address of its `waiting_list`
pub record Mutex : Type 0 where
  pub value : ℕ
  pub holder : ℕ
  pub waiting_list : Ptr

-- A round of spin_lock_acquire, and whether it was the last one. `__ATOMIC_RELAXED` is 0, and
-- `__atomic_test_and_set` stores 1 and returns whether there was one before.
unfoldable pub spin_round : SpinLock → World → Bool × SpinLock
spin_round lock w =
    if lock.value == 0
    then (true, record { value = 1; holder = w.pid w.scheduler.current_task })
    else (false, record lock { value = 1 })

unfoldable pub spin_lock_release : SpinLock → SpinLock
spin_lock_release lock = record { value = 0; holder = no_holder }

-- `list_move_to_tail(&current_task->list_head, head)`
unfoldable pub park : Ptr → World → World
park head w =
    let s = w.scheduler in
    record w { scheduler = record s { links = list_move_to_tail s.current_task head s.links } }

-- `current_task->state = TASK_SLEEPING`
unfoldable pub doze : World → World
doze w = record w { state = update w.state w.scheduler.current_task task_sleeping }

-- `task_schedule()`
unfoldable pub give_way : Ptr → World → World
give_way tasks w = record w { scheduler = task_schedule tasks w.scheduler }

-- The three of them
unfoldable pub sleep_on : Ptr → Ptr → World → World
unfolding park doze give_way
sleep_on tasks head w = give_way tasks (doze (park head w))

-- A task goes in front of `_next_task` and becomes `_next_task`.
unfoldable pub wake_task : Ptr → World → World
wake_task task w =
    let s = w.scheduler in
    record w {
      scheduler = record s { links = list_move_to_tail task s.upcoming s.links; upcoming = task };
      state = update w.state task task_runnable;
    }

-- The first task that waits, if there is one.
unfoldable pub wake_first : Ptr → World → World
wake_first head w =
    let task = w.scheduler.links.next head in if task == head then w else wake_task task w

-- `__atomic_test_and_set(&lock->value, __ATOMIC_ACQUIRE)`: whether the mutex was free, and the mutex
unfoldable pub test_and_set : Mutex → Bool × Mutex
test_and_set lock = (lock.value == 0, record lock { value = 1 })

-- `lock->holder = current_task->pid`
unfoldable pub set_holder : Mutex → World → Mutex
set_holder lock w = record lock { holder = w.pid w.scheduler.current_task }

-- A round of mutex_acquire, and whether it was the last one.
unfoldable pub mutex_round : Ptr → Mutex → World → Bool × Mutex × World
unfolding test_and_set set_holder
mutex_round tasks lock w =
    let (free, lock₁) = test_and_set lock in
    if free
    then (true, set_holder lock₁ w, w)
    else (false, lock₁, sleep_on tasks lock₁.waiting_list w)

unfoldable pub mutex_release : Mutex → World → Mutex × World
mutex_release lock w =
    (record lock { value = 0; holder = no_holder }, wake_first lock.waiting_list w)
