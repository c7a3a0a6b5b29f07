-- ===== src/Sync/Tests.antt =====
-- Two tasks that run, at 1 and 2 in the ring of 10, and one that waits, at 3 in the list of 20.
use chao_s_os.Prelude.{◌+◌, ◌≡◌, ◌≢◌, refl, true, false, [], ◌∷◌, arith}
use chao_s_os.Links.{Links, null, init_list_head, list_add_tail}
use chao_s_os.Links.Ring.{Ring}
use chao_s_os.Links.Laws.{Apart}
use chao_s_os.Schedule.{task_schedule}
use chao_s_os.Sync.{
  World, Mutex, SpinLock, task_runnable, mutex_round, mutex_release, sleep_on, no_holder,
  spin_round, spin_lock_release, test_and_set, give_way,
}
use chao_s_os.Sync.Exclusion.{
  Machine, outside, testing, taken, waiting, owns, current, comes_to, after_test, Step, Run,
  Exclusive, Run-Exclusive,
}
use chao_s_os.Sync.Handover.{Woken, Sleeps, mutex_release-round, sleep_on-Sleeps}

abbrev lists : Links
unfolding init_list_head list_add_tail
lists = list_add_tail 3 20 (
    list_add_tail 2 10 (
      list_add_tail 1 10
        (init_list_head 20 (init_list_head 10 (record { next = λ _. null; prev = λ _. null })))))

abbrev world : World
world = record {
  scheduler = record { links = lists; current_task = 1; upcoming = 2; switches = 0 };
  state = λ t. task_runnable;
  pid = λ t. t + 100;
}

abbrev mutex : Mutex
mutex = record { value = 1; holder = 101; waiting_list = 20 }

ready-Ring : Ring lists 10 (1 ∷ 2 ∷ [])
unfolding lists
ready-Ring = record { chain = omega arith; apart = refl; distinct = ground arith }

waiting-Ring : Ring lists 20 (3 ∷ [])
unfolding lists
waiting-Ring = record { chain = omega arith; apart = refl; distinct = ground arith }

apart : Apart (20 ∷ 3 ∷ []) (10 ∷ 1 ∷ 2 ∷ [])
apart p h = ground (arith, h)

apart' : Apart (10 ∷ 1 ∷ 2 ∷ []) (20 ∷ 3 ∷ [])
apart' p h = ground (arith, h)

running : world.scheduler.current_task ≢ null
running e = absurd (omega (arith, e))

mutex_release-round_example :
    let (lock', w') = mutex_release mutex world in
    let w'' = record w' { scheduler = task_schedule 10 w'.scheduler } in
    let (got, lock'', w₃) = mutex_round 10 lock' w'' in
    Woken 10 20 3 2 [] (1 ∷ []) [] world w'
    × (w''.scheduler.current_task ≡ 3)
    × (got ≡ true)
    × (lock''.holder ≡ world.pid 3)
mutex_release-round_example =
    mutex_release-round 10 3 2 [] (1 ∷ []) [] mutex world waiting-Ring ready-Ring apart refl running

sleep_on-Sleeps_example : Sleeps 10 20 1 (3 ∷ []) [] (2 ∷ []) world (sleep_on 10 20 world)
sleep_on-Sleeps_example =
    sleep_on-Sleeps 10 20 1 (3 ∷ []) [] (2 ∷ []) world ready-Ring apart' waiting-Ring refl running

-- Nobody has the mutex. The first task finds it free, and a clock interrupt comes before it is the
-- holder; the second task finds the mutex held.
abbrev start : Machine
start = record {
  lock = record mutex { value = 0; holder = no_holder };
  world = world;
  phase = λ t. outside;
}

start-Exclusive : Exclusive start
unfolding owns
start-Exclusive = record {
  one = λ t u a b. absurd (ground (arith, a));
  set = λ t a. absurd (ground (arith, a));
  held = λ t a. absurd (ground (arith, a));
  owned = λ n. absurd (n refl);
}

abbrev first_calls : Machine
first_calls = comes_to testing start.lock start.world start

abbrev interrupted : Machine
interrupted = let m = after_test first_calls in record m { world = give_way 10 m.world }

abbrev second_calls : Machine
second_calls = comes_to testing interrupted.lock interrupted.world interrupted

first_tests : Run 10 start (after_test first_calls)
first_tests = Run.onward (Run.onward Run.still (Step.calls refl)) (Step.tests refl)

second_runs : current interrupted ≡ 2
unfolding after_test test_and_set give_way task_schedule
second_runs = refl

second_tests : Run 10 start (after_test second_calls)
unfolding after_test test_and_set give_way task_schedule
second_tests =
    Run.onward (Run.onward (Run.onward first_tests Step.ticks) (Step.calls refl)) (Step.tests refl)

phases : ((after_test second_calls).phase 1 ≡ taken) × ((after_test second_calls).phase 2 ≡ waiting)
unfolding after_test test_and_set give_way task_schedule
phases = (refl, refl)

Run-Exclusive_example : Exclusive (after_test second_calls)
Run-Exclusive_example = Run-Exclusive 10 start-Exclusive second_tests

-- A spin lock that is free is taken by the first round, and by no second one.
abbrev spin : SpinLock
spin = record { value = 0; holder = no_holder }

spins : (spin_round (spin_round spin world).1 world).0 ≡ false
unfolding spin_round
spins = refl

spins_again : (spin_round (spin_lock_release (spin_round spin world).1) world).0 ≡ true
unfolding spin_round spin_lock_release
spins_again = refl
