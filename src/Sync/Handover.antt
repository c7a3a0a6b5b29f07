-- ===== src/Sync/Handover.antt =====
-- Waiting for a mutex and waking up (kernel/include/kernel/sync.h): the tasks that wait are woken in the
-- order in which they came, and a woken task is the next one to run.
use chao_s_os.Prelude.{
  ◌≡◌, ◌≢◌, refl, sym, ap, subst, ◌∙◌, inl, inr, true, false, List, [], ◌∷◌, ◌++◌, arith, ◌==◌,
  Bool-cases, update, update_self, update_other,
}
use chao_s_os.Links.{Ptr, Links, null, list_move_to_tail}
use chao_s_os.Links.Ring.{Ring}
use chao_s_os.Links.Chains.{has-append}
use chao_s_os.Links.Laws.{Apart, list_move_to_tail-Ring}
use chao_s_os.Links.Rotation.{append_assoc, append_middle, Ring-rotate}
use chao_s_os.Schedule.{task_schedule}
use chao_s_os.Schedule.Rounds.{task_schedule-Stepped}
use chao_s_os.Sync.{
  World, Mutex, task_sleeping, task_runnable, sleep_on, wake_task, wake_first, mutex_round,
  mutex_release,
}

-- A task that is woken: the waiting ones behind it keep their order, and it stands in front of the task
-- that was to run next, and runs before it.
pub record Woken (tasks head t e : Ptr) (ws xs ys : List Ptr) (w w' : World) : Type 0 where
  pub waiting : Ring w'.scheduler.links head ws
  pub ready : Ring w'.scheduler.links tasks (xs ++ t ∷ e ∷ ys)
  pub upcoming : w'.scheduler.upcoming ≡ t
  pub runnable : w'.state t ≡ task_runnable
  pub others : (u : Ptr) → u ≢ t → w'.state u ≡ w.state u

module _ (tasks head t e : Ptr) (ws xs ys : List Ptr) (h : Links) (r : Ring h head (t ∷ ws))
    (r' : Ring h tasks (xs ++ e ∷ ys)) (apart : Apart (head ∷ t ∷ ws) (tasks ∷ xs ++ e ∷ ys)) where
  turned : Apart (head ∷ t ∷ ws) (e ∷ ys ++ tasks ∷ xs)
  turned p i = ground (arith, apart p i, has-append p xs (e ∷ ys), has-append p ys (tasks ∷ xs))

  moved_in_front :
      Ring (list_move_to_tail t e h) head ws
      × Ring (list_move_to_tail t e h) tasks (xs ++ t ∷ e ∷ ys)
  moved_in_front =
      let h' = list_move_to_tail t e h in
      let (first, second) =
        list_move_to_tail-Ring [] t ws r turned (Ring-rotate h tasks xs e ys r') in
      let second' = subst (λ zs. Ring h' e zs) (append_middle ys tasks xs (t ∷ [])) second in
      (
        first,
        subst (λ zs. Ring h' tasks zs) (append_assoc xs t (e ∷ ys))
            (Ring-rotate h' e ys tasks (xs ++ t ∷ []) second'),
      )

wake_task-Woken :
    (tasks head t e : Ptr) (ws xs ys : List Ptr) (w : World)
    → Ring w.scheduler.links head (t ∷ ws)
    → Ring w.scheduler.links tasks (xs ++ e ∷ ys)
    → Apart (head ∷ t ∷ ws) (tasks ∷ xs ++ e ∷ ys)
    → w.scheduler.upcoming ≡ e
    → Woken tasks head t e ws xs ys w (wake_task t w)
unfolding wake_task
wake_task-Woken tasks head t e ws xs ys w r r' a u =
    let h = w.scheduler.links in
    let (waiting, ready) = moved_in_front tasks head t e ws xs ys h r r' a in
    record {
      waiting = subst (λ e. Ring (list_move_to_tail t e h) head ws) (sym u) waiting;
      ready = subst (λ n. Ring (list_move_to_tail t n h) tasks (xs ++ t ∷ e ∷ ys)) (sym u) ready;
      upcoming = refl;
      runnable = update_self w.state t task_runnable;
      others = λ v n. update_other w.state t v task_runnable n;
    }

pub wake_first-Woken :
    (tasks head t e : Ptr) (ws xs ys : List Ptr) (w : World)
    → Ring w.scheduler.links head (t ∷ ws)
    → Ring w.scheduler.links tasks (xs ++ e ∷ ys)
    → Apart (head ∷ t ∷ ws) (tasks ∷ xs ++ e ∷ ys)
    → w.scheduler.upcoming ≡ e
    → Woken tasks head t e ws xs ys w (wake_first head w)
unfolding wake_first
wake_first-Woken tasks head t e ws xs ys w r r' a u =
    let next : w.scheduler.links.next head ≡ t = r.chain.0.forth in
    let test : (t == head) ≡ false = ground (arith, r.apart) in
    rw (wake_first, next, test) (wake_task-Woken tasks head t e ws xs ys w r r' a u)

wake_first-keeps :
    (head : Ptr) (w : World)
    → ((wake_first head w).scheduler.current_task ≡ w.scheduler.current_task)
      × ((wake_first head w).pid ≡ w.pid)
unfolding wake_first wake_task
wake_first-keeps head w = elim (Bool-cases (w.scheduler.links.next head == head)) [
  | inl y ↦ rw (wake_first, y) (refl, refl)
  | inr n ↦ rw (wake_first, n) (refl, refl)
]

-- mutex_release while tasks wait, where the ring of tasks and the waiting list are apart: the
-- first waiting task leaves the waiting list, which keeps its order, stands in front of the task
-- that was to run next, and is runnable; the next clock interrupt runs it, and its round of
-- mutex_acquire then gets the mutex.
pub mutex_release-round :
    (tasks t e : Ptr) (ws xs ys : List Ptr) (lock : Mutex) (w : World)
    → Ring w.scheduler.links lock.waiting_list (t ∷ ws)
    → Ring w.scheduler.links tasks (xs ++ e ∷ ys)
    → Apart (lock.waiting_list ∷ t ∷ ws) (tasks ∷ xs ++ e ∷ ys)
    → w.scheduler.upcoming ≡ e
    → w.scheduler.current_task ≢ null
    → let (lock', w') = mutex_release lock w in
      let w'' = record w' { scheduler = task_schedule tasks w'.scheduler } in
      let (got, lock'', w₃) = mutex_round tasks lock' w'' in
      Woken tasks lock.waiting_list t e ws xs ys w w'
      × (w''.scheduler.current_task ≡ t)
      × (got ≡ true)
      × (lock''.holder ≡ w.pid t)
unfolding mutex_release mutex_round
mutex_release-round tasks t e ws xs ys lock w r r' a u n =
    let head = lock.waiting_list in
    let k = wake_first-Woken tasks head t e ws xs ys w r r' a u in
    let (current, pid) = wake_first-keeps head w in
    let step =
      task_schedule-Stepped tasks (wake_first head w).scheduler (λ z. n (sym current ∙ z)) in
    let runs = step.runs ∙ k.upcoming in
    (k, runs, refl, ap (λ c. (wake_first head w).pid c) runs ∙ ap (λ f. f t) pid)

-- What a task does that finds the mutex held.
pub record Sleeps (tasks head c : Ptr) (ws xs ys : List Ptr) (w w' : World) : Type 0 where
  pub waiting : Ring w'.scheduler.links head (ws ++ c ∷ [])
  pub ready : Ring w'.scheduler.links tasks (xs ++ ys)
  pub sleeping : w'.state c ≡ task_sleeping
  pub runs : w'.scheduler.current_task ≡ w.scheduler.upcoming

pub sleep_on-Sleeps :
    (tasks head c : Ptr) (ws xs ys : List Ptr) (w : World)
    → Ring w.scheduler.links tasks (xs ++ c ∷ ys)
    → Apart (tasks ∷ xs ++ c ∷ ys) (head ∷ ws)
    → Ring w.scheduler.links head ws
    → w.scheduler.current_task ≡ c
    → c ≢ null
    → Sleeps tasks head c ws xs ys w (sleep_on tasks head w)
unfolding sleep_on
sleep_on-Sleeps tasks head c ws xs ys w r a r' e n =
    let s = record w.scheduler {
      links = list_move_to_tail w.scheduler.current_task head w.scheduler.links;
    } in
    let step = task_schedule-Stepped tasks s (λ z. n (sym e ∙ z)) in
    let (ready, waiting) = list_move_to_tail-Ring xs c ys r a r' in
    let links : (task_schedule tasks s).links ≡ list_move_to_tail c head w.scheduler.links =
      step.kept ∙ ap (λ c. list_move_to_tail c head w.scheduler.links) e in
    record {
      waiting = subst (λ h. Ring h head (ws ++ c ∷ [])) (sym links) waiting;
      ready = subst (λ h. Ring h tasks (xs ++ ys)) (sym links) ready;
      sleeping = ap (λ t. update w.state t task_sleeping c) e ∙ update_self w.state c task_sleeping;
      runs = step.runs;
    }
