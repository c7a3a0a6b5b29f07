-- ===== src/Schedule.antt =====
-- kernel/kernel/schedule.c: which task the clock interrupt lets run. A task is known by the address of
-- the `list_head` in it, and `container_of` goes from the one to the other. `switch_context`, which is
-- assembler, is counted.
pub mod Rounds
mod Tests
use chao_s_os.Prelude.{ℕ, zero, suc, ◌+◌, Bool, true, false, List, [], ◌∷◌, ◌==◌, if◌then◌else◌}
use chao_s_os.Links.{Ptr, Links, null}

-- The variables `current_task` and `_next_task`, the links of all tasks, and the number of switches.
pub record Scheduler : Type 0 where
  pub links : Links
  pub current_task : Ptr
  pub upcoming : Ptr
  pub switches : ℕ

-- `next_task`; `tasks` is the head of the ring, and no task.
unfoldable pub next_task : Ptr → Ptr → Links → Ptr
next_task tasks task h = if h.next task == tasks then h.next (h.next task) else h.next task

unfoldable pub task_schedule : Ptr → Scheduler → Scheduler
task_schedule tasks s =
    let s₁ = record s { upcoming = next_task tasks s.upcoming s.links } in
    let switched = record s₁ { current_task = s.upcoming; switches = s.switches + 1 } in
    if s.current_task == null then s else if s.upcoming == s.current_task then s₁ else switched

-- `n` clock interrupts, and the tasks that run after each of them.
unfoldable pub scheduled : Ptr → ℕ → Scheduler → Scheduler
scheduled tasks zero s = s
scheduled tasks (suc n) s = scheduled tasks n (task_schedule tasks s)

unfoldable pub turns : Ptr → ℕ → Scheduler → List Ptr
turns tasks zero s = []
turns tasks (suc n) s =
    let after = task_schedule tasks s in after.current_task ∷ turns tasks n after
