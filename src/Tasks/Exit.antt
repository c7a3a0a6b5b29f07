-- ===== src/Tasks/Exit.antt =====
-- `thread_exit` (kernel/kernel/task.c): a task leaves the table and its ring.
use chao_s_os.Prelude.{ℕ, ◌≡◌, ◌≢◌, none, some, List, ◌++◌}
use chao_s_os.Links.{Ptr}
use chao_s_os.Links.Ring.{Ring}
use chao_s_os.HashMap.{map_find}
use chao_s_os.Tasks.{Tasks}

-- A task that is gone: its pid is not in the table, which answers as before for every other one, and the
-- ring has closed behind it. Its own fields and the heap are as they were.
pub record Gone (f pid : ℕ) (tasks : Ptr) (xs ys : List Ptr) (t t' : Tasks) : Type 0 where
  pub absent : map_find f pid t'.map ≡ some none
  pub others : (other : ℕ) → pid ≢ other → map_find f other t'.map ≡ map_find f other t.map
  pub ring : Ring t'.world.scheduler.links tasks (xs ++ ys)
  pub heap : t'.heap ≡ t.heap
  pub info : t'.info ≡ t.info
