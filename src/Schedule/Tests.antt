-- ===== src/Schedule/Tests.antt =====
-- Two tasks, at 1 and 2, in the ring of 10.
use chao_s_os.Prelude.{◌≡◌, ◌≢◌, refl, [], ◌∷◌, arith}
use chao_s_os.Links.{Links, null, init_list_head, list_add_tail}
use chao_s_os.Links.Ring.{Ring}
use chao_s_os.Schedule.{Scheduler, task_schedule, next_task, scheduled, turns}
use chao_s_os.Schedule.Rounds.{turns-round}

abbrev two_tasks : Links
unfolding init_list_head list_add_tail
two_tasks =
    list_add_tail 2 10
      (list_add_tail 1 10 (init_list_head 10 (record { next = λ _. null; prev = λ _. null })))

abbrev scheduler : Scheduler
scheduler = record { links = two_tasks; current_task = 2; upcoming = 1; switches = 0 }

alternates : turns 10 3 scheduler ≡ 1 ∷ 2 ∷ 1 ∷ []
unfolding turns task_schedule next_task two_tasks
alternates = refl

two_tasks-Ring : Ring scheduler.links 10 (1 ∷ 2 ∷ [])
unfolding two_tasks
two_tasks-Ring = record { chain = omega arith; apart = refl; distinct = ground arith }

running : scheduler.current_task ≢ null
running e = absurd (omega (arith, e))

turns-round_example :
    (turns 10 2 scheduler ≡ 1 ∷ 2 ∷ []) × ((scheduled 10 2 scheduler).upcoming ≡ 1)
turns-round_example = turns-round 10 1 (2 ∷ []) scheduler two_tasks-Ring refl running refl
