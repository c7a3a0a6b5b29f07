-- ===== src/Schedule/Rounds.antt =====
-- The rounds that `task_schedule` (kernel/kernel/schedule.c) makes over the ring of tasks.
use chao_s_os.Prelude.{
  ◌≡◌, ◌≢◌, refl, sym, ap, ◌∙◌, true, false, Bool-cases, inl, inr, arith, List, [], ◌∷◌, length,
  ◌==◌,
}
use chao_s_os.Links.{Ptr, Links, null}
use chao_s_os.Links.Ring.{◌∉◌, Ring, Chain, Chain-next}
use chao_s_os.Schedule.{Scheduler, next_task, task_schedule, scheduled, turns}

-- One interrupt: the upcoming task runs, and the task behind it is the next one.
pub record Stepped (tasks : Ptr) (s s' : Scheduler) : Type 0 where
  pub runs : s'.current_task ≡ s.upcoming
  pub follows : s'.upcoming ≡ next_task tasks s.upcoming s.links
  pub kept : s'.links ≡ s.links

pub task_schedule-Stepped :
    (tasks : Ptr) (s : Scheduler) → s.current_task ≢ null → Stepped tasks s (task_schedule tasks s)
unfolding task_schedule
task_schedule-Stepped tasks s n =
    let there : (s.current_task == null) ≡ false = ground arith in
    elim (Bool-cases (s.upcoming == s.current_task)) [
      | inl y ↦ rw (there, y) (record { runs = ground arith; follows = refl; kept = refl })
      | inr m ↦ rw (there, m) (record { runs = refl; follows = refl; kept = refl })
    ]

-- The task behind an entry: the next entry, or the first one of the ring behind the last.
next_task-middle :
    (tasks e f : Ptr) (h : Links) → h.next e ≡ f → f ≢ tasks → next_task tasks e h ≡ f
unfolding next_task
next_task-middle tasks e f h l n =
    let other : (h.next e == tasks) ≡ false = ground arith in rw other l

next_task-last :
    (tasks e first : Ptr) (h : Links)
    → h.next e ≡ tasks
    → h.next tasks ≡ first
    → next_task tasks e h ≡ first
unfolding next_task
next_task-last tasks e first h l f =
    let end : (h.next e == tasks) ≡ true = ground arith in rw end (ap h.next l ∙ f)

-- What a stretch of the ring, from the upcoming task to the last one, is run as.
turns-stretch :
    (tasks : Ptr) (h : Links) (first e : Ptr) (ys : List Ptr) (s : Scheduler)
    → s.links ≡ h
    → s.upcoming ≡ e
    → s.current_task ≢ null
    → Chain h e ys tasks
    → h.next tasks ≡ first
    → tasks ∉ ys
    → null ∉ e ∷ ys
    → (turns tasks (length (e ∷ ys)) s ≡ e ∷ ys)
      × ((scheduled tasks (length (e ∷ ys)) s).upcoming ≡ first)
unfolding turns scheduled
turns-stretch tasks h first e [] s k u n c b o z =
    let step = task_schedule-Stepped tasks s n in
    (
      ap (λ (t : Ptr). t ∷ []) (step.runs ∙ u),
      step.follows
          ∙ ap (λ (t : Ptr). next_task tasks t s.links) u
          ∙ ap (λ (g : Links). next_task tasks e g) k
          ∙ next_task-last tasks e first h c.forth b,
    )
turns-stretch tasks h first e (f ∷ ys) s k u n c b o z =
    let step = task_schedule-Stepped tasks s n in
    let runs : (task_schedule tasks s).current_task ≡ e = step.runs ∙ u in
    let follows : (task_schedule tasks s).upcoming ≡ f =
      step.follows
      ∙ ap (λ (t : Ptr). next_task tasks t s.links) u
      ∙ ap (λ (g : Links). next_task tasks e g) k
      ∙ next_task-middle tasks e f h c.0.forth (ground arith) in
    let head : e ≢ null = ground arith in
    let (rest, last) =
      turns-stretch tasks h first f ys (task_schedule tasks s) (step.kept ∙ k) follows
        (λ z'. head (sym runs ∙ z')) c.1 b (ground arith) (ground arith) in
    (
      ap (λ (t : Ptr). t ∷ turns tasks (length (f ∷ ys)) (task_schedule tasks s)) runs
          ∙ ap (λ (ts : List Ptr). e ∷ ts) rest,
      last,
    )

-- While no task comes or goes, and the upcoming task is the first of the ring, `task_schedule` lets every
-- task of the ring run once, in the ring's order, in as many clock interrupts as there are tasks, and the
-- first one is the upcoming task again.
pub turns-round :
    (tasks e : Ptr) (ys : List Ptr) (s : Scheduler)
    → Ring s.links tasks (e ∷ ys)
    → null ∉ e ∷ ys
    → s.current_task ≢ null
    → s.upcoming ≡ e
    → (turns tasks (length (e ∷ ys)) s ≡ e ∷ ys)
      × ((scheduled tasks (length (e ∷ ys)) s).upcoming ≡ e)
turns-round tasks e ys s r z n u =
    turns-stretch tasks s.links e e ys s refl u n r.chain.1
      (Chain-next s.links tasks (e ∷ ys) tasks r.chain) (others e ys tasks r.apart) z
  where
    others : (e : Ptr) (ys : List Ptr) (tasks : Ptr) → tasks ∉ e ∷ ys → tasks ∉ ys
    others e ys tasks o = ground arith
