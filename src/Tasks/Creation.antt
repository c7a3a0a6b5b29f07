-- ===== src/Tasks/Creation.antt =====
-- `thread_create` (kernel/kernel/task.c): what a new task is, and where it stands.
use chao_s_os.Prelude.{
  ℕ, ◌+◌, ◌-◌, ◌%◌, ◌^◌, ◌≤◌, ◌≡◌, ◌≢◌, refl, sym, ap, subst, ◌∙◌, some, List, [], ◌∷◌, ◌++◌, arith,
  update_self,
}
use chao_s_os.Links.{Ptr, Links, list_add_tail}
use chao_s_os.Links.Ring.{◌∉◌, Ring}
use chao_s_os.Links.Chains.{has-append}
use chao_s_os.Links.Laws.{list_add_tail-Ring}
use chao_s_os.Links.Rotation.{append_assoc, append_middle, Ring-rotate}
use chao_s_os.HashMap.{Map, map_insert, map_find}
use chao_s_os.HashMap.Lookup.{IsValid}
use chao_s_os.HashMap.Growth.{map_insert-find}
use chao_s_os.Sync.{task_runnable}
use chao_s_os.Kmm.Heap.{Heap, kmalloc}
use chao_s_os.Tasks.{
  Image, Tasks, task_bytes, stack_size, list_head_of, push, first_stack, created, thread_create,
}

-- `new` is in front of `c`, wherever `c` stands.
pub add_before-Ring :
    (new tasks c : Ptr) (xs ys : List Ptr) (h : Links)
    → Ring h tasks (xs ++ c ∷ ys)
    → new ∉ (tasks ∷ xs ++ c ∷ ys)
    → Ring (list_add_tail new c h) tasks (xs ++ new ∷ c ∷ ys)
add_before-Ring new tasks c xs ys h r n =
    let h' = list_add_tail new c h in
    let out : (new ≢ c) × (new ∉ (ys ++ tasks ∷ xs)) = (
      ground (arith, n, has-append new xs (c ∷ ys)),
      ground (arith, n, has-append new xs (c ∷ ys), has-append new ys (tasks ∷ xs)),
    ) in
    let turned = list_add_tail-Ring new out.0 out.1 (Ring-rotate h tasks xs c ys r) in
    let turned' = subst (λ zs. Ring h' c zs) (append_middle ys tasks xs (new ∷ [])) turned in
    subst (λ zs. Ring h' tasks zs) (append_assoc xs new (c ∷ ys))
      (Ring-rotate h' c ys tasks (xs ++ new ∷ []) turned')

-- The stack of a task that has not run: the function to call, its argument, and where it returns to.
pub record Entry (words : ℕ → ℕ) (esp fn arg exit_code : ℕ) : Type 0 where
  pub function : words esp ≡ fn
  pub argument : words (esp + 4) ≡ arg
  pub return_address : words (esp + 8) ≡ exit_code

first_stack-Entry :
    (im : Image) (fn arg stack : ℕ) (words : ℕ → ℕ)
    → stack + stack_size ≤ 2 ^ 32
    → let r = first_stack im fn arg stack words in
      (r.0 ≡ stack + stack_size - 12) × Entry r.1 r.0 fn arg im.exit_code
unfolding first_stack push
first_stack-Entry im fn arg stack words l =
    let top = stack + stack_size in
    let a : (top % 2 ^ 32 + 2 ^ 32 - 4) % 2 ^ 32 ≡ top - 4 = omega (arith, l) in
    let b : (top - 4 + 2 ^ 32 - 4) % 2 ^ 32 ≡ top - 8 = omega (arith, l) in
    let c : (top - 8 + 2 ^ 32 - 4) % 2 ^ 32 ≡ top - 12 = omega (arith, l) in
    rw (a, b, c)
      (
        refl,
        record { function = ground arith; argument = ground arith; return_address = ground arith },
      )

-- A new task in the tables and in the ring.
pub record Created (im : Image) (fn arg task stack f : ℕ) (tasks c : Ptr) (xs ys : List Ptr)
    (t t' : Tasks) : Type 0 where
  pub ring : Ring t'.world.scheduler.links tasks (xs ++ list_head_of task ∷ c ∷ ys)
  pub found : map_find f t.current_pid t'.map ≡ some (some task)
  pub pid : t'.world.pid (list_head_of task) ≡ t.current_pid
  pub parent : (t'.info (list_head_of task)).ppid ≡ t.world.pid c
  pub runnable : t'.world.state (list_head_of task) ≡ task_runnable
  pub top : (t'.info (list_head_of task)).esp ≡ stack + stack_size - 12
  pub entry : Entry t'.words (t'.info (list_head_of task)).esp fn arg im.exit_code

-- thread_create, where the two calls of kmalloc and map_insert return: the new task stands in the
-- ring in front of the current one, the table gives its address for its pid, its parent is the
-- current task, it is runnable, and its stack pointer leads to the function, its argument and
-- thread_exit, in this order.
pub thread_create-Created :
    (im : Image) (k d f fn arg task stack : ℕ) (tasks c : Ptr) (xs ys : List Ptr) (t : Tasks)
    (h₁ h₂ : Heap) (m : Map)
    → kmalloc k task_bytes t.heap ≡ some (task, h₁)
    → kmalloc k stack_size h₁ ≡ some (stack, h₂)
    → map_insert d f t.current_pid task t.map ≡ some m
    → IsValid t.map
    → t.world.scheduler.current_task ≡ c
    → Ring t.world.scheduler.links tasks (xs ++ c ∷ ys)
    → list_head_of task ∉ (tasks ∷ xs ++ c ∷ ys)
    → stack + stack_size ≤ 2 ^ 32
    → (t' : Tasks) × (thread_create im k d f fn arg t ≡ some (t.current_pid, t'))
      × Created im fn arg task stack f tasks c xs ys t t'
unfolding thread_create created
thread_create-Created im k d f fn arg task stack tasks c xs ys t h₁ h₂ m a b e v u r n l =
    let node = list_head_of task in
    let w = t.world in
    let (top, entry) = first_stack-Entry im fn arg stack t.words l in
    let esp = ap (λ i. i.esp) (update_self t.info node _) in
    (
      created im fn arg task stack m h₂ t,
      rw (thread_create, a, b, e) refl,
      record {
        ring =
            subst (λ z. Ring (list_add_tail node z w.scheduler.links) tasks (xs ++ node ∷ c ∷ ys))
              (sym u) (add_before-Ring node tasks c xs ys w.scheduler.links r n);
        found = map_insert-find d f t.current_pid task t.map m v e;
        pid = update_self w.pid node t.current_pid;
        parent = ap (λ i. i.ppid) (update_self t.info node _) ∙ ap w.pid u;
        runnable = update_self w.state node task_runnable;
        top = esp ∙ top;
        entry =
            subst (λ e. Entry (first_stack im fn arg stack t.words).1 e fn arg im.exit_code)
              (sym esp) entry;
      },
    )
