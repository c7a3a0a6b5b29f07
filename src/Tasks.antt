-- ===== src/Tasks.antt =====
-- kernel/kernel/task.c and kernel/include/kernel/task.h: how tasks come and go, over the heap of Kmm, the
-- hash table of HashMap and the rings of Links. A task is known by the address of the `list_head` in it.
-- (The tables of the hash table itself are not taken from the heap here.) An outcome `none` is one of the
-- calls that does not return, in the sense of its own module.
pub mod Creation
pub mod Exit
mod Tests
use chao_s_os.Prelude.{
  ℕ, zero, suc, ◌+◌, ◌-◌, ◌%◌, ◌^◌, Bool, true, false, Option, none, some, ◌==◌, if◌then◌else◌,
  update,
}
use chao_s_os.Links.{Ptr, Links, list_add_tail, list_del}
use chao_s_os.HashMap.{Map, map_init, map_insert, map_find, map_delete, ◌>>=◌}
use chao_s_os.Schedule.{Scheduler}
use chao_s_os.Sync.{World, TaskState, task_runnable}
use chao_s_os.Kmm.Heap.{Heap, kmalloc}
use chao_s_os.Kmm.Release.{kfree}

-- sizeof(task_struct_t), and where its `list_head` stands
abbrev pub task_bytes : ℕ
task_bytes = 60

abbrev pub list_head_offset : ℕ
list_head_offset = 52

-- STACK_SIZE_KERNEL
abbrev pub stack_size : ℕ
stack_size = 0x4000

-- The fields of `task_struct_t` besides those of Sync and Links
pub record TaskInfo : Type 0 where
  pub flags : ℕ
  pub priority : ℕ
  pub ppid : ℕ
  pub stack : ℕ
  pub page_dir : ℕ
  pub esp : ℕ
  pub eflags : ℕ

-- What the linker makes of `thread_exit`, of `pgd_k` below PAGE_OFFSET, and of `kernel_stack`
pub record Image : Type 0 where
  pub exit_code : ℕ
  pub page_dir : ℕ
  pub kernel_stack : ℕ

-- The variables of the file, the fields of the tasks, the words on their stacks, and the heap
pub record Tasks : Type 0 where
  pub world : World
  pub map : Map
  pub current_pid : ℕ
  pub info : Ptr → TaskInfo
  pub words : ℕ → ℕ
  pub heap : Heap

-- `container_of` the other way round
unfoldable pub list_head_of : ℕ → Ptr
list_head_of task = task + list_head_offset

-- `*(--new_stack) = w`: the new stack pointer, and the words
unfoldable pub push : ℕ → ℕ × (ℕ → ℕ) → ℕ × (ℕ → ℕ)
push w (esp, words) = let esp' = (esp + 2 ^ 32 - 4) % 2 ^ 32 in (esp', update words esp' w)

unfoldable pub first_stack : Image → ℕ → ℕ → ℕ → (ℕ → ℕ) → ℕ × (ℕ → ℕ)
first_stack im fn arg stack words =
    push fn (push arg (push im.exit_code ((stack + stack_size) % 2 ^ 32, words)))

-- The task that thread_create sets up, at `task` with the stack at `stack`: the ring gains it in front
-- of the current task.
unfoldable pub created : Image → ℕ → ℕ → ℕ → ℕ → Map → Heap → Tasks → Tasks
created im fn arg task stack map heap t =
    let w = t.world in
    let s = w.scheduler in
    let node = list_head_of task in
    let (esp, words) = first_stack im fn arg stack t.words in
    record {
      world = record {
        scheduler = record s { links = list_add_tail node s.current_task s.links };
        state = update w.state node task_runnable;
        pid = update w.pid node t.current_pid;
      };
      map = map;
      current_pid = (t.current_pid + 1) % 2 ^ 32;
      info = update t.info node (record {
        flags = 0;
        priority = 0;
        ppid = w.pid s.current_task;
        stack = stack;
        page_dir = im.page_dir;
        esp = esp;
        eflags = 0x200;
      });
      words = words;
      heap = heap;
    }

-- `thread_create`: the process id and the tasks. `k` bounds the managers that kmalloc visits, `d` and
-- `f` the rehashing and the probes of map_insert.
unfoldable pub thread_create : Image → ℕ → ℕ → ℕ → ℕ → ℕ → Tasks → Option (ℕ × Tasks)
thread_create im k d f fn arg t = do
  (task, h₁) ← kmalloc k task_bytes t.heap
  (stack, h₂) ← kmalloc k stack_size h₁
  map ← map_insert d f t.current_pid task t.map
  some (t.current_pid, created im fn arg task stack map h₂ t)

-- The first task, which is the current one and the next one. (The code does not set its context.)
unfoldable pub first_task : Image → Ptr → ℕ → Map → Heap → Tasks → Tasks
first_task im tasks task map heap t =
    let w = t.world in
    let node = list_head_of task in
    record t {
      world = record {
        scheduler = record w.scheduler {
          links = list_add_tail node tasks w.scheduler.links;
          current_task = node;
          upcoming = node;
        };
        state = update w.state node task_runnable;
        pid = update w.pid node 0;
      };
      map = map;
      current_pid = 1;
      info = update t.info node (record (t.info node) {
        flags = 0;
        priority = 0;
        ppid = 2 ^ 32 - 1;
        stack = im.kernel_stack;
        page_dir = im.page_dir;
      });
      heap = heap;
    }

unfoldable pub init_task : Image → Ptr → ℕ → ℕ → ℕ → Tasks → Option Tasks
init_task im tasks k d f t = do
  (task, h) ← kmalloc k task_bytes t.heap
  map ← map_insert d f 0 task map_init
  some (first_task im tasks task map h t)

-- The first half of thread_exit: the task at `task` leaves the table and its ring.
unfoldable pub unhook_task : ℕ → ℕ → ℕ → ℕ → Tasks → Option Tasks
unhook_task d f pid task t = do
  map ← map_delete d f pid t.map
  let w = t.world
  some (record t {
    world = record w {
      scheduler = record w.scheduler { links = list_del (list_head_of task) w.scheduler.links };
    };
    map = map;
  })

-- The second half: three times kfree.
unfoldable pub free_task : ℕ → Tasks → Option Tasks
free_task task t = do
  h₁ ← kfree (t.info (list_head_of task)).stack t.heap
  h₂ ← kfree (t.info (list_head_of task)).page_dir h₁
  h₃ ← kfree task h₂
  some (record t { heap = h₃ })

unfoldable pub remove_task : ℕ → ℕ → ℕ → ℕ → Tasks → Option Tasks
remove_task d f pid task t = unhook_task d f pid task t >>= free_task task

unfoldable pub found_task : ℕ → ℕ → ℕ → Tasks → Option ℕ → Option Tasks
found_task d f pid t none = some t
found_task d f pid t (some task) = remove_task d f pid task t

unfoldable pub thread_exit : ℕ → ℕ → ℕ → Tasks → Option Tasks
thread_exit d f pid t = if pid == 0 then some t else (map_find f pid t.map >>= found_task d f pid t)
