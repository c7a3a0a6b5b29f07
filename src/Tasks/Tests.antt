-- ===== src/Tasks/Tests.antt =====
-- A task that starts another one, and a task that ends.
use chao_s_os.Prelude.{
  ℕ, ◌+◌, ◌*◌, ◌^◌, ◌≡◌, refl, sym, subst, Bool, true, false, Option, none, some, [], ◌∷◌, arith,
  ◌==◌, if◌then◌else◌,
}
use chao_s_os.Math.{next_power_of_2, power_of_2}
use chao_s_os.Links.{Links, null, init_list_head, list_add_tail}
use chao_s_os.Links.Ring.{◌∉◌, Ring}
use chao_s_os.HashMap.{Map, map_init, map_insert, probe_slot, occupied, blank_node}
use chao_s_os.HashMap.Growth.{map_init-IsValid}
use chao_s_os.Buddy.{
  Frame, get_block, find_level, frame_alloc, physic_alloc, page_count, address_of, split,
  split_once, hand_out,
}
use chao_s_os.Sync.{task_runnable}
use chao_s_os.Kmm.{new_manager, init_allocator}
use chao_s_os.Kmm.Heap.{
  Heap, kmalloc, size_level, kmalloc_helper, ensure_manager, serve, from_free, ensure_page,
  give_page, take_free, first_slice, page_address, assign_page, own_page,
}
use chao_s_os.Tasks.{Image, Tasks, task_bytes, stack_size, list_head_of, thread_create}
use chao_s_os.Tasks.Creation.{Created, thread_create-Created}

-- A free frame, and a free block of four.
abbrev frame : ℕ → Frame
frame i = record {
  flags = 2;
  level = if i == 8 then 2 else 0;
  physic_addr = 2 ^ 20 + i * 4096;
  index = i;
  prev_frame = 1024;
  next_frame = 1024;
  allocator = 0;
}

abbrev heap : Heap
heap = record {
  zone = record {
    base = 2 ^ 20;
    length = 2 ^ 22;
    frames_number = 1024;
    free_lists = λ l. if l == 0 then 7 else if l == 2 then 8 else 1024;
    frames = frame;
  };
  alloc_ms = λ i. 4096;
  managers = λ p. new_manager 64 0;
  bytes = λ a. 0;
}

abbrev ring : Links
unfolding init_list_head list_add_tail
ring = list_add_tail 1 10 (init_list_head 10 (record { next = λ _. null; prev = λ _. null }))

ring-Ring : Ring ring 10 (1 ∷ [])
unfolding ring
ring-Ring = record { chain = omega arith; apart = refl; distinct = ground arith }

-- The same with the `list_head` of the task at 0xC0107005.
abbrev far_ring : Links
unfolding init_list_head list_add_tail
far_ring =
    list_add_tail 0xC0107039 10 (init_list_head 10 (record { next = λ _. null; prev = λ _. null }))

abbrev before : Tasks
before = record {
  world = record {
    scheduler = record { links = ring; current_task = 1; upcoming = 1; switches = 0 };
    state = λ t. task_runnable;
    pid = λ t. 0;
  };
  map = map_init;
  current_pid = 1;
  info = λ t. record {
    flags = 0;
    priority = 0;
    ppid = 0;
    stack = 0;
    page_dir = 0;
    esp = 0;
    eflags = 0;
  };
  words = λ a. 0;
  heap = heap;
}

abbrev image : Image
image = record { exit_code = 0xC0101000; page_dir = 0x110000; kernel_stack = 0xC0120000 }

abbrev is_some {ℓ} : {A : Type ℓ} → Option A → Bool
is_some none = false
is_some (some a) = true

abbrev value_of {ℓ} : {A : Type ℓ} → A → Option A → A
value_of d none = d
value_of d (some a) = a

returned {ℓ} : {A : Type ℓ} (d : A) (o : Option A) → is_some o ≡ true → o ≡ some (value_of d o)
returned d none e = absurd (ground (arith, e))
returned d (some a) e = refl

abbrev task : ℕ × Heap
task = value_of (0, heap) (kmalloc 2 task_bytes heap)

abbrev stack : ℕ × Heap
stack = value_of (0, heap) (kmalloc 2 stack_size task.1)

task_returned : is_some (kmalloc 2 task_bytes heap) ≡ true
unfolding kmalloc size_level kmalloc_helper ensure_manager serve from_free ensure_page give_page
    frame_alloc next_power_of_2 power_of_2 get_block find_level new_manager init_allocator
task_returned = refl

task_at : task.0 ≡ 0xC0107005
unfolding kmalloc size_level kmalloc_helper ensure_manager serve from_free ensure_page give_page
    frame_alloc next_power_of_2 power_of_2 get_block find_level new_manager init_allocator take_free
    first_slice page_address assign_page own_page split split_once hand_out
task_at = refl

stack_returned : is_some (kmalloc 2 stack_size task.1) ≡ true
unfolding kmalloc size_level kmalloc_helper ensure_manager serve from_free ensure_page give_page
    frame_alloc next_power_of_2 power_of_2 get_block find_level new_manager init_allocator take_free
    first_slice page_address assign_page own_page split split_once hand_out physic_alloc page_count
    address_of
stack_returned = refl

stack_at : stack.0 ≡ 0xC0108000
unfolding kmalloc size_level kmalloc_helper ensure_manager serve from_free ensure_page give_page
    frame_alloc next_power_of_2 power_of_2 get_block find_level new_manager init_allocator take_free
    first_slice page_address assign_page own_page split split_once hand_out physic_alloc page_count
    address_of
stack_at = refl

abbrev table : Map
table = value_of map_init (map_insert 2 9 1 task.0 map_init)

table_returned : is_some (map_insert 2 9 1 task.0 map_init) ≡ true
unfolding map_insert map_init probe_slot
table_returned = refl

not_in_ring : list_head_of task.0 ∉ (10 ∷ 1 ∷ [])
unfolding list_head_of
not_in_ring = subst (λ n. (n + 52) ∉ (10 ∷ 1 ∷ [])) (sym task_at) refl

thread_create-Created_example :
    (t' : Tasks) × (thread_create image 2 2 9 0xC0102000 77 before ≡ some (1, t'))
    × Created image 0xC0102000 77 task.0 stack.0 9 10 1 [] [] before t'
thread_create-Created_example =
    thread_create-Created image 2 2 9 0xC0102000 77 task.0 stack.0 10 1 [] [] before task.1 stack.1
      table (returned (0, heap) (kmalloc 2 task_bytes heap) task_returned)
      (returned (0, heap) (kmalloc 2 stack_size task.1) stack_returned)
      (returned map_init (map_insert 2 9 1 task.0 map_init) table_returned) map_init-IsValid refl
      ring-Ring not_in_ring (omega (arith, stack_at))

-- The task 7, alone in the ring, ends; its stack is a block of four
-- pages, as thread_create makes it.
abbrev full_table : Map
full_table = record {
  capacity = 7;
  capacity_level = 3;
  size = 1;
  list =
      record { key = 7; value = 0xC0107005; status = occupied }
      ∷ blank_node
      ∷ blank_node
      ∷ blank_node
      ∷ blank_node
      ∷ blank_node
      ∷ blank_node
      ∷ [];
}

abbrev ending : Tasks
ending = record before {
  world = record before.world { scheduler = record before.world.scheduler { links = far_ring } };
  map = full_table;
  info = λ t. record {
    flags = 0;
    priority = 0;
    ppid = 0;
    stack = 0xC0108000;
    page_dir = 0x110000;
    esp = 0;
    eflags = 0;
  };
  heap = heap;
}
