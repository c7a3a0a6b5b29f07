-- ===== src/Boot/Start.antt =====
-- init_schedule (kernel/kernel/schedule.c) and init_vbe (kernel/kernel/vbe.c), which call several parts of
-- the kernel in turn. A callback is a number, as in Timer; an outcome `none` is a call that does not
-- return.
use chao_s_os.Prelude.{ℕ, ◌*◌, Option, some, List}
use chao_s_os.Links.{Ptr}
use chao_s_os.HashMap.{◌>>=◌}
use chao_s_os.Kmm.Heap.{Heap, kmalloc}
use chao_s_os.Strings.{Memory}
use chao_s_os.Tasks.{Image, Tasks, init_task}
use chao_s_os.Terminal.{ModeInfo, Font, Device, frame_pages, map_frames, whiten}
use chao_s_os.Timer.{Timer, register_timer}
use chao_s_os.Vmm.{Paging, page_size}

-- TASK_SWITCH_FREQUENCY, and sizeof(timer_t)
abbrev pub task_switch_frequency : ℕ
task_switch_frequency = 500

abbrev pub timer_bytes : ℕ
timer_bytes = 16

-- `init_schedule`, for the callback `schedule`, which is task_schedule
unfoldable pub init_schedule :
    Image → Ptr → ℕ → ℕ → ℕ → ℕ → Tasks → List Timer → Option (Tasks × List Timer)
init_schedule im tasks k d f schedule t timers = do
  t₁ ← init_task im tasks k d f t
  (address, h) ← kmalloc k timer_bytes t₁.heap
  some (record t₁ { heap = h }, register_timer address schedule task_switch_frequency timers)

-- What init_vbe leaves.
pub record Graphics : Type 0 where
  pub device : Device
  pub heap : Heap
  pub paging : Paging
  pub memory : Memory
  pub timers : List Timer

-- The device that the variables of vbe.c describe, once the buffer is there.
unfoldable pub device_of : ModeInfo → Font → ℕ → Device
device_of mode font buffer = record {
  mode = mode;
  font = font;
  buffer = buffer;
  vram_size = frame_pages mode * page_size;
}

-- `init_vbe`, for the callback `swap`, which is swap_buffer. The zone of pages is the heap's.
unfoldable pub init_vbe :
    ℕ → ℕ → ModeInfo → Font → Heap → Paging → Memory → List Timer → Option Graphics
init_vbe k swap mode font h p m timers = do
  (buffer, h₁) ← kmalloc k (frame_pages mode * page_size) h
  p₁ ← map_frames (frame_pages mode) 0 mode.physbase (record p { zone = h₁.zone })
  (address, h₂) ← kmalloc k timer_bytes (record h₁ { zone = p₁.zone })
  some (record {
    device = device_of mode font buffer;
    heap = h₂;
    paging = record p₁ { zone = h₂.zone };
    memory = whiten mode.x_res 0 mode.physbase (device_of mode font buffer) m;
    timers = register_timer address swap 60 timers;
  })
