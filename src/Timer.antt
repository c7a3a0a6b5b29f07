-- ===== src/Timer.antt =====
-- kernel/kernel/timer.c and kernel/include/interrupt/timer.h: the timers that the clock interrupt
-- counts down. The list that the `next` pointers make is a List, a timer's address is part of it, and
-- a callback is a number; unregister_timer, which writes to `next`, is over the fields themselves. The callbacks are taken not to register or remove timers.
pub mod Period
pub mod Removal
mod Tests
use chao_s_os.Prelude.{
  ℕ, zero, suc, ◌+◌, ◌-◌, ◌/◌, ◌%◌, ◌^◌, Bool, true, false, ◌&&◌, ◌||◌, Option, none, some, List,
  [], ◌∷◌, ◌==◌, leb, if◌then◌else◌, bit_and, update,
}
use chao_s_os.Descriptors.{register_interrupt_handler}

-- TIMER_FREQUENCY_MAX, TIMER_FREQUENCY_MIN and TIMER_FRE
abbrev pub timer_frequency_max : ℕ
timer_frequency_max = 1193180

abbrev pub timer_frequency_min : ℕ
timer_frequency_min = 2

abbrev pub timer_fre : ℕ
timer_fre = 1000

-- `timer_t`
pub record Timer : Type 0 where
  pub address : ℕ
  pub callback_func : ℕ
  pub interval : ℕ
  pub elapse : ℕ

-- `--(current_timer->elapse) == 0`
unfoldable pub fires : Timer → Bool
fires t = (t.elapse + (2 ^ 32 - 1)) % 2 ^ 32 == 0

-- What a clock interrupt makes of one timer.
unfoldable pub tick : Timer → Timer
tick t = record t { elapse = if fires t then t.interval else (t.elapse + (2 ^ 32 - 1)) % 2 ^ 32 }

-- `timer_schedule`: the callbacks that are called, in order, and the timers afterwards
unfoldable pub timer_schedule : List Timer → List ℕ × List Timer
timer_schedule [] = ([], [])
timer_schedule (t ∷ ts) =
    let (called, rest) = timer_schedule ts in
    (if fires t then t.callback_func ∷ called else called, tick t ∷ rest)

-- `register_timer`; kmalloc puts the new timer at `address`.
unfoldable pub register_timer : ℕ → ℕ → ℕ → List Timer → List Timer
register_timer address callback frequency ts =
    if leb timer_frequency_min frequency && leb frequency timer_frequency_max
    then record {
      address = address;
      callback_func = callback;
      interval = timer_fre / frequency;
      elapse = timer_fre / frequency;
    }
      ∷ ts
    else ts

-- The variable `timers` and the fields `next`, by the timers' addresses; 0 is the null pointer.
pub record TimerLinks : Type 0 where
  pub timers : ℕ
  pub next : ℕ → ℕ

-- The loop of unregister_timer: `prev` and `current` at its end.
unfoldable pub find_timer : ℕ → ℕ → ℕ → ℕ → TimerLinks → Option (ℕ × ℕ)
find_timer zero timer prev current h = none
find_timer (suc f) timer prev current h =
    let rest = find_timer f timer current (h.next current) h in
    if current == 0 || current == timer then some (prev, current) else rest

-- `prev->next = current->next`, or `timers = current->next` where `prev` is null
unfoldable pub unlink_timer : ℕ → ℕ → TimerLinks → TimerLinks
unlink_timer prev current h =
    if prev == 0
    then record h { timers = h.next current }
    else record h { next = update h.next prev (h.next current) }

unfoldable pub remove_found : ℕ → TimerLinks → Option (ℕ × ℕ) → Option (TimerLinks × Option ℕ)
remove_found timer h none = none
remove_found timer h (some (prev, current)) =
    some (if current == timer then (unlink_timer prev current h, some timer) else (h, none))

-- `unregister_timer` for a pointer that is not null, with the address that goes to kfree, if any. The
-- fuel bounds the timers that the loop visits.
unfoldable pub unregister_timer : ℕ → ℕ → TimerLinks → Option (TimerLinks × Option ℕ)
unregister_timer f timer h = remove_found timer h (find_timer f timer h.timers h.timers h)

-- `init_timer`, given the number of timer_schedule as a handler: the handlers, and the writes to the
-- ports in order.
unfoldable pub init_timer : ℕ → (ℕ → ℕ) → (ℕ → ℕ) × List (ℕ × ℕ)
init_timer schedule handlers =
    let divisor = timer_frequency_max / timer_fre in
    (
      register_interrupt_handler 32 schedule handlers,
      (0x43, 0x36)
          ∷ (0x40, bit_and divisor 0xFF % 256)
          ∷ (0x40, bit_and (divisor / 2 ^ 8) 0xFF % 256)
          ∷ [],
    )
