-- ===== src/Timer/Period.antt =====
-- How often a timer's callback is called (kernel/kernel/timer.c).
use chao_s_os.Prelude.{
  ℕ, zero, suc, ◌+◌, ◌-◌, ◌/◌, ◌^◌, ◌≤◌, ◌<◌, ◌≡◌, ◌≢◌, refl, sym, ap, subst, ◌∙◌, Bool, true,
  false, Bool-cases, inl, inr, List, [], ◌∷◌, arith, ◌==◌, if◌then◌else◌,
}
use native.Mathlib.Decide.{ℕ_discrete}
use native.Mathlib.Nat.{add_comm, add-div_right, div-eq_of_lt}
use chao_s_os.Timer.{
  Timer, fires, tick, timer_schedule, register_timer, timer_fre, timer_frequency_max,
}

-- How often the timer fires in `m` clock interrupts.
unfoldable pub firings : ℕ → Timer → ℕ
firings zero t = 0
firings (suc m) t = (if fires t then 1 else 0) + firings m (tick t)

fires-one : (t : Timer) → t.elapse ≡ 1 → fires t ≡ true
unfolding fires
fires-one t e = ground arith

fires-more : (t : Timer) → t.elapse ≢ 1 → t.elapse < 2 ^ 32 → fires t ≡ false
unfolding fires
fires-more t n l = ground arith

tick-one : (t : Timer) → t.elapse ≡ 1 → (tick t).elapse ≡ t.interval
unfolding tick
tick-one t e = rw (fires-one t e) refl

tick-more : (t : Timer) → 1 < t.elapse → t.elapse < 2 ^ 32 → (tick t).elapse ≡ t.elapse - 1
unfolding tick
tick-more t n l = rw (fires-more t (λ e. omega (arith, e)) l) (omega arith)

tick-zero : (t : Timer) → t.elapse ≡ 0 → (tick t).elapse ≡ 2 ^ 32 - 1
unfolding tick
tick-zero t e = rw (fires-more t (λ f. omega (arith, e, f)) (omega (arith, e))) (omega (arith, e))

tick-interval : (t : Timer) → (tick t).interval ≡ t.interval
unfolding tick
tick-interval t = refl

-- A timer whose interval is positive and whose `elapse` has not passed it fires, in `m` interrupts,
-- once after `elapse` interrupts and once after every `interval` from then on.
pub firings_lem :
    (m : ℕ) (t : Timer)
    → 1 ≤ t.elapse
    → t.elapse ≤ t.interval
    → t.interval < 2 ^ 32
    → firings m t ≡ (m + t.interval - t.elapse) / t.interval
unfolding firings
firings_lem zero t l u b = sym (div-eq_of_lt (omega arith))
firings_lem (suc m) t l u b = elim (ℕ_discrete t.elapse 1) [
  | yes e ↦
      let here = fires-one t e in
      let start = tick-one t e in
      let later : firings m (tick t) ≡ (m + t.interval - (tick t).elapse) / t.interval =
        subst (λ n. firings m (tick t) ≡ (m + n - (tick t).elapse) / n) (tick-interval t)
          (firings_lem m (tick t) (omega (arith, start)) (omega (arith, start, tick-interval t))
            (omega (arith, tick-interval t))) in
      let rest : firings m (tick t) ≡ m / t.interval =
        later ∙ ap (λ (n : ℕ). n / t.interval) (omega (arith, start)) in
      let more : m + t.interval ≡ suc m + t.interval - t.elapse = omega (arith, e) in
      rw here (
        ap (λ (n : ℕ). 1 + n) rest
        ∙ add_comm 1 (m / t.interval)
        ∙ sym (add-div_right m {k = t.interval} (omega arith))
        ∙ ap (λ (n : ℕ). n / t.interval) more)
  | no n ↦
      let quiet = fires-more t n (omega arith) in
      let start = tick-more t (omega arith) (omega arith) in
      let later : firings m (tick t) ≡ (m + t.interval - (tick t).elapse) / t.interval =
        subst (λ n. firings m (tick t) ≡ (m + n - (tick t).elapse) / n) (tick-interval t)
          (firings_lem m (tick t) (omega (arith, start)) (omega (arith, start, tick-interval t))
            (omega (arith, tick-interval t))) in
      let rest : firings m (tick t) ≡ (suc m + t.interval - t.elapse) / t.interval =
        later ∙ ap (λ (n : ℕ). n / t.interval) (omega (arith, start)) in
      rw quiet (omega (arith, rest))
]

-- The calls of the callback `c` in `m` clock interrupts.
unfoldable pub count : ℕ → List ℕ → ℕ
count c [] = 0
count c (d ∷ ds) = (if d == c then 1 else 0) + count c ds

unfoldable pub call_count : ℕ → ℕ → List Timer → ℕ
call_count c zero ts = 0
call_count c (suc m) ts =
    let (called, rest) = timer_schedule ts in count c called + call_count c m rest

unfoldable pub total : ℕ → ℕ → List Timer → ℕ
total c m [] = 0
total c m (t ∷ ts) = (if t.callback_func == c then firings m t else 0) + total c m ts

split_call :
    (c : ℕ) (f : Bool) (n d : ℕ) (called : List ℕ) (k r : ℕ)
    → r ≡ (if d == c then n else 0) + k
    → count c (if f then d ∷ called else called) + r
      ≡ (if d == c then (if f then 1 else 0) + n else 0) + (count c called + k)
unfolding count
split_call c true n d called k r e = elim (Bool-cases (d == c)) [
  | inl y ↦ rw y (omega (arith, subst (λ b. r ≡ (if b then n else 0) + k) y e))
  | inr y ↦ rw y (omega (arith, subst (λ b. r ≡ (if b then n else 0) + k) y e))
]
split_call c false n d called k r e = elim (Bool-cases (d == c)) [
  | inl y ↦ rw y (omega (arith, subst (λ b. r ≡ (if b then n else 0) + k) y e))
  | inr y ↦ rw y (omega (arith, subst (λ b. r ≡ (if b then n else 0) + k) y e))
]

call_count-cons :
    (c m : ℕ) (t : Timer) (ts : List Timer)
    → call_count c m (t ∷ ts)
      ≡ (if t.callback_func == c then firings m t else 0) + call_count c m ts
unfolding call_count timer_schedule firings tick
call_count-cons c zero t ts = ground arith
call_count-cons c (suc m) t ts =
    let (called, rest) = timer_schedule ts in
    split_call c (fires t) (firings m (tick t)) t.callback_func called (call_count c m rest) _
      (call_count-cons c m (tick t) rest)

call_count-none : (c m : ℕ) → call_count c m [] ≡ 0
unfolding call_count timer_schedule count
call_count-none c zero = refl
call_count-none c (suc m) = omega (arith, call_count-none c m)

-- The calls of a callback are the firings of the timers that hold it, each counted down on its own.
call_count_lem : (c m : ℕ) (ts : List Timer) → call_count c m ts ≡ total c m ts
unfolding total
call_count_lem c m [] = call_count-none c m
call_count_lem c m (t ∷ ts) =
    call_count-cons c m t ts
    ∙ ap (λ (n : ℕ). (if t.callback_func == c then firings m t else 0) + n) (call_count_lem c m ts)

-- How often a timer is due in `m` clock interrupts: after `elapse` of them, and after every `interval`
-- from then on.
unfoldable pub due : ℕ → Timer → ℕ
due m t = (m + t.interval - t.elapse) / t.interval

unfoldable pub due_calls : ℕ → ℕ → List Timer → ℕ
due_calls c m [] = 0
due_calls c m (t ∷ ts) = (if t.callback_func == c then due m t else 0) + due_calls c m ts

-- Timers as register_timer sets them and timer_schedule keeps them.
unfoldable pub AreSet : List Timer → Type 0
AreSet [] = Unit
AreSet (t ∷ ts) = (1 ≤ t.elapse) × (t.elapse ≤ t.interval) × (t.interval < 2 ^ 32) × AreSet ts

total-due : (c m : ℕ) (ts : List Timer) → AreSet ts → total c m ts ≡ due_calls c m ts
unfolding total due due_calls AreSet
total-due c m [] s = refl
total-due c m (t ∷ ts) (l, u, b, s) = rw (firings_lem m t l u b, total-due c m ts s) refl

-- In m clock interrupts, timer_schedule calls a callback, over all timers that hold it, once when
-- elapse interrupts have passed and once after every interval from then on, for timers whose
-- elapse is from 1 to their interval.
pub call_count-due : (c m : ℕ) (ts : List Timer) → AreSet ts → call_count c m ts ≡ due_calls c m ts
call_count-due c m ts s = call_count_lem c m ts ∙ total-due c m ts s

silent : (m : ℕ) (t : Timer) → m < t.elapse → t.elapse < 2 ^ 32 → firings m t ≡ 0
unfolding firings
silent zero t l b = refl
silent (suc m) t l b =
    let quiet = fires-more t (λ e. omega (arith, e)) b in
    let start = tick-more t (omega arith) b in
    let rest = silent m (tick t) (omega (arith, start)) (omega (arith, start)) in
    rw quiet (omega (arith, rest))

silent_first : (m : ℕ) (t : Timer) → t.elapse ≡ 0 → m < 2 ^ 32 → firings m t ≡ 0
unfolding firings
silent_first zero t e l = refl
silent_first (suc m) t e l =
    let quiet = fires-more t (λ f. omega (arith, e, f)) (omega (arith, e)) in
    let start : (tick t).elapse ≡ 2 ^ 32 - 1 = tick-zero t e in
    let rest = silent m (tick t) (omega (arith, start)) (omega (arith, start)) in
    rw quiet (omega (arith, rest))

-- `register_timer` accepts a frequency above TIMER_FRE, up to TIMER_FREQUENCY_MAX, and sets a timer for
-- it that does not fire in fewer than 2 ^ 32 clock interrupts.
pub register_timer-silent :
    (address callback frequency m : ℕ) (ts : List Timer)
    → timer_fre < frequency
    → frequency ≤ timer_frequency_max
    → m < 2 ^ 32
    → (t : Timer) × ((register_timer address callback frequency ts ≡ t ∷ ts) × (firings m t ≡ 0))
unfolding register_timer
register_timer-silent address callback frequency m ts l u b =
    let n = timer_fre / frequency in
    let t : Timer = record {
      address = address;
      callback_func = callback;
      interval = n;
      elapse = n;
    } in
    let none_left : n ≡ 0 = div-eq_of_lt l in (t, (ground arith, silent_first m t none_left b))
