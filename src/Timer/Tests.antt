-- ===== src/Timer/Tests.antt =====
-- Timers at numbers of clock interrupts.
use chao_s_os.Prelude.{ℕ, ◌≡◌, refl, none, some, List, [], ◌∷◌, arith, ◌==◌, if◌then◌else◌}
use chao_s_os.Timer.{Timer, TimerLinks, unregister_timer, fires, tick}
use chao_s_os.Timer.Period.{firings, AreSet, call_count, due_calls, call_count-due}
use chao_s_os.Timer.Removal.{Leads, Ends, unregister_timer-Ends}

abbrev timer : ℕ → ℕ → ℕ → ℕ → Timer
timer a c n e = record { address = a; callback_func = c; interval = n; elapse = e }

abbrev refresh : Timer
refresh = timer 4096 7 16 5

abbrev switch : Timer
switch = timer 8192 9 10 10

fires_twice : firings 21 refresh ≡ 2
unfolding firings fires tick
fires_twice = refl

abbrev both : List Timer
both = refresh ∷ switch ∷ []

both-AreSet : AreSet both
unfolding AreSet
both-AreSet = omega arith

call_count-due_example : call_count 7 21 both ≡ due_calls 7 21 both
call_count-due_example = call_count-due 7 21 both both-AreSet

-- Three timers at 4096, 8192 and 12288.
abbrev three : TimerLinks
three = record {
  timers = 4096;
  next = λ a. if a == 4096 then 8192 else if a == 8192 then 12288 else 0;
}

three-Leads : Leads three.next three.timers (4096 ∷ 8192 ∷ 12288 ∷ [])
three-Leads = (
  refl,
  λ e. omega (arith, e),
  (refl, λ e. omega (arith, e), (refl, λ e. omega (arith, e), refl)),
)

unregister_timer-Ends_example :
    Ends (unregister_timer 9 8192 three) (4096 ∷ 12288 ∷ []) (some 8192)
    × Ends (unregister_timer 9 4096 three) (4096 ∷ 8192 ∷ 12288 ∷ []) (some 4096)
    × Ends (unregister_timer 9 5 three) (4096 ∷ 8192 ∷ 12288 ∷ []) none
unregister_timer-Ends_example =
    unregister_timer-Ends 9 4096 8192 5 [] (12288 ∷ []) three three-Leads (refl, (refl, (refl, tt)))
      refl (λ e. omega (arith, e)) (omega arith)
