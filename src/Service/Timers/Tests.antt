-- ===== src/Service/Timers/Tests.antt =====
-- A timer of driver/brave_rewards_service_impl.cc that is set, expires, and calls the ledger.
use bat_native_ledger_isolat.Prelude.{◌+◌, ◌≤◌, ◌∷◌, [], List, ◌≡◌, refl, arith}
use bat_native_ledger_isolat.Service.Timers.Waits.{
  success, Waits, no_waits, begin_wait, wake, run_on_timer, TimerEvent, set_one, woken, ran,
  step_set, step_woken, step_ran, Reach, here, next,
}
use bat_native_ledger_isolat.Service.Timers.Waits.Fires.{count, expirations, Reach-called}

abbrev one_called : Waits
one_called = (run_on_timer 0 (wake 1 success (begin_wait 60 no_waits))).1

abbrev history : List TimerEvent
history = ran 0 ∷ woken 1 success ∷ set_one 60 ∷ []

one_called-Reach : Reach history one_called
unfolding begin_wait wake run_on_timer
one_called-Reach =
    next (next (next here (step_set 60)) (step_woken 1 success refl)) (step_ran 0 refl)

Reach-called_example :
    (count 1 one_called.pending + count 1 one_called.called ≡ 1)
    × (expirations 1 history ≤ 1)
    × (one_called.timers.timer_id ≤ 3)
unfolding begin_wait wake run_on_timer
Reach-called_example = Reach-called 1 one_called-Reach (omega arith)
