-- ===== src/Service/Timers/Waits.antt =====
-- The timers of driver/brave_rewards_service_impl.cc while they wait, as steps: a timer is set, a
-- limit is set, the completion handler of `async_wait` is called for a timer that waits, a task that
-- such a handler started runs, or the service is shut down.
pub mod Fires
use bat_native_ledger_isolat.Prelude.{
  ℕ, ◌+◌, ◌==◌, Bool, true, false, List, [], ◌∷◌, ◌++◌, Option, none, some, if◌then◌else◌, ◌≡◌,
}
use bat_native_ledger_isolat.Database.Action.{Outcome, returned, faulted}
use bat_native_ledger_isolat.Service.Dispatch.{pick}
use bat_native_ledger_isolat.Service.Timers.{
  Timers, no_timers, exceeded, set_timer, allow_timers_run,
}

-- `boost::system::error_code`: none, `operation_aborted`, or another.
pub data WaitError : Type 0 where
  success operation_aborted failure : WaitError

-- `waits` says which waits have not called their handler; `pending` is the ids of the tasks of
-- `OnTimer` that are started and have not run, and `called` those that the ledger's `OnTimer` was
-- called with; `ledger` is whether ledger_ is set.
pub record Waits : Type 0 where
  pub ledger : Bool
  pub timers : Timers
  pub waits : ℕ → Bool
  pub pending : List ℕ
  pub called : List ℕ

abbrev pub no_waits : Waits
no_waits = record {
  ledger = true;
  timers = no_timers;
  waits = λ id. false;
  pending = [];
  called = [];
}

abbrev pub assign_wait : (ℕ → Bool) → ℕ → Bool → ℕ → Bool
assign_wait waits id b other = if other == id then b else waits other

-- `SetTimer`, with `async_wait` where the limit lets the timer run.
unfoldable pub begin_wait : ℕ → Waits → Waits
unfolding set_timer exceeded
begin_wait offset s =
    let (id, timers) = set_timer offset s.timers in
    record s {
      timers = timers;
      waits = if exceeded s.timers then s.waits else assign_wait s.waits id true;
    }

-- The handler of `async_wait`: only a timer that expired starts a task.
unfoldable pub wake : ℕ → WaitError → Waits → Waits
wake id success s = record s {
  waits = assign_wait s.waits id false;
  pending = s.pending ++ id ∷ [];
}
wake id operation_aborted s = record s { waits = assign_wait s.waits id false }
wake id failure s = record s { waits = assign_wait s.waits id false }

-- `ledger_->OnTimer(timer_id)`, in the task that was picked.
unfoldable pub call_on_timer : Option (ℕ × List ℕ) → Bool → Waits → Outcome (Unit {0}) × Waits
call_on_timer none ledger s = (returned tt, s)
call_on_timer (some (id, rest)) true s =
    (returned tt, record s { pending = rest; called = s.called ++ id ∷ [] })
call_on_timer (some (id, rest)) false s = (faulted, s)

unfoldable pub run_on_timer : ℕ → Waits → Outcome (Unit {0}) × Waits
unfolding call_on_timer
run_on_timer n s = call_on_timer (pick n s.pending) s.ledger s

-- What happens to a service.
pub data TimerEvent : Type 0 where
  set_one allow : ℕ → TimerEvent
  woken : ℕ → WaitError → TimerEvent
  ran : ℕ → TimerEvent
  shut_down : TimerEvent

-- Asio calls the handler of a wait once; a fault is the end of the process.
pub data Step (s : Waits) : TimerEvent → Waits → Type 0 where
  step_set : (offset : ℕ) → Step s (set_one offset) (begin_wait offset s)
  step_allow : (n : ℕ) → Step s (allow n) (record s { timers = allow_timers_run n s.timers })
  step_woken : (id : ℕ) (e : WaitError) → s.waits id ≡ true → Step s (woken id e) (wake id e s)
  step_ran : (n : ℕ) → (run_on_timer n s).0 ≡ returned tt → Step s (ran n) (run_on_timer n s).1
  step_shut_down : Step s shut_down (record s { ledger = false })

-- The states behind a history, the latest event first.
pub data Reach : List TimerEvent → Waits → Type 0 where
  here : Reach [] no_waits
  next :
      {es : List TimerEvent} {e : TimerEvent} {s t : Waits}
      → Reach es s
      → Step s e t
      → Reach (e ∷ es) t
