-- ===== src/Service/Core.antt =====
-- How driver/brave_rewards_service_impl.cc reaches its database, starts tasks, and speaks.
use bat_native_ledger_isolat.Prelude.{ℕ, Bool, true, false, List, [], ◌∷◌, ◌++◌, Option, none, some}
use bat_native_ledger_isolat.Database.{PublisherInfoDatabase}
use bat_native_ledger_isolat.Database.Action.{Outcome, returned, faulted, Action, modify}
use bat_native_ledger_isolat.Database.Engine.{Db}
use bat_native_ledger_isolat.Service.{Task, Notice, Event, notice, Service}

abbrev pub Srv : Type 0 → Type 0 → Type 0 → Type 0 → Type 0
Srv D Conn Disk A = Action (Service D Conn Disk) A

module _ {D Conn Disk A : Type 0} where
  abbrev pub put_back :
      Service D Conn Disk
      → Outcome A × PublisherInfoDatabase Conn Disk
      → Outcome A × Service D Conn Disk
  put_back s (r, b) = (r, record s { backend = some b })

  abbrev pub on_backend :
      Option (PublisherInfoDatabase Conn Disk) → A → Db Conn Disk A → Srv D Conn Disk A
  on_backend none other m s = (returned other, s)
  on_backend (some b) other m s = put_back s (m b)

  -- `if (backend) …`, with the answer where there is none.
  unfoldable pub with_backend : A → Db Conn Disk A → Srv D Conn Disk A
  with_backend other m s = on_backend s.backend other m s

-- `ledger_->…`: a fault where the pointer is null.
module _ {D Conn Disk A : Type 0} where
  abbrev pub guarded : Bool → Srv D Conn Disk A → Srv D Conn Disk A
  guarded true m s = m s
  guarded false m s = (faulted, s)

  unfoldable pub through_ledger : Srv D Conn Disk A → Srv D Conn Disk A
  through_ledger m s = guarded s.ledger m s

-- One event for each observer.
unfoldable pub told : {D : Type 0} → Notice D → List ℕ → List (Event D)
told n [] = []
told n (o ∷ os) = notice o n ∷ told n os

module _ {D Conn Disk : Type 0} where
  -- `RunTask`: the task gets a thread of its own.
  unfoldable pub run_task : Task D → Srv D Conn Disk (Unit {0})
  unfolding modify
  run_task t = modify (λ s. record s { tasks = s.tasks ++ t ∷ [] })

  unfoldable pub emit : Event D → Srv D Conn Disk (Unit {0})
  unfolding modify
  emit e = modify (λ s. record s { events = s.events ++ e ∷ [] })

  -- `for (auto& observer : observers_)`
  unfoldable pub trigger : Notice D → Srv D Conn Disk (Unit {0})
  unfolding modify told
  trigger n = modify (λ s. record s { events = s.events ++ told n s.observers })
