-- ===== src/Driver.antt =====
-- driver/driver.cpp: one run of the program, over the service's timers and what the service says.
-- What the ledger does when it is called is a parameter: the timers that its tasks set until the
-- join, what they say, and how they end. An exception or a fault of a task ends the program where it
-- is joined at the latest. A join that waits forever, what the program prints, and its handler of C++
-- exceptions, which only prints, are left out.
use bat_native_ledger_isolat.Prelude.{ℕ, false, true, List, []}
use bat_native_ledger_isolat.Database.Action.{Outcome, Action, modify, ◌>>=◌, ◌>>◌}
use bat_native_ledger_isolat.Service.Timers.{Timers, no_timers, set_timers, allow_timers_run}
use bat_native_ledger_isolat.Session.{Said, Session, say}
use bat_native_ledger_isolat.Session.Settings.{Sess, init}
use bat_native_ledger_isolat.Session.Wallet.{create_wallet}

-- The one service, with its timers apart.
pub record Program (D : Type 0) : Type 0 where
  pub timers : Timers
  pub session : Session D

-- The tasks that one call of the ledger leads to: the offsets of the timers that they set, and all
-- that the service tells the ledger and the observers in them.
pub record Tasks (D : Type 0) : Type 0 where
  pub offsets : List ℕ
  pub told : List (Said D)
  pub outcome : Outcome (Unit {0})

-- A new service; the static flag is as it is when the program starts.
abbrev pub new_program : {D : Type 0} → Program D
new_program = record {
  timers = no_timers;
  session = record {
    ledger = true;
    created_wallet = false;
    observers = [];
    loads = record { next_id = 1; fetchers = []; tasks = [] };
    said = [];
  };
}

module _ {D : Type 0} where
  abbrev set_session : Program D → Outcome (Unit {0}) × Session D → Outcome (Unit {0}) × Program D
  set_session p (outcome, session) = (outcome, record p { session = session })

  -- A method of the service.
  abbrev pub on_service : Sess D (Unit {0}) → Action (Program D) (Unit {0})
  on_service m p = set_session p (m p.session)

  unfoldable pub allow_timers : ℕ → Action (Program D) (Unit {0})
  unfolding modify allow_timers_run
  allow_timers n = modify (λ p. record p { timers = allow_timers_run n p.timers })

  -- `TestingJoinAllRunningTasks`.
  unfoldable pub join_tasks : Tasks D → Action (Program D) (Unit {0})
  unfolding set_timers
  join_tasks tasks p = (
    tasks.outcome,
    record p { timers = set_timers tasks.offsets p.timers; session = say tasks.told p.session },
  )

  unfoldable pub main : Tasks D → Tasks D → Action (Program D) (Unit {0})
  unfolding ◌>>=◌ allow_timers join_tasks init create_wallet
  main initialization creation = do
    allow_timers 1
    on_service init
    join_tasks initialization
    on_service create_wallet
    join_tasks creation
    allow_timers 0
