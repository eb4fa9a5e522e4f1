-- ===== src/Service/Exchange.antt =====
-- Calls on the service of driver/brave_rewards_service_impl.cc among the tasks that they start: a
-- sequence of moves is one order in which the threads do their work. It ends at the first that throws
-- or faults, since nothing catches it.
pub mod Adds
pub mod Once
mod Tests
use bat_native_ledger_isolat.Prelude.{ℕ, ◌+◌, ◌==◌, List, [], ◌∷◌, if◌then◌else◌}
use bat_native_ledger_isolat.Ledger.{Ledger}
use bat_native_ledger_isolat.Database.{Sqlite}
use bat_native_ledger_isolat.Database.Action.{pure, ◌>>=◌, ◌>>◌}
use bat_native_ledger_isolat.Service.{
  ListCallback, of_ledger, recurring_donation_updated, Task, media_publisher_info_loaded,
  media_publisher_info_saved, publisher_info_saved, publisher_info_loaded,
  publisher_info_list_loaded, contribution_info_saved, recurring_donation_saved,
  recurring_donations_data, tips_updated_data, removed_recurring, state_loaded, state_saved, Event,
  info_answer, list_answer, remove_answer, loaded_answer, saved_answer, direct_donation_call,
  notice, Clock, Service,
}
use bat_native_ledger_isolat.Service.Core.{Srv}
use bat_native_ledger_isolat.Service.Dispatch.{run_pending}
use bat_native_ledger_isolat.Service.Safety.{Call, perform_call}

-- A call, or the pending task at a position.
pub data Move (D : Type 0) : Type 0 where
  called : Call D → Move D
  ran : ℕ → Move D

module _ {D Conn Disk : Type 0} (l : Ledger D) (q : Sqlite D Conn Disk) (clock : Clock) where
  abbrev pub perform_move : Move D → Srv D Conn Disk (Unit {0})
  perform_move (called c) = perform_call l q clock c
  perform_move (ran n) = run_pending l q clock n

  unfoldable pub run_moves : List (Move D) → Srv D Conn Disk (Unit {0})
  unfolding perform_call run_pending pure ◌>>=◌
  run_moves [] = pure tt
  run_moves (m ∷ ms) = perform_move m >> run_moves ms

abbrev pub same : ℕ → ℕ → ℕ
same k callback = if callback == k then 1 else 0

module _ {D : Type 0} (k : ℕ) where
  -- Where the callback or handler `k` of the ledger is passed in,
  abbrev pub asked_by : Call D → ℕ
  asked_by (Call.load_one f callback) = same k callback
  asked_by (Call.load_current start limit f callback) = same k callback
  asked_by (Call.load_many stamp start limit f callback) = same k callback
  asked_by (Call.save_one info callback) = same k callback
  asked_by (Call.load_media key callback) = same k callback
  asked_by (Call.recurring_list (of_ledger callback)) = same k callback
  asked_by (Call.remove key callback) = same k callback
  asked_by (Call.load_file file handler) = same k handler
  asked_by (Call.save_file file text handler) = same k handler
  asked_by _ = 0

  -- is bound,
  abbrev pub owed_by : Task D → ℕ
  owed_by (media_publisher_info_loaded callback info) = same k callback
  owed_by (publisher_info_saved callback info success) = same k callback
  owed_by (publisher_info_loaded callback list) = same k callback
  owed_by (publisher_info_list_loaded start limit callback list) = same k callback
  owed_by (recurring_donations_data (of_ledger callback) list) = same k callback
  owed_by (removed_recurring callback success) = same k callback
  owed_by (state_loaded file handler text) = same k handler
  owed_by (state_saved file handler success) = same k handler
  owed_by _ = 0

  -- and is called.
  abbrev pub answered_by : Event D → ℕ
  answered_by (info_answer callback result info) = same k callback
  answered_by (list_answer callback list next) = same k callback
  answered_by (remove_answer callback result) = same k callback
  answered_by (loaded_answer file handler result text) = same k handler
  answered_by (saved_answer file handler result) = same k handler
  answered_by _ = 0

  abbrev pub asked : List (Move D) → ℕ
  asked [] = 0
  asked (called c ∷ ms) = asked_by c + asked ms
  asked (ran n ∷ ms) = asked ms

  abbrev pub owed : List (Task D) → ℕ
  owed [] = 0
  owed (t ∷ ts) = owed_by t + owed ts

  abbrev pub answered : List (Event D) → ℕ
  answered [] = 0
  answered (e ∷ es) = answered_by e + answered es

  abbrev pub account : {Conn Disk : Type 0} → Service D Conn Disk → ℕ
  account s = answered s.events + owed s.tasks
