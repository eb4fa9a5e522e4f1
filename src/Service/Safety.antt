-- ===== src/Service/Safety.antt =====
-- Calls of the service of driver/brave_rewards_service_impl.cc, and the pointers that they go
-- through.
pub mod Tasks
use bat_native_ledger_isolat.Prelude.{
  ℕ, ℤ, String, Bool, [], ◌∷◌, Option, none, some, ◌&&◌, ◌==ℤ◌, if◌then◌else◌, ◌≡◌, refl,
}
use bat_native_ledger_isolat.Ledger.{PublisherInfo, PublisherInfoFilter, Ledger}
use bat_native_ledger_isolat.Database.{Sqlite, PublisherInfoDatabase}
use bat_native_ledger_isolat.Database.Action.{
  Outcome, returned, threw, faulted, Action, Ends, Safe, modify, ◌>>=◌, ◌>>◌, Safe-bind,
  Safe-weaken,
}
use bat_native_ledger_isolat.Database.Engine.{Db}
use bat_native_ledger_isolat.Database.Safety.{Inv}
use bat_native_ledger_isolat.Database.Safety.Methods.{Never, push_donations-Safe}
use bat_native_ledger_isolat.Database.Writes.{ContributionInfo}
use bat_native_ledger_isolat.Database.Queries.{get_recurring_donations, get_tips}
use bat_native_ledger_isolat.Service.{
  ListCallback, of_ledger, recurring_donation_updated, StateFile, Task, media_publisher_info_loaded,
  media_publisher_info_saved, publisher_info_saved, contribution_info_saved,
  recurring_donation_saved, recurring_donations_data, tips_updated_data, removed_recurring,
  state_loaded, state_saved, Clock, Service,
}
use bat_native_ledger_isolat.Service.Core.{
  Srv, on_backend, put_back, with_backend, run_task, trigger,
}
use bat_native_ledger_isolat.Service.Publishers.{
  load_publisher_info, on_publisher_info_loaded, load_current_publisher_info_list,
  load_publisher_info_list, on_publisher_info_list_loaded, save_publisher_info,
  on_publisher_info_saved, load_media_publisher_info, on_media_publisher_info_loaded,
  save_media_publisher_info, on_media_publisher_info_saved,
}
use bat_native_ledger_isolat.Service.Donations.{
  load_recurring_donations, update_recurring_donations_list, on_recurring_donation_updated,
  on_recurring_donations_data, tips_updated, on_tips_updated_data, save_contribution_info,
  on_contribution_info_saved, save_recurring_donation, on_recurring_donation_saved, on_donate,
  on_remove_recurring, on_removed_recurring,
}
use bat_native_ledger_isolat.Service.Files.{
  load_state, on_state_loaded, write_file, save_state, on_state_saved,
}
use bat_native_ledger_isolat.Service.Dispatch.{run}
use bat_native_ledger_isolat.Service.Answers.{ReadyAt, Ready}

-- A call from the ledger or from the user's side.
pub data Call (D : Type 0) : Type 0 where
  load_one : PublisherInfoFilter → ℕ → Call D
  load_current : ℕ → ℕ → PublisherInfoFilter → ℕ → Call D
  load_many : ℕ → ℕ → ℕ → PublisherInfoFilter → ℕ → Call D
  save_one : PublisherInfo D → ℕ → Call D
  load_media : String → ℕ → Call D
  save_media : String → String → Call D
  recurring_list : ListCallback → Call D
  refresh_tips : Call D
  contribution : ContributionInfo → Call D
  recurring_donation : String → ℤ → Call D
  donate : String → ℤ → Bool → Call D
  remove : String → ℕ → Call D
  load_file : StateFile → ℕ → Call D
  save_file : StateFile → String → ℕ → Call D

module _ {D Conn Disk : Type 0} where
  -- The database is as above, and `ledger_` is null or not as it was.
  abbrev pub Manned : Bool → Service D Conn Disk → Type 0
  Manned b s = (s.ledger ≡ b) × Ready s

  abbrev pub Holds : {A : Type 0} → Bool → Srv D Conn Disk A → Type 0
  Holds b m = Safe (Manned b) m (λ _. Manned b) (Manned b)

  put_back-Ends :
      {A : Type 0} {g : Bool} (s : Service D Conn Disk)
      (r : Outcome A × PublisherInfoDatabase Conn Disk)
      → s.ledger ≡ g
      → Ends (λ _. Inv) Inv r
      → Ends (λ _. Manned g) (Manned g) (put_back s r)
  put_back-Ends s (returned a, b) h e = (h, e)
  put_back-Ends s (threw, b) h e = (h, e)
  put_back-Ends s (faulted, b) h e = e

  on_backend-Ends :
      {A : Type 0} {g : Bool} (o : Option (PublisherInfoDatabase Conn Disk)) (a : A)
      (m : Db Conn Disk A) (s : Service D Conn Disk)
      → Safe Inv m (λ _. Inv) Inv
      → ReadyAt o
      → Manned g s
      → Ends (λ _. Manned g) (Manned g) (on_backend o a m s)
  on_backend-Ends none a m s h u v = v
  on_backend-Ends (some b) a m s h u v = put_back-Ends s (m b) v.0 (h.at b u)

  module _ (g : Bool) where
    with_backend-Holds :
        {A : Type 0} (a : A) (m : Db Conn Disk A)
        → Safe Inv m (λ _. Inv) Inv
        → Holds g (with_backend a m)
    unfolding with_backend
    with_backend-Holds a m h = record { at = λ s v. on_backend-Ends s.backend a m s h v.1 v }

    run_task-Holds : (t : Task D) → Holds g (run_task t)
    unfolding run_task
    run_task-Holds t = record { at = λ s v. v }

    asked-Holds :
        {A : Type 0} {m : Db Conn Disk A} (a : A) (t : A → Task D)
        → Safe Inv m (λ _. Inv) Inv
        → Holds g (with_backend a m >>= λ x. run_task (t x))
    asked-Holds a t h = Safe-bind _ _ (with_backend-Holds a _ h) (λ x. run_task-Holds (t x))

    -- The same where the database lets no exception out.
    told-Holds :
        {A : Type 0} {m : Db Conn Disk A} (a : A) (t : A → Task D)
        → Safe Inv m (λ _. Inv) Never
        → Holds g (with_backend a m >>= λ x. run_task (t x))
    told-Holds a t h = asked-Holds a t (Safe-weaken h (λ s v. v) (λ a s v. v) (λ s e. absurd e))

module _ {D Conn Disk : Type 0} (l : Ledger D) (q : Sqlite D Conn Disk) (clock : Clock) where
  unfoldable pub perform_call : Call D → Srv D Conn Disk (Unit {0})
  perform_call (load_one f callback) = load_publisher_info l q f callback
  perform_call (load_current start limit f callback) =
      load_current_publisher_info_list l q start limit f callback
  perform_call (load_many stamp start limit f callback) =
      load_publisher_info_list l q clock stamp start limit f callback
  perform_call (save_one info callback) = save_publisher_info l q info callback
  perform_call (load_media k callback) = load_media_publisher_info l q k callback
  perform_call (save_media k p) = save_media_publisher_info l q k p
  perform_call (recurring_list callback) = load_recurring_donations l q callback
  perform_call refresh_tips = tips_updated l q clock
  perform_call (contribution info) = save_contribution_info l q info
  perform_call (recurring_donation key amount) = save_recurring_donation l q clock key amount
  perform_call (donate key amount recurring) = on_donate l q clock key amount recurring
  perform_call (remove key callback) = on_remove_recurring l q key callback
  perform_call (load_file file handler) = load_state file handler
  perform_call (save_file file text handler) = save_state file text handler

  pub recurring-Holds : (c : ListCallback) → (g : Bool) → Holds g (load_recurring_donations l q c)
  unfolding load_recurring_donations get_recurring_donations
  recurring-Holds c g = told-Holds g [] _ (push_donations-Safe l q _ [])

  pub tips_updated-Holds : (g : Bool) → Holds g (tips_updated l q clock)
  unfolding tips_updated get_tips
  tips_updated-Holds g = told-Holds g [] _ (push_donations-Safe l q _ [])
