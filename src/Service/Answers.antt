-- ===== src/Service/Answers.antt =====
-- What the tasks of driver/brave_rewards_service_impl.cc say of the writes to the database.
use bat_native_ledger_isolat.Prelude.{
  ℕ, ℤ, String, Bool, false, List, [], ◌∷◌, ◌++◌, Option, none, some, ◌≡◌, refl, ap, ◌∙◌,
}
use bat_native_ledger_isolat.Ledger.{ledger_error, Ledger}
use bat_native_ledger_isolat.Database.{Sqlite, PublisherInfoDatabase}
use bat_native_ledger_isolat.Database.Action.{
  Outcome, returned, threw, faulted, Action, ◌>>=◌, continue,
}
use bat_native_ledger_isolat.Database.Engine.{Db}
use bat_native_ledger_isolat.Database.Safety.{Inv}
use bat_native_ledger_isolat.Database.Reports.{
  insert_contribution_info-Silent, insert_or_update_recurring_donation-Silent,
  remove_recurring-Silent,
}
use bat_native_ledger_isolat.Database.Writes.{ContributionInfo}
use bat_native_ledger_isolat.Database.Queries.{get_media_publisher_info, get_recurring_donations}
use bat_native_ledger_isolat.Service.{
  Task, contribution_info_saved, recurring_donation_saved, removed_recurring,
  media_publisher_info_loaded, remove_answer, Clock, Service,
}
use bat_native_ledger_isolat.Service.Core.{put_back, on_backend, with_backend, run_task}
use bat_native_ledger_isolat.Service.Publishers.{load_media_publisher_info}
use bat_native_ledger_isolat.Service.Donations.{
  update_recurring_donations_list, save_contribution_info, save_recurring_donation,
  on_remove_recurring,
}
use bat_native_ledger_isolat.Service.Dispatch.{run}

-- An action that returned goes on with what it returned.
bind_of_returned :
    {S A B : Type 0} (m : Action S A) (f : A → Action S B) (s : S) (a : A)
    → (m s).0 ≡ returned a
    → (m >>= f) s ≡ f a (m s).1
unfolding ◌>>=◌
bind_of_returned m f s a e = ap (λ o. continue (o, (m s).1) f) e

abbrev pub ReadyAt : {Conn Disk : Type 0} → Option (PublisherInfoDatabase Conn Disk) → Type 0
ReadyAt none = Unit {0}
ReadyAt (some b) = Inv b

module _ {D Conn Disk : Type 0} where
  -- Where there is a database, its flag implies its connection.
  abbrev pub Ready : Service D Conn Disk → Type 0
  Ready s = ReadyAt s.backend

  put_back-outcome :
      {A : Type 0} (s : Service D Conn Disk) (r : Outcome A × PublisherInfoDatabase Conn Disk)
      → (put_back s r).0 ≡ r.0
  put_back-outcome s (o, b) = refl

  on_backend-false :
      (o : Option (PublisherInfoDatabase Conn Disk)) (m : Db Conn Disk Bool)
      (s : Service D Conn Disk)
      → ((b : PublisherInfoDatabase Conn Disk) → Inv b → (m b).0 ≡ returned false)
      → ReadyAt o
      → (on_backend o false m s).0 ≡ returned false
  on_backend-false none m s silent v = refl
  on_backend-false (some b) m s silent v = put_back-outcome s (m b) ∙ silent b v

  put_back-tasks :
      {A : Type 0} (s : Service D Conn Disk) (r : Outcome A × PublisherInfoDatabase Conn Disk)
      → (put_back s r).1.tasks ≡ s.tasks
  put_back-tasks s (o, b) = refl

  put_back-events :
      {A : Type 0} (s : Service D Conn Disk) (r : Outcome A × PublisherInfoDatabase Conn Disk)
      → (put_back s r).1.events ≡ s.events
  put_back-events s (o, b) = refl

  pub on_backend-tasks :
      {A : Type 0} (o : Option (PublisherInfoDatabase Conn Disk)) (a : A) (m : Db Conn Disk A)
      (s : Service D Conn Disk)
      → (on_backend o a m s).1.tasks ≡ s.tasks
  on_backend-tasks none a m s = refl
  on_backend-tasks (some b) a m s = put_back-tasks s (m b)

  on_backend-events :
      {A : Type 0} (o : Option (PublisherInfoDatabase Conn Disk)) (a : A) (m : Db Conn Disk A)
      (s : Service D Conn Disk)
      → (on_backend o a m s).1.events ≡ s.events
  on_backend-events none a m s = refl
  on_backend-events (some b) a m s = put_back-events s (m b)

  continue-events :
      {A : Type 0} (r : Outcome A × Service D Conn Disk) (t : A → Task D)
      → (continue r (λ a. run_task (t a))).1.events ≡ r.1.events
  unfolding run_task
  continue-events (returned a, s) t = refl
  continue-events (threw, s) t = refl
  continue-events (faulted, s) t = refl

  -- A write that answers, with the task that reports it.
  run_task_behind :
      {A : Type 0} (m : Db Conn Disk A) (other a : A) (t : A → Task D) (s : Service D Conn Disk)
      → (with_backend other m s).0 ≡ returned a
      → ((with_backend other m >>= λ b. run_task (t b)) s).1.tasks ≡ s.tasks ++ t a ∷ []
  unfolding with_backend run_task
  run_task_behind m other a t s e =
      ap (λ r. r.1.tasks) (bind_of_returned (with_backend other m) (λ b. run_task (t b)) s a e)
      ∙ ap (λ (ts : List (Task D)). ts ++ t a ∷ []) (on_backend-tasks s.backend other m s)

  -- A read, with the task that answers it, says nothing.
  read_behind-events :
      {A : Type 0} (m : Db Conn Disk A) (other : A) (t : A → Task D) (s : Service D Conn Disk)
      → ((with_backend other m >>= λ a. run_task (t a)) s).1.events ≡ s.events
  unfolding with_backend ◌>>=◌
  read_behind-events m other t s =
      continue-events (on_backend s.backend other m s) t ∙ on_backend-events s.backend other m s

  silent_write :
      (m : Db Conn Disk Bool) (t : Bool → Task D) (s : Service D Conn Disk)
      → ((b : PublisherInfoDatabase Conn Disk) → Inv b → (m b).0 ≡ returned false)
      → Ready s
      → ((with_backend false m >>= λ b. run_task (t b)) s).1.tasks ≡ s.tasks ++ t false ∷ []
  unfolding with_backend
  silent_write m t s silent v =
      run_task_behind m false false t s (on_backend-false s.backend m s silent v)

module _ {D Conn Disk : Type 0} (l : Ledger D) (q : Sqlite D Conn Disk) (clock : Clock) where
  -- SaveContributionInfo starts the task that reports a failure, whether or not the row was stored,
  -- from any service whose database has a connection behind its flag; and that task, whenever it
  -- runs, leaves the service as it is: the tips are not refreshed.
  pub save_contribution_info-refreshes_nothing :
      (info : ContributionInfo) (s later : Service D Conn Disk)
      → Ready s
      → ((save_contribution_info l q info s).1.tasks
          ≡ s.tasks ++ contribution_info_saved info.category false ∷ [])
        × (run l q clock (contribution_info_saved info.category false) later ≡ (returned tt, later))
  unfolding save_contribution_info run
  save_contribution_info-refreshes_nothing info s later v =
      (silent_write _ _ s (insert_contribution_info-Silent q info) v, refl)

  -- SaveRecurringDonation likewise, and the list of donations is not refreshed.
  save_recurring_donation-refreshes_nothing :
      (key : String) (amount : ℤ) (s later : Service D Conn Disk)
      → Ready s
      → ((save_recurring_donation l q clock key amount s).1.tasks
          ≡ s.tasks ++ recurring_donation_saved false ∷ [])
        × (run l q clock (recurring_donation_saved false) later ≡ (returned tt, later))
  unfolding save_recurring_donation run
  save_recurring_donation-refreshes_nothing key amount s later v =
      (silent_write _ _ s (insert_or_update_recurring_donation-Silent q _) v, refl)

  update_recurring_donations_list-events :
      (s : Service D Conn Disk) → (update_recurring_donations_list l q s).1.events ≡ s.events
  unfolding update_recurring_donations_list
  update_recurring_donations_list-events s =
      read_behind-events (get_recurring_donations l q []) [] _ s

  -- OnRemoveRecurring starts a task that, whenever it runs, answers the ledger LEDGER_ERROR and says
  -- nothing else, whether or not the row was removed.
  pub on_remove_recurring-reports_error :
      (key : String) (callback : ℕ) (s later : Service D Conn Disk)
      → Ready s
      → ((on_remove_recurring l q key callback s).1.tasks
          ≡ s.tasks ++ removed_recurring callback false ∷ [])
        × ((run l q clock (removed_recurring callback false) later).1.events
            ≡ later.events ++ remove_answer callback ledger_error ∷ [])
  unfolding on_remove_recurring run
  on_remove_recurring-reports_error key callback s later v = (
    silent_write _ _ s (remove_recurring-Silent q key) v,
    update_recurring_donations_list-events _,
  )

  -- Where the read of a media key finds nothing, LoadMediaPublisherInfo starts a task that goes
  -- through a null pointer whenever it runs.
  pub load_media_publisher_info-faults :
      (media_key : String) (callback : ℕ) (s later : Service D Conn Disk)
      → (with_backend none (get_media_publisher_info l q media_key) s).0 ≡ returned none
      → ((load_media_publisher_info l q media_key callback s).1.tasks
          ≡ s.tasks ++ media_publisher_info_loaded callback none ∷ [])
        × (run l q clock (media_publisher_info_loaded callback none) later ≡ (faulted, later))
  unfolding load_media_publisher_info run
  load_media_publisher_info-faults media_key callback s later e =
      (run_task_behind _ _ none _ s e, refl)
