-- ===== src/Service/Drain/Followers.antt =====
-- Which tasks a task of driver/brave_rewards_service_impl.cc starts.
use bat_native_ledger_isolat.Prelude.{
  ℕ, ◌+◌, ◌≤◌, Bool, true, false, List, [], ◌∷◌, ◌++◌, none, some, ◌≡◌, refl, sym, subst, ap, ◌&&◌,
  ◌==ℤ◌, if◌then◌else◌, arith,
}
use bat_native_ledger_isolat.Ledger.{Ledger, ledger_ok, ledger_error}
use bat_native_ledger_isolat.Database.{Sqlite}
use bat_native_ledger_isolat.Database.Action.{
  Outcome, returned, threw, faulted, pure, modify, ◌>>=◌, continue,
}
use bat_native_ledger_isolat.Database.Engine.{Db}
use bat_native_ledger_isolat.Database.Queries.{get_recurring_donations, get_tips}
use bat_native_ledger_isolat.Service.{
  ListCallback, of_ledger, recurring_donation_updated, Task, media_publisher_info_loaded,
  media_publisher_info_saved, publisher_info_saved, publisher_info_loaded,
  publisher_info_list_loaded, contribution_info_saved, recurring_donation_saved,
  recurring_donations_data, tips_updated_data, removed_recurring, state_loaded, state_saved,
  remove_answer, Clock, Service,
}
use bat_native_ledger_isolat.Service.Core.{Srv, on_backend, with_backend, run_task}
use bat_native_ledger_isolat.Service.Publishers.{
  on_media_publisher_info_loaded, on_media_publisher_info_saved, on_publisher_info_saved,
  on_publisher_info_loaded, on_publisher_info_list_loaded,
}
use bat_native_ledger_isolat.Service.Donations.{
  load_recurring_donations, update_recurring_donations_list, tips_updated,
  on_contribution_info_saved, on_recurring_donation_saved, on_recurring_donations_data,
  on_tips_updated_data, on_removed_recurring,
}
use bat_native_ledger_isolat.Service.Files.{on_state_loaded, on_state_saved}
use bat_native_ledger_isolat.Service.Dispatch.{run}
use bat_native_ledger_isolat.Service.Answers.{on_backend-tasks}
use bat_native_ledger_isolat.Service.Safety.Tasks.{HasInfo}

-- A task that reports a write may start one that brings a list up to date, and no other does.
abbrev pub followers : {D : Type 0} → Task D → ℕ
followers (contribution_info_saved category success) = 1
followers (recurring_donation_saved success) = 1
followers (removed_recurring callback success) = 1
followers t = 0

abbrev pub rank : {D : Type 0} → Task D → ℕ
rank t = 1 + followers t

abbrev pub total : {D : Type 0} → List (Task D) → ℕ
total [] = 0
total (t ∷ ts) = rank t + total ts

-- No task is the answer of a media key that was not found.
abbrev pub AllInfo : {D : Type 0} → List (Task D) → Type 0
AllInfo [] = Unit {0}
AllInfo (t ∷ ts) = HasInfo t × AllInfo ts

-- One task more, or none: no more than `n`, and one that starts no other.
pub data Grows {D : Type 0} (n : ℕ) (ts us : List (Task D)) : Type 0 where
  same : us ≡ ts → Grows n ts us
  one : (t : Task D) → 1 ≤ n → rank t ≡ 1 → HasInfo t → us ≡ ts ++ t ∷ [] → Grows n ts us

module _ {D : Type 0} where
  total-append : (ts : List (Task D)) (t : Task D) → total (ts ++ t ∷ []) ≡ total ts + rank t
  total-append [] t = omega arith
  total-append (u ∷ us) t = omega (arith, total-append us t)

  AllInfo-append :
      (ts : List (Task D)) (t : Task D) → AllInfo ts → HasInfo t → AllInfo (ts ++ t ∷ [])
  AllInfo-append [] t h i = (i, tt)
  AllInfo-append (u ∷ us) t h i = (h.0, AllInfo-append us t h.1 i)

  pub Grows-total : {n : ℕ} {ts us : List (Task D)} → Grows n ts us → total us ≤ total ts + n
  Grows-total (same e) = omega (arith, ap total e)
  Grows-total {ts} (one t some_n r i e) = omega (arith, ap total e, total-append ts t, some_n, r)

  pub Grows-AllInfo : {n : ℕ} {ts us : List (Task D)} → Grows n ts us → AllInfo ts → AllInfo us
  Grows-AllInfo (same e) h = subst AllInfo (sym e) h
  Grows-AllInfo {ts} (one t some_n r i e) h = subst AllInfo (sym e) (AllInfo-append ts t h i)

module _ {D Conn Disk : Type 0} where
  continue-Grows :
      {A : Type 0} (r : Outcome A × Service D Conn Disk) (t : A → Task D)
      → ((a : A) → (rank (t a) ≡ 1) × HasInfo (t a))
      → Grows 1 r.1.tasks (continue r (λ a. run_task (t a))).1.tasks
  unfolding run_task modify
  continue-Grows (returned a, s) t h = one (t a) (omega arith) (h a).0 (h a).1 refl
  continue-Grows (threw, s) t h = same refl
  continue-Grows (faulted, s) t h = same refl

  read_behind-Grows :
      {A : Type 0} (m : Db Conn Disk A) (other : A) (t : A → Task D) (s : Service D Conn Disk)
      → ((a : A) → (rank (t a) ≡ 1) × HasInfo (t a))
      → Grows 1 s.tasks ((with_backend other m >>= λ a. run_task (t a)) s).1.tasks
  unfolding with_backend ◌>>=◌
  read_behind-Grows m other t s h =
      subst (λ ts. Grows 1 ts ((with_backend other m >>= λ a. run_task (t a)) s).1.tasks)
        (on_backend-tasks s.backend other m s) (continue-Grows (on_backend s.backend other m s) t h)

module _ {D Conn Disk : Type 0} (l : Ledger D) (q : Sqlite D Conn Disk) (clock : Clock) where
  recurring-Grows :
      (c : ListCallback) (s : Service D Conn Disk)
      → Grows 1 s.tasks (load_recurring_donations l q c s).1.tasks
  unfolding load_recurring_donations
  recurring-Grows c s =
      read_behind-Grows (get_recurring_donations l q []) [] (recurring_donations_data c) s
        (λ a. (refl, tt))

  tips-Grows : (s : Service D Conn Disk) → Grows 1 s.tasks (tips_updated l q clock s).1.tasks
  unfolding tips_updated
  tips-Grows s =
      read_behind-Grows (get_tips l q [] clock.month clock.year) [] tips_updated_data s
        (λ a. (refl, tt))

  refresh-Grows :
      (b : Bool) (m : Srv D Conn Disk (Unit {0})) (s : Service D Conn Disk)
      → Grows 1 s.tasks (m s).1.tasks
      → Grows 1 s.tasks ((if b then m else pure tt) s).1.tasks
  unfolding pure
  refresh-Grows true m s h = h
  refresh-Grows false m s h = same refl

  pub run-Grows :
      (t : Task D) (s : Service D Conn Disk)
      → Grows (followers t) s.tasks (run l q clock t s).1.tasks
  unfolding run on_media_publisher_info_loaded on_media_publisher_info_saved on_publisher_info_saved
      on_publisher_info_loaded on_publisher_info_list_loaded on_contribution_info_saved
      on_recurring_donation_saved on_recurring_donations_data on_tips_updated_data
      on_removed_recurring on_state_loaded on_state_saved update_recurring_donations_list pure
  run-Grows (media_publisher_info_loaded callback none) s = same refl
  run-Grows (media_publisher_info_loaded callback (some info)) s = same refl
  run-Grows (media_publisher_info_saved success) s = same refl
  run-Grows (publisher_info_saved callback info success) s = same refl
  run-Grows (publisher_info_loaded callback []) s = same refl
  run-Grows (publisher_info_loaded callback (info ∷ [])) s = same refl
  run-Grows (publisher_info_loaded callback (info ∷ other ∷ more)) s = same refl
  run-Grows (publisher_info_list_loaded start limit callback list) s = same refl
  run-Grows (contribution_info_saved category success) s =
      refresh-Grows (success && category ==ℤ l.direct_donation) _ s (tips-Grows s)
  run-Grows (recurring_donation_saved success) s =
      refresh-Grows success _ s (recurring-Grows recurring_donation_updated s)
  run-Grows (recurring_donations_data (of_ledger callback) list) s = same refl
  run-Grows (recurring_donations_data recurring_donation_updated list) s = same refl
  run-Grows (tips_updated_data list) s = same refl
  run-Grows (removed_recurring callback success) s =
      refresh-Grows true (load_recurring_donations l q recurring_donation_updated)
        (record s {
          events =
              s.events ++ remove_answer callback (if success then ledger_ok else ledger_error) ∷ [];
        })
        (recurring-Grows recurring_donation_updated _)
  run-Grows (state_loaded file handler text) s = same refl
  run-Grows (state_saved file handler success) s = same refl
