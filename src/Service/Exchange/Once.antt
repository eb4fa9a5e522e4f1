-- ===== src/Service/Exchange/Once.antt =====
-- How often the callbacks passed to the service of driver/brave_rewards_service_impl.cc are called.
use bat_native_ledger_isolat.Prelude.{
  ℕ, zero, suc, ◌+◌, ◌==ℤ◌, ◌&&◌, String, Bool, true, false, List, [], ◌∷◌, Option, none, some,
  if◌then◌else◌, ◌≡◌, refl, arith,
}
use bat_native_ledger_isolat.Ledger.{PublisherInfoFilter, Ledger}
use bat_native_ledger_isolat.Database.{Sqlite}
use bat_native_ledger_isolat.Database.Action.{pure, modify, ◌>>=◌}
use bat_native_ledger_isolat.Service.{
  StateFile, ListCallback, of_ledger, recurring_donation_updated, Task, media_publisher_info_loaded,
  media_publisher_info_saved, publisher_info_saved, publisher_info_loaded,
  publisher_info_list_loaded, contribution_info_saved, recurring_donation_saved,
  recurring_donations_data, tips_updated_data, removed_recurring, state_loaded, state_saved,
  content_site_updated, Clock, Service,
}
use bat_native_ledger_isolat.Service.Core.{Srv}
use bat_native_ledger_isolat.Service.Publishers.{
  load_list, load_publisher_info, on_publisher_info_loaded, load_current_publisher_info_list,
  load_publisher_info_list, on_publisher_info_list_loaded, save_publisher_info,
  on_publisher_info_saved, load_media_publisher_info, on_media_publisher_info_loaded,
  save_media_publisher_info, on_media_publisher_info_saved,
}
use bat_native_ledger_isolat.Service.Donations.{
  load_recurring_donations, update_recurring_donations_list, on_recurring_donation_updated,
  on_recurring_donations_data, tips_updated, on_tips_updated_data, save_contribution_info,
  on_contribution_info_saved, save_recurring_donation, on_recurring_donation_saved, on_donate,
  on_remove_recurring, on_removed_recurring,
}
use bat_native_ledger_isolat.Service.Files.{
  load_state, on_state_loaded, write_file, save_state, on_state_saved,
}
use bat_native_ledger_isolat.Service.Dispatch.{pick_behind, pick, run, run_picked, run_pending}
use bat_native_ledger_isolat.Service.Safety.{Call, perform_call}
use bat_native_ledger_isolat.Service.Exchange.{
  Move, called, ran, perform_move, run_moves, same, asked_by, owed_by, asked, owed, account,
}
use bat_native_ledger_isolat.Service.Exchange.Adds.{
  Within, Adds, Within-eq, Adds-bind, Adds-pure, Adds-gets, Adds-run_task, Adds-emit, Adds-trigger,
  Adds-with_backend, Adds-eq, Adds-then, Adds-task, Adds-through_ledger,
}

module _ {D Conn Disk : Type 0} (l : Ledger D) (q : Sqlite D Conn Disk) (clock : Clock)
    (k : ℕ) where
  Adds-load_list :
      (start limit : ℕ) (f : PublisherInfoFilter) → Adds k 0 (load_list l q start limit f)
  unfolding load_list
  Adds-load_list start limit f = Adds-then k (Adds-with_backend k _ _) (λ r. Adds-pure k _)

  Adds-recurring :
      (c : ListCallback)
      → Adds k (asked_by {D = D} k (Call.recurring_list c)) (load_recurring_donations l q c)
  unfolding load_recurring_donations
  Adds-recurring (of_ledger callback) =
      Adds-task k (recurring_donations_data (of_ledger callback)) (Adds-with_backend k _ _)
        (λ x. refl)
  Adds-recurring recurring_donation_updated =
      Adds-task k (recurring_donations_data recurring_donation_updated) (Adds-with_backend k _ _)
        (λ x. refl)

  Adds-tips : Adds k 0 (tips_updated l q clock)
  unfolding tips_updated
  Adds-tips = Adds-task k tips_updated_data (Adds-with_backend k _ _) (λ x. refl)

  Adds-write_file :
      (file : StateFile) (text : String)
      → Adds {D = D} {Conn = Conn} {Disk = Disk} k 0 (write_file file text)
  unfolding write_file modify
  Adds-write_file file text = record { at = λ s. omega arith }

  Adds-call : (c : Call D) → Adds k (asked_by k c) (perform_call l q clock c)
  unfolding perform_call load_publisher_info load_current_publisher_info_list
      load_publisher_info_list save_publisher_info load_media_publisher_info
      save_media_publisher_info save_contribution_info save_recurring_donation on_donate
      on_remove_recurring load_state save_state
  Adds-call (Call.load_one f callback) =
      Adds-task k (publisher_info_loaded callback) (Adds-load_list 0 2 f) (λ x. refl)
  Adds-call (Call.load_current start limit f callback) =
      Adds-task k _ (Adds-load_list start limit f) (λ x. refl)
  Adds-call (Call.load_many stamp start limit f callback) =
      Adds-through_ledger k (Adds-task k _ (Adds-load_list start limit _) (λ x. refl))
  Adds-call (Call.save_one info callback) = Adds-task k _ (Adds-with_backend k _ _) (λ x. refl)
  Adds-call (Call.load_media key callback) = Adds-task k _ (Adds-with_backend k _ _) (λ x. refl)
  Adds-call (Call.save_media key p) = Adds-task k _ (Adds-with_backend k _ _) (λ x. refl)
  Adds-call (Call.recurring_list c) = Adds-recurring c
  Adds-call Call.refresh_tips = Adds-tips
  Adds-call (Call.contribution info) = Adds-task k _ (Adds-with_backend k _ _) (λ x. refl)
  Adds-call (Call.recurring_donation key amount) =
      Adds-task k _ (Adds-with_backend k _ _) (λ x. refl)
  Adds-call (Call.donate key amount true) = Adds-task k _ (Adds-with_backend k _ _) (λ x. refl)
  Adds-call (Call.donate key amount false) = Adds-through_ledger k (Adds-emit k _)
  Adds-call (Call.remove key callback) = Adds-task k _ (Adds-with_backend k _ _) (λ x. refl)
  Adds-call (Call.load_file file handler) =
      Adds-task k (state_loaded file handler) (Adds-gets k (λ s. s.files file)) (λ x. refl)
  Adds-call (Call.save_file file text handler) =
      Adds-then k (Adds-write_file file text) (λ x. Adds-run_task k (state_saved file handler true))

  Adds-if :
      (b : Bool) (m : Srv D Conn Disk (Unit {0})) → Adds k 0 m → Adds k 0 (if b then m else pure tt)
  Adds-if true m h = h
  Adds-if false m h = Adds-pure k tt

  Adds-run : (t : Task D) → Adds k (owed_by k t) (run l q clock t)
  unfolding run on_media_publisher_info_loaded on_media_publisher_info_saved on_publisher_info_saved
      on_publisher_info_loaded on_publisher_info_list_loaded on_contribution_info_saved
      on_recurring_donation_saved on_recurring_donations_data on_tips_updated_data
      on_recurring_donation_updated on_removed_recurring on_state_loaded on_state_saved
      update_recurring_donations_list
  Adds-run (media_publisher_info_loaded callback none) = record { at = λ s. omega arith }
  Adds-run (media_publisher_info_loaded callback (some info)) = Adds-emit k _
  Adds-run (media_publisher_info_saved success) = Adds-pure k tt
  Adds-run (publisher_info_saved callback info success) =
      Adds-eq k (omega arith)
        (Adds-bind k (same k callback) 0 (Adds-emit k _) (λ x. Adds-trigger k content_site_updated))
  Adds-run (publisher_info_loaded callback []) = Adds-emit k _
  Adds-run (publisher_info_loaded callback (info ∷ [])) = Adds-emit k _
  Adds-run (publisher_info_loaded callback (info ∷ other ∷ more)) = Adds-emit k _
  Adds-run (publisher_info_list_loaded start limit callback list) = Adds-emit k _
  Adds-run (contribution_info_saved category success) =
      Adds-if (success && category ==ℤ l.direct_donation) _ Adds-tips
  Adds-run (recurring_donation_saved success) =
      Adds-if success _ (Adds-recurring recurring_donation_updated)
  Adds-run (recurring_donations_data (of_ledger callback) list) = Adds-emit k _
  Adds-run (recurring_donations_data recurring_donation_updated list) = Adds-trigger k _
  Adds-run (tips_updated_data list) = Adds-trigger k _
  Adds-run (removed_recurring callback success) = Adds-eq k (omega arith) (
      Adds-bind k (same k callback) 0 (Adds-emit k _)
        (λ x. Adds-recurring recurring_donation_updated))
  Adds-run (state_loaded file handler text) = Adds-emit k _
  Adds-run (state_saved file handler success) = Adds-emit k _

  abbrev Taken : Option (Task D × List (Task D)) → List (Task D) → Type 0
  Taken none ts = Unit {0}
  Taken (some (t, rest)) ts = owed k ts ≡ owed_by k t + owed k rest

  behind-Taken :
      (t : Task D) (o : Option (Task D × List (Task D))) (ts : List (Task D))
      → Taken o ts
      → Taken (pick_behind t o) (t ∷ ts)
  behind-Taken t none ts h = tt
  behind-Taken t (some (u, us)) ts h = omega (arith, h)

  pick-Taken : (n : ℕ) (ts : List (Task D)) → Taken (pick n ts) ts
  pick-Taken n [] = tt
  pick-Taken zero (t ∷ ts) = refl
  pick-Taken (suc n) (t ∷ ts) = behind-Taken t (pick n ts) ts (pick-Taken n ts)

  run_picked-Within :
      (o : Option (Task D × List (Task D))) (s : Service D Conn Disk)
      → Taken o s.tasks
      → Within k (account k s + 0) (run_picked l q clock o s)
  unfolding ◌>>=◌ modify pure
  run_picked-Within none s h = omega arith
  run_picked-Within (some (t, ts)) s h =
      Within-eq k (run l q clock t (record s { tasks = ts })) (omega (arith, h))
        ((Adds-run t).at (record s { tasks = ts }))

  Adds-move : (m : Move D) → Adds k (asked k (m ∷ [])) (perform_move l q clock m)
  unfolding run_pending
  Adds-move (called c) = Adds-eq k (omega arith) (Adds-call c)
  Adds-move (ran n) = record {
    at = λ s. run_picked-Within (pick n s.tasks) s (pick-Taken n s.tasks);
  }

  asked-cons : (m : Move D) (ms : List (Move D)) → asked k (m ∷ []) + asked k ms ≡ asked k (m ∷ ms)
  asked-cons (called c) ms = omega arith
  asked-cons (ran n) ms = omega arith

  Adds-moves : (ms : List (Move D)) → Adds k (asked k ms) (run_moves l q clock ms)
  unfolding run_moves
  Adds-moves [] = Adds-pure k tt
  Adds-moves (m ∷ ms) =
      Adds-eq k (asked-cons m ms)
        (Adds-bind k (asked k (m ∷ [])) (asked k ms) (Adds-move m) (λ x. Adds-moves ms))

  -- Calls and pending tasks in any order: how often a callback of the ledger has been called, and how
  -- many tasks are to call it, is together one more for each call that it was passed to, where all
  -- return, and no more than that where the order ends by an exception or a fault.
  pub run_moves-answers :
      (ms : List (Move D)) (s : Service D Conn Disk)
      → Within k (account k s + asked k ms) (run_moves l q clock ms s)
  run_moves-answers ms s = (Adds-moves ms).at s
