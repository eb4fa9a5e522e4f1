-- ===== src/Service/Safety/Tasks.antt =====
-- Tasks of driver/brave_rewards_service_impl.cc, and the pointers that they go through.
use bat_native_ledger_isolat.Prelude.{
  Bool, true, false, [], ◌∷◌, none, some, ◌&&◌, ◌==ℤ◌, if◌then◌else◌, refl,
}
use bat_native_ledger_isolat.Ledger.{Ledger}
use bat_native_ledger_isolat.Database.{Sqlite}
use bat_native_ledger_isolat.Database.Action.{
  Outcome, returned, threw, faulted, Ends, Safe, pure, Safe-bind,
}
use bat_native_ledger_isolat.Service.{
  of_ledger, recurring_donation_updated, Task, media_publisher_info_loaded,
  media_publisher_info_saved, publisher_info_saved, publisher_info_loaded,
  publisher_info_list_loaded, contribution_info_saved, recurring_donation_saved,
  recurring_donations_data, tips_updated_data, removed_recurring, state_loaded, state_saved, Clock,
  Service,
}
use bat_native_ledger_isolat.Service.Core.{Srv, emit}
use bat_native_ledger_isolat.Service.Publishers.{
  on_publisher_info_loaded, on_publisher_info_list_loaded, on_publisher_info_saved,
  on_media_publisher_info_loaded, on_media_publisher_info_saved,
}
use bat_native_ledger_isolat.Service.Donations.{
  load_recurring_donations, tips_updated, update_recurring_donations_list,
  on_recurring_donations_data, on_tips_updated_data, on_contribution_info_saved,
  on_recurring_donation_saved, on_removed_recurring,
}
use bat_native_ledger_isolat.Service.Files.{on_state_loaded, on_state_saved}
use bat_native_ledger_isolat.Service.Dispatch.{run}
use bat_native_ledger_isolat.Service.Answers.{Ready}
use bat_native_ledger_isolat.Service.Safety.{Manned, Holds, recurring-Holds, tips_updated-Holds}

-- Not the answer of a media key that was not found.
abbrev pub HasInfo : {D : Type 0} → Task D → Type 0
HasInfo (media_publisher_info_loaded callback none) = ⊥
HasInfo t = Unit {0}

module _ {D Conn Disk : Type 0} (l : Ledger D) (q : Sqlite D Conn Disk) (clock : Clock) where
  abbrev Keeps : Srv D Conn Disk (Unit {0}) → Type 0
  Keeps m = Safe Ready m (λ _. Ready) Ready

  Holds-Keeps : (m : Srv D Conn Disk (Unit {0})) → ((g : Bool) → Holds g m) → Keeps m
  Holds-Keeps m h = record { at = λ s v. forget s.ledger (m s) ((h s.ledger).at s (refl, v)) }
    where
      forget :
          (g : Bool) (r : Outcome (Unit {0}) × Service D Conn Disk)
          → Ends (λ _. Manned g) (Manned g) r
          → Ends (λ _. Ready) Ready r
      forget g (returned a, s) e = e.1
      forget g (threw, s) e = e.1
      forget g (faulted, s) e = e

  recurring-Keeps : Keeps (load_recurring_donations l q recurring_donation_updated)
  recurring-Keeps = Holds-Keeps _ (recurring-Holds l q clock recurring_donation_updated)

  tips_updated-Keeps : Keeps (tips_updated l q clock)
  tips_updated-Keeps = Holds-Keeps _ (tips_updated-Holds l q clock)

  refresh-Keeps :
      (b : Bool) (m : Srv D Conn Disk (Unit {0})) → Keeps m → Keeps (if b then m else pure tt)
  unfolding pure
  refresh-Keeps true m h = h
  refresh-Keeps false m h = record { at = λ s v. v }

  -- Each task, but the answer of a media key that was not found, leaves a database whose flag implies
  -- its connection, where there was one before, also behind an exception, and goes through no null
  -- pointer.
  pub run-Safe : (t : Task D) → HasInfo t → Safe Ready (run l q clock t) (λ _. Ready) Ready
  unfolding run on_media_publisher_info_loaded on_media_publisher_info_saved on_publisher_info_saved
      on_publisher_info_loaded on_publisher_info_list_loaded on_contribution_info_saved
      on_recurring_donation_saved on_recurring_donations_data on_tips_updated_data
      on_removed_recurring on_state_loaded on_state_saved update_recurring_donations_list pure
  run-Safe (media_publisher_info_loaded callback none) h = absurd h
  run-Safe (media_publisher_info_loaded callback (some info)) h = record { at = λ s v. v }
  run-Safe (media_publisher_info_saved success) h = record { at = λ s v. v }
  run-Safe (publisher_info_saved callback info success) h = record { at = λ s v. v }
  run-Safe (publisher_info_loaded callback []) h = record { at = λ s v. v }
  run-Safe (publisher_info_loaded callback (info ∷ [])) h = record { at = λ s v. v }
  run-Safe (publisher_info_loaded callback (info ∷ other ∷ more)) h = record { at = λ s v. v }
  run-Safe (publisher_info_list_loaded start limit callback list) h = record { at = λ s v. v }
  run-Safe (contribution_info_saved category success) h =
      refresh-Keeps (success && category ==ℤ l.direct_donation) _ tips_updated-Keeps
  run-Safe (recurring_donation_saved success) h = refresh-Keeps success _ recurring-Keeps
  run-Safe (recurring_donations_data (of_ledger callback) list) h = record { at = λ s v. v }
  run-Safe (recurring_donations_data recurring_donation_updated list) h = record { at = λ s v. v }
  run-Safe (tips_updated_data list) h = record { at = λ s v. v }
  run-Safe (removed_recurring callback success) h =
      Safe-bind (emit _) _ (record { at = λ s v. v }) (λ _. recurring-Keeps)
  run-Safe (state_loaded file handler text) h = record { at = λ s v. v }
  run-Safe (state_saved file handler success) h = record { at = λ s v. v }
