-- ===== src/Service/Dispatch.antt =====
-- How the tasks of driver/brave_rewards_service_impl.cc run: each thread calls the handler that was
-- bound, in an order that the scheduler picks.
use bat_native_ledger_isolat.Prelude.{ℕ, zero, suc, List, [], ◌∷◌, Option, none, some}
use bat_native_ledger_isolat.Ledger.{Ledger}
use bat_native_ledger_isolat.Database.{Sqlite}
use bat_native_ledger_isolat.Database.Action.{pure, modify, ◌>>=◌, ◌>>◌}
use bat_native_ledger_isolat.Service.{
  Task, media_publisher_info_loaded, media_publisher_info_saved, publisher_info_saved,
  publisher_info_loaded, publisher_info_list_loaded, contribution_info_saved,
  recurring_donation_saved, recurring_donations_data, tips_updated_data, removed_recurring,
  state_loaded, state_saved, Clock,
}
use bat_native_ledger_isolat.Service.Core.{Srv}
use bat_native_ledger_isolat.Service.Publishers.{
  on_media_publisher_info_loaded, on_media_publisher_info_saved, on_publisher_info_saved,
  on_publisher_info_loaded, on_publisher_info_list_loaded,
}
use bat_native_ledger_isolat.Service.Donations.{
  on_contribution_info_saved, on_recurring_donation_saved, on_recurring_donations_data,
  on_tips_updated_data, on_removed_recurring,
}
use bat_native_ledger_isolat.Service.Files.{on_state_loaded, on_state_saved}

abbrev pub pick_behind : {A : Type 0} → A → Option (A × List A) → Option (A × List A)
pick_behind t none = none
pick_behind t (some (u, us)) = some (u, t ∷ us)

-- The task at a position of the list, and the others.
abbrev pub pick : {A : Type 0} → ℕ → List A → Option (A × List A)
pick n [] = none
pick zero (t ∷ ts) = some (t, ts)
pick (suc n) (t ∷ ts) = pick_behind t (pick n ts)

module _ {D Conn Disk : Type 0} (l : Ledger D) (q : Sqlite D Conn Disk) (clock : Clock) where
  -- `LedgerTaskRunnerImpl::Run` of the task that was bound.
  unfoldable pub run : Task D → Srv D Conn Disk (Unit {0})
  unfolding on_media_publisher_info_loaded on_media_publisher_info_saved on_publisher_info_saved
      on_publisher_info_loaded on_publisher_info_list_loaded on_contribution_info_saved
      on_recurring_donation_saved on_recurring_donations_data on_tips_updated_data
      on_removed_recurring on_state_loaded on_state_saved
  run (media_publisher_info_loaded callback info) = on_media_publisher_info_loaded l q callback info
  run (media_publisher_info_saved success) = on_media_publisher_info_saved l q success
  run (publisher_info_saved callback info success) =
      on_publisher_info_saved l q callback info success
  run (publisher_info_loaded callback list) = on_publisher_info_loaded l q callback list
  run (publisher_info_list_loaded start limit callback list) =
      on_publisher_info_list_loaded l q start limit callback list
  run (contribution_info_saved category success) =
      on_contribution_info_saved l q clock category success
  run (recurring_donation_saved success) = on_recurring_donation_saved l q success
  run (recurring_donations_data callback list) = on_recurring_donations_data l q callback list
  run (tips_updated_data list) = on_tips_updated_data l q list
  run (removed_recurring callback success) = on_removed_recurring l q callback success
  run (state_loaded file handler text) = on_state_loaded file handler text
  run (state_saved file handler success) = on_state_saved file handler success

  abbrev pub run_picked : Option (Task D × List (Task D)) → Srv D Conn Disk (Unit {0})
  run_picked none = pure tt
  run_picked (some (t, ts)) = modify (λ s. record s { tasks = ts }) >> run t

  -- One pending thread runs; nothing happens at a position without one.
  unfoldable pub run_pending : ℕ → Srv D Conn Disk (Unit {0})
  unfolding ◌>>=◌ pure modify run
  run_pending n s = run_picked (pick n s.tasks) s
