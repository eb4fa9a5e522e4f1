-- ===== src/Service/Donations.antt =====
-- Donations, contributions and tips of driver/brave_rewards_service_impl.cc.
use bat_native_ledger_isolat.Prelude.{
  ℕ, ℤ, negsuc, ◌%◌, ◌==ℤ◌, ◌&&◌, u32_mod, String, Bool, true, false, List, [], ◌∷◌, if◌then◌else◌,
}
use bat_native_ledger_isolat.Ledger.{PublisherInfo, ledger_ok, ledger_error, Ledger}
use bat_native_ledger_isolat.Database.{Sqlite}
use bat_native_ledger_isolat.Database.Action.{pure, ◌>>=◌, ◌>>◌}
use bat_native_ledger_isolat.Service.{
  ContentSite, ListCallback, of_ledger, recurring_donation_updated, contribution_info_saved,
  recurring_donation_saved, recurring_donations_data, tips_updated_data, removed_recurring,
  donations_updated, current_tips, list_answer, remove_answer, direct_donation_call, Clock,
}
use bat_native_ledger_isolat.Service.Core.{
  Srv, with_backend, run_task, emit, trigger, through_ledger,
}
use bat_native_ledger_isolat.Database.Writes.{
  ContributionInfo, RecurringDonation, insert_contribution_info,
  insert_or_update_recurring_donation, remove_recurring,
}
use bat_native_ledger_isolat.Database.Queries.{get_recurring_donations, get_tips}
use bat_native_ledger_isolat.Service.Publishers.{content_site_of}

module _ {D Conn Disk : Type 0} (l : Ledger D) (q : Sqlite D Conn Disk) where
  -- A site's percentage is the donation's amount.
  unfoldable pub donation_sites : List (PublisherInfo D) → List (ContentSite D)
  unfolding content_site_of
  donation_sites [] = []
  donation_sites (info ∷ list) =
      record (content_site_of l q info) { percentage = info.weight } ∷ donation_sites list

  -- `GetRecurringDonations`
  abbrev pub get_recurring_donations_on_file_task_runner : Srv D Conn Disk (List (PublisherInfo D))
  get_recurring_donations_on_file_task_runner = with_backend [] (get_recurring_donations l q [])

  unfoldable pub load_recurring_donations : ListCallback → Srv D Conn Disk (Unit {0})
  unfolding ◌>>=◌ with_backend run_task
  load_recurring_donations callback = do
    list ← get_recurring_donations_on_file_task_runner
    run_task (recurring_donations_data callback list)

  unfoldable pub update_recurring_donations_list : Srv D Conn Disk (Unit {0})
  unfolding load_recurring_donations
  update_recurring_donations_list = load_recurring_donations recurring_donation_updated

  unfoldable pub on_recurring_donation_updated : List (PublisherInfo D) → Srv D Conn Disk (Unit {0})
  unfolding trigger donation_sites
  on_recurring_donation_updated list = trigger (donations_updated (donation_sites list))

  unfoldable pub on_recurring_donations_data :
      ListCallback → List (PublisherInfo D) → Srv D Conn Disk (Unit {0})
  unfolding emit on_recurring_donation_updated
  on_recurring_donations_data (of_ledger callback) list = emit (list_answer callback list 0)
  on_recurring_donations_data recurring_donation_updated list = on_recurring_donation_updated list

  abbrev pub tips_updated_on_file_task_runner : Clock → Srv D Conn Disk (List (PublisherInfo D))
  tips_updated_on_file_task_runner clock = with_backend [] (get_tips l q [] clock.month clock.year)

  unfoldable pub tips_updated : Clock → Srv D Conn Disk (Unit {0})
  unfolding ◌>>=◌ with_backend run_task
  tips_updated clock = do
    list ← tips_updated_on_file_task_runner clock
    run_task (tips_updated_data list)

  abbrev pub update_tips_list : Clock → Srv D Conn Disk (Unit {0})
  update_tips_list clock = tips_updated clock

  unfoldable pub on_tips_updated_data : List (PublisherInfo D) → Srv D Conn Disk (Unit {0})
  unfolding trigger donation_sites
  on_tips_updated_data list = trigger (current_tips (donation_sites list))

  abbrev pub save_contribution_info_on_file_task_runner : ContributionInfo → Srv D Conn Disk Bool
  save_contribution_info_on_file_task_runner info =
      with_backend false (insert_contribution_info q info)

  unfoldable pub save_contribution_info : ContributionInfo → Srv D Conn Disk (Unit {0})
  unfolding ◌>>=◌ with_backend run_task
  save_contribution_info info = do
    b ← save_contribution_info_on_file_task_runner info
    run_task (contribution_info_saved info.category b)

  unfoldable pub on_contribution_info_saved : Clock → ℤ → Bool → Srv D Conn Disk (Unit {0})
  unfolding pure tips_updated
  on_contribution_info_saved clock category success =
      if success && category ==ℤ l.direct_donation then tips_updated clock else pure tt

  abbrev pub save_recurring_donation_on_file_task_runner :
      RecurringDonation D → Srv D Conn Disk Bool
  save_recurring_donation_on_file_task_runner info =
      with_backend false (insert_or_update_recurring_donation q info)

  unfoldable pub save_recurring_donation : Clock → String → ℤ → Srv D Conn Disk (Unit {0})
  unfolding ◌>>=◌ with_backend run_task
  save_recurring_donation clock publisher_key amount = do
    b ← save_recurring_donation_on_file_task_runner (record {
      publisher_key = publisher_key;
      amount = l.double_of_ℤ amount;
      added_date = clock.time % u32_mod;
    })
    run_task (recurring_donation_saved b)

  unfoldable pub on_recurring_donation_saved : Bool → Srv D Conn Disk (Unit {0})
  unfolding pure update_recurring_donations_list
  on_recurring_donation_saved success = if success then update_recurring_donations_list else pure tt

  unfoldable pub on_donate : Clock → String → ℤ → Bool → Srv D Conn Disk (Unit {0})
  unfolding save_recurring_donation emit through_ledger
  on_donate clock publisher_key amount true = save_recurring_donation clock publisher_key amount
  on_donate clock publisher_key amount false =
      through_ledger
        (emit (direct_donation_call (l.new_info publisher_key l.month_any (negsuc 0)) amount "BAT"))

  abbrev pub remove_recurring_on_file_task_runner : String → Srv D Conn Disk Bool
  remove_recurring_on_file_task_runner publisher_key =
      with_backend false (remove_recurring q publisher_key)

  unfoldable pub on_remove_recurring : String → ℕ → Srv D Conn Disk (Unit {0})
  unfolding ◌>>=◌ with_backend run_task
  on_remove_recurring publisher_key callback = do
    b ← remove_recurring_on_file_task_runner publisher_key
    run_task (removed_recurring callback b)

  unfoldable pub on_removed_recurring : ℕ → Bool → Srv D Conn Disk (Unit {0})
  unfolding ◌>>=◌ emit update_recurring_donations_list
  on_removed_recurring callback success = do
    emit (remove_answer callback (if success then ledger_ok else ledger_error))
    update_recurring_donations_list
