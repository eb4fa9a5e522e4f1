-- ===== src/Database/Safety/History.antt =====
-- Histories of method calls on one object of driver/publisher_info_database.h.
use bat_native_ledger_isolat.Prelude.{ℤ, String, List, [], ◌∷◌, Option}
use bat_native_ledger_isolat.Ledger.{PublisherInfo, PublisherInfoFilter, Ledger}
use bat_native_ledger_isolat.Database.{Sqlite}
use bat_native_ledger_isolat.Database.Action.{
  Action, Safe, pure, attempt, ◌>>=◌, Safe-bind, Safe-attempt, Safe-weaken, Steady-pure,
}
use bat_native_ledger_isolat.Database.Engine.{Db}
use bat_native_ledger_isolat.Database.Safety.{Inv}
use bat_native_ledger_isolat.Database.Writes.{
  ContributionInfo, RecurringDonation, insert_or_update_publisher_info,
  insert_or_update_media_publisher_info, insert_contribution_info,
  insert_or_update_recurring_donation, remove_recurring,
}
use bat_native_ledger_isolat.Database.Queries.{
  get_media_publisher_info, find, count, get_recurring_donations, get_tips,
}
use bat_native_ledger_isolat.Database.Safety.Methods.{
  Never, insert_or_update_publisher_info-Safe, insert_or_update_media_publisher_info-Safe,
  insert_contribution_info-Safe, insert_or_update_recurring_donation-Safe, remove_recurring-Safe,
  get_media_publisher_info-Safe, find-Safe, count-Safe, push_donations-Safe,
}

-- A call of a method, from the service or the ledger.
pub data Method (D : Type 0) : Type 0 where
  insert_publisher : PublisherInfo D → Method D
  insert_media : String → String → Method D
  insert_contribution : ContributionInfo → Method D
  insert_recurring : RecurringDonation D → Method D
  remove : String → Method D
  get_media : String → Method D
  find_list : ℤ → ℤ → PublisherInfoFilter → Option (List (PublisherInfo D)) → Method D
  count_rows : PublisherInfoFilter → Method D
  recurring_list : List (PublisherInfo D) → Method D
  tips_list : List (PublisherInfo D) → ℤ → ℤ → Method D

abbrev ignore : {S A : Type 0} → Action S A → Action S (Unit {0})
ignore m = m >>= λ _. pure tt

module _ {D Conn Disk : Type 0} (l : Ledger D) (q : Sqlite D Conn Disk) where
  unfoldable pub perform : Method D → Db Conn Disk (Unit {0})
  perform (insert_publisher info) = ignore (insert_or_update_publisher_info q info)
  perform (insert_media k p) = ignore (insert_or_update_media_publisher_info q k p)
  perform (insert_contribution info) = ignore (insert_contribution_info q info)
  perform (insert_recurring info) = ignore (insert_or_update_recurring_donation q info)
  perform (remove key) = ignore (remove_recurring q key)
  perform (get_media k) = ignore (get_media_publisher_info l q k)
  perform (find_list start limit f list) = ignore (find l q start limit f list)
  perform (count_rows f) = ignore (count l q f)
  perform (recurring_list list) = ignore (get_recurring_donations l q list)
  perform (tips_list list month year) = ignore (get_tips l q list month year)

  ignore-Safe :
      {A : Type 0} {m : Db Conn Disk A}
      → Safe Inv m (λ _. Inv) Inv
      → Safe Inv (ignore m) (λ _. Inv) Inv
  ignore-Safe h = Safe-bind _ _ h (λ _. Steady-pure tt)

  total_ignore-Safe :
      {A : Type 0} {m : Db Conn Disk A}
      → Safe Inv m (λ _. Inv) Never
      → Safe Inv (ignore m) (λ _. Inv) Inv
  total_ignore-Safe h = ignore-Safe (Safe-weaken h (λ s v. v) (λ a s v. v) (λ s e. absurd e))

  perform-Safe : (m : Method D) → Safe Inv (perform m) (λ _. Inv) Inv
  unfolding perform get_recurring_donations get_tips
  perform-Safe (insert_publisher info) =
      total_ignore-Safe (insert_or_update_publisher_info-Safe q info)
  perform-Safe (insert_media k p) = ignore-Safe (insert_or_update_media_publisher_info-Safe q k p)
  perform-Safe (insert_contribution info) = total_ignore-Safe (insert_contribution_info-Safe q info)
  perform-Safe (insert_recurring info) =
      total_ignore-Safe (insert_or_update_recurring_donation-Safe q info)
  perform-Safe (remove key) = total_ignore-Safe (remove_recurring-Safe q key)
  perform-Safe (get_media k) = ignore-Safe (get_media_publisher_info-Safe l q k)
  perform-Safe (find_list start limit f list) = ignore-Safe (find-Safe l q start limit f list)
  perform-Safe (count_rows f) = ignore-Safe (count-Safe l q f)
  perform-Safe (recurring_list list) = total_ignore-Safe (push_donations-Safe l q _ list)
  perform-Safe (tips_list list month year) = total_ignore-Safe (push_donations-Safe l q _ list)

  -- A history of calls: the caller goes on after an exception.
  unfoldable pub run_history : List (Method D) → Db Conn Disk (Unit {0})
  run_history [] = pure tt
  run_history (m ∷ ms) = attempt (perform m) (λ _. run_history ms) (run_history ms)

  -- From any object whose flag implies its connection, no history of method calls goes through a
  -- null `db_`, and the flag of the object that it leaves implies its connection.
  pub run_history-Safe : (ms : List (Method D)) → Safe Inv (run_history ms) (λ _. Inv) Never
  unfolding run_history pure
  run_history-Safe [] = record { at = λ s v. v }
  run_history-Safe (m ∷ ms) =
      Safe-attempt (perform m) _ _ (perform-Safe m) (λ _. run_history-Safe ms) (run_history-Safe ms)
