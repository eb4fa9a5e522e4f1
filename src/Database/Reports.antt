-- ===== src/Database/Reports.antt =====
-- What the writers of driver/publisher_info_database.cc answer.
use bat_native_ledger_isolat.Prelude.{String, Bool, false, List, ◌≡◌, refl, ap}
use bat_native_ledger_isolat.Database.{Value, Sqlite, PublisherInfoDatabase}
use bat_native_ledger_isolat.Database.Action.{
  Outcome, returned, threw, faulted, Ends, Safe, pure, attempt, ◌>>◌, Safe-bind, Safe-weaken,
  Safe-attempt, Safe-weaken,
}
use bat_native_ledger_isolat.Database.Engine.{Db, exec}
use bat_native_ledger_isolat.Database.Safety.{Inv, Opened-Inv, exec-Steady}
use bat_native_ledger_isolat.Database.Safety.Methods.{Never, behind_init-Safe}
use bat_native_ledger_isolat.Database.Writes.{
  ContributionInfo, RecurringDonation, when_initialized, insert_contribution_info,
  insert_or_update_recurring_donation, remove_recurring,
}

module _ {Conn Disk : Type 0} where
  abbrev IsFalse : Bool → PublisherInfoDatabase Conn Disk → Type 0
  IsFalse b s = b ≡ false

  returned_of_Ends :
      (r : Outcome Bool × PublisherInfoDatabase Conn Disk)
      → Ends IsFalse Never r
      → r.0 ≡ returned false
  returned_of_Ends (returned b, s) e = ap (λ (x : Bool). returned x) e
  returned_of_Ends (threw, s) e = absurd e
  returned_of_Ends (faulted, s) e = absurd e

module _ {D Conn Disk : Type 0} (q : Sqlite D Conn Disk) where
  -- One statement behind `Init` in a `try`, with `return false` on every way out.
  silent-Safe :
      (sql : String) (args : List (Value D))
      → Safe Inv
          (attempt (when_initialized q (do exec q sql args; pure false)) pure (pure false))
          IsFalse
          Never
  unfolding when_initialized pure
  silent-Safe sql args =
      Safe-attempt _ pure (pure false)
        (behind_init-Safe q _ false
          (Safe-bind (exec q sql args) _
            (Safe-weaken (exec-Steady q sql args) (λ s o. o) (λ a s o. o) Opened-Inv)
            (λ _. record { at = λ s o. refl }))
          (λ s v. refl) (λ s v. v))
        (λ b. record { at = λ s e. e }) (record { at = λ s v. refl })

  abbrev pub Silent : Db Conn Disk Bool → Type 0
  Silent m = (s : PublisherInfoDatabase Conn Disk) → Inv s → (m s).0 ≡ returned false

  pub insert_contribution_info-Silent :
      (info : ContributionInfo) → Silent (insert_contribution_info q info)
  unfolding insert_contribution_info
  insert_contribution_info-Silent info s v = returned_of_Ends _ ((silent-Safe _ _).at s v)

  pub insert_or_update_recurring_donation-Silent :
      (donation : RecurringDonation D) → Silent (insert_or_update_recurring_donation q donation)
  unfolding insert_or_update_recurring_donation
  insert_or_update_recurring_donation-Silent donation s v =
      returned_of_Ends _ ((silent-Safe _ _).at s v)

  pub remove_recurring-Silent : (key : String) → Silent (remove_recurring q key)
  unfolding remove_recurring
  remove_recurring-Silent key s v = returned_of_Ends _ ((silent-Safe _ _).at s v)

  -- The three writers below answer false on every way through them, whether or not the engine
  -- stored the row, from any object whose flag implies its connection.
  pub writers_answer_false :
      (info : ContributionInfo) (donation : RecurringDonation D) (key : String)
      → Silent (insert_contribution_info q info)
        × Silent (insert_or_update_recurring_donation q donation)
        × Silent (remove_recurring q key)
  writers_answer_false info donation key = (
    insert_contribution_info-Silent info,
    insert_or_update_recurring_donation-Silent donation,
    remove_recurring-Silent key,
  )
