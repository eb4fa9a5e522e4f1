-- ===== src/Database/Placeholders/Sent.antt =====
-- The statements that a history of methods of driver/publisher_info_database.cc sends.
use bat_native_ledger_isolat.Prelude.{
  pos, String, AllChars, Bool, true, false, List, [], ◌∷◌, All, none, some, inl, inr, ◌≡◌, refl,
}
use bat_native_ledger_isolat.Ledger.{PublisherInfo, Ledger}
use bat_native_ledger_isolat.Database.{Sqlite, PublisherInfoDatabase}
use bat_native_ledger_isolat.Database.Action.{pure, attempt}
use bat_native_ledger_isolat.Database.Action.Keeping.{Keeps, Keeps-pure, Keeps-bind, Keeps-attempt}
use bat_native_ledger_isolat.Database.Engine.{Db}
use bat_native_ledger_isolat.Database.Writes.{
  ContributionInfo, RecurringDonation, when_initialized, write_activity, save_activity,
  insert_or_update_publisher_info, insert_or_update_media_publisher_info, insert_contribution_info,
  insert_or_update_recurring_donation, remove_recurring,
}
use bat_native_ledger_isolat.Database.Queries.{
  get_media_publisher_info, find, count, push_donations, get_recurring_donations, get_tips,
}
use bat_native_ledger_isolat.Database.Safety.History.{
  Method, insert_publisher, insert_media, insert_contribution, insert_recurring, remove, get_media,
  find_list, count_rows, recurring_list, tips_list, perform, run_history,
}
use bat_native_ledger_isolat.Database.Placeholders.{quoted, placeholders}
use bat_native_ledger_isolat.Database.Placeholders.Texts.{
  IsPlain, IsUnquoted, IsNeutral, AllColumns, tips_query-IsNeutral, find_query-IsNeutral,
  count_query-IsNeutral,
}
use bat_native_ledger_isolat.Database.Placeholders.Noted.{
  Statement, noting, IsSent, Kept, select-Keeps, exec-Keeps, raise_if-Keeps, neutral_lem, rerun_lem,
  sending_rules,
}
use bat_native_ledger_isolat.Database.Placeholders.Init.{behind_init-Keeps}

module _ {D Conn Disk : Type 0} (q : Sqlite D Conn Disk) where
  write_activity-Keeps :
      (info : PublisherInfo D) (b : Bool) → Keeps Kept (write_activity (noting q) info b)
  unfolding write_activity placeholders quoted
  write_activity-Keeps info true = search sending_rules
  write_activity-Keeps info false = search sending_rules

  save_activity-Keeps : (info : PublisherInfo D) → Keeps Kept (save_activity (noting q) info)
  unfolding save_activity placeholders quoted
  save_activity-Keeps info = Keeps-bind _ _ (search sending_rules) (λ found.
      Keeps-bind _ _ (raise_if-Keeps q found.threw)
        (λ _. Keeps-bind _ _ (exec-Keeps q _ _ (rerun_lem q)) (λ _. write_activity-Keeps info _)))

  caught-Keeps :
      (body : Db Conn (Disk × List (Statement D)) Bool)
      → Keeps Kept body
      → Keeps Kept (attempt (when_initialized (noting q) body) pure (pure false))
  unfolding when_initialized
  caught-Keeps body h =
      Keeps-attempt _ _ _ (behind_init-Keeps q body false h) Keeps-pure (Keeps-pure false)

  remove_recurring-Keeps : (key : String) → Keeps Kept (remove_recurring (noting q) key)
  unfolding remove_recurring placeholders quoted
  remove_recurring-Keeps key = caught-Keeps _ (
      Keeps-bind _ _
        (exec-Keeps q _ _
          (inr (inl (record { removes = refl; unmarked = refl; one_value = refl }))))
        (λ _. Keeps-pure false))

  insert_or_update_publisher_info-Keeps :
      (info : PublisherInfo D) → Keeps Kept (insert_or_update_publisher_info (noting q) info)
  unfolding insert_or_update_publisher_info placeholders quoted
  insert_or_update_publisher_info-Keeps info =
      caught-Keeps _ (search (sending_rules, save_activity-Keeps))

  insert_or_update_media_publisher_info-Keeps :
      (k p : String) → Keeps Kept (insert_or_update_media_publisher_info (noting q) k p)
  unfolding insert_or_update_media_publisher_info when_initialized placeholders quoted
  insert_or_update_media_publisher_info-Keeps k p =
      behind_init-Keeps q _ false (search sending_rules)

  insert_contribution_info-Keeps :
      (info : ContributionInfo) → Keeps Kept (insert_contribution_info (noting q) info)
  unfolding insert_contribution_info placeholders quoted
  insert_contribution_info-Keeps info = caught-Keeps _ (search sending_rules)

  insert_or_update_recurring_donation-Keeps :
      (info : RecurringDonation D)
      → Keeps Kept (insert_or_update_recurring_donation (noting q) info)
  unfolding insert_or_update_recurring_donation placeholders quoted
  insert_or_update_recurring_donation-Keeps info = caught-Keeps _ (search sending_rules)

-- The filters whose texts cannot be taken for a part of the statement: without quotes in the id
-- and, as the columns and the id of `Count` stand without quotes, without quotes and `?` in these.
abbrev pub IsTame : {D : Type 0} → Method D → Type 0
IsTame (find_list start limit f list) = AllChars IsUnquoted f.id × AllColumns IsPlain f.order_by
IsTame (count_rows f) = AllChars IsPlain f.id × AllColumns IsPlain f.order_by
IsTame _ = Unit {0}

module _ {D Conn Disk : Type 0} (l : Ledger D) (q : Sqlite D Conn Disk) where
  push_donations-Keeps :
      (query : String) (list : List (PublisherInfo D))
      → IsNeutral query
      → Keeps Kept (push_donations l (noting q) query list)
  unfolding push_donations
  push_donations-Keeps query list h =
      Keeps-attempt _ _ _
        (behind_init-Keeps q _ list
          (Keeps-bind _ _ (select-Keeps q _ _ (neutral_lem q _ h)) (λ r. Keeps-pure _)))
        Keeps-pure (Keeps-pure list)

  perform-Keeps : (m : Method D) → IsTame m → Keeps Kept (perform l (noting q) m)
  unfolding perform get_media_publisher_info find count get_recurring_donations get_tips
      placeholders quoted
  perform-Keeps (insert_publisher info) h =
      Keeps-bind _ _ (insert_or_update_publisher_info-Keeps q info) (λ _. Keeps-pure tt)
  perform-Keeps (insert_media k p) h =
      Keeps-bind _ _ (insert_or_update_media_publisher_info-Keeps q k p) (λ _. Keeps-pure tt)
  perform-Keeps (insert_contribution info) h =
      Keeps-bind _ _ (insert_contribution_info-Keeps q info) (λ _. Keeps-pure tt)
  perform-Keeps (insert_recurring info) h =
      Keeps-bind _ _ (insert_or_update_recurring_donation-Keeps q info) (λ _. Keeps-pure tt)
  perform-Keeps (remove key) h = Keeps-bind _ _ (remove_recurring-Keeps q key) (λ _. Keeps-pure tt)
  perform-Keeps (get_media k) h =
      Keeps-bind _ _ (behind_init-Keeps q _ none (search sending_rules)) (λ _. Keeps-pure tt)
  perform-Keeps (find_list start limit f none) h =
      Keeps-bind (find l (noting q) start limit f none) _ (Keeps-pure (false, none))
        (λ _. Keeps-pure tt)
  perform-Keeps (find_list start limit f (some list)) h =
      Keeps-bind _ _
        (behind_init-Keeps q _ (false, some list)
          (Keeps-bind _ _
            (select-Keeps q _ _ (neutral_lem q _ (find_query-IsNeutral l start limit f h.0 h.1)))
            (λ r. Keeps-pure _)))
        (λ _. Keeps-pure tt)
  perform-Keeps (count_rows f) h =
      let sent = neutral_lem q _ (count_query-IsNeutral l (pos 0) (pos 0) f h.0 h.1) in
      Keeps-bind _ _
        (behind_init-Keeps q _ (pos 0) (
          Keeps-bind _ _ (select-Keeps q _ _ sent) (λ r.
            Keeps-bind _ _ (raise_if-Keeps q r.threw)
              (λ _. Keeps-bind _ _ (exec-Keeps q _ _ sent) (λ _. Keeps-pure _)))))
        (λ _. Keeps-pure tt)
  perform-Keeps (recurring_list list) h =
      Keeps-bind _ _ (push_donations-Keeps _ list (record { unmarked = refl; closed = refl }))
        (λ _. Keeps-pure tt)
  perform-Keeps (tips_list list month year) h =
      Keeps-bind _ _ (push_donations-Keeps _ list (tips_query-IsNeutral l month year))
        (λ _. Keeps-pure tt)

  run_history-Keeps :
      (ms : List (Method D)) → All IsTame ms → Keeps Kept (run_history l (noting q) ms)
  unfolding run_history
  run_history-Keeps [] h = Keeps-pure tt
  run_history-Keeps (m ∷ ms) h =
      Keeps-attempt _ _ _ (perform-Keeps m h.0) (λ _. run_history-Keeps ms h.1)
        (run_history-Keeps ms h.1)

  -- For every engine, from an object to whose engine nothing was sent, each statement that a history
  -- of methods sends, Init's and those in front of an exception or a fault included, binds one value
  -- to each of its placeholders and leaves no literal open, or is that of RemoveRecurring, which has
  -- a value and no placeholder, or the second run of the look-up of an activity, without the values
  -- of its placeholders; where no filter has a quote in the id of a Find, and none a quote or
  -- a `?` in a column or in the id of a Count.
  pub run_history-IsSent :
      (ms : List (Method D)) (s : PublisherInfoDatabase Conn (Disk × List (Statement D)))
      → All IsTame ms
      → s.disk.1 ≡ []
      → All IsSent (run_history l (noting q) ms s).1.disk.1
  run_history-IsSent ms s h e = (run_history-Keeps ms h).at s (rw e tt)
