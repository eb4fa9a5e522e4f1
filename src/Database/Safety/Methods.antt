-- ===== src/Database/Safety/Methods.antt =====
-- The methods of driver/publisher_info_database.cc after `Init`: the pointer `db_`, and what each
-- may answer.
use bat_native_ledger_isolat.Prelude.{
  ℤ, pos, String, Bool, true, false, List, Option, none, some, if◌then◌else◌, refl,
}
use bat_native_ledger_isolat.Ledger.{PublisherInfo, PublisherInfoFilter, Ledger}
use bat_native_ledger_isolat.Database.{Sqlite, PublisherInfoDatabase}
use bat_native_ledger_isolat.Database.Action.{
  Safe, pure, attempt, ◌>>=◌, ◌>>◌, Safe-bind, Safe-attempt, Safe-weaken, Steady-pure, Steady-bind,
  Steady-if,
}
use bat_native_ledger_isolat.Database.Engine.{Db, exec}
use bat_native_ledger_isolat.Database.Schema.{init}
use bat_native_ledger_isolat.Database.Safety.{
  Inv, Opened, Opened-Inv, Shut-Inv, statement_rules, exec-Steady,
}
use bat_native_ledger_isolat.Database.Safety.Init.{Answers, init-Answers}
use bat_native_ledger_isolat.Database.Writes.{
  ContributionInfo, RecurringDonation, publisher_values, when_initialized, write_activity,
  save_activity, insert_or_update_publisher_info, insert_or_update_media_publisher_info,
  insert_contribution_info, insert_or_update_recurring_donation, remove_recurring,
  upsert_publisher_sql,
}
use bat_native_ledger_isolat.Database.Queries.{
  get_media_publisher_info, find, count, push_donations,
}

-- No exception comes out of the action.
abbrev pub Never : {S : Type 0} → S → Type 0
Never s = ⊥

module _ {D Conn Disk : Type 0} (q : Sqlite D Conn Disk) where
  ready-Opened : (s : PublisherInfoDatabase Conn Disk) → Answers q true s → Opened true s
  ready-Opened s a = record { is_open = a.1 refl; flagged = a.0 }

  idle-Inv : (b : Bool) (s : PublisherInfoDatabase Conn Disk) → Answers q b s → Inv s
  idle-Inv b s a = record { connected = λ e. a.1 (cc (e, a.0)) }

  pub branch-Safe :
      {A : Type 0} {Q : A → PublisherInfoDatabase Conn Disk → Type 0}
      {X : PublisherInfoDatabase Conn Disk → Type 0} (body : Db Conn Disk A) (other : A)
      → Safe (Opened true) body Q X
      → ((s : PublisherInfoDatabase Conn Disk) → Inv s → Q other s)
      → (ready : Bool) → Safe (Answers q ready) (if ready then body else pure other) Q X
  unfolding pure
  branch-Safe body other h k true = Safe-weaken h ready-Opened (λ a s p. p) (λ s p. p)
  branch-Safe body other h k false = record { at = λ s a. k s (idle-Inv false s a) }

  -- A body that runs behind `Init` may rely on the connection.
  pub behind_init-Safe :
      {A : Type 0} {Q : A → PublisherInfoDatabase Conn Disk → Type 0}
      {X : PublisherInfoDatabase Conn Disk → Type 0} (body : Db Conn Disk A) (other : A)
      → Safe (Opened true) body Q X
      → ((s : PublisherInfoDatabase Conn Disk) → Inv s → Q other s)
      → ((s : PublisherInfoDatabase Conn Disk) → Inv s → X s)
      → Safe Inv (do ready ← init q; if ready then body else pure other) Q X
  behind_init-Safe body other h k x =
      Safe-bind (init q) _
        (Safe-weaken (init-Answers q) (λ s v. v) (λ b s a. a) (λ s e. x s (Shut-Inv s e)))
        (branch-Safe body other h k)

  -- The same for a body that leaves the connection as it is.
  pub steady_behind_init-Safe :
      {A : Type 0} (body : Db Conn Disk A) (other : A)
      → Safe (Opened true) body (λ _. Opened true) (Opened true)
      → Safe Inv (do ready ← init q; if ready then body else pure other) (λ _. Inv) Inv
  steady_behind_init-Safe body other h =
      behind_init-Safe body other (Safe-weaken h (λ s o. o) (λ a. Opened-Inv) Opened-Inv) (λ s v. v)
        (λ s v. v)

  -- And where every exception is caught.
  pub caught-Safe :
      {A : Type 0} (m : Db Conn Disk A) (other : A)
      → Safe Inv m (λ _. Inv) Inv
      → Safe Inv (attempt m pure (pure other)) (λ _. Inv) Never
  unfolding pure
  caught-Safe m other h =
      Safe-attempt m pure (pure other) h (λ a. record { at = λ s v. v }) (record { at = λ s v. v })

  write_activity-Steady :
      (info : PublisherInfo D) (exists : Bool)
      → Safe (Opened true) (write_activity q info exists) (λ _. Opened true) (Opened true)
  unfolding write_activity
  write_activity-Steady info true = search statement_rules
  write_activity-Steady info false = search statement_rules

  save_activity-Steady :
      (info : PublisherInfo D)
      → Safe (Opened true) (save_activity q info) (λ _. Opened true) (Opened true)
  unfolding save_activity
  save_activity-Steady info = search (statement_rules, write_activity-Steady info) depth 9

  upsert-Steady :
      (info : PublisherInfo D) (dated : Bool)
      → Safe
          (Opened true)
          (do
            exec q upsert_publisher_sql (publisher_values info)
            if dated then pure true else save_activity q info)
          (λ _. Opened true)
          (Opened true)
  upsert-Steady info dated =
      Steady-bind (exec q upsert_publisher_sql (publisher_values info)) _ (exec-Steady q _ _)
        (λ _. Steady-if dated _ _ (Steady-pure true) (save_activity-Steady info))

  pub insert_or_update_publisher_info-Safe :
      (info : PublisherInfo D) → Safe Inv (insert_or_update_publisher_info q info) (λ _. Inv) Never
  unfolding insert_or_update_publisher_info when_initialized
  insert_or_update_publisher_info-Safe info =
      caught-Safe _ false (steady_behind_init-Safe _ false (upsert-Steady info _))

  pub insert_or_update_media_publisher_info-Safe :
      (media_key publisher_id : String)
      → Safe Inv (insert_or_update_media_publisher_info q media_key publisher_id) (λ _. Inv) Inv
  unfolding insert_or_update_media_publisher_info when_initialized
  insert_or_update_media_publisher_info-Safe media_key publisher_id =
      steady_behind_init-Safe _ false (search statement_rules)

  pub insert_contribution_info-Safe :
      (info : ContributionInfo) → Safe Inv (insert_contribution_info q info) (λ _. Inv) Never
  unfolding insert_contribution_info when_initialized
  insert_contribution_info-Safe info =
      caught-Safe _ false (steady_behind_init-Safe _ false (search statement_rules))

  pub insert_or_update_recurring_donation-Safe :
      (info : RecurringDonation D)
      → Safe Inv (insert_or_update_recurring_donation q info) (λ _. Inv) Never
  unfolding insert_or_update_recurring_donation when_initialized
  insert_or_update_recurring_donation-Safe info =
      caught-Safe _ false (steady_behind_init-Safe _ false (search statement_rules))

  pub remove_recurring-Safe : (key : String) → Safe Inv (remove_recurring q key) (λ _. Inv) Never
  unfolding remove_recurring when_initialized
  remove_recurring-Safe key =
      caught-Safe _ false (steady_behind_init-Safe _ false (search statement_rules))

module _ {D Conn Disk : Type 0} (l : Ledger D) (q : Sqlite D Conn Disk) where
  pub get_media_publisher_info-Safe :
      (media_key : String) → Safe Inv (get_media_publisher_info l q media_key) (λ _. Inv) Inv
  unfolding get_media_publisher_info
  get_media_publisher_info-Safe media_key =
      steady_behind_init-Safe q _ none (search statement_rules)

  pub find-Safe :
      (start limit : ℤ) (filter : PublisherInfoFilter) (list : Option (List (PublisherInfo D)))
      → Safe Inv (find l q start limit filter list) (λ _. Inv) Inv
  unfolding find
  find-Safe start limit filter none = Steady-pure _
  find-Safe start limit filter (some list) =
      steady_behind_init-Safe q _ (false, some list) (search statement_rules)

  pub count-Safe : (filter : PublisherInfoFilter) → Safe Inv (count l q filter) (λ _. Inv) Inv
  unfolding count
  count-Safe filter = steady_behind_init-Safe q _ (pos 0) (search statement_rules)

  pub push_donations-Safe :
      (query : String) (list : List (PublisherInfo D))
      → Safe Inv (push_donations l q query list) (λ _. Inv) Never
  unfolding push_donations
  push_donations-Safe query list =
      caught-Safe q _ list (steady_behind_init-Safe q _ list (search statement_rules))
