-- ===== src/Database/Safety/Init.antt =====
-- What `Init` leaves behind, on every way out of it.
pub mod Transaction
use bat_native_ledger_isolat.Prelude.{
  Bool, true, false, [], ◌∷◌, ◌≡◌, refl, arith, ◌⊎◌, inl, inr, Bool-cases,
}
use bat_native_ledger_isolat.Database.{Sqlite, PublisherInfoDatabase}
use bat_native_ledger_isolat.Database.Action.{
  Ends, Safe, pure, gets, modify, attempt, all_succeed, Safe-bind, Safe-attempt, Safe-weaken,
}
use bat_native_ledger_isolat.Database.Engine.{exec, connect}
use bat_native_ledger_isolat.Database.Tables.{
  meta_table_init, create_publisher_info_table, create_contribution_info_table,
  create_activity_info_table, create_media_publisher_info_table, create_recurring_donation_table,
  create_contribution_info_index, create_activity_info_index, create_recurring_donation_index,
}
use bat_native_ledger_isolat.Database.Schema.{
  ensure_current_version, set_initialized, finish_init, index_and_check, begin_transaction, recover,
  create_schema, init,
}
use bat_native_ledger_isolat.Database.Safety.{
  IsOpen, Inv, Opened, Shut, Opened-Shut, statement_rules, exec-Steady,
}

module _ {D Conn Disk : Type 0} (q : Sqlite D Conn Disk) where
  meta_table_init-Steady :
      Safe (Opened false) (meta_table_init q) (λ _. Opened false) (Opened false)
  unfolding meta_table_init
  meta_table_init-Steady = search statement_rules depth 9

  create_publisher_info_table-Steady :
      Safe (Opened false) (create_publisher_info_table q) (λ _. Opened false) (Opened false)
  unfolding create_publisher_info_table
  create_publisher_info_table-Steady = search statement_rules depth 9

  create_contribution_info_table-Steady :
      Safe (Opened false) (create_contribution_info_table q) (λ _. Opened false) (Opened false)
  unfolding create_contribution_info_table
  create_contribution_info_table-Steady = search statement_rules depth 9

  create_activity_info_table-Steady :
      Safe (Opened false) (create_activity_info_table q) (λ _. Opened false) (Opened false)
  unfolding create_activity_info_table
  create_activity_info_table-Steady = search statement_rules depth 9

  create_media_publisher_info_table-Steady :
      Safe (Opened false) (create_media_publisher_info_table q) (λ _. Opened false) (Opened false)
  unfolding create_media_publisher_info_table
  create_media_publisher_info_table-Steady = search statement_rules depth 9

  create_recurring_donation_table-Steady :
      Safe (Opened false) (create_recurring_donation_table q) (λ _. Opened false) (Opened false)
  unfolding create_recurring_donation_table
  create_recurring_donation_table-Steady = search statement_rules depth 9

  create_contribution_info_index-Steady :
      Safe (Opened false) (create_contribution_info_index q) (λ _. Opened false) (Opened false)
  unfolding create_contribution_info_index
  create_contribution_info_index-Steady = search statement_rules depth 9

  create_activity_info_index-Steady :
      Safe (Opened false) (create_activity_info_index q) (λ _. Opened false) (Opened false)
  unfolding create_activity_info_index
  create_activity_info_index-Steady = search statement_rules depth 9

  create_recurring_donation_index-Steady :
      Safe (Opened false) (create_recurring_donation_index q) (λ _. Opened false) (Opened false)
  unfolding create_recurring_donation_index
  create_recurring_donation_index-Steady = search statement_rules depth 9

  ensure_current_version-Steady :
      Safe (Opened false) (ensure_current_version q) (λ _. Opened false) (Opened false)
  unfolding ensure_current_version
  ensure_current_version-Steady = search statement_rules depth 9

  ruleset schema_rules = (
    statement_rules, meta_table_init-Steady, create_publisher_info_table-Steady,
    create_contribution_info_table-Steady, create_activity_info_table-Steady,
    create_media_publisher_info_table-Steady, create_recurring_donation_table-Steady,
    create_contribution_info_index-Steady, create_activity_info_index-Steady,
    create_recurring_donation_index-Steady, ensure_current_version-Steady,
  )

  tables-Steady :
      Safe
        (Opened false)
        (all_succeed (
          meta_table_init q
          ∷ create_publisher_info_table q
          ∷ create_contribution_info_table q
          ∷ create_activity_info_table q
          ∷ create_media_publisher_info_table q
          ∷ create_recurring_donation_table q
          ∷ []))
        (λ _. Opened false)
        (Opened false)
  unfolding all_succeed
  tables-Steady = search schema_rules depth 14

  set_initialized-Opens :
      (b : Bool) → Safe (Opened false) (set_initialized q b) (λ _. Opened b) (Opened false)
  unfolding modify
  set_initialized-Opens b = record { at = λ s o. record { is_open = o.is_open; flagged = refl } }

  connect-Opens : Safe Shut (connect q) (λ _. Opened false) Shut
  unfolding connect
  connect-Opens = record { at = λ s o. ground arith }

  -- `Init` answers with its flag, and with an open connection if that is set.
  abbrev pub Answers : Bool → PublisherInfoDatabase Conn Disk → Type 0
  Answers b s = (s.initialized ≡ b) × (b ≡ true → IsOpen s.db)

  flag-Answers :
      {X : PublisherInfoDatabase Conn Disk → Type 0} (b : Bool)
      → Safe (Opened b) (gets (λ s. s.initialized)) Answers X
  unfolding gets
  flag-Answers b = record { at = λ s o. (refl, λ _. o.is_open) }

  no-Answers : Safe (Opened false) (pure false) Answers (Opened false)
  unfolding pure
  no-Answers = record { at = λ s o. (o.flagged, λ e. o.is_open) }

  Shut-Answers : Safe Shut (gets (λ s. s.initialized)) Answers Shut
  unfolding gets
  Shut-Answers = record { at = λ s h. (refl, λ e. absurd (cc (h.flagged))) }

  finish_init-Answers : (b : Bool) → Safe (Opened false) (finish_init q b) Answers (Opened false)
  finish_init-Answers false = no-Answers
  finish_init-Answers true = Safe-bind (exec q "commit;" []) _ (exec-Steady q _ _) (λ _.
      Safe-bind (set_initialized q true) _ (set_initialized-Opens true) (λ _. flag-Answers true))

  index_and_check-Answers :
      (b : Bool) → Safe (Opened false) (index_and_check q b) Answers (Opened false)
  index_and_check-Answers false = no-Answers
  index_and_check-Answers true =
      Safe-bind (create_contribution_info_index q) _ create_contribution_info_index-Steady λ _.
        Safe-bind (create_activity_info_index q) _ create_activity_info_index-Steady λ _.
          Safe-bind (create_recurring_donation_index q) _ create_recurring_donation_index-Steady
            λ _.
              Safe-bind (ensure_current_version q) _ ensure_current_version-Steady
                finish_init-Answers

  create_schema-Answers : Safe (Opened false) (create_schema q) Answers (Opened false)
  unfolding create_schema
  create_schema-Answers = Safe-bind _ (index_and_check q) tables-Steady index_and_check-Answers

  set_initialized-Shuts :
      {X : PublisherInfoDatabase Conn Disk → Type 0}
      → Safe Shut (set_initialized q false) (λ _. Shut) X
  unfolding modify
  set_initialized-Shuts = record { at = λ s o. record { flagged = refl } }

  pure-Shuts : {X : PublisherInfoDatabase Conn Disk → Type 0} → Safe Shut (pure tt) (λ _. Shut) X
  unfolding pure
  pure-Shuts = record { at = λ s h. h }

  closed_recover-Answers : Safe Shut (recover q false) Answers Shut
  unfolding recover
  closed_recover-Answers =
      Safe-bind (set_initialized q false) _ set_initialized-Shuts
        λ _. Safe-bind (pure tt) _ pure-Shuts λ _. Shut-Answers

  open_recover-Answers : Safe (Opened false) (recover q true) Answers (Opened false)
  unfolding recover
  open_recover-Answers =
      Safe-bind (set_initialized q false) _ (set_initialized-Opens false)
        λ _. Safe-bind (exec q "rollback;" []) _ (exec-Steady q _ _) λ _. flag-Answers false

  pure-Answers :
      {X : PublisherInfoDatabase Conn Disk → Type 0} (b : Bool)
      → Safe (Answers b) (pure b) Answers X
  unfolding pure
  pure-Answers b = record { at = λ s h. h }

  transaction-Answers :
      Safe (Opened false) (attempt (create_schema q) pure (recover q true)) Answers (Opened false)
  transaction-Answers =
      Safe-attempt (create_schema q) pure (recover q true) create_schema-Answers pure-Answers
        open_recover-Answers

  begin-Opens : Safe Shut (begin_transaction q) (λ _. Opened false) Shut
  begin-Opens =
      Safe-bind (connect q) _ connect-Opens
        λ _. Safe-weaken (exec-Steady q "begin;" []) (λ s o. o) (λ a s o. o) Opened-Shut

  opening-Answers :
      Safe Shut
        (attempt
          (begin_transaction q)
          (λ _. attempt (create_schema q) pure (recover q true))
          (recover q false))
        Answers
        Shut
  opening-Answers =
      Safe-attempt (begin_transaction q) _ _ begin-Opens
        (λ _. Safe-weaken transaction-Answers (λ s o. o) (λ a s o. o) Opened-Shut)
        closed_recover-Answers

  init_from-Answers :
      (s : PublisherInfoDatabase Conn Disk)
      → Inv s
      → (s.initialized ≡ true) ⊎ (s.initialized ≡ false)
      → Ends Answers Shut (init q s)
  unfolding init
  init_from-Answers s v (inl e) = rw e (refl, λ _. v.connected e)
  init_from-Answers s v (inr e) =
      rw e (opening-Answers.at (record s { initialized = false }) (record { flagged = refl }))

  -- From an object whose flag implies its connection, `Init` meets no null pointer. It answers
  -- with the flag that it leaves, which implies the connection again, or ends by an exception, with
  -- the flag down.
  pub init-Answers : Safe Inv (init q) Answers Shut
  init-Answers = record { at = λ s v. init_from-Answers s v (Bool-cases s.initialized) }
