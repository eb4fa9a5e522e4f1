-- ===== src/Database/Placeholders/Init.antt =====
-- The statements that `Init` of driver/publisher_info_database.cc sends.
use bat_native_ledger_isolat.Prelude.{Bool, true, false, List, if◌then◌else◌, refl}
use bat_native_ledger_isolat.Database.{Sqlite}
use bat_native_ledger_isolat.Database.Action.{pure, ◌>>=◌}
use bat_native_ledger_isolat.Database.Action.Keeping.{
  Keeps, Keeps-pure, Keeps-gets, Keeps-modify, Keeps-bind, Keeps-attempt, Keeps-if,
  Keeps-all_succeed,
}
use bat_native_ledger_isolat.Database.Engine.{Db}
use bat_native_ledger_isolat.Database.Tables.{
  meta_table_init, create_publisher_info_table, create_contribution_info_table,
  create_activity_info_table, create_media_publisher_info_table, create_recurring_donation_table,
  create_contribution_info_index, create_activity_info_index, create_recurring_donation_index,
}
use bat_native_ledger_isolat.Database.Schema.{
  ensure_current_version, recover, finish_init, index_and_check, create_schema, begin_transaction,
  init,
}
use bat_native_ledger_isolat.Database.Placeholders.{quoted, placeholders}
use bat_native_ledger_isolat.Database.Placeholders.Noted.{
  Statement, noting, Kept, exec-Keeps, connect-Keeps, bound_lem, sending_rules,
}

module _ {D Conn Disk : Type 0} (q : Sqlite D Conn Disk) where
  meta_table_init-Keeps : Keeps Kept (meta_table_init (noting q))
  unfolding meta_table_init placeholders quoted
  meta_table_init-Keeps = search sending_rules depth 12

  create_contribution_info_table-Keeps : Keeps Kept (create_contribution_info_table (noting q))
  unfolding create_contribution_info_table placeholders quoted
  create_contribution_info_table-Keeps = search sending_rules depth 12

  create_activity_info_index-Keeps : Keeps Kept (create_activity_info_index (noting q))
  unfolding create_activity_info_index placeholders quoted
  create_activity_info_index-Keeps = search sending_rules depth 12

  create_contribution_info_index-Keeps : Keeps Kept (create_contribution_info_index (noting q))
  unfolding create_contribution_info_index placeholders quoted
  create_contribution_info_index-Keeps = search sending_rules depth 12

  create_publisher_info_table-Keeps : Keeps Kept (create_publisher_info_table (noting q))
  unfolding create_publisher_info_table placeholders quoted
  create_publisher_info_table-Keeps = search sending_rules depth 12

  create_activity_info_table-Keeps : Keeps Kept (create_activity_info_table (noting q))
  unfolding create_activity_info_table placeholders quoted
  create_activity_info_table-Keeps = search sending_rules depth 12

  create_media_publisher_info_table-Keeps :
      Keeps Kept (create_media_publisher_info_table (noting q))
  unfolding create_media_publisher_info_table placeholders quoted
  create_media_publisher_info_table-Keeps = search sending_rules depth 12

  create_recurring_donation_table-Keeps : Keeps Kept (create_recurring_donation_table (noting q))
  unfolding create_recurring_donation_table placeholders quoted
  create_recurring_donation_table-Keeps = search sending_rules depth 12

  create_recurring_donation_index-Keeps : Keeps Kept (create_recurring_donation_index (noting q))
  unfolding create_recurring_donation_index placeholders quoted
  create_recurring_donation_index-Keeps = search sending_rules depth 12

  ensure_current_version-Keeps : Keeps Kept (ensure_current_version (noting q))
  unfolding ensure_current_version placeholders quoted
  ensure_current_version-Keeps = search sending_rules depth 12

  recover-Keeps : (started : Bool) → Keeps Kept (recover (noting q) started)
  unfolding recover placeholders quoted
  recover-Keeps started =
      Keeps-bind _ _ (Keeps-modify _ (λ s v. v)) (λ _. search sending_rules depth 12)

  finish_init-Keeps : (b : Bool) → Keeps Kept (finish_init (noting q) b)
  unfolding placeholders quoted
  finish_init-Keeps false = Keeps-pure false
  finish_init-Keeps true =
      Keeps-bind _ _ (exec-Keeps q _ _ (bound_lem q _ _ refl refl))
        (λ _. Keeps-bind _ _ (Keeps-modify _ (λ s v. v)) (λ _. Keeps-gets _))

  index_and_check-Keeps : (b : Bool) → Keeps Kept (index_and_check (noting q) b)
  index_and_check-Keeps false = Keeps-pure false
  index_and_check-Keeps true = Keeps-bind _ _ create_contribution_info_index-Keeps (λ _.
      Keeps-bind _ _ create_activity_info_index-Keeps (λ _.
        Keeps-bind _ _ create_recurring_donation_index-Keeps
          (λ _. Keeps-bind _ _ ensure_current_version-Keeps finish_init-Keeps)))

  create_schema-Keeps : Keeps Kept (create_schema (noting q))
  unfolding create_schema
  create_schema-Keeps =
      Keeps-bind _ _
        (Keeps-all_succeed _ (
          meta_table_init-Keeps,
          (
            create_publisher_info_table-Keeps,
            (
              create_contribution_info_table-Keeps,
              (
                create_activity_info_table-Keeps,
                (
                  create_media_publisher_info_table-Keeps,
                  (create_recurring_donation_table-Keeps, tt),
                ),
              ),
            ),
          ),
        ))
        index_and_check-Keeps

  begin_transaction-Keeps : Keeps Kept (begin_transaction (noting q))
  unfolding placeholders quoted
  begin_transaction-Keeps =
      Keeps-bind _ _ (connect-Keeps q) (λ _. exec-Keeps q _ _ (bound_lem q _ _ refl refl))

  pub init-Keeps : Keeps Kept (init (noting q))
  unfolding init
  init-Keeps = Keeps-bind _ _ (Keeps-gets _) (λ ready. Keeps-if ready _ _ (Keeps-pure true) (
      Keeps-attempt _ _ _ begin_transaction-Keeps
        (λ _. Keeps-attempt _ _ _ create_schema-Keeps Keeps-pure (recover-Keeps true))
        (recover-Keeps false)))

  pub behind_init-Keeps :
      {A : Type 0} (body : Db Conn (Disk × List (Statement D)) A) (other : A)
      → Keeps Kept body
      → Keeps Kept (do ready ← init (noting q); if ready then body else pure other)
  behind_init-Keeps body other h =
      Keeps-bind _ _ init-Keeps (λ ready. Keeps-if ready _ _ h (Keeps-pure other))
