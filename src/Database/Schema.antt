-- ===== src/Database/Schema.antt =====
-- `Init` of driver/publisher_info_database.cc, its transaction and the version check. A `catch` of
-- `std::exception` is one of `sqlite_exception` here: the engine is taken to throw no other.
use bat_native_ledger_isolat.Prelude.{ltb_ℤ, not, Bool, true, false, [], ◌∷◌, some, if◌then◌else◌}
use bat_native_ledger_isolat.Database.{text, Sqlite}
use bat_native_ledger_isolat.Database.Action.{pure, gets, modify, attempt, all_succeed, ◌>>=◌, ◌>>◌}
use bat_native_ledger_isolat.Database.Engine.{Db, exec, read_value, connect}
use bat_native_ledger_isolat.Database.Tables.{
  k_current_version_number, meta_table_init, create_publisher_info_table,
  create_contribution_info_table, create_activity_info_table, create_media_publisher_info_table,
  create_recurring_donation_table, create_contribution_info_index, create_activity_info_index,
  create_recurring_donation_index,
}

module _ {D Conn Disk : Type 0} (q : Sqlite D Conn Disk) where
  -- A version that is read is compared; a failed read of either fails the check.
  unfoldable pub ensure_current_version : Db Conn Disk Bool
  unfolding read_value
  ensure_current_version =
      attempt
        (do
          last ←
              read_value q "SELECT value FROM meta WHERE key=?"
                (text "last_compatible_version" ∷ [])
          read_value q "SELECT value FROM meta WHERE key=?" (text "version" ∷ [])
          pure (not (ltb_ℤ k_current_version_number (q.as_int (some last)))))
        pure (pure false)

  abbrev pub set_initialized : Bool → Db Conn Disk (Unit {0})
  set_initialized b = modify (λ s. record s { initialized = b })

  -- The handler of `Init`; `rollback;` may throw in its turn, and then out of `Init`.
  unfoldable pub recover : Bool → Db Conn Disk Bool
  unfolding exec
  recover started = do
    set_initialized false
    if started then exec q "rollback;" [] else pure tt
    gets (λ s. s.initialized)

  abbrev pub finish_init : Bool → Db Conn Disk Bool
  finish_init false = pure false
  finish_init true = do exec q "commit;" []; set_initialized true; gets (λ s. s.initialized)

  abbrev pub index_and_check : Bool → Db Conn Disk Bool
  index_and_check false = pure false
  index_and_check true = do
    create_contribution_info_index q
    create_activity_info_index q
    create_recurring_donation_index q
    version_status ← ensure_current_version
    finish_init version_status

  -- What `Init` does inside its transaction.
  unfoldable pub create_schema : Db Conn Disk Bool
  unfolding exec meta_table_init create_publisher_info_table create_contribution_info_table
      create_activity_info_table create_media_publisher_info_table create_recurring_donation_table
      create_contribution_info_index create_activity_info_index create_recurring_donation_index
      ensure_current_version
  create_schema = do
    created ← all_succeed (
        meta_table_init q
        ∷ create_publisher_info_table q
        ∷ create_contribution_info_table q
        ∷ create_activity_info_table q
        ∷ create_media_publisher_info_table q
        ∷ create_recurring_donation_table q
        ∷ [])
    index_and_check created

  abbrev pub begin_transaction : Db Conn Disk (Unit {0})
  begin_transaction = do connect q; exec q "begin;" []

  -- `transactionStarted` tells the two handlers apart.
  unfoldable pub init : Db Conn Disk Bool
  unfolding exec connect create_schema recover attempt
  init = do
    ready ← gets (λ s. s.initialized)
    if ready
        then pure true
        else attempt begin_transaction (λ _. attempt create_schema pure (recover true))
            (recover false)
