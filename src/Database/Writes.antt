-- ===== src/Database/Writes.antt =====
-- The statements of driver/publisher_info_database.cc that write, and the records that they take
-- (driver/contribution_info.h, driver/recurring_donation.h).
use bat_native_ledger_isolat.Prelude.{
  ℕ, ℤ, pos, ◌==ℤ◌, String, Bool, true, false, List, [], ◌∷◌, if◌then◌else◌, ◌||◌,
}
use bat_native_ledger_isolat.Ledger.{PublisherInfo}
use bat_native_ledger_isolat.Database.{Value, int, unsigned, flag, real, text, Sqlite}
use bat_native_ledger_isolat.Database.Action.{pure, attempt, succeeds, ◌>>=◌, ◌>>◌}
use bat_native_ledger_isolat.Database.Engine.{Db, select, raise_if, exec}
use bat_native_ledger_isolat.Database.Schema.{init}

pub record ContributionInfo : Type 0 where
  pub probi : String
  pub month : ℤ
  pub year : ℤ
  pub category : ℤ
  pub date : ℕ
  pub publisher_key : String

pub record RecurringDonation (D : Type 0) : Type 0 where
  pub publisher_key : String
  pub amount : D
  pub added_date : ℕ

module _ {D : Type 0} where
  abbrev pub publisher_values : PublisherInfo D → List (Value D)
  publisher_values info =
      text info.id
      ∷ flag info.verified
      ∷ int info.excluded
      ∷ text info.name
      ∷ text info.url
      ∷ text info.provider
      ∷ text info.favicon_url
      ∷ []

  -- The five columns by which a row of `activity_info` is looked up.
  abbrev pub activity_key : PublisherInfo D → List (Value D)
  activity_key info =
      text info.id
      ∷ int info.category
      ∷ int info.month
      ∷ int info.year
      ∷ unsigned info.reconcile_stamp
      ∷ []

  abbrev pub activity_update : PublisherInfo D → List (Value D)
  activity_update info =
      unsigned info.duration
      ∷ real info.score
      ∷ unsigned info.percent
      ∷ real info.weight
      ∷ activity_key info

  abbrev pub activity_values : PublisherInfo D → List (Value D)
  activity_values info =
      text info.id
      ∷ unsigned info.duration
      ∷ real info.score
      ∷ unsigned info.percent
      ∷ real info.weight
      ∷ int info.category
      ∷ int info.month
      ∷ int info.year
      ∷ unsigned info.reconcile_stamp
      ∷ []

abbrev pub upsert_publisher_sql : String
upsert_publisher_sql =
    "INSERT OR REPLACE INTO publisher_info (publisher_id, verified, excluded, name, url, provider, favIcon) VALUES (?, ?, ?, ?, ?, ?, ?)"

abbrev pub select_activity_sql : String
select_activity_sql =
    "SELECT publisher_id FROM activity_info WHERE publisher_id=? AND category=? AND month=? AND year=?  AND reconcile_stamp=?"

abbrev pub update_activity_sql : String
update_activity_sql =
    "UPDATE activity_info SET duration=?, score=?, percent=?, weight=? WHERE publisher_id=? AND category=? AND month=? AND year=? AND reconcile_stamp=?"

abbrev pub insert_activity_sql : String
insert_activity_sql =
    "INSERT INTO activity_info (publisher_id, duration, score, percent, weight, category, month, year, reconcile_stamp) VALUES (?, ?, ?, ?, ?, ?, ?, ?, ?)"

abbrev pub row_exists : {A : Type 0} → List A → Bool
row_exists [] = false
row_exists (r ∷ rs) = true

module _ {D Conn Disk : Type 0} (q : Sqlite D Conn Disk) where
  -- What a method does once `Init` has said whether the database is there.
  unfoldable pub when_initialized : Db Conn Disk Bool → Db Conn Disk Bool
  unfolding init
  when_initialized body = do ready ← init q; if ready then body else pure false

  -- `UPDATE` answers true; behind `INSERT` nothing sets `succeded`.
  unfoldable pub write_activity : PublisherInfo D → Bool → Db Conn Disk Bool
  unfolding exec
  write_activity info true = do exec q update_activity_sql (activity_update info); pure true
  write_activity info false = do exec q insert_activity_sql (activity_values info); pure false

  -- `ps1 >> lambda` runs the query, and `ps1++` runs it again: SqliteModernCpp resets a statement that
  -- was run and clears what was bound to it, so that the second run has no values.
  unfoldable pub save_activity : PublisherInfo D → Db Conn Disk Bool
  unfolding select exec write_activity
  save_activity info = do
    found ← select q select_activity_sql (activity_key info)
    raise_if q found.threw
    exec q select_activity_sql []
    write_activity info (row_exists found.rows)

  unfoldable pub insert_or_update_publisher_info : PublisherInfo D → Db Conn Disk Bool
  unfolding attempt when_initialized exec save_activity
  insert_or_update_publisher_info info =
      attempt
        (when_initialized (do
          exec q upsert_publisher_sql (publisher_values info)
          if info.month ==ℤ pos 0 || info.year ==ℤ pos 0 then pure true else save_activity info))
        pure (pure false)

  -- `Init` stands outside the `try` block.
  unfoldable pub insert_or_update_media_publisher_info : String → String → Db Conn Disk Bool
  unfolding succeeds when_initialized exec
  insert_or_update_media_publisher_info media_key publisher_id = when_initialized (
      succeeds (
        exec q "INSERT OR REPLACE INTO media_publisher_info (media_key, publisher_id) VALUES (?, ?)"
          (text media_key ∷ text publisher_id ∷ [])))

  -- In the three below nothing sets `succeded` behind the statement.
  unfoldable pub insert_contribution_info : ContributionInfo → Db Conn Disk Bool
  unfolding attempt when_initialized exec
  insert_contribution_info info =
      attempt
        (when_initialized (do
          exec q
              "INSERT INTO contribution_info (publisher_id, probi, date, category, month, year) VALUES (?, ?, ?, ?, ?, ?)"
              (text info.publisher_key
                ∷ text info.probi
                ∷ unsigned info.date
                ∷ int info.category
                ∷ int info.month
                ∷ int info.year
                ∷ [])
          pure false))
        pure (pure false)

  unfoldable pub insert_or_update_recurring_donation : RecurringDonation D → Db Conn Disk Bool
  unfolding attempt when_initialized exec
  insert_or_update_recurring_donation info =
      attempt
        (when_initialized (do
          exec q
              "INSERT OR REPLACE INTO recurring_donation (publisher_id, amount, added_date) VALUES (?, ?, ?)"
              (text info.publisher_key ∷ real info.amount ∷ unsigned info.added_date ∷ [])
          pure false))
        pure (pure false)

  -- The statement ends at `=`: the key is bound to it and stands for no `?`.
  unfoldable pub remove_recurring : String → Db Conn Disk Bool
  unfolding attempt when_initialized exec
  remove_recurring publisher_key =
      attempt
        (when_initialized (do
          exec q "DELETE FROM recurring_donation WHERE publisher_id = " (text publisher_key ∷ [])
          pure false))
        pure (pure false)
