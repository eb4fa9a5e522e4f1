-- ===== src/Database/Activity/Save.antt =====
-- `InsertOrUpdatePublisherInfo` saves a row of `activity_info`, under the engine's laws.
pub mod Joins
pub mod Found
mod Tests
use bat_native_ledger_isolat.Prelude.{
  pos, String, Bool, true, false, List, [], ◌∷◌, ◌++◌, some, if◌then◌else◌, ◌||◌, ◌==ℤ◌, ◌≡◌, refl,
  ap, ◌∙◌, subst, arith,
}
use bat_native_ledger_isolat.Ledger.{PublisherInfo}
use bat_native_ledger_isolat.Database.{Value, Reply, Sqlite, PublisherInfoDatabase}
use bat_native_ledger_isolat.Database.Action.{
  Action, continue, settle, Outcome, returned, threw, faulted, ◌>>=◌, ◌>>◌, attempt, pure,
}
use bat_native_ledger_isolat.Database.Engine.{Db, exec, select, raise_if}
use bat_native_ledger_isolat.Database.Schema.{init, begin_transaction, create_schema, recover}
use bat_native_ledger_isolat.Database.Writes.{
  publisher_values, activity_key, activity_update, activity_values, upsert_publisher_sql,
  select_activity_sql, update_activity_sql, insert_activity_sql, row_exists, when_initialized,
  write_activity, save_activity, insert_or_update_publisher_info,
}
use bat_native_ledger_isolat.Database.Activity.{
  Activity, activity_of, contains, update_rows, Saved, Saved-update, Saved-insert,
}

-- The documented effect on the rows of `activity_info` of the four statements that the method
-- runs: the first two leave the rows alone, `SELECT` yields a row where one has the key, and
-- `UPDATE` and `INSERT`, where they do not fail, set columns and add a row.
pub record ActivityLaws {D Conn Disk : Type 0} (q : Sqlite D Conn Disk) : Type 0 where
  pub table : Disk → List (Activity D)
  pub upsert_keeps :
      (c : Conn) (args : List (Value D)) (d : Disk)
      → table (q.run c upsert_publisher_sql args d).1 ≡ table d
  pub select_keeps :
      (c : Conn) (args : List (Value D)) (d : Disk)
      → table (q.run c select_activity_sql args d).1 ≡ table d
  pub select_finds :
      (c : Conn) (info : PublisherInfo D) (d : Disk)
      → (q.run c select_activity_sql (activity_key info) d).0.threw ≡ false
      → row_exists (q.run c select_activity_sql (activity_key info) d).0.rows
        ≡ contains info (table d)
  pub update_sets :
      (c : Conn) (info : PublisherInfo D) (d : Disk)
      → (q.run c update_activity_sql (activity_update info) d).0.threw ≡ false
      → table (q.run c update_activity_sql (activity_update info) d).1 ≡ update_rows info (table d)
  pub insert_adds :
      (c : Conn) (info : PublisherInfo D) (d : Disk)
      → (q.run c insert_activity_sql (activity_values info) d).0.threw ≡ false
      → table (q.run c insert_activity_sql (activity_values info) d).1
        ≡ table d ++ activity_of info ∷ []

-- No statement on the connection throws.
abbrev pub Works : {D Conn Disk : Type 0} → Sqlite D Conn Disk → Conn → Type 0
Works {D} {Disk} q c =
    (sql : String) (args : List (Value D)) (d : Disk) → (q.run c sql args d).0.threw ≡ false

module _ {D Conn Disk : Type 0} (q : Sqlite D Conn Disk) where
  -- An initialized object needs no more of `Init`.
  pub init-ready :
      (s : PublisherInfoDatabase Conn Disk) → s.initialized ≡ true → init q s ≡ (returned true, s)
  unfolding init ◌>>=◌
  init-ready s ready = ap (λ b. (if b then pure true else opening) s) ready
    where
      opening : Db Conn Disk Bool
      opening =
          attempt (begin_transaction q) (λ _. attempt (create_schema q) pure (recover q true))
            (recover q false)

  when_initialized-eq :
      (body : Db Conn Disk Bool) (s : PublisherInfoDatabase Conn Disk)
      → s.initialized ≡ true
      → when_initialized q body s ≡ body s
  unfolding when_initialized ◌>>=◌
  when_initialized-eq body s ready =
      ap (λ r. continue r (λ b. if b then body else pure false)) (init-ready s ready)

settle-returned :
    {S A : Type 0} (r : Outcome A × S) (h : Action S A) {a : A}
    → r.0 ≡ returned a
    → settle r pure h ≡ r
unfolding pure
settle-returned (returned a, s) h e = refl
settle-returned (threw, s) h e = cc
settle-returned (faulted, s) h e = cc

module _ {D Conn Disk : Type 0} (q : Sqlite D Conn Disk) (laws : ActivityLaws q) (c : Conn)
    (works : Works q c) (info : PublisherInfo D) where
  open laws use {table}

  -- The state behind a statement.
  abbrev after :
      String → List (Value D) → PublisherInfoDatabase Conn Disk → PublisherInfoDatabase Conn Disk
  after sql args s = record s { disk = (q.run c sql args s.disk).1 }

  exec-eq :
      (sql : String) (args : List (Value D)) (s : PublisherInfoDatabase Conn Disk)
      → s.db ≡ some c
      → exec q sql args s ≡ (returned tt, after sql args s)
  unfolding exec ◌>>=◌
  exec-eq sql args s o = ground (arith, works sql args s.disk)

  -- A statement, and then the rest.
  exec-bind :
      {B : Type 0} (sql : String) (args : List (Value D)) (k : Unit {0} → Db Conn Disk B)
      (s : PublisherInfoDatabase Conn Disk)
      → s.db ≡ some c
      → (exec q sql args >>= k) s ≡ k tt (after sql args s)
  unfolding ◌>>=◌
  exec-bind sql args k s o = ap (λ r. continue r k) (exec-eq sql args s o)

  write_activity-Saved :
      (exists : Bool) (s : PublisherInfoDatabase Conn Disk)
      → s.db ≡ some c
      → contains info (table s.disk) ≡ exists
      → ((write_activity q info exists s).0 ≡ returned exists)
        × Saved info (table s.disk) (table (write_activity q info exists s).1.disk)
  unfolding write_activity pure
  write_activity-Saved true s o h =
      rw (exec-bind _ _ _ s o)
        (refl, rw (laws.update_sets c info s.disk (works _ _ _)) (Saved-update info _ h))
  write_activity-Saved false s o h =
      rw (exec-bind _ _ _ s o)
        (refl, rw (laws.insert_adds c info s.disk (works _ _ _)) (Saved-insert info _ h))

  select-bind :
      {B : Type 0} (sql : String) (args : List (Value D)) (k : Reply D → Db Conn Disk B)
      (s : PublisherInfoDatabase Conn Disk)
      → s.db ≡ some c
      → (select q sql args >>= k) s ≡ k (q.run c sql args s.disk).0 (after sql args s)
  unfolding ◌>>=◌ select
  select-bind sql args k s o = ground arith

  raise_if-bind :
      {B : Type 0} (t : Bool) (k : Unit {0} → Db Conn Disk B) (s : PublisherInfoDatabase Conn Disk)
      → t ≡ false
      → (raise_if q t >>= k) s ≡ k tt s
  unfolding ◌>>=◌
  raise_if-bind true k s e = cc
  raise_if-bind false k s e = refl

  abbrev looked_up : PublisherInfoDatabase Conn Disk → PublisherInfoDatabase Conn Disk
  looked_up s = after select_activity_sql (activity_key info) s

  abbrev looked_again : PublisherInfoDatabase Conn Disk → PublisherInfoDatabase Conn Disk
  looked_again s = after select_activity_sql [] s

  save_activity-eq :
      (s : PublisherInfoDatabase Conn Disk)
      → s.db ≡ some c
      → save_activity q info s
        ≡ write_activity q info (contains info (table s.disk)) (looked_again (looked_up s))
  unfolding save_activity
  save_activity-eq s o =
      select-bind _ _ _ s o
      ∙ raise_if-bind _ _ (looked_up s) (works _ _ _)
      ∙ exec-bind _ _ _ (looked_up s) o
      ∙ ap (λ b. write_activity q info b (looked_again (looked_up s)))
          (laws.select_finds c info s.disk (works _ _ _))

  table-looked_up :
      (s : PublisherInfoDatabase Conn Disk) → table (looked_again (looked_up s)).disk ≡ table s.disk
  table-looked_up s = laws.select_keeps c _ _ ∙ laws.select_keeps c _ _

  save_activity-Saved :
      (s : PublisherInfoDatabase Conn Disk)
      → s.db ≡ some c
      → ((save_activity q info s).0 ≡ returned (contains info (table s.disk)))
        × Saved info (table s.disk) (table (save_activity q info s).1.disk)
  save_activity-Saved s o = rw (save_activity-eq s o) (
      subst
        (λ rows.
          ((write_activity q info (contains info (table s.disk)) (looked_again (looked_up s))).0
            ≡ returned (contains info (table s.disk)))
          × Saved info rows (
              table
                (write_activity q info (contains info (table s.disk))
                  (looked_again (looked_up s))).1.disk))
        (table-looked_up s)
        (write_activity-Saved _ (looked_again (looked_up s)) o
          (ap (contains info) (table-looked_up s))))

  abbrev stored : PublisherInfoDatabase Conn Disk → PublisherInfoDatabase Conn Disk
  stored s = after upsert_publisher_sql (publisher_values info) s

  -- Both statements behind `Init`, on an info with a month and a year.
  behind_init-eq :
      (s : PublisherInfoDatabase Conn Disk)
      → s.initialized ≡ true
      → s.db ≡ some c
      → (info.month ==ℤ pos 0 || info.year ==ℤ pos 0) ≡ false
      → when_initialized q
          (do
            exec q upsert_publisher_sql (publisher_values info)
            if info.month ==ℤ pos 0 || info.year ==ℤ pos 0 then pure true else save_activity q info)
          s
        ≡ save_activity q info (stored s)
  behind_init-eq s ready o dated =
      when_initialized-eq q _ s ready
      ∙ exec-bind _ _ _ s o
      ∙ ap (λ b. (if b then pure true else save_activity q info) (stored s)) dated

  insert-eq :
      (s : PublisherInfoDatabase Conn Disk)
      → s.initialized ≡ true
      → s.db ≡ some c
      → (info.month ==ℤ pos 0 || info.year ==ℤ pos 0) ≡ false
      → insert_or_update_publisher_info q info s ≡ save_activity q info (stored s)
  unfolding insert_or_update_publisher_info attempt
  insert-eq s ready o dated =
      ap (λ r. settle r pure (pure false)) (behind_init-eq s ready o dated)
      ∙ settle-returned _ _ (save_activity-Saved (stored s) o).0

  -- On an initialized object whose connection fails no statement, and for an info with a month
  -- and a year, the method answers whether a row had the key of the info, and saves that row.
  pub insert_or_update_publisher_info-Saved :
      (s : PublisherInfoDatabase Conn Disk)
      → s.initialized ≡ true
      → s.db ≡ some c
      → (info.month ==ℤ pos 0 || info.year ==ℤ pos 0) ≡ false
      → let r = insert_or_update_publisher_info q info s in
        (r.0 ≡ returned (contains info (table s.disk))) × Saved info (table s.disk) (table r.1.disk)
  insert_or_update_publisher_info-Saved s ready o dated = rw (insert-eq s ready o dated) (
      subst
        (λ rows.
          ((save_activity q info (stored s)).0 ≡ returned (contains info rows))
          × Saved info rows (table (save_activity q info (stored s)).1.disk))
        (laws.upsert_keeps c _ _) (save_activity-Saved (stored s) o))
