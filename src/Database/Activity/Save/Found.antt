-- ===== src/Database/Activity/Save/Found.antt =====
-- What `Find` of driver/publisher_info_database.cc reads behind a save of a publisher.
use bat_native_ledger_isolat.Prelude.{
  pos, String, Bool, true, false, List, [], Option, none, some, length, if◌then◌else◌, ◌||◌, ◌==ℤ◌,
  ◌≡◌, refl, ap, ◌∙◌,
}
use bat_native_ledger_isolat.Ledger.{PublisherInfo, Ledger}
use bat_native_ledger_isolat.Database.{Value, Sqlite, PublisherInfoDatabase}
use bat_native_ledger_isolat.Database.Action.{returned, pure}
use bat_native_ledger_isolat.Database.Writes.{
  publisher_values, upsert_publisher_sql, select_activity_sql, update_activity_sql,
  insert_activity_sql, write_activity, save_activity, insert_or_update_publisher_info,
}
use bat_native_ledger_isolat.Database.Queries.{find}
use bat_native_ledger_isolat.Database.Activity.{contains, at_key}
use bat_native_ledger_isolat.Database.Activity.Save.{
  ActivityLaws, Works, looked_up, looked_again, stored, exec-bind, save_activity-eq, insert-eq,
  insert_or_update_publisher_info-Saved,
}
use bat_native_ledger_isolat.Database.Activity.Save.Joins.{
  Publisher, publisher_of, copies, join_rows, join_rows-AllEqual, key_filter, IsKeyed,
  keep-join_rows,
}
use bat_native_ledger_isolat.Database.Selection.{keep, Join, Evaluates}
use bat_native_ledger_isolat.Database.Selection.Texts.{selection_of}
use bat_native_ledger_isolat.Database.Selection.Found.{wants, find-wants}

-- The join is that of the rows of both tables; the upsert stores the publisher's columns, and the
-- statements on `activity_info` leave `publisher_info` alone.
pub record JoinLaws {D Conn Disk : Type 0} (q : Sqlite D Conn Disk) (laws : ActivityLaws q)
    (j : Join q) : Type 0 where
  pub publisher : Disk → String → Option Publisher
  pub joined-rows : (c : Conn) (d : Disk) → j.joined c d ≡ join_rows (publisher d) (laws.table d)
  pub upsert_sets :
      (c : Conn) (info : PublisherInfo D) (d : Disk)
      → (q.run c upsert_publisher_sql (publisher_values info) d).0.threw ≡ false
      → publisher (q.run c upsert_publisher_sql (publisher_values info) d).1 info.id
        ≡ some (publisher_of info)
  pub select_keeps :
      (c : Conn) (args : List (Value D)) (d : Disk)
      → publisher (q.run c select_activity_sql args d).1 ≡ publisher d
  pub update_keeps :
      (c : Conn) (args : List (Value D)) (d : Disk)
      → publisher (q.run c update_activity_sql args d).1 ≡ publisher d
  pub insert_keeps :
      (c : Conn) (args : List (Value D)) (d : Disk)
      → publisher (q.run c insert_activity_sql args d).1 ≡ publisher d

module _ {D Conn Disk : Type 0} (l : Ledger D) (q : Sqlite D Conn Disk) (laws : ActivityLaws q)
    (j : Join q) (joins : JoinLaws q laws j) (c : Conn) (works : Works q c)
    (info : PublisherInfo D) where
  -- The object keeps its flag, its connection and the publishers.
  abbrev Left : PublisherInfoDatabase Conn Disk → PublisherInfoDatabase Conn Disk → Type 0
  Left s t =
      (t.initialized ≡ s.initialized)
      × (t.db ≡ s.db)
      × (joins.publisher t.disk ≡ joins.publisher s.disk)

  write_activity-Left :
      (b : Bool) (s : PublisherInfoDatabase Conn Disk)
      → s.db ≡ some c
      → Left s (write_activity q info b s).1
  unfolding write_activity pure
  write_activity-Left true s o =
      rw (exec-bind q laws c works info _ _ _ s o) (refl, refl, joins.update_keeps c _ s.disk)
  write_activity-Left false s o =
      rw (exec-bind q laws c works info _ _ _ s o) (refl, refl, joins.insert_keeps c _ s.disk)

  save_activity-Left :
      (s : PublisherInfoDatabase Conn Disk) → s.db ≡ some c → Left s (save_activity q info s).1
  save_activity-Left s o =
      let twice = looked_again q laws c works info (looked_up q laws c works info s) in
      let left = write_activity-Left (contains info (laws.table s.disk)) twice o in
      rw (save_activity-eq q laws c works info s o)
        (left.0, left.1, left.2 ∙ joins.select_keeps c _ _ ∙ joins.select_keeps c _ _)

  -- Behind a save the object is open, and has the publisher's columns.
  insert_or_update_publisher_info-open :
      (s : PublisherInfoDatabase Conn Disk)
      → s.initialized ≡ true
      → s.db ≡ some c
      → (info.month ==ℤ pos 0 || info.year ==ℤ pos 0) ≡ false
      → let t = (insert_or_update_publisher_info q info s).1 in
        (t.initialized ≡ true)
        × (t.db ≡ some c)
        × (joins.publisher t.disk info.id ≡ some (publisher_of info))
  insert_or_update_publisher_info-open s ready o dated =
      let left = save_activity-Left (stored q laws c works info s) o in
      rw (insert-eq q laws c works info s ready o dated) (
        left.0 ∙ ready,
        left.1 ∙ o,
        ap (λ publisher. publisher info.id) left.2 ∙ joins.upsert_sets c info s.disk (works _ _ _),
      )

  -- What a save leaves of the rows that the filter for its key wants.
  kept-copies :
      (s : PublisherInfoDatabase Conn Disk)
      → s.initialized ≡ true
      → s.db ≡ some c
      → (info.month ==ℤ pos 0 || info.year ==ℤ pos 0) ≡ false
      → IsKeyed l info
      → let before = laws.table s.disk in
        keep
          (wants l (key_filter l info))
          (j.joined c (insert_or_update_publisher_info q info s).1.disk)
        ≡ copies (if contains info before then length (at_key info before) else 1) info
  kept-copies s ready o dated keyed =
      let t = (insert_or_update_publisher_info q info s).1 in
      let saved = (insert_or_update_publisher_info-Saved q laws c works info s ready o dated).1 in
      let opened = insert_or_update_publisher_info-open s ready o dated in
      ap (keep (wants l (key_filter l info))) (joins.joined-rows c t.disk)
      ∙ keep-join_rows l (joins.publisher t.disk) info (laws.table t.disk) keyed
      ∙ join_rows-AllEqual (joins.publisher t.disk) info (at_key info (laws.table t.disk)) opened.2
          saved.values
      ∙ ap (λ n. copies n info) saved.number

  -- Under the laws of the engine for the statements and the join, behind a save of an info with a
  -- month and a year, on an initialized object whose connection fails no statement: where the
  -- engine answers the query for the key of the info as it means, no part of the key is one that a
  -- filter takes for any, and FILTER_ALL is not FILTER_ALL_EXCEPT_EXCLUDED, Find lists just the
  -- info, as it was saved, as often as rows had its key, and once where none had.
  pub find-insert_or_update_publisher_info :
      (s : PublisherInfoDatabase Conn Disk)
      → s.initialized ≡ true
      → s.db ≡ some c
      → (info.month ==ℤ pos 0 || info.year ==ℤ pos 0) ≡ false
      → IsKeyed l info
      → Evaluates q j (selection_of l (pos 0) (pos 0) none (key_filter l info))
      → let before = laws.table s.disk in
        let t = (insert_or_update_publisher_info q info s).1 in
        find l q (pos 0) (pos 0) (key_filter l info) (some []) t ≡ (
          returned (
            true,
            some (copies (if contains info before then length (at_key info before) else 1) info),
          ),
          t,
        )
  find-insert_or_update_publisher_info s ready o dated keyed evaluates =
      let t = (insert_or_update_publisher_info q info s).1 in
      let opened = insert_or_update_publisher_info-open s ready o dated in
      find-wants l q j (pos 0) (pos 0) none (key_filter l info) [] t opened.0 opened.1 refl
        evaluates
      ∙ ap (λ (rows : List (PublisherInfo D)). (returned (true, some rows), t))
          (kept-copies s ready o dated keyed)
