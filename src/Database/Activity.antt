-- ===== src/Database/Activity.antt =====
-- `InsertOrUpdatePublisherInfo` against the table `activity_info`: an update of the row at a key,
-- or a new row. What the engine does is a set of laws, the documented meaning of the statements.
pub mod Save
use bat_native_ledger_isolat.Prelude.{
  ℕ, ℤ, pos, suc, String, Bool, true, false, not, List, [], ◌∷◌, ◌++◌, map, Option, none, some,
  if◌then◌else◌, ◌&&◌, ◌||◌, ◌==◌, ◌==ℤ◌, str_eq, eq_iff, ltb, length, ◌≡◌, refl, sym, ap, arith,
  ◌⊎◌, inl, inr, Bool-cases, ◌+◌, append-nil,
}
use bat_native_ledger_isolat.Ledger.{PublisherInfo}
use bat_native_ledger_isolat.Database.{Value, Sqlite, PublisherInfoDatabase}
use bat_native_ledger_isolat.Database.Action.{Outcome, returned, ◌>>=◌, ◌>>◌, attempt, pure}
use bat_native_ledger_isolat.Database.Engine.{exec, select, raise_if}
use bat_native_ledger_isolat.Database.Schema.{init}
use bat_native_ledger_isolat.Database.Writes.{
  publisher_values, activity_key, activity_update, activity_values, upsert_publisher_sql,
  select_activity_sql, update_activity_sql, insert_activity_sql, row_exists, write_activity,
  save_activity, insert_or_update_publisher_info,
}

-- A row of `activity_info`.
pub record Activity (D : Type 0) : Type 0 where
  pub publisher_id : String
  pub duration : ℕ
  pub score : D
  pub percent : ℕ
  pub weight : D
  pub category : ℤ
  pub month : ℤ
  pub year : ℤ
  pub reconcile_stamp : ℕ

module _ {D : Type 0} where
  -- The row that an info stands for.
  abbrev pub activity_of : PublisherInfo D → Activity D
  activity_of info = record {
    publisher_id = info.id;
    duration = info.duration;
    score = info.score;
    percent = info.percent;
    weight = info.weight;
    category = info.category;
    month = info.month;
    year = info.year;
    reconcile_stamp = info.reconcile_stamp;
  }

  abbrev pub same_key : PublisherInfo D → Activity D → Bool
  same_key info r =
      str_eq info.id r.publisher_id
      && info.category ==ℤ r.category
      && info.month ==ℤ r.month
      && info.year ==ℤ r.year
      && info.reconcile_stamp == r.reconcile_stamp

  -- The columns that `UPDATE` sets.
  abbrev pub set_columns : PublisherInfo D → Activity D → Activity D
  set_columns info r = record r {
    duration = info.duration;
    score = info.score;
    percent = info.percent;
    weight = info.weight;
  }

  unfoldable pub contains : PublisherInfo D → List (Activity D) → Bool
  contains info [] = false
  contains info (r ∷ rs) = same_key info r || contains info rs

  unfoldable pub update_rows : PublisherInfo D → List (Activity D) → List (Activity D)
  update_rows info [] = []
  update_rows info (r ∷ rs) =
      (if same_key info r then set_columns info r else r) ∷ update_rows info rs

  -- The rows at the key of an info, and the others.
  unfoldable pub at_key : PublisherInfo D → List (Activity D) → List (Activity D)
  at_key info [] = []
  at_key info (r ∷ rs) = let rest = at_key info rs in if same_key info r then r ∷ rest else rest

  unfoldable pub off_key : PublisherInfo D → List (Activity D) → List (Activity D)
  off_key info [] = []
  off_key info (r ∷ rs) = let rest = off_key info rs in if same_key info r then rest else r ∷ rest

  abbrev pub AllEqual : Activity D → List (Activity D) → Type 0
  AllEqual a [] = Unit {0}
  AllEqual a (r ∷ rs) = (r ≡ a) × AllEqual a rs

  set_columns-eq :
      (info : PublisherInfo D) (r : Activity D)
      → same_key info r ≡ true
      → set_columns info r ≡ activity_of info
  set_columns-eq info r h = ground (arith, eq_iff info.id r.publisher_id)

  same_key-set_columns :
      (info : PublisherInfo D) (r : Activity D)
      → same_key info (set_columns info r) ≡ same_key info r
  same_key-set_columns info r = refl

  at_key-update_rows :
      (info : PublisherInfo D) (rs : List (Activity D))
      → AllEqual (activity_of info) (at_key info (update_rows info rs))
  unfolding at_key update_rows
  at_key-update_rows info [] = tt
  at_key-update_rows info (r ∷ rs) =
      ground (arith, set_columns-eq info r, at_key-update_rows info rs)

  length-at_key-update_rows :
      (info : PublisherInfo D) (rs : List (Activity D))
      → length (at_key info (update_rows info rs)) ≡ length (at_key info rs)
  unfolding at_key update_rows
  length-at_key-update_rows info [] = refl
  length-at_key-update_rows info (r ∷ rs) = ground (arith, length-at_key-update_rows info rs)

  off_key-update_rows :
      (info : PublisherInfo D) (rs : List (Activity D))
      → off_key info (update_rows info rs) ≡ off_key info rs
  unfolding off_key update_rows
  off_key-update_rows info [] = refl
  off_key-update_rows info (r ∷ rs) = ground (arith, off_key-update_rows info rs)

  contains-at_key :
      (info : PublisherInfo D) (rs : List (Activity D))
      → contains info rs ≡ ltb 0 (length (at_key info rs))
  unfolding contains at_key
  contains-at_key info [] = refl
  contains-at_key info (r ∷ rs) = ground (arith, contains-at_key info rs)

  at_key-absent :
      (info : PublisherInfo D) (rs : List (Activity D))
      → contains info rs ≡ false
      → at_key info rs ≡ []
  unfolding contains at_key
  at_key-absent info [] h = refl
  at_key-absent info (r ∷ rs) h = ground (arith, at_key-absent info rs)

  at_key-append :
      (info : PublisherInfo D) (rs ts : List (Activity D))
      → at_key info (rs ++ ts) ≡ at_key info rs ++ at_key info ts
  unfolding at_key
  at_key-append info [] ts = refl
  at_key-append info (r ∷ rs) ts = ground (arith, at_key-append info rs ts)

  off_key-append :
      (info : PublisherInfo D) (rs ts : List (Activity D))
      → off_key info (rs ++ ts) ≡ off_key info rs ++ off_key info ts
  unfolding off_key
  off_key-append info [] ts = refl
  off_key-append info (r ∷ rs) ts = ground (arith, off_key-append info rs ts)

  same_key_self : (info : PublisherInfo D) → same_key info (activity_of info) ≡ true
  same_key_self info = ground (arith, eq_iff info.id info.id)

  -- The table after a save: the rows at the key hold the values of the info, there is one where
  -- there was none, and the other rows are as before.
  pub record Saved (info : PublisherInfo D) (before after : List (Activity D)) : Type 0 where
    pub values : AllEqual (activity_of info) (at_key info after)
    pub number :
        length (at_key info after)
        ≡ (if contains info before then length (at_key info before) else 1)
    pub others : off_key info after ≡ off_key info before

  Saved-update :
      (info : PublisherInfo D) (rs : List (Activity D))
      → contains info rs ≡ true
      → Saved info rs (update_rows info rs)
  Saved-update info rs h = record {
    values = at_key-update_rows info rs;
    number = rw h (length-at_key-update_rows info rs);
    others = off_key-update_rows info rs;
  }

  Saved-insert :
      (info : PublisherInfo D) (rs : List (Activity D))
      → contains info rs ≡ false
      → Saved info rs (rs ++ activity_of info ∷ [])
  unfolding at_key off_key
  Saved-insert info rs h = record {
    values = rw (at_key-append info rs _, at_key-absent info rs h, same_key_self info) (refl, tt);
    number = rw (h, at_key-append info rs _, at_key-absent info rs h, same_key_self info) refl;
    others = rw (off_key-append info rs _, same_key_self info) (append-nil _);
  }
