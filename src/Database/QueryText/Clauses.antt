-- ===== src/Database/QueryText/Clauses.antt =====
-- The two builders of `WHERE` clauses of driver/publisher_info_database.cc, side by side.
use bat_native_ledger_isolat.Prelude.{ℕ, ℤ, suc, ◌+++◌, ◌≡◌, arith}
use bat_native_ledger_isolat.Ledger.{PublisherInfoFilter, Ledger}
use bat_native_ledger_isolat.Database.QueryText.{find_select, find_query, build_filter_clauses}

module _ {D : Type 0} (l : Ledger D) (start limit : ℤ) (filter : PublisherInfoFilter) where
  -- For a filter without an id and without a reconcile stamp, `Find` appends to its join exactly
  -- the clauses of `BuildFilterClauses`.
  pub find_query-build_filter_clauses :
      filter.id ≡ ""
      → filter.reconcile_stamp ≡ 0
      → find_query l start limit filter ≡ find_select +++ build_filter_clauses l start limit filter
  unfolding find_query build_filter_clauses
  find_query-build_filter_clauses no_id no_stamp = simp (no_id, no_stamp)

  -- `BuildFilterClauses` writes the same text for every reconcile stamp above zero.
  build_filter_clauses_ignores_stamp :
      (a b : ℕ)
      → build_filter_clauses l start limit (record filter { reconcile_stamp = suc a })
        ≡ build_filter_clauses l start limit (record filter { reconcile_stamp = suc b })
  unfolding build_filter_clauses
  build_filter_clauses_ignores_stamp a b = ground arith
