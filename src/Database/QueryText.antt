-- ===== src/Database/QueryText.antt =====
-- The texts of the queries of driver/publisher_info_database.cc, as their streams build them.
pub mod Clauses
use bat_native_ledger_isolat.Prelude.{
  ℕ, ℤ, pos, negsuc, zero, suc, above, ltb, ◌==ℤ◌, ◌%◌, ◌^◌, int_of_u32, not, String, empty, show_ℕ,
  show_ℤ, Bool, true, false, List, [], ◌∷◌, ◌++◌, map, Option, none, some, if◌then◌else◌, ◌+++◌,
  ◌||◌, ◌&&◌,
}
use bat_native_ledger_isolat.Ledger.{PublisherInfo, PublisherInfoFilter, Ledger}
use bat_native_ledger_isolat.Database.{
  Value, int, unsigned, flag, real, text, Row, Reply, Sqlite, PublisherInfoDatabase,
}
use bat_native_ledger_isolat.Database.Action.{
  Outcome, returned, threw, faulted, Action, pure, gets, modify, attempt, succeeds, ◌>>=◌, ◌>>◌,
}
use bat_native_ledger_isolat.Database.Engine.{Db, select, raise_if, exec}
use bat_native_ledger_isolat.Database.Schema.{init}

abbrev pub find_select : String
find_select =
    "SELECT ai.publisher_id, ai.duration, ai.score, ai.percent, ai.weight, pi.verified, pi.excluded, ai.category, ai.month, ai.year, pi.name, pi.url, pi.provider, pi.favIcon, ai.reconcile_stamp FROM activity_info AS ai INNER JOIN publisher_info AS pi ON ai.publisher_id = pi.publisher_id WHERE 1 = 1"

abbrev pub count_select : String
count_select =
    "SELECT COUNT(ai.publisher_id) FROM activity_info AS ai INNER JOIN publisher_info AS pi ON ai.publisher_id = pi.publisher_id WHERE 1 = 1"

-- `if (test) query << …`
abbrev pub when : Bool → String → String
when test clause = if test then clause else ""

-- `for (const auto& it : filter.order_by)`
unfoldable pub order_clauses : List (String × Bool) → String
order_clauses [] = ""
order_clauses ((column, ascending) ∷ rest) =
    " ORDER BY " +++ column +++ (if ascending then " ASC" else " DESC") +++ order_clauses rest

unfoldable pub limit_clauses : ℤ → ℤ → String
limit_clauses start limit =
    when (above limit 0)
      (" LIMIT " +++ show_ℤ limit +++ when (above start 1) (" OFFSET " +++ show_ℤ start))

module _ {D : Type 0} (l : Ledger D) where
  unfoldable pub find_query : ℤ → ℤ → PublisherInfoFilter → String
  unfolding order_clauses limit_clauses
  find_query start limit filter =
      find_select
      +++ when (not (empty filter.id)) (" AND ai.publisher_id = '" +++ filter.id +++ "'")
      +++ when (not (filter.category ==ℤ l.all_categories))
          (" AND ai.category = " +++ show_ℤ filter.category)
      +++ when (not (filter.month ==ℤ l.month_any)) (" AND ai.month = " +++ show_ℤ filter.month)
      +++ when (above filter.year 0) (" AND ai.year = " +++ show_ℤ filter.year)
      +++ when (ltb 0 filter.reconcile_stamp)
          (" AND ai.reconcile_stamp = " +++ show_ℕ filter.reconcile_stamp)
      +++ when (ltb 0 filter.min_duration) (" AND ai.duration >= " +++ show_ℕ filter.min_duration)
      +++ when
          (not (filter.excluded ==ℤ l.filter_all)
            && not (filter.excluded ==ℤ l.filter_all_except_excluded))
          (" AND pi.excluded = " +++ show_ℤ filter.excluded)
      +++ when (filter.excluded ==ℤ l.filter_all_except_excluded)
          (" AND pi.excluded != " +++ show_ℤ filter.excluded)
      +++ order_clauses filter.order_by
      +++ limit_clauses start limit

  -- The id stands without quotes, and the stamp inside the literal.
  unfoldable pub build_filter_clauses : ℤ → ℤ → PublisherInfoFilter → String
  unfolding order_clauses limit_clauses
  build_filter_clauses start limit filter =
      when (not (empty filter.id)) (" AND ai.publisher_id = " +++ filter.id)
      +++ when (not (filter.category ==ℤ l.all_categories))
          (" AND ai.category = " +++ show_ℤ filter.category)
      +++ when (not (filter.month ==ℤ l.month_any)) (" AND ai.month = " +++ show_ℤ filter.month)
      +++ when (above filter.year 0) (" AND ai.year = " +++ show_ℤ filter.year)
      +++ when (ltb 0 filter.reconcile_stamp) " AND ai.reconcile_stamp << filter.reconcile_stamp"
      +++ when (ltb 0 filter.min_duration) (" AND ai.duration >= " +++ show_ℕ filter.min_duration)
      +++ when
          (not (filter.excluded ==ℤ l.filter_all)
            && not (filter.excluded ==ℤ l.filter_all_except_excluded))
          (" AND pi.excluded = " +++ show_ℤ filter.excluded)
      +++ when (filter.excluded ==ℤ l.filter_all_except_excluded)
          (" AND pi.excluded != " +++ show_ℤ filter.excluded)
      +++ order_clauses filter.order_by
      +++ limit_clauses start limit

  -- No space stands between the first category and `OR`.
  unfoldable pub tips_query : ℤ → ℤ → String
  tips_query month year =
      "SELECT pi.publisher_id, pi.name, pi.url, pi.favIcon, ci.probi, ci.date, pi.verified, pi.provider FROM contribution_info as ci INNER JOIN publisher_info AS pi ON ci.publisher_id = pi.publisher_id AND ci.month = "
      +++ show_ℤ month
      +++ " AND ci.year =  "
      +++ show_ℤ year
      +++ " AND (ci.category = "
      +++ show_ℤ l.direct_donation
      +++ "OR ci.category = "
      +++ show_ℤ l.tipping
      +++ ")"
