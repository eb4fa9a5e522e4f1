-- ===== src/Database/Queries.antt =====
-- The methods of driver/publisher_info_database.cc that read. Rows that came before an exception
-- have been pushed already. `assert` is compiled out.
use bat_native_ledger_isolat.Prelude.{
  ℕ, ℤ, pos, negsuc, zero, suc, ◌%◌, ◌^◌, int_of_u32, not, String, Bool, false, List, [], ◌∷◌, ◌++◌,
  map, Option, none, some, if◌then◌else◌, ◌+++◌,
}
use bat_native_ledger_isolat.Ledger.{PublisherInfo, PublisherInfoFilter, Ledger}
use bat_native_ledger_isolat.Database.{Value, text, Row, Sqlite}
use bat_native_ledger_isolat.Database.Action.{pure, attempt, ◌>>=◌, ◌>>◌}
use bat_native_ledger_isolat.Database.Engine.{Db, select, raise_if, exec}
use bat_native_ledger_isolat.Database.Schema.{init}
use bat_native_ledger_isolat.Database.QueryText.{
  count_select, find_query, build_filter_clauses, tips_query,
}

abbrev pub column : {D : Type 0} → ℕ → Row D → Option (Value D)
column n [] = none
column zero (v ∷ r) = some v
column (suc n) (v ∷ r) = column n r

-- A lambda that assigns is called for each row; the last row stays.
abbrev pub last_row : {D B : Type 0} → (Row D → B) → B → List (Row D) → B
last_row f old [] = old
last_row f old (r ∷ rs) = last_row f (f r) rs

module _ {D Conn Disk : Type 0} (l : Ledger D) (q : Sqlite D Conn Disk) where
  unfoldable pub media_info : Row D → PublisherInfo D
  media_info r = record l.default_info {
    id = q.as_text (column 0 r);
    name = q.as_text (column 1 r);
    url = q.as_text (column 2 r);
    favicon_url = q.as_text (column 3 r);
    provider = q.as_text (column 4 r);
    verified = q.as_flag (column 5 r);
    excluded = q.as_int (column 6 r);
  }

  -- `catch` keeps what a row has set.
  unfoldable pub get_media_publisher_info : String → Db Conn Disk (Option (PublisherInfo D))
  unfolding ◌>>=◌ init select media_info
  get_media_publisher_info media_key = do
    ready ← init q
    if ready
        then (do
          r ←
              select q
                "SELECT pi.publisher_id, pi.name, pi.url, pi.favIcon, pi.provider, pi.verified, pi.excluded FROM media_publisher_info as mpi INNER JOIN publisher_info AS pi ON mpi.publisher_id = pi.publisher_id WHERE mpi.media_key=?"
                (text media_key ∷ [])
          pure (last_row (λ row. some (media_info row)) none r.rows))
        else pure none

  unfoldable pub found_info : Row D → PublisherInfo D
  found_info r =
      record (l.new_info (q.as_text (column 0 r)) (q.as_int (column 8 r)) (q.as_int (column 9 r))) {
        duration = q.as_unsigned (column 1 r);
        score = q.as_real (column 2 r);
        percent = q.as_unsigned (column 3 r);
        weight = q.as_real (column 4 r);
        verified = q.as_flag (column 5 r);
        excluded = q.as_int (column 6 r);
        category = q.as_int (column 7 r);
        name = q.as_text (column 10 r);
        url = q.as_text (column 11 r);
        provider = q.as_text (column 12 r);
        favicon_url = q.as_text (column 13 r);
        reconcile_stamp = q.as_unsigned (column 14 r);
      }

  -- The list that `list` points to comes back beside the result; `none` is a null pointer.
  unfoldable pub find :
      ℤ
      → ℤ
      → PublisherInfoFilter
      → Option (List (PublisherInfo D))
      → Db Conn Disk (Bool × Option (List (PublisherInfo D)))
  unfolding ◌>>=◌ init select found_info find_query
  find start limit filter none = pure (false, none)
  find start limit filter (some list) = do
    ready ← init q
    if ready
        then (do
          r ← select q (find_query l start limit filter) []
          pure (not r.threw, some (list ++ map found_info r.rows)))
        else pure (false, some list)

  unfoldable pub count : PublisherInfoFilter → Db Conn Disk ℤ
  unfolding ◌>>=◌ init select exec build_filter_clauses
  count filter = do
    ready ← init q
    if ready
        then (do
          r ← select q (count_select +++ build_filter_clauses l (pos 0) (pos 0) filter) []
          raise_if q r.threw
          exec q (count_select +++ build_filter_clauses l (pos 0) (pos 0) filter) []
          pure (int_of_u32 (last_row (λ row. q.as_unsigned (column 0 row)) 0 r.rows % 2 ^ 32)))
        else pure (pos 0)

  -- The row of a donation or a tip: its amount and its date go to `weight` and `reconcile_stamp`.
  unfoldable pub donation_info : Row D → PublisherInfo D
  donation_info r = record (l.new_info (q.as_text (column 0 r)) l.month_any (negsuc 0)) {
    name = q.as_text (column 1 r);
    url = q.as_text (column 2 r);
    favicon_url = q.as_text (column 3 r);
    weight = q.as_real (column 4 r);
    reconcile_stamp = q.as_unsigned (column 5 r);
    verified = q.as_flag (column 6 r);
    provider = q.as_text (column 7 r);
  }

  unfoldable pub push_donations :
      String → List (PublisherInfo D) → Db Conn Disk (List (PublisherInfo D))
  unfolding attempt init select donation_info
  push_donations query list =
      attempt
        (do
          ready ← init q
          if ready
              then (do r ← select q query []; pure (list ++ map donation_info r.rows))
              else pure list)
        pure (pure list)

  unfoldable pub get_recurring_donations :
      List (PublisherInfo D) → Db Conn Disk (List (PublisherInfo D))
  unfolding push_donations
  get_recurring_donations =
      push_donations
        "SELECT pi.publisher_id, pi.name, pi.url, pi.favIcon, rd.amount, rd.added_date, pi.verified, pi.provider FROM recurring_donation as rd INNER JOIN publisher_info AS pi ON rd.publisher_id = pi.publisher_id "

  unfoldable pub get_tips : List (PublisherInfo D) → ℤ → ℤ → Db Conn Disk (List (PublisherInfo D))
  unfolding push_donations tips_query
  get_tips list month year = push_donations (tips_query l month year) list
