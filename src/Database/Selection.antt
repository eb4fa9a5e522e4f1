-- ===== src/Database/Selection.antt =====
-- The queries of `Find` of driver/publisher_info_database.cc as data: conditions on the join of
-- `activity_info` and `publisher_info`, an order and a limit, with the text and the meaning of each.
-- A row of the join has the fields of a `PublisherInfo`.
pub mod Texts
pub mod Found
pub mod Counted
pub mod Tests
use bat_native_ledger_isolat.Prelude.{
  ℕ, ℤ, pos, negsuc, ltb_ℤ, ◌==ℤ◌, String, str_eq, ◌+++◌, show_ℤ, Bool, true, false, ◌&&◌, not,
  List, [], ◌∷◌, map, take, drop, Option, none, some, if◌then◌else◌, ◌≡◌,
}
use bat_native_ledger_isolat.Ledger.{PublisherInfo}
use bat_native_ledger_isolat.Database.{Value, int, unsigned, flag, real, text, Row, Reply, Sqlite}
use bat_native_ledger_isolat.Database.QueryText.{find_select}

pub data Column : Type 0 where
  category month year reconcile_stamp duration excluded : Column

pub data Comparison : Type 0 where
  equal unequal at_least : Comparison

pub data Condition : Type 0 where
  names : String → Condition
  compares : Column → Comparison → ℤ → Condition

-- `limit` is none where there is no `LIMIT`.
pub record Selection : Type 0 where
  pub conditions : List Condition
  pub order : Option (String × Bool)
  pub limit : Option ℕ
  pub offset : Option ℕ

abbrev pub column_text : Column → String
column_text category = "ai.category"
column_text month = "ai.month"
column_text year = "ai.year"
column_text reconcile_stamp = "ai.reconcile_stamp"
column_text duration = "ai.duration"
column_text excluded = "pi.excluded"

abbrev pub comparison_text : Comparison → String
comparison_text equal = " = "
comparison_text unequal = " != "
comparison_text at_least = " >= "

unfoldable pub condition_text : Condition → String
condition_text (names id) = " AND ai.publisher_id = '" +++ id +++ "'"
condition_text (compares column comparison n) =
    (" AND " +++ column_text column +++ comparison_text comparison) +++ show_ℤ n

-- The conditions in front of the rest of a text.
unfoldable pub conditions_text : List Condition → String → String
unfolding condition_text
conditions_text [] rest = rest
conditions_text (c ∷ cs) rest = condition_text c +++ conditions_text cs rest

abbrev pub order_text : Option (String × Bool) → String
order_text none = ""
order_text (some (column, ascending)) =
    " ORDER BY " +++ column +++ (if ascending then " ASC" else " DESC")

abbrev pub offset_text : Option ℕ → String
offset_text none = ""
offset_text (some offset) = " OFFSET " +++ show_ℤ (pos offset)

abbrev pub limit_text : Option ℕ → Option ℕ → String
limit_text none offset = ""
limit_text (some limit) offset = " LIMIT " +++ show_ℤ (pos limit) +++ offset_text offset

unfoldable pub selection_text : Selection → String
unfolding conditions_text
selection_text s =
    find_select
    +++ conditions_text s.conditions (order_text s.order +++ limit_text s.limit s.offset)

abbrev pub compare_by : Comparison → ℤ → ℤ → Bool
compare_by equal a b = a ==ℤ b
compare_by unequal a b = not (a ==ℤ b)
compare_by at_least a b = not (ltb_ℤ a b)

module _ {D : Type 0} where
  abbrev pub field_of : Column → PublisherInfo D → ℤ
  field_of category info = info.category
  field_of month info = info.month
  field_of year info = info.year
  field_of reconcile_stamp info = pos info.reconcile_stamp
  field_of duration info = pos info.duration
  field_of excluded info = info.excluded

  abbrev pub meets : Condition → PublisherInfo D → Bool
  meets (names id) info = str_eq info.id id
  meets (compares column comparison n) info = compare_by comparison (field_of column info) n

  abbrev pub meets_all : List Condition → PublisherInfo D → Bool
  meets_all [] info = true
  meets_all (c ∷ cs) info = meets c info && meets_all cs info

abbrev pub keep {ℓ} : {A : Type ℓ} → (A → Bool) → List A → List A
keep p [] = []
keep p (x ∷ xs) = let rest = keep p xs in if p x then x ∷ rest else rest

abbrev pub skip {ℓ} : {A : Type ℓ} → Option ℕ → List A → List A
skip none xs = xs
skip (some offset) xs = drop offset xs

abbrev pub window {ℓ} : {A : Type ℓ} → Option ℕ → Option ℕ → List A → List A
window none offset xs = xs
window (some limit) offset xs = take limit (skip offset xs)

-- The columns that `Find` selects.
abbrev pub joined_row : {D : Type 0} → PublisherInfo D → Row D
joined_row info =
    text info.id
    ∷ unsigned info.duration
    ∷ real info.score
    ∷ unsigned info.percent
    ∷ real info.weight
    ∷ flag info.verified
    ∷ int info.excluded
    ∷ int info.category
    ∷ int info.month
    ∷ int info.year
    ∷ text info.name
    ∷ text info.url
    ∷ text info.provider
    ∷ text info.favicon_url
    ∷ unsigned info.reconcile_stamp
    ∷ []

module _ {D Conn Disk : Type 0} (q : Sqlite D Conn Disk) where
  -- The join in the order in which SQLite meets its rows, its `ORDER BY`, and the conversions of a
  -- column to the type that was stored.
  pub record Join : Type 0 where
    pub joined : Conn → Disk → List (PublisherInfo D)
    pub sort : String → Bool → List (PublisherInfo D) → List (PublisherInfo D)
    pub as_text-text : (v : String) → q.as_text (some (text v)) ≡ v
    pub as_unsigned-unsigned : (n : ℕ) → q.as_unsigned (some (unsigned n)) ≡ n
    pub as_int-int : (n : ℤ) → q.as_int (some (int n)) ≡ n
    pub as_flag-flag : (b : Bool) → q.as_flag (some (flag b)) ≡ b
    pub as_real-real : (d : D) → q.as_real (some (real d)) ≡ d

  module _ (j : Join) where
    abbrev pub sorted : Option (String × Bool) → List (PublisherInfo D) → List (PublisherInfo D)
    sorted none rows = rows
    sorted (some (column, ascending)) rows = j.sort column ascending rows

    -- The rows of the join that a selection means.
    abbrev pub meaning : Selection → List (PublisherInfo D) → List (PublisherInfo D)
    meaning s rows = window s.limit s.offset (sorted s.order (keep (meets_all s.conditions) rows))

    -- The engine answers the text of a selection with what it means, and changes nothing.
    abbrev pub Evaluates : Selection → Type 0
    Evaluates s =
        (c : Conn) (d : Disk)
        → q.run c (selection_text s) [] d
          ≡ (record { rows = map joined_row (meaning s (j.joined c d)); threw = false }, d)
