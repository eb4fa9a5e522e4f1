-- ===== src/Database/Selection/Tests.antt =====
-- An engine that keeps the rows of the join, and knows the text of one selection, with a query of
-- `Find` on it.
use package.text.Mathlib.TextEquality.{eq_iff}
use bat_native_ledger_isolat.Prelude.{
  ℕ, pos, negsuc, ltb, String, str_eq, Bool, true, false, List, [], ◌∷◌, length, map, Option, none,
  some, if◌then◌else◌, ◌≡◌, refl, ap, ◌∙◌,
}
use bat_native_ledger_isolat.Ledger.{PublisherInfo, PublisherInfoFilter}
use bat_native_ledger_isolat.Database.{
  Value, int, unsigned, flag, real, text, Reply, Sqlite, PublisherInfoDatabase,
}
use bat_native_ledger_isolat.Database.Action.{returned}
use bat_native_ledger_isolat.Database.Queries.{find, count}
use bat_native_ledger_isolat.Database.Tests.{constants, may, this_month}
use bat_native_ledger_isolat.Database.Selection.{
  Selection, selection_text, meets_all, keep, window, joined_row, Join, sorted, Evaluates,
}
use bat_native_ledger_isolat.Database.Selection.Texts.{conditions_of, count_text, selection_of}
use bat_native_ledger_isolat.Database.Selection.Found.{find-wants}
use bat_native_ledger_isolat.Database.Selection.Counted.{Counts, count-find}

abbrev insert_by_weight : PublisherInfo ℕ → List (PublisherInfo ℕ) → List (PublisherInfo ℕ)
insert_by_weight x [] = x ∷ []
insert_by_weight x (y ∷ ys) =
    let rest = insert_by_weight x ys in if ltb y.weight x.weight then y ∷ rest else x ∷ y ∷ ys

abbrev by_weight : List (PublisherInfo ℕ) → List (PublisherInfo ℕ)
by_weight [] = []
by_weight (x ∷ xs) = insert_by_weight x (by_weight xs)

abbrev by_order : Option (String × Bool) → List (PublisherInfo ℕ) → List (PublisherInfo ℕ)
by_order none rows = rows
by_order (some order) rows = by_weight rows

abbrev answer : Selection → Bool → List (PublisherInfo ℕ) → Reply ℕ
answer s true rows = record {
  rows =
      map joined_row
        (window s.limit s.offset (by_order s.order (keep (meets_all s.conditions) rows)));
  threw = false;
}
answer s false rows = record { rows = []; threw = true }

abbrev text_of : Option (Value ℕ) → String
text_of (some (text v)) = v
text_of _ = ""

abbrev pub knowing : Selection → Sqlite ℕ ℕ (List (PublisherInfo ℕ))
knowing s = record {
  open_database = λ path d. (some 7, d);
  close_database = λ c d. d;
  run = λ c sql args d. (answer s (str_eq sql (selection_text s)) d, d);
  run_value = λ c sql args d. (none, d);
  as_text = text_of;
  as_unsigned = λ v. elim v [ some (unsigned n) ↦ n | _ ↦ 0 ];
  as_int = λ v. elim v [ some (int n) ↦ n | _ ↦ pos 0 ];
  as_flag = λ v. elim v [ some (flag b) ↦ b | _ ↦ false ];
  as_real = λ v. elim v [ some (real d) ↦ d | _ ↦ 0 ];
}

abbrev pub join : (s : Selection) → Join (knowing s)
join s = record {
  joined = λ c d. d;
  sort = λ column ascending rows. by_weight rows;
  as_text-text = λ v. refl;
  as_unsigned-unsigned = λ n. refl;
  as_int-int = λ n. refl;
  as_flag-flag = λ b. refl;
  as_real-real = λ d. refl;
}

sorted-by_order :
    (s : Selection) (order : Option (String × Bool)) (rows : List (PublisherInfo ℕ))
    → by_order order rows ≡ sorted (knowing s) (join s) order rows
sorted-by_order s none rows = refl
sorted-by_order s (some order) rows = refl

pub knowing-Evaluates : (s : Selection) → Evaluates (knowing s) (join s) s
knowing-Evaluates s c d =
    ap (λ b. (answer s b d, d)) ((eq_iff (selection_text s) (selection_text s)).1 refl)
    ∙ ap
        (λ rows.
          (record { rows = map joined_row (window s.limit s.offset rows); threw = false }, d))
        (sorted-by_order s s.order (keep (meets_all s.conditions) d))

abbrev pub weighing : ℕ → PublisherInfo ℕ
weighing n = record may { weight = n; category = pos 2 }

abbrev june : PublisherInfo ℕ
june = record may { month = pos 6 }

abbrev pub stored : PublisherInfoDatabase ℕ (List (PublisherInfo ℕ))
stored = record {
  db_path = "publishers";
  initialized = true;
  db = some 7;
  disk = weighing 30 ∷ weighing 10 ∷ june ∷ weighing 20 ∷ [];
}

-- The month's publishers, lightest first: at most two, behind the first two.
abbrev asked : PublisherInfoFilter
asked = record this_month { order_by = ("ai.weight", true) ∷ [] }

abbrev selection : Selection
selection = selection_of constants (pos 2) (pos 2) (some ("ai.weight", true)) asked

find-wants_example :
    find constants (knowing selection) (pos 2) (pos 2) asked (some []) stored
    ≡ (returned (true, some (weighing 30 ∷ [])), stored)
find-wants_example =
    find-wants constants (knowing selection) (join selection) (pos 2) (pos 2)
      (some ("ai.weight", true)) asked [] stored refl refl refl (knowing-Evaluates selection)

-- The same engine with the query of `Count` on the conditions.
abbrev tell : Selection → Bool → List (PublisherInfo ℕ) → Reply ℕ
tell s true rows = record {
  rows = (unsigned (length (keep (meets_all s.conditions) rows)) ∷ []) ∷ [];
  threw = false;
}
tell s false rows = record { rows = []; threw = true }

abbrev told : Selection → String → List (PublisherInfo ℕ) → Reply ℕ
told s sql rows =
    if str_eq sql (selection_text s)
    then answer s true rows
    else tell s (str_eq sql (count_text s.conditions s.order)) rows

abbrev counting : Selection → Sqlite ℕ ℕ (List (PublisherInfo ℕ))
counting s = record (knowing s) { run = λ c sql args d. (told s sql d, d) }

abbrev counting_join : (s : Selection) → Join (counting s)
counting_join s = record {
  joined = λ c d. d;
  sort = λ column ascending rows. by_weight rows;
  as_text-text = λ v. refl;
  as_unsigned-unsigned = λ n. refl;
  as_int-int = λ n. refl;
  as_flag-flag = λ b. refl;
  as_real-real = λ d. refl;
}

-- Every publisher, lightest first.
abbrev everyone : PublisherInfoFilter
everyone = record this_month {
  category = pos 0;
  month = negsuc 0;
  year = pos 0;
  min_duration = 0;
  excluded = negsuc 0;
  order_by = ("ai.weight", true) ∷ [];
}

abbrev all : Selection
all = selection_of constants (pos 0) (pos 0) (some ("ai.weight", true)) everyone

abbrev counted : String
counted = count_text all.conditions all.order

other_text : str_eq counted (selection_text all) ≡ false
unfolding selection_text count_text conditions_of
other_text = refl

counting-Counts : Counts constants (counting all) (counting_join all) all.conditions all.order
counting-Counts c d =
    ap (λ b. (if b then answer all true d else tell all (str_eq counted counted) d, d)) other_text
    ∙ ap (λ b. (tell all b d, d)) ((eq_iff counted counted).1 refl)

counting-Evaluates : Evaluates (counting all) (counting_join all) all
counting-Evaluates c d =
    ap (λ b. (if b then answer all true d else tell all (str_eq (selection_text all) counted) d, d))
      ((eq_iff (selection_text all) (selection_text all)).1 refl)

count-find_example :
    (count constants (counting all) everyone stored ≡ (returned (pos 4), stored))
    × (find constants (counting all) (pos 0) (pos 0) everyone (some []) stored
        ≡ (returned (true, some (june ∷ weighing 10 ∷ weighing 20 ∷ weighing 30 ∷ [])), stored))
count-find_example =
    count-find constants (counting all) (counting_join all) (some ("ai.weight", true)) everyone
      stored refl refl refl refl refl counting-Counts counting-Evaluates
