-- ===== src/Database/Tests.antt =====
-- A small engine that meets the laws, and the theorems about the database at concrete inputs.
use bat_native_ledger_isolat.Prelude.{
  ℕ, pos, negsuc, String, str_eq, Bool, true, false, List, [], ◌∷◌, ◌++◌, none, some, if◌then◌else◌,
  ◌&&◌, ◌+++◌, ◌≡◌, refl, ◌∙◌,
}
use bat_native_ledger_isolat.Ledger.{PublisherInfo, PublisherInfoFilter, Ledger}
use bat_native_ledger_isolat.Database.{
  Value, int, unsigned, real, text, Reply, Sqlite, PublisherInfoDatabase,
}
use bat_native_ledger_isolat.Database.Action.{Ends, returned}
use bat_native_ledger_isolat.Database.QueryText.{find_select, find_query, build_filter_clauses}
use bat_native_ledger_isolat.Database.QueryText.Clauses.{find_query-build_filter_clauses}
use bat_native_ledger_isolat.Database.Writes.{
  ContributionInfo, RecurringDonation, activity_key, activity_update, select_activity_sql,
  update_activity_sql, insert_activity_sql, row_exists, insert_or_update_publisher_info,
  insert_contribution_info,
}
use bat_native_ledger_isolat.Database.Activity.{Activity, activity_of, contains, update_rows, Saved}
use bat_native_ledger_isolat.Database.Activity.Save.{
  ActivityLaws, Works, insert_or_update_publisher_info-Saved,
}
use bat_native_ledger_isolat.Database.Safety.{Inv, Shut}
use bat_native_ledger_isolat.Database.Safety.Init.{Answers}
use bat_native_ledger_isolat.Database.Safety.Init.Transaction.{Begun, init-Concluded}
use bat_native_ledger_isolat.Database.Safety.Methods.{Never}
use bat_native_ledger_isolat.Database.Safety.History.{
  insert_publisher, run_history, run_history-Safe,
}
use bat_native_ledger_isolat.Database.Reports.{writers_answer_false}
use bat_native_ledger_isolat.Database.Schema.{begin_transaction, init}

abbrev blank : PublisherInfo ℕ
blank = record {
  id = "";
  duration = 0;
  score = 0;
  percent = 0;
  weight = 0;
  verified = false;
  excluded = pos 0;
  category = pos 0;
  month = pos 0;
  year = pos 0;
  name = "";
  url = "";
  provider = "";
  favicon_url = "";
  reconcile_stamp = 0;
}

abbrev pub constants : Ledger ℕ
constants = record {
  all_categories = pos 0;
  auto_contribute = pos 2;
  direct_donation = pos 8;
  tipping = pos 4;
  month_any = negsuc 0;
  filter_all = negsuc 0;
  filter_all_except_excluded = pos 2;
  default_info = blank;
  default_grant = record { promotion_id = ""; altcurrency = ""; probi = ""; expiry_time = 0 };
  new_info = λ i m y. record blank { id = i; month = m; year = y };
  new_info-id = λ i m y. refl;
  new_info-month = λ i m y. refl;
  new_info-year = λ i m y. refl;
  double_of_ℤ = λ n. 0;
  double_of_ℕ = λ n. n;
}

-- The info that the values of a statement come from, as far as they tell.
abbrev of_key : List (Value ℕ) → PublisherInfo ℕ
of_key (text i ∷ int c ∷ int m ∷ int y ∷ unsigned r ∷ []) = record blank {
  id = i;
  category = c;
  month = m;
  year = y;
  reconcile_stamp = r;
}
of_key _ = blank

abbrev of_update : List (Value ℕ) → PublisherInfo ℕ
of_update (unsigned d ∷ real s ∷ unsigned p ∷ real w ∷ key) = record (of_key key) {
  duration = d;
  score = s;
  percent = p;
  weight = w;
}
of_update _ = blank

abbrev of_values : List (Value ℕ) → PublisherInfo ℕ
of_values
      (text i
        ∷ unsigned d
        ∷ real s
        ∷ unsigned p
        ∷ real w
        ∷ int c
        ∷ int m
        ∷ int y
        ∷ unsigned r
        ∷ []) =
    record blank {
      id = i;
      duration = d;
      score = s;
      percent = p;
      weight = w;
      category = c;
      month = m;
      year = y;
      reconcile_stamp = r;
    }
of_values _ = blank

abbrev pub Rows : Type 0
Rows = List (Activity ℕ)

abbrev listed : Bool → List (List (Value ℕ))
listed true = [] ∷ []
listed false = []

-- The rows of `activity_info` are the whole state.
abbrev next : String → List (Value ℕ) → Rows → Rows
next sql args rows =
    if str_eq sql update_activity_sql
    then update_rows (of_update args) rows
    else if str_eq sql insert_activity_sql
    then rows ++ activity_of (of_values args) ∷ []
    else rows

abbrev pub serve : String → List (Value ℕ) → Rows → Reply ℕ × Rows
serve sql args rows = (
  record {
    rows = listed (str_eq sql select_activity_sql && contains (of_key args) rows);
    threw = false;
  },
  next sql args rows,
)

abbrev pub engine : Sqlite ℕ ℕ Rows
engine = record {
  open_database = λ path d. (some 7, d);
  close_database = λ c d. d;
  run = λ c sql args d. serve sql args d;
  run_value = λ c sql args d. (some (int (pos 1)), d);
  as_text = λ v. "";
  as_unsigned = λ v. 0;
  as_int = λ v. pos 1;
  as_flag = λ v. false;
  as_real = λ v. 0;
}

pub contains-of_key :
    (info : PublisherInfo ℕ) (rows : Rows)
    → contains (of_key (activity_key info)) rows ≡ contains info rows
unfolding contains
contains-of_key info [] = refl
contains-of_key info (r ∷ rs) = rw (contains-of_key info rs)

pub update_rows-of_update :
    (info : PublisherInfo ℕ) (rows : Rows)
    → update_rows (of_update (activity_update info)) rows ≡ update_rows info rows
unfolding update_rows
update_rows-of_update info [] = refl
update_rows-of_update info (r ∷ rs) = rw (update_rows-of_update info rs)

pub row_exists-listed : (b : Bool) → row_exists (listed b) ≡ b
row_exists-listed true = refl
row_exists-listed false = refl

abbrev engine_laws : ActivityLaws engine
engine_laws = record {
  table = λ d. d;
  upsert_keeps = λ c args d. refl;
  select_keeps = λ c args d. refl;
  select_finds = λ c info d h. row_exists-listed _ ∙ contains-of_key info d;
  update_sets = λ c info d h. update_rows-of_update info d;
  insert_adds = λ c info d h. refl;
}

-- An info of May 2019, and an object that has it stored already.
abbrev pub may : PublisherInfo ℕ
may = record blank { id = "brave.com"; duration = 40; month = pos 5; year = pos 2019 }

abbrev pub opened : PublisherInfoDatabase ℕ Rows
opened = record {
  db_path = "publisher_info_db";
  initialized = true;
  db = some 7;
  disk = activity_of (record may { duration = 9 }) ∷ [];
}

pub opened-Inv : Inv opened
opened-Inv = record { connected = λ e. tt }

engine-Works : Works engine 7
engine-Works sql args d = refl

insert_or_update_publisher_info-Saved_example :
    let r = insert_or_update_publisher_info engine may opened in
    (r.0 ≡ returned (contains may opened.disk)) × Saved may opened.disk r.1.disk
insert_or_update_publisher_info-Saved_example =
    insert_or_update_publisher_info-Saved engine engine_laws 7 engine-Works may opened refl refl
      refl

-- The row is there, so the answer is true.
update_answers_true : contains may opened.disk ≡ true
unfolding contains
update_answers_true = refl

abbrev fresh : PublisherInfoDatabase ℕ Rows
fresh = record { db_path = "db"; initialized = false; db = none; disk = [] }

fresh-Inv : Inv fresh
fresh-Inv = record { connected = λ e. cc }

init-Concluded_example :
    Ends (Answers engine) Shut (init engine fresh)
    × Begun engine (begin_transaction engine fresh) (init engine fresh)
init-Concluded_example = init-Concluded engine fresh fresh-Inv

run_history-Safe_example :
    Ends (λ _. Inv) Never (run_history constants engine (insert_publisher may ∷ []) opened)
run_history-Safe_example =
    (run_history-Safe constants engine (insert_publisher may ∷ [])).at opened opened-Inv

abbrev pub tip : ContributionInfo
tip = record {
  probi = "1";
  month = pos 5;
  year = pos 2019;
  category = pos 8;
  date = 1;
  publisher_key = "brave.com";
}

abbrev monthly : RecurringDonation ℕ
monthly = record { publisher_key = "brave.com"; amount = 5; added_date = 1 }

writers_answer_false_example : (insert_contribution_info engine tip opened).0 ≡ returned false
writers_answer_false_example =
    (writers_answer_false engine tip monthly "brave.com").0 opened opened-Inv

abbrev pub this_month : PublisherInfoFilter
this_month = record {
  id = "";
  category = pos 2;
  month = pos 5;
  year = pos 2019;
  reconcile_stamp = 0;
  min_duration = 8;
  excluded = pos 2;
  order_by = ("percent", false) ∷ [];
}

find_query-build_filter_clauses_example :
    find_query constants (pos 0) (pos 2) this_month
    ≡ find_select +++ build_filter_clauses constants (pos 0) (pos 2) this_month
find_query-build_filter_clauses_example =
    find_query-build_filter_clauses constants (pos 0) (pos 2) this_month refl refl
