-- ===== src/Database/Activity/Save/Tests.antt =====
-- An engine with the rows of both tables, and a save with the find behind it.
use package.text.Mathlib.Text.{starts_with}
use package.text.Mathlib.TextEquality.{eq_iff, starts_with_iff}
use bat_native_ledger_isolat.Prelude.{
  ℕ, pos, String, str_eq, Bool, true, false, List, [], ◌∷◌, map, Option, none, some, if◌then◌else◌,
  ◌≡◌, refl, ap, ◌∙◌,
}
use bat_native_ledger_isolat.Ledger.{PublisherInfo}
use bat_native_ledger_isolat.Database.{
  Value, int, unsigned, flag, real, text, Reply, Sqlite, PublisherInfoDatabase,
}
use bat_native_ledger_isolat.Database.Action.{returned}
use bat_native_ledger_isolat.Database.Writes.{upsert_publisher_sql, insert_or_update_publisher_info}
use bat_native_ledger_isolat.Database.Queries.{find}
use bat_native_ledger_isolat.Database.QueryText.{find_select}
use bat_native_ledger_isolat.Database.Activity.{contains}
use bat_native_ledger_isolat.Database.Tests.{
  constants, Rows, serve, contains-of_key, update_rows-of_update, row_exists-listed, may,
}
use bat_native_ledger_isolat.Database.Activity.Save.{ActivityLaws, Works}
use bat_native_ledger_isolat.Database.Activity.Save.Joins.{
  Publisher, publisher_of, join_rows, key_filter, IsKeyed,
}
use bat_native_ledger_isolat.Database.Activity.Save.Found.{
  JoinLaws, find-insert_or_update_publisher_info,
}
use bat_native_ledger_isolat.Database.Selection.{
  Selection, selection_text, meets_all, keep, joined_row, Join, Evaluates,
}
use bat_native_ledger_isolat.Database.Selection.Texts.{selection_of}

-- An info with a whole key, and the query for it.
abbrev dated : PublisherInfo ℕ
dated = record may { category = pos 2; reconcile_stamp = 7; url = "https://brave.com" }

abbrev selection : Selection
selection = selection_of constants (pos 0) (pos 0) none (key_filter constants dated)

abbrev Tables : Type 0
Tables = Rows × (String → Option Publisher)

abbrev put : List (Value ℕ) → (String → Option Publisher) → String → Option Publisher
put
      (text id
        ∷ flag verified
        ∷ int excluded
        ∷ text name
        ∷ text url
        ∷ text provider
        ∷ text favicon_url
        ∷ [])
      publishers other =
    if str_eq id other
    then some (record {
      verified = verified;
      excluded = excluded;
      name = name;
      url = url;
      provider = provider;
      favicon_url = favicon_url;
    })
    else publishers other
put _ publishers other = publishers other

abbrev rows_found : Tables → Reply ℕ
rows_found d = record {
  rows = map joined_row (keep (meets_all selection.conditions) (join_rows d.1 d.0));
  threw = false;
}

abbrev written : Bool → String → List (Value ℕ) → Tables → Reply ℕ × Tables
written true sql args d = (record { rows = []; threw = false }, (d.0, put args d.1))
written false sql args d = ((serve sql args d.0).0, ((serve sql args d.0).1, d.1))

abbrev served : Bool → String → List (Value ℕ) → Tables → Reply ℕ × Tables
served true sql args d = (rows_found d, d)
served false sql args d = written (str_eq sql upsert_publisher_sql) sql args d

abbrev text_of : Option (Value ℕ) → String
text_of (some (text v)) = v
text_of _ = ""

abbrev engine : Sqlite ℕ ℕ Tables
engine = record {
  open_database = λ path d. (some 7, d);
  close_database = λ c d. d;
  run = λ c sql args d. served (starts_with sql find_select) sql args d;
  run_value = λ c sql args d. (none, d);
  as_text = text_of;
  as_unsigned = λ v. elim v [ some (unsigned n) ↦ n | _ ↦ 0 ];
  as_int = λ v. elim v [ some (int n) ↦ n | _ ↦ pos 0 ];
  as_flag = λ v. elim v [ some (flag b) ↦ b | _ ↦ false ];
  as_real = λ v. elim v [ some (real d) ↦ d | _ ↦ 0 ];
}

abbrev join : Join engine
join = record {
  joined = λ c d. join_rows d.1 d.0;
  sort = λ column ascending rows. rows;
  as_text-text = λ v. refl;
  as_unsigned-unsigned = λ n. refl;
  as_int-int = λ n. refl;
  as_flag-flag = λ b. refl;
  as_real-real = λ d. refl;
}

abbrev laws : ActivityLaws engine
laws = record {
  table = λ d. d.0;
  upsert_keeps = λ c args d. refl;
  select_keeps = λ c args d. refl;
  select_finds = λ c info d h. row_exists-listed _ ∙ contains-of_key info d.0;
  update_sets = λ c info d h. update_rows-of_update info d.0;
  insert_adds = λ c info d h. refl;
}

abbrev join_laws : JoinLaws engine laws join
join_laws = record {
  publisher = λ d. d.1;
  joined-rows = λ c d. refl;
  upsert_sets = λ c info d h.
      ap (λ b. if b then some (publisher_of info) else d.1 info.id)
        ((eq_iff info.id info.id).1 refl);
  select_keeps = λ c args d. refl;
  update_keeps = λ c args d. refl;
  insert_keeps = λ c args d. refl;
}

written-threw :
    (b : Bool) (sql : String) (args : List (Value ℕ)) (d : Tables)
    → (written b sql args d).0.threw ≡ false
written-threw true sql args d = refl
written-threw false sql args d = refl

served-threw :
    (b : Bool) (sql : String) (args : List (Value ℕ)) (d : Tables)
    → (served b sql args d).0.threw ≡ false
served-threw true sql args d = refl
served-threw false sql args d = written-threw (str_eq sql upsert_publisher_sql) sql args d

engine-Works : Works engine 7
engine-Works sql args d = served-threw (starts_with sql find_select) sql args d

engine-Evaluates : Evaluates engine join selection
unfolding selection_text
engine-Evaluates c d =
    ap (λ b. served b (selection_text selection) [] d)
      ((starts_with_iff (selection_text selection) find_select).1 (_, refl))

dated-IsKeyed : IsKeyed constants dated
dated-IsKeyed = record {
  id_given = refl;
  category_given = refl;
  month_given = refl;
  year_given = refl;
  stamp_given = refl;
  states_differ = refl;
}

abbrev opened : PublisherInfoDatabase ℕ Tables
opened = record {
  db_path = "publisher_info_db";
  initialized = true;
  db = some 7;
  disk = ([], λ id. none);
}

find-insert_or_update_publisher_info_example :
    let t = (insert_or_update_publisher_info engine dated opened).1 in
    find constants engine (pos 0) (pos 0) (key_filter constants dated) (some []) t
    ≡ (returned (true, some (dated ∷ [])), t)
unfolding contains
find-insert_or_update_publisher_info_example =
    find-insert_or_update_publisher_info constants engine laws join join_laws 7 engine-Works dated
      opened refl refl refl dated-IsKeyed engine-Evaluates
