-- ===== src/Database/Activity/Save/Joins.antt =====
-- The join of `activity_info` and `publisher_info` that `Find` of
-- driver/publisher_info_database.cc reads, over the rows of both tables.
use bat_native_ledger_isolat.Prelude.{
  ℕ, ℤ, zero, suc, above, ltb, ◌==◌, ◌==ℤ◌, empty, String, str_eq, eq_iff, Bool, true, false, ◌&&◌,
  List, [], ◌∷◌, Option, none, some, length, if◌then◌else◌, Bool-cases, inl, inr, ◌≡◌, refl, arith,
}
use bat_native_ledger_isolat.Ledger.{PublisherInfo, PublisherInfoFilter, Ledger}
use bat_native_ledger_isolat.Database.Activity.{Activity, activity_of, same_key, at_key, AllEqual}
use bat_native_ledger_isolat.Database.Selection.{keep}
use bat_native_ledger_isolat.Database.Selection.Found.{wants}

-- The columns of `publisher_info` that `Find` selects.
pub record Publisher : Type 0 where
  pub verified : Bool
  pub excluded : ℤ
  pub name : String
  pub url : String
  pub provider : String
  pub favicon_url : String

abbrev pub copies {ℓ} : {A : Type ℓ} → ℕ → A → List A
copies zero x = []
copies (suc n) x = x ∷ copies n x

module _ {D : Type 0} where
  abbrev pub publisher_of : PublisherInfo D → Publisher
  publisher_of info = record {
    verified = info.verified;
    excluded = info.excluded;
    name = info.name;
    url = info.url;
    provider = info.provider;
    favicon_url = info.favicon_url;
  }

  abbrev pub merged : Activity D → Publisher → PublisherInfo D
  merged a p = record {
    id = a.publisher_id;
    duration = a.duration;
    score = a.score;
    percent = a.percent;
    weight = a.weight;
    verified = p.verified;
    excluded = p.excluded;
    category = a.category;
    month = a.month;
    year = a.year;
    name = p.name;
    url = p.url;
    provider = p.provider;
    favicon_url = p.favicon_url;
    reconcile_stamp = a.reconcile_stamp;
  }

  -- An activity without a publisher is not in the join.
  abbrev pub merge : Option Publisher → Activity D → List (PublisherInfo D) → List (PublisherInfo D)
  merge none a rest = rest
  merge (some p) a rest = merged a p ∷ rest

  abbrev pub join_rows : (String → Option Publisher) → List (Activity D) → List (PublisherInfo D)
  join_rows publisher [] = []
  join_rows publisher (a ∷ rows) = merge (publisher a.publisher_id) a (join_rows publisher rows)

  pub join_rows-AllEqual :
      (publisher : String → Option Publisher) (info : PublisherInfo D) (rows : List (Activity D))
      → publisher info.id ≡ some (publisher_of info)
      → AllEqual (activity_of info) rows
      → join_rows publisher rows ≡ copies (length rows) info
  join_rows-AllEqual publisher info [] e h = refl
  join_rows-AllEqual publisher info (a ∷ rows) e h =
      rw (h.0, e, join_rows-AllEqual publisher info rows e h.1) refl

module _ {D : Type 0} (l : Ledger D) where
  -- The filter that asks for the key of an info.
  abbrev pub key_filter : PublisherInfo D → PublisherInfoFilter
  key_filter info = record {
    id = info.id;
    category = info.category;
    month = info.month;
    year = info.year;
    reconcile_stamp = info.reconcile_stamp;
    min_duration = 0;
    excluded = l.filter_all;
    order_by = [];
  }

  -- None of its parts is one that a filter takes for any.
  pub record IsKeyed (info : PublisherInfo D) : Type 0 where
    pub id_given : empty info.id ≡ false
    pub category_given : (info.category ==ℤ l.all_categories) ≡ false
    pub month_given : (info.month ==ℤ l.month_any) ≡ false
    pub year_given : above info.year 0 ≡ true
    pub stamp_given : ltb 0 info.reconcile_stamp ≡ true
    pub states_differ : (l.filter_all ==ℤ l.filter_all_except_excluded) ≡ false

  flip_str : (a b : String) → str_eq a b ≡ str_eq b a
  flip_str a b = ground (arith, eq_iff a b, eq_iff b a)

  flip_ℤ : (a b : ℤ) → (a ==ℤ b) ≡ (b ==ℤ a)
  flip_ℤ a b = ground arith

  flip_ℕ : (a b : ℕ) → (a == b) ≡ (b == a)
  flip_ℕ a b = ground arith

  same_ℤ : (a : ℤ) → (a ==ℤ a) ≡ true
  same_ℤ a = ground arith

  regroup : (i c m y s : Bool) → (i && (c && (m && (y && (s && true))))) ≡ (i && c && m && y && s)
  regroup false c m y s = refl
  regroup true false m y s = refl
  regroup true true false y s = refl
  regroup true true true false s = refl
  regroup true true true true false = refl
  regroup true true true true true = refl

  wants-merged :
      (info : PublisherInfo D) (a : Activity D) (p : Publisher)
      → IsKeyed info
      → wants l (key_filter info) (merged a p) ≡ same_key info a
  wants-merged info a p k =
      rw
        (
          k.id_given,
          k.category_given,
          k.month_given,
          k.year_given,
          k.stamp_given,
          k.states_differ,
          same_ℤ l.filter_all,
          flip_str a.publisher_id info.id,
          flip_ℤ a.category info.category,
          flip_ℤ a.month info.month,
          flip_ℤ a.year info.year,
          flip_ℕ a.reconcile_stamp info.reconcile_stamp,
        )
        (regroup (str_eq info.id a.publisher_id) (info.category ==ℤ a.category)
          (info.month ==ℤ a.month) (info.year ==ℤ a.year)
          (info.reconcile_stamp == a.reconcile_stamp))

  keep-merge :
      (o : Option Publisher) (info : PublisherInfo D) (a : Activity D)
      (rows kept : List (PublisherInfo D)) (b : Bool)
      → IsKeyed info
      → same_key info a ≡ b
      → keep (wants l (key_filter info)) rows ≡ kept
      → keep (wants l (key_filter info)) (merge o a rows) ≡ (if b then merge o a kept else kept)
  keep-merge none info a rows kept true k e h = h
  keep-merge none info a rows kept false k e h = h
  keep-merge (some p) info a rows kept true k e h = rw (wants-merged info a p k, e, h) refl
  keep-merge (some p) info a rows kept false k e h = rw (wants-merged info a p k, e, h) refl

  pub keep-join_rows :
      (publisher : String → Option Publisher) (info : PublisherInfo D) (rows : List (Activity D))
      → IsKeyed info
      → keep (wants l (key_filter info)) (join_rows publisher rows)
        ≡ join_rows publisher (at_key info rows)
  unfolding at_key
  keep-join_rows publisher info [] k = refl
  keep-join_rows publisher info (a ∷ rows) k = elim (Bool-cases (same_key info a)) [
    | inl e ↦ rw e (
        keep-merge (publisher a.publisher_id) info a (join_rows publisher rows) _ true k e
          (keep-join_rows publisher info rows k))
    | inr e ↦ rw e (
        keep-merge (publisher a.publisher_id) info a (join_rows publisher rows) _ false k e
          (keep-join_rows publisher info rows k))
  ]
