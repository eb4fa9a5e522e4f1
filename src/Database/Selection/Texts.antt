-- ===== src/Database/Selection/Texts.antt =====
-- The queries of `Find` and `Count` of driver/publisher_info_database.cc as texts of selections.
use text.Mathlib.TextLemmas.{nil-append, append-nil}
use bat_native_ledger_isolat.Prelude.{
  ℕ, ℤ, pos, negsuc, above, ltb, ◌==ℤ◌, empty, String, ◌+++◌, show_ℕ, show_ℤ, show_ℤ-pos, Bool,
  true, false, ◌&&◌, not, List, [], ◌∷◌, Option, none, some, if◌then◌else◌, ◌≡◌, refl, sym, ap,
  arith,
}
use bat_native_ledger_isolat.Ledger.{PublisherInfoFilter, Ledger}
use bat_native_ledger_isolat.Database.QueryText.{
  count_select, when, order_clauses, limit_clauses, find_query, build_filter_clauses,
}
use bat_native_ledger_isolat.Database.Selection.{
  category, month, year, reconcile_stamp, duration, excluded, equal, unequal, at_least, Condition,
  names, compares, Selection, condition_text, conditions_text, order_text, limit_text,
  selection_text,
}

unfoldable pub provided : Bool → Condition → List Condition → List Condition
provided b c cs = if b then c ∷ cs else cs

abbrev pub positive : ℤ → Option ℕ
positive (pos n) = if ltb 0 n then some n else none
positive (negsuc n) = none

-- `start > 1`
abbrev pub above_one : ℤ → Option ℕ
above_one (pos n) = if ltb 1 n then some n else none
above_one (negsuc n) = none

abbrev pub orders : Option (String × Bool) → List (String × Bool)
orders none = []
orders (some order) = order ∷ []

module _ {D : Type 0} (l : Ledger D) where
  -- What a filter asks for.
  unfoldable pub conditions_of : PublisherInfoFilter → List Condition
  unfolding provided
  conditions_of f = provided (not (empty f.id)) (names f.id) (
      provided (not (f.category ==ℤ l.all_categories)) (compares category equal f.category) (
        provided (not (f.month ==ℤ l.month_any)) (compares month equal f.month) (
          provided (above f.year 0) (compares year equal f.year) (
            provided (ltb 0 f.reconcile_stamp)
              (compares reconcile_stamp equal (pos f.reconcile_stamp))
              (provided (ltb 0 f.min_duration) (compares duration at_least (pos f.min_duration)) (
                provided
                  (not (f.excluded ==ℤ l.filter_all)
                    && not (f.excluded ==ℤ l.filter_all_except_excluded))
                  (compares excluded equal f.excluded)
                  (provided (f.excluded ==ℤ l.filter_all_except_excluded)
                    (compares excluded unequal f.excluded) [])))))))

  abbrev pub selection_of : ℤ → ℤ → Option (String × Bool) → PublisherInfoFilter → Selection
  selection_of start limit order f = record {
    conditions = conditions_of f;
    order = order;
    limit = positive limit;
    offset = above_one start;
  }

conditions_text-provided :
    (b : Bool) (c : Condition) (cs : List Condition) (rest : String)
    → conditions_text (provided b c cs) rest ≡ when b (condition_text c) +++ conditions_text cs rest
unfolding provided conditions_text
conditions_text-provided true c cs rest = refl
conditions_text-provided false c cs rest = sym (nil-append _)

order_text-orders :
    (order : Option (String × Bool)) → order_clauses (orders order) ≡ order_text order
unfolding order_clauses
order_text-orders none = refl
order_text-orders (some (column, ascending)) =
    ap (λ (t : String). " ORDER BY " +++ column +++ t) (append-nil _)

limit_text-positive :
    (start limit : ℤ) → limit_text (positive limit) (above_one start) ≡ limit_clauses start limit
unfolding limit_clauses
limit_text-positive (pos s) (pos n) = ground arith
limit_text-positive (negsuc s) (pos n) = ground arith
limit_text-positive start (negsuc n) = refl

names_text : (id : String) → condition_text (names id) ≡ " AND ai.publisher_id = '" +++ id +++ "'"
unfolding condition_text
names_text id = refl

category_text :
    (n : ℤ) → condition_text (compares category equal n) ≡ " AND ai.category = " +++ show_ℤ n
unfolding condition_text
category_text n = refl

month_text : (n : ℤ) → condition_text (compares month equal n) ≡ " AND ai.month = " +++ show_ℤ n
unfolding condition_text
month_text n = refl

year_text : (n : ℤ) → condition_text (compares year equal n) ≡ " AND ai.year = " +++ show_ℤ n
unfolding condition_text
year_text n = refl

stamp_text :
    (n : ℕ)
    → condition_text (compares reconcile_stamp equal (pos n))
      ≡ " AND ai.reconcile_stamp = " +++ show_ℕ n
unfolding condition_text
stamp_text n = ap (λ (t : String). " AND ai.reconcile_stamp = " +++ t) (show_ℤ-pos n)

duration_text :
    (n : ℕ)
    → condition_text (compares duration at_least (pos n)) ≡ " AND ai.duration >= " +++ show_ℕ n
unfolding condition_text
duration_text n = ap (λ (t : String). " AND ai.duration >= " +++ t) (show_ℤ-pos n)

excluded_text :
    (n : ℤ) → condition_text (compares excluded equal n) ≡ " AND pi.excluded = " +++ show_ℤ n
unfolding condition_text
excluded_text n = refl

not_excluded_text :
    (n : ℤ) → condition_text (compares excluded unequal n) ≡ " AND pi.excluded != " +++ show_ℤ n
unfolding condition_text
not_excluded_text n = refl

conditions_text-nil : (rest : String) → conditions_text [] rest ≡ rest
unfolding conditions_text
conditions_text-nil rest = refl

ruleset text_rules = (
  conditions_text-provided, conditions_text-nil, names_text, category_text, month_text, year_text,
  stamp_text, duration_text, excluded_text, not_excluded_text, order_text-orders,
  limit_text-positive,
)

-- The text of `Count` on the same conditions.
unfoldable pub count_text : List Condition → Option (String × Bool) → String
unfolding conditions_text
count_text conditions order = count_select +++ conditions_text conditions (order_text order)

module _ {D : Type 0} (l : Ledger D) where
  pub find_query-selection_text :
      (start limit : ℤ) (order : Option (String × Bool)) (f : PublisherInfoFilter)
      → f.order_by ≡ orders order
      → find_query l start limit f ≡ selection_text (selection_of l start limit order f)
  unfolding find_query selection_text conditions_of
  find_query-selection_text start limit order f e = simp (e, text_rules)

  pub count_text-build_filter_clauses :
      (order : Option (String × Bool)) (f : PublisherInfoFilter)
      → f.id ≡ ""
      → f.reconcile_stamp ≡ 0
      → f.order_by ≡ orders order
      → count_select +++ build_filter_clauses l (pos 0) (pos 0) f
        ≡ count_text (conditions_of l f) order
  unfolding build_filter_clauses count_text conditions_of limit_clauses
  count_text-build_filter_clauses order f no_id no_stamp ordered =
      simp (no_id, no_stamp, ordered, text_rules, nil-append, append-nil)
