-- ===== src/Database/Placeholders/Texts.antt =====
-- The query texts of driver/publisher_info_database.cc hold no placeholder.
use Prim.Native.Char.{Char}
use bat_native_ledger_isolat.Prelude.{
  ℕ, ℤ, ◌==ℤ◌, above, ltb, not, String, ◌+++◌, show_ℕ, show_ℤ, AllChars, IsNumeric,
  show_ℕ-IsNumeric, show_ℤ-IsNumeric, Bool, true, false, ◌&&◌, List, [], ◌∷◌, All, if◌then◌else◌,
  ◌≡◌, refl, arith,
}
use bat_native_ledger_isolat.Ledger.{PublisherInfoFilter, Ledger}
use bat_native_ledger_isolat.Database.QueryText.{
  count_select, when, order_clauses, limit_clauses, find_query, build_filter_clauses, tips_query,
}
use bat_native_ledger_isolat.Database.Placeholders.{
  is_quote, is_mark, quoted, placeholders, quoted-append, placeholders-append,
}

-- Neither a quote nor a `?`; and no quote.
abbrev pub IsPlain : Char → Type 0
IsPlain c = (is_quote c ≡ false) × (is_mark c ≡ false)

abbrev pub IsUnquoted : Char → Type 0
IsUnquoted c = is_quote c ≡ false

-- Outside of literals before and behind, and without a placeholder.
pub record IsNeutral (s : String) : Type 0 where
  pub unmarked : placeholders false s ≡ 0
  pub closed : quoted false s ≡ false

Plain-IsNeutral : (s : String) → AllChars IsPlain s → IsNeutral s
unfolding placeholders quoted
Plain-IsNeutral String.[] h = record { unmarked = refl; closed = refl }
Plain-IsNeutral (String.◌∷◌ c s) (h, k) =
    let n = Plain-IsNeutral s k in
    record { unmarked = rw (h.0, h.1) (omega (arith, n.unmarked)); closed = rw (h.0) (n.closed) }

within : (s : String) → AllChars IsUnquoted s → (placeholders true s ≡ 0) × (quoted true s ≡ true)
unfolding placeholders quoted
within String.[] h = (refl, refl)
within (String.◌∷◌ c s) (h, k) = rw h (ground (arith, within s k))

IsNumeric-IsPlain : (s : String) → AllChars IsNumeric s → AllChars IsPlain s
IsNumeric-IsPlain String.[] h = tt
IsNumeric-IsPlain (String.◌∷◌ c s) (h, k) = (ground arith, IsNumeric-IsPlain s k)

append-IsNeutral : (s t : String) → IsNeutral s → IsNeutral t → IsNeutral (s +++ t)
append-IsNeutral s t h k = record {
  unmarked = rw (placeholders-append false s t, h.closed) (omega (arith, h.unmarked, k.unmarked));
  closed = rw (quoted-append false s t, h.closed) (k.closed);
}

literal-IsNeutral : (s : String) → placeholders false s ≡ 0 → quoted false s ≡ false → IsNeutral s
literal-IsNeutral s h k = record { unmarked = h; closed = k }

when-IsNeutral : (b : Bool) (s : String) → IsNeutral s → IsNeutral (when b s)
unfolding placeholders quoted
when-IsNeutral true s h = h
when-IsNeutral false s h = record { unmarked = refl; closed = refl }

show_ℕ-IsNeutral : (n : ℕ) → IsNeutral (show_ℕ n)
show_ℕ-IsNeutral n = Plain-IsNeutral _ (IsNumeric-IsPlain _ (show_ℕ-IsNumeric n))

show_ℤ-IsNeutral : (z : ℤ) → IsNeutral (show_ℤ z)
show_ℤ-IsNeutral z = Plain-IsNeutral _ (IsNumeric-IsPlain _ (show_ℤ-IsNumeric z))

-- What a literal adds where it is opened and where it is closed.
opens_literal :
    (placeholders false " AND ai.publisher_id = '" ≡ 0)
    × (quoted false " AND ai.publisher_id = '" ≡ true)
unfolding placeholders quoted
opens_literal = (refl, refl)

closes_literal : (placeholders true "'" ≡ 0) × (quoted true "'" ≡ false)
unfolding placeholders quoted
closes_literal = (refl, refl)

id-IsNeutral :
    (id : String) → AllChars IsUnquoted id → IsNeutral (" AND ai.publisher_id = '" +++ id +++ "'")
id-IsNeutral id h = record {
  unmarked =
      simp
        (
          placeholders-append,
          opens_literal.0,
          opens_literal.1,
          (within id h).0,
          (within id h).1,
          closes_literal.0,
        )
        (omega arith);
  closed = simp (quoted-append, opens_literal.1, (within id h).1, closes_literal.1);
}

ruleset neutral_rules =
    (append-IsNeutral, literal-IsNeutral, when-IsNeutral, show_ℕ-IsNeutral, show_ℤ-IsNeutral)

-- Every column that the filter names, and its id.
abbrev pub AllColumns : (Char → Type 0) → List (String × Bool) → Type 0
AllColumns P order_by = All (λ order. AllChars P order.0) order_by

direction-IsNeutral : (b : Bool) → IsNeutral (if b then " ASC" else " DESC")
unfolding placeholders quoted
direction-IsNeutral true = literal-IsNeutral _ refl refl
direction-IsNeutral false = literal-IsNeutral _ refl refl

order_clauses-IsNeutral :
    (order_by : List (String × Bool))
    → AllColumns IsPlain order_by
    → IsNeutral (order_clauses order_by)
unfolding order_clauses placeholders quoted
order_clauses-IsNeutral [] h = record { unmarked = refl; closed = refl }
order_clauses-IsNeutral ((column, ascending) ∷ rest) h =
    append-IsNeutral _ _ (literal-IsNeutral _ refl refl) (
      append-IsNeutral _ _ (Plain-IsNeutral column (h.0))
        (append-IsNeutral _ _ (direction-IsNeutral ascending) (order_clauses-IsNeutral rest h.1)))

limit_clauses-IsNeutral : (start limit : ℤ) → IsNeutral (limit_clauses start limit)
unfolding limit_clauses placeholders quoted
limit_clauses-IsNeutral start limit = search neutral_rules depth 12

pub tips_query-IsNeutral :
    {D : Type 0} (l : Ledger D) (month year : ℤ) → IsNeutral (tips_query l month year)
unfolding tips_query placeholders quoted
tips_query-IsNeutral l month year = search neutral_rules depth 20

module _ {D : Type 0} (l : Ledger D) (start limit : ℤ) (filter : PublisherInfoFilter) where
  -- The clauses behind the stamp, which the two builders share.
  last_clauses-IsNeutral :
      AllColumns IsPlain filter.order_by
      → IsNeutral (
          when (ltb 0 filter.min_duration) (" AND ai.duration >= " +++ show_ℕ filter.min_duration)
          +++ when
              (not (filter.excluded ==ℤ l.filter_all)
                && not (filter.excluded ==ℤ l.filter_all_except_excluded))
              (" AND pi.excluded = " +++ show_ℤ filter.excluded)
          +++ when
              (filter.excluded ==ℤ l.filter_all_except_excluded)
              (" AND pi.excluded != " +++ show_ℤ filter.excluded)
          +++ order_clauses filter.order_by
          +++ limit_clauses start limit)
  unfolding placeholders quoted
  last_clauses-IsNeutral k = append-IsNeutral _ _ (search neutral_rules) (
      append-IsNeutral _ _ (search neutral_rules) (
        append-IsNeutral _ _ (search neutral_rules) (
          append-IsNeutral _ _ (order_clauses-IsNeutral _ k)
            (limit_clauses-IsNeutral start limit))))

  -- The clauses in front of it, before any that are neutral.
  first_clauses-IsNeutral :
      (rest : String)
      → IsNeutral rest
      → IsNeutral (
          when
            (not (filter.category ==ℤ l.all_categories))
            (" AND ai.category = " +++ show_ℤ filter.category)
          +++ when (not (filter.month ==ℤ l.month_any)) (" AND ai.month = " +++ show_ℤ filter.month)
          +++ when (above filter.year 0) (" AND ai.year = " +++ show_ℤ filter.year)
          +++ rest)
  unfolding placeholders quoted
  first_clauses-IsNeutral rest h =
      append-IsNeutral _ _ (search neutral_rules) (
        append-IsNeutral _ _ (search neutral_rules) (append-IsNeutral _ _ (search neutral_rules) h))

  pub find_query-IsNeutral :
      AllChars IsUnquoted filter.id
      → AllColumns IsPlain filter.order_by
      → IsNeutral (find_query l start limit filter)
  unfolding find_query placeholders quoted
  find_query-IsNeutral h k = append-IsNeutral _ _ (literal-IsNeutral _ refl refl) (
      append-IsNeutral _ _ (when-IsNeutral _ _ (id-IsNeutral _ h)) (
        first_clauses-IsNeutral _
          (append-IsNeutral _ _ (search neutral_rules) (last_clauses-IsNeutral k))))

  pub count_query-IsNeutral :
      AllChars IsPlain filter.id
      → AllColumns IsPlain filter.order_by
      → IsNeutral (count_select +++ build_filter_clauses l start limit filter)
  unfolding build_filter_clauses placeholders quoted
  count_query-IsNeutral h k = append-IsNeutral _ _ (literal-IsNeutral _ refl refl) (
      append-IsNeutral _ _
        (when-IsNeutral _ _
          (append-IsNeutral _ _ (literal-IsNeutral _ refl refl) (Plain-IsNeutral _ h)))
        (first_clauses-IsNeutral _
          (append-IsNeutral _ _ (search neutral_rules) (last_clauses-IsNeutral k))))
