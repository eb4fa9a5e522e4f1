-- ===== src/Database/Selection/Counted.antt =====
-- What `Count` of driver/publisher_info_database.cc tells, beside what `Find` finds.
use bat_native_ledger_isolat.Prelude.{
  ℕ, ℤ, pos, ◌%◌, ◌^◌, int_of_u32, String, ◌+++◌, Bool, true, false, List, [], ◌∷◌, length, Option,
  some, if◌then◌else◌, ◌≡◌, refl, ap, ◌∙◌,
}
use bat_native_ledger_isolat.Ledger.{PublisherInfo, PublisherInfoFilter, Ledger}
use bat_native_ledger_isolat.Database.{unsigned, Sqlite, PublisherInfoDatabase}
use bat_native_ledger_isolat.Database.Action.{returned, pure, ◌>>=◌, ◌>>◌, continue}
use bat_native_ledger_isolat.Database.Engine.{Db, select, raise_if, exec}
use bat_native_ledger_isolat.Database.Activity.Save.{init-ready}
use bat_native_ledger_isolat.Database.Queries.{column, last_row, find, count}
use bat_native_ledger_isolat.Database.QueryText.{count_select, build_filter_clauses}
use bat_native_ledger_isolat.Database.Selection.{
  Condition, meets_all, keep, Join, sorted, Evaluates,
}
use bat_native_ledger_isolat.Database.Selection.Texts.{
  orders, conditions_of, selection_of, count_text, count_text-build_filter_clauses,
}
use bat_native_ledger_isolat.Database.Selection.Found.{
  wants, meets_all-conditions_of, keep-same, answered-eq, find-wants,
}

module _ {D Conn Disk : Type 0} (l : Ledger D) (q : Sqlite D Conn Disk) (j : Join q) where
  -- The engine answers the text with one row, the number of the rows of the join that meet the
  -- conditions, and changes nothing.
  abbrev pub Counts : List Condition → Option (String × Bool) → Type 0
  Counts conditions order =
      (c : Conn) (d : Disk)
      → q.run c (count_text conditions order) [] d ≡ (
        record {
          rows = (unsigned (length (keep (meets_all conditions) (j.joined c d))) ∷ []) ∷ [];
          threw = false;
        },
        d,
      )

  -- What `Count` does with its text.
  unfoldable tell : String → Db Conn Disk ℤ
  tell sql = do
    r ← select q sql []
    raise_if q r.threw
    exec q sql []
    pure (int_of_u32 (last_row (λ row. q.as_unsigned (column 0 row)) 0 r.rows % 2 ^ 32))

  count-tell :
      (f : PublisherInfoFilter) (s : PublisherInfoDatabase Conn Disk)
      → s.initialized ≡ true
      → count l q f s ≡ tell (count_select +++ build_filter_clauses l (pos 0) (pos 0) f) s
  unfolding count tell ◌>>=◌
  count-tell f s ready =
      ap
        (λ x. continue x (λ b.
          if b
          then tell (count_select +++ build_filter_clauses l (pos 0) (pos 0) f)
          else pure (pos 0)))
        (init-ready q s ready)

  tell-answered :
      (sql : String) (n : ℕ) (s : PublisherInfoDatabase Conn Disk)
      → select q sql [] s ≡ (returned (record { rows = (unsigned n ∷ []) ∷ []; threw = false }), s)
      → tell sql s ≡ (returned (int_of_u32 (n % 2 ^ 32)), s)
  unfolding tell exec ◌>>=◌ pure
  tell-answered sql n s e = rw (e, e, j.as_unsigned-unsigned n) refl

  counted-wants :
      (order : Option (String × Bool)) (f : PublisherInfoFilter)
      (s : PublisherInfoDatabase Conn Disk) {c : Conn}
      → s.initialized ≡ true
      → s.db ≡ some c
      → f.id ≡ ""
      → f.reconcile_stamp ≡ 0
      → f.order_by ≡ orders order
      → Counts (conditions_of l f) order
      → count l q f s
        ≡ (returned (int_of_u32 (length (keep (wants l f) (j.joined c s.disk)) % 2 ^ 32)), s)
  counted-wants order f s {c} ready o no_id no_stamp ordered counts =
      count-tell f s ready
      ∙ tell-answered _ _ s (
          answered-eq l q j _ s _ o (
            ap (λ sql. q.run c sql [] s.disk)
              (count_text-build_filter_clauses l order f no_id no_stamp ordered)
            ∙ counts c s.disk))
      ∙ ap (λ (rows : List (PublisherInfo D)). (returned (int_of_u32 (length rows % 2 ^ 32)), s))
          (keep-same (meets_all (conditions_of l f)) (wants l f) (meets_all-conditions_of l f)
            (j.joined c s.disk))

  -- In an initialized object, of a filter without an id and without a stamp, with an order of one
  -- column at most: where the engine answers the query of Find with the rows that it means, and
  -- that of Count with their number, Count answers in 32 bits how many rows of the join the filter
  -- wants, and Find without a limit lists just these, in the filter's order. Neither changes
  -- the object.
  pub count-find :
      (order : Option (String × Bool)) (f : PublisherInfoFilter)
      (s : PublisherInfoDatabase Conn Disk) {c : Conn}
      → s.initialized ≡ true
      → s.db ≡ some c
      → f.id ≡ ""
      → f.reconcile_stamp ≡ 0
      → f.order_by ≡ orders order
      → Counts (conditions_of l f) order
      → Evaluates q j (selection_of l (pos 0) (pos 0) order f)
      → (let rows = keep (wants l f) (j.joined c s.disk) in
          (count l q f s ≡ (returned (int_of_u32 (length rows % 2 ^ 32)), s))
          × (find l q (pos 0) (pos 0) f (some []) s
              ≡ (returned (true, some (sorted q j order rows)), s)))
  count-find order f s {c} ready o no_id no_stamp ordered counts evaluates = (
    counted-wants order f s ready o no_id no_stamp ordered counts,
    find-wants l q j (pos 0) (pos 0) order f [] s ready o ordered evaluates,
  )
