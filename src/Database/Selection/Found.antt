-- ===== src/Database/Selection/Found.antt =====
-- What `Find` of driver/publisher_info_database.cc finds.
use bat_native_ledger_isolat.Prelude.{
  ℤ, above, ltb, ◌==◌, ◌==ℤ◌, empty, String, str_eq, Bool, true, false, ◌&&◌, ◌||◌, not, List, [],
  ◌∷◌, ◌++◌, map, Option, some, if◌then◌else◌, ◌≡◌, refl, ap, ◌∙◌,
}
use bat_native_ledger_isolat.Ledger.{PublisherInfo, PublisherInfoFilter, Ledger}
use bat_native_ledger_isolat.Database.{Value, Reply, Sqlite, PublisherInfoDatabase}
use bat_native_ledger_isolat.Database.Action.{returned, pure, ◌>>=◌, continue}
use bat_native_ledger_isolat.Database.Engine.{Db, select}
use bat_native_ledger_isolat.Database.Activity.Save.{init-ready}
use bat_native_ledger_isolat.Database.Queries.{found_info, find}
use bat_native_ledger_isolat.Database.QueryText.{find_query}
use bat_native_ledger_isolat.Database.Selection.{
  excluded, equal, unequal, Condition, compares, meets, meets_all, keep, window, joined_row, Join,
  sorted, meaning, Evaluates,
}
use bat_native_ledger_isolat.Database.Selection.Texts.{
  provided, positive, above_one, orders, conditions_of, selection_of, find_query-selection_text,
}

module _ {D : Type 0} (l : Ledger D) where
  -- Whether a filter wants a publisher's row. `FILTER_ALL_EXCEPT_EXCLUDED` leaves out the rows whose
  -- state has its own number.
  abbrev pub wants : PublisherInfoFilter → PublisherInfo D → Bool
  wants f info =
      (empty f.id || str_eq info.id f.id)
      && ((f.category ==ℤ l.all_categories || info.category ==ℤ f.category)
          && ((f.month ==ℤ l.month_any || info.month ==ℤ f.month)
              && ((not (above f.year 0) || info.year ==ℤ f.year)
                  && ((not (ltb 0 f.reconcile_stamp) || info.reconcile_stamp == f.reconcile_stamp)
                      && ((not (ltb 0 f.min_duration) || not (ltb info.duration f.min_duration))
                          && (if f.excluded ==ℤ l.filter_all_except_excluded
                              then not (info.excluded ==ℤ f.excluded)
                              else f.excluded ==ℤ l.filter_all || info.excluded ==ℤ f.excluded))))))

  meets_all-provided :
      (b : Bool) (c : Condition) (cs : List Condition) (info : PublisherInfo D)
      → meets_all (provided b c cs) info ≡ ((not b || meets c info) && meets_all cs info)
  unfolding provided
  meets_all-provided true c cs info = refl
  meets_all-provided false c cs info = refl

  not-not_or : (a b : Bool) → (not (not a) || b) ≡ (a || b)
  not-not_or true b = refl
  not-not_or false b = refl

  excluded_or :
      (a e x : Bool)
      → ((not (not a && not e) || x) && ((not e || not x) && true)) ≡ (if e then not x else a || x)
  excluded_or true true true = refl
  excluded_or true true false = refl
  excluded_or true false true = refl
  excluded_or true false false = refl
  excluded_or false true true = refl
  excluded_or false true false = refl
  excluded_or false false true = refl
  excluded_or false false false = refl

  excluded_meets :
      (f : PublisherInfoFilter) (info : PublisherInfo D)
      → ((not (
              not (f.excluded ==ℤ l.filter_all)
              && not (f.excluded ==ℤ l.filter_all_except_excluded))
            || meets (compares excluded equal f.excluded) info)
          && ((not (f.excluded ==ℤ l.filter_all_except_excluded)
                || meets (compares excluded unequal f.excluded) info)
              && true))
        ≡ (if f.excluded ==ℤ l.filter_all_except_excluded
            then not (info.excluded ==ℤ f.excluded)
            else f.excluded ==ℤ l.filter_all || info.excluded ==ℤ f.excluded)
  excluded_meets f info =
      excluded_or (f.excluded ==ℤ l.filter_all) (f.excluded ==ℤ l.filter_all_except_excluded)
        (info.excluded ==ℤ f.excluded)

  pub meets_all-conditions_of :
      (f : PublisherInfoFilter) (info : PublisherInfo D)
      → meets_all (conditions_of l f) info ≡ wants f info
  unfolding conditions_of
  meets_all-conditions_of f info = simp (meets_all-provided, not-not_or, excluded_meets) refl

pub keep-same :
    {A : Type 0} (p p' : A → Bool) → ((x : A) → p x ≡ p' x) → (xs : List A) → keep p xs ≡ keep p' xs
keep-same p p' e [] = refl
keep-same p p' e (x ∷ xs) = simp (e x, keep-same p p' e xs)

module _ {D Conn Disk : Type 0} (l : Ledger D) (q : Sqlite D Conn Disk) (j : Join q) where
  found_info-joined_row : (info : PublisherInfo D) → found_info l q (joined_row info) ≡ info
  unfolding found_info
  found_info-joined_row info = simp (
    j.as_text-text, j.as_unsigned-unsigned, j.as_int-int, j.as_flag-flag, j.as_real-real,
    l.new_info-id, l.new_info-month, l.new_info-year,
  )

  map-found_info :
      (rows : List (PublisherInfo D)) → map (found_info l q) (map joined_row rows) ≡ rows
  map-found_info [] = refl
  map-found_info (info ∷ rows) = simp (found_info-joined_row info, map-found_info rows)

  pub select-eq :
      (sql : String) (args : List (Value D)) (s : PublisherInfoDatabase Conn Disk) {c : Conn}
      → s.db ≡ some c
      → select q sql args s
        ≡ (returned (q.run c sql args s.disk).0, record s { disk = (q.run c sql args s.disk).1 })
  unfolding select
  select-eq sql args s o = rw (o)

  -- What is made of the rows.
  unfoldable found : List (PublisherInfo D) → Reply D → Bool × Option (List (PublisherInfo D))
  found list r = (not r.threw, some (list ++ map (found_info l q) r.rows))

  find-select :
      (start limit : ℤ) (f : PublisherInfoFilter) (list : List (PublisherInfo D))
      (s : PublisherInfoDatabase Conn Disk)
      → s.initialized ≡ true
      → find l q start limit f (some list) s
        ≡ continue (select q (find_query l start limit f) [] s) (λ r. pure (found list r))
  unfolding find found ◌>>=◌
  find-select start limit f list s ready =
      ap (λ x. continue x (λ b. if b then reads else pure (false, some list)))
        (init-ready q s ready)
    where
      reads : Db Conn Disk (Bool × Option (List (PublisherInfo D)))
      reads = do r ← select q (find_query l start limit f) []; pure (found list r)

  pub answered-eq :
      (sql : String) (s : PublisherInfoDatabase Conn Disk) (r : Reply D) {c : Conn}
      → s.db ≡ some c
      → q.run c sql [] s.disk ≡ (r, s.disk)
      → select q sql [] s ≡ (returned r, s)
  answered-eq sql s r o e =
      select-eq sql [] s o ∙ ap (λ x. (returned x.0, record s { disk = x.1 })) e

  found-meaning :
      (start limit : ℤ) (order : Option (String × Bool)) (f : PublisherInfoFilter)
      (list rows : List (PublisherInfo D))
      → found list (record {
        rows = map joined_row (meaning q j (selection_of l start limit order f) rows);
        threw = false;
      })
        ≡ (
          true,
          some (
              list
              ++ window
                  (positive limit)
                  (above_one start)
                  (sorted q j order (keep (wants l f) rows))),
        )
  unfolding found
  found-meaning start limit order f list rows = simp (
    map-found_info,
    keep-same (meets_all (conditions_of l f)) (wants l f) (meets_all-conditions_of l f) rows,
  )

  -- In an initialized object, with an order of one column at most: where the engine answers the
  -- text of a selection with the rows that it means, Find answers true, keeps the object, and puts
  -- behind the list the rows of the join that the filter wants, in its order, from `start` on where
  -- that is above one and `limit` above zero, and as many as `limit` says where that is above zero.
  pub find-wants :
      (start limit : ℤ) (order : Option (String × Bool)) (f : PublisherInfoFilter)
      (list : List (PublisherInfo D)) (s : PublisherInfoDatabase Conn Disk) {c : Conn}
      → s.initialized ≡ true
      → s.db ≡ some c
      → f.order_by ≡ orders order
      → Evaluates q j (selection_of l start limit order f)
      → find l q start limit f (some list) s ≡ (
        returned (
          true,
          some (
              list
              ++ window
                  (positive limit)
                  (above_one start)
                  (sorted q j order (keep (wants l f) (j.joined c s.disk)))),
        ),
        s,
      )
  unfolding pure
  find-wants start limit order f list s {c} ready o ordered evaluates =
      find-select start limit f list s ready
      ∙ ap (λ x. continue x (λ r. pure (found list r)))
          (answered-eq _ s _ o (
            ap (λ sql. q.run c sql [] s.disk)
              (find_query-selection_text l start limit order f ordered)
            ∙ evaluates c s.disk))
      ∙ ap (λ x. (returned x, s)) (found-meaning start limit order f list (j.joined c s.disk))
