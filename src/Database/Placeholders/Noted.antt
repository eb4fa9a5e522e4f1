-- ===== src/Database/Placeholders/Noted.antt =====
-- An engine for driver/publisher_info_database.cc that also notes each statement that it is sent, with
-- the values bound to it.
use bat_native_ledger_isolat.Prelude.{
  String, Bool, true, false, List, [], ◌∷◌, ◌++◌, All, length, Option, none, some, Option-cases,
  ◌⊎◌, inl, inr, ◌≡◌, refl,
}
use bat_native_ledger_isolat.Database.{Value, Sqlite, PublisherInfoDatabase}
use bat_native_ledger_isolat.Database.Action.Keeping.{
  Keeps, Keeps-pure, Keeps-gets, Keeps-modify, Keeps-bind, Keeps-attempt, Keeps-if,
  Keeps-all_succeed, keeping_rules,
}
use bat_native_ledger_isolat.Database.Engine.{
  run_on, value_on, discard, select, raise_if, exec, read_value, connect,
}
use bat_native_ledger_isolat.Database.Writes.{select_activity_sql}
use bat_native_ledger_isolat.Database.Placeholders.{quoted, placeholders}
use bat_native_ledger_isolat.Database.Placeholders.Texts.{IsNeutral}

abbrev pub Statement : Type 0 → Type 0
Statement D = String × List (Value D)

module _ {D Conn Disk : Type 0} (q : Sqlite D Conn Disk) where
  abbrev noted :
      {A : Type 0}
      → String
      → List (Value D)
      → List (Statement D)
      → A × Disk
      → A × (Disk × List (Statement D))
  noted sql args log (a, disk) = (a, (disk, log ++ (sql, args) ∷ []))

  abbrev beside : {A : Type 0} → List (Statement D) → A × Disk → A × (Disk × List (Statement D))
  beside log (a, disk) = (a, (disk, log))

  -- The engine, with the statements that it was sent.
  abbrev pub noting : Sqlite D Conn (Disk × List (Statement D))
  noting = record {
    open_database = λ path d. beside d.1 (q.open_database path d.0);
    close_database = λ c d. (q.close_database c d.0, d.1);
    run = λ c sql args d. noted sql args d.1 (q.run c sql args d.0);
    run_value = λ c sql args d. noted sql args d.1 (q.run_value c sql args d.0);
    as_text = q.as_text;
    as_unsigned = q.as_unsigned;
    as_int = q.as_int;
    as_flag = q.as_flag;
    as_real = q.as_real;
  }

-- One value for each placeholder, and no literal left open.
pub record IsBound {D : Type 0} (statement : Statement D) : Type 0 where
  pub bound : placeholders false statement.0 ≡ length statement.1
  pub closed : quoted false statement.0 ≡ false

-- A value that is bound to no placeholder: the statement of `RemoveRecurring`.
pub record IsStray {D : Type 0} (statement : Statement D) : Type 0 where
  pub removes : statement.0 ≡ "DELETE FROM recurring_donation WHERE publisher_id = "
  pub unmarked : placeholders false statement.0 ≡ 0
  pub one_value : length statement.1 ≡ 1

-- The second run of the look-up of an activity, whose values were cleared.
pub record IsRerun {D : Type 0} (statement : Statement D) : Type 0 where
  pub repeats : statement.0 ≡ select_activity_sql
  pub unbound : length statement.1 ≡ 0

abbrev pub IsSent : {D : Type 0} → Statement D → Type 0
IsSent statement = IsBound statement ⊎ (IsStray statement ⊎ IsRerun statement)

abbrev pub Kept :
    {D Conn Disk : Type 0} → PublisherInfoDatabase Conn (Disk × List (Statement D)) → Type 0
Kept s = All IsSent s.disk.1

All-append :
    {D : Type 0} (xs : List (Statement D)) (x : Statement D)
    → All IsSent xs
    → IsSent x
    → All IsSent (xs ++ x ∷ [])
All-append [] x h k = (k, tt)
All-append (y ∷ xs) x h k = (h.0, All-append xs x h.1 k)

module _ {D Conn Disk : Type 0} (q : Sqlite D Conn Disk) where
  pub bound_lem :
      (sql : String) (args : List (Value D))
      → placeholders false sql ≡ length args
      → quoted false sql ≡ false
      → IsSent (sql, args)
  bound_lem sql args h k = inl (record { bound = h; closed = k })

  pub rerun_lem : IsSent {D = D} (select_activity_sql, [])
  rerun_lem = inr (inr (record { repeats = refl; unbound = refl }))

  pub neutral_lem : (sql : String) → IsNeutral sql → IsSent {D = D} (sql, [])
  neutral_lem sql h = inl (record { bound = h.unmarked; closed = h.closed })

  run_on-Kept :
      (o : Option Conn) (sql : String) (args : List (Value D))
      (s : PublisherInfoDatabase Conn (Disk × List (Statement D)))
      → IsSent (sql, args)
      → Kept s
      → Kept (run_on (noting q) o sql args s).1
  run_on-Kept none sql args s h v = v
  run_on-Kept (some c) sql args s h v = All-append s.disk.1 (sql, args) v h

  pub select-Keeps :
      (sql : String) (args : List (Value D))
      → IsSent (sql, args)
      → Keeps Kept (select (noting q) sql args)
  unfolding select
  select-Keeps sql args h = record { at = λ s v. run_on-Kept s.db sql args s h v }

  pub raise_if-Keeps : (b : Bool) → Keeps Kept (raise_if (noting q) b)
  raise_if-Keeps true = record { at = λ s v. v }
  raise_if-Keeps false = record { at = λ s v. v }

  pub exec-Keeps :
      (sql : String) (args : List (Value D))
      → IsSent (sql, args)
      → Keeps Kept (exec (noting q) sql args)
  unfolding exec
  exec-Keeps sql args h = Keeps-bind _ _ (select-Keeps sql args h) (λ r. raise_if-Keeps r.threw)

  value_on-Kept :
      (o : Option Conn) (sql : String) (args : List (Value D))
      (s : PublisherInfoDatabase Conn (Disk × List (Statement D)))
      → IsSent (sql, args)
      → Kept s
      → Kept (value_on (noting q) o sql args s).1
  value_on-Kept none sql args s h v = v
  value_on-Kept (some c) sql args s h v = elim (Option-cases (q.run_value c sql args s.disk.0).0) [
    | inl e ↦ rw (e, value_on) (All-append s.disk.1 (sql, args) v h)
    | inr (x, e) ↦ rw (e, value_on) (All-append s.disk.1 (sql, args) v h)
  ]

  pub read_value-Keeps :
      (sql : String) (args : List (Value D))
      → IsSent (sql, args)
      → Keeps Kept (read_value (noting q) sql args)
  unfolding read_value
  read_value-Keeps sql args h = record { at = λ s v. value_on-Kept s.db sql args s h v }

  discard-log : (o : Option Conn) (d : Disk × List (Statement D)) → (discard (noting q) o d).1 ≡ d.1
  discard-log none d = refl
  discard-log (some c) d = refl

  pub connect-Keeps : Keeps Kept (connect (noting q))
  unfolding connect
  connect-Keeps = record {
    at = λ s v. elim (Option-cases (q.open_database s.db_path s.disk.0).0) [
      | inl e ↦ rw (e, connect) v
      | inr (c, e) ↦ rw (e, connect) (rw (discard-log s.db) v)
    ];
  }

  pub ruleset sending_rules = (
    keeping_rules, exec-Keeps, select-Keeps, raise_if-Keeps, read_value-Keeps, connect-Keeps,
    bound_lem,
  )
