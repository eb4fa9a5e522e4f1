-- ===== src/Database/Safety.antt =====
-- The pointer `db_` of driver/publisher_info_database.cc in its methods, and what they leave behind.
pub mod Init
pub mod Methods
pub mod History
use bat_native_ledger_isolat.Prelude.{
  ℕ, ℤ, pos, ◌==ℤ◌, String, Bool, true, false, List, [], ◌∷◌, Option, none, some, if◌then◌else◌,
  ◌||◌, ◌≡◌, refl, arith,
}
use bat_native_ledger_isolat.Ledger.{PublisherInfo, PublisherInfoFilter, Ledger}
use bat_native_ledger_isolat.Database.{Value, Row, Reply, Sqlite, PublisherInfoDatabase}
use bat_native_ledger_isolat.Database.Action.{
  Outcome, returned, threw, faulted, Action, Ends, Safe, pure, gets, modify, attempt, succeeds,
  all_succeed, ◌>>=◌, ◌>>◌, Safe-bind, Safe-attempt, Safe-weaken, Steady-pure, Steady-gets,
  Steady-bind, Steady-attempt, Steady-succeeds, Steady-if, steady_rules,
}
use bat_native_ledger_isolat.Database.Engine.{Db, select, raise_if, exec, read_value, connect}
use bat_native_ledger_isolat.Database.Tables.{
  meta_table_init, create_publisher_info_table, create_contribution_info_table,
  create_activity_info_table, create_media_publisher_info_table, create_recurring_donation_table,
  create_contribution_info_index, create_activity_info_index, create_recurring_donation_index,
}
use bat_native_ledger_isolat.Database.Schema.{ensure_current_version, recover, create_schema, init}

abbrev pub IsOpen : {Conn : Type 0} → Option Conn → Type 0
IsOpen none = ⊥
IsOpen (some c) = Unit {0}

module _ {Conn Disk : Type 0} where
  -- An object that calls itself initialized has its connection.
  pub record Inv (s : PublisherInfoDatabase Conn Disk) : Type 0 where
    pub connected : s.initialized ≡ true → IsOpen s.db

  pub record Opened (b : Bool) (s : PublisherInfoDatabase Conn Disk) : Type 0 where
    pub is_open : IsOpen s.db
    pub flagged : s.initialized ≡ b

  pub record Shut (s : PublisherInfoDatabase Conn Disk) : Type 0 where
    pub flagged : s.initialized ≡ false

  pub Opened-Inv : {b : Bool} (s : PublisherInfoDatabase Conn Disk) → Opened b s → Inv s
  Opened-Inv s o = record { connected = λ _. o.is_open }

  pub Shut-Inv : (s : PublisherInfoDatabase Conn Disk) → Shut s → Inv s
  Shut-Inv s h = record { connected = λ e. cc }

  pub Opened-Shut : (s : PublisherInfoDatabase Conn Disk) → Opened false s → Shut s
  Opened-Shut s o = record { flagged = o.flagged }

module _ {D Conn Disk : Type 0} (q : Sqlite D Conn Disk) {b : Bool} where
  pub select-Steady :
      (sql : String) (args : List (Value D))
      → Safe (Opened b) (select q sql args) (λ _. Opened b) (Opened b)
  unfolding select
  select-Steady sql args = record { at = λ s o. ground arith }

  pub raise_if-Steady : (t : Bool) → Safe (Opened b) (raise_if q t) (λ _. Opened b) (Opened b)
  raise_if-Steady true = record { at = λ s o. o }
  raise_if-Steady false = record { at = λ s o. o }

  pub exec-Steady :
      (sql : String) (args : List (Value D))
      → Safe (Opened b) (exec q sql args) (λ _. Opened b) (Opened b)
  unfolding exec
  exec-Steady sql args =
      Steady-bind (select q sql args) _ (select-Steady sql args) (λ r. raise_if-Steady r.threw)

  pub read_value-Steady :
      (sql : String) (args : List (Value D))
      → Safe (Opened b) (read_value q sql args) (λ _. Opened b) (Opened b)
  unfolding read_value
  read_value-Steady sql args = record { at = λ s o. ground arith }

  pub ruleset statement_rules =
      (steady_rules, select-Steady, raise_if-Steady, exec-Steady, read_value-Steady)
