-- ===== src/Database/Engine.antt =====
-- The statements that driver/publisher_info_database.cc sends to `*db_`: each goes through the
-- pointer, and a fault is a null one.
use bat_native_ledger_isolat.Prelude.{String, Bool, true, false, List, Option, none, some}
use bat_native_ledger_isolat.Database.{Value, Reply, Sqlite, PublisherInfoDatabase}
use bat_native_ledger_isolat.Database.Action.{returned, threw, faulted, Action, ◌>>=◌}

abbrev pub Db : Type 0 → Type 0 → Type 0 → Type 0
Db Conn Disk A = Action (PublisherInfoDatabase Conn Disk) A

module _ {D Conn Disk : Type 0} (q : Sqlite D Conn Disk) where
  -- `*db_ << sql << args`, with the rows that came before an exception handed to `got`.
  abbrev pub run_on : Option Conn → String → List (Value D) → Db Conn Disk (Reply D)
  run_on none sql args s = (faulted, s)
  run_on (some c) sql args s =
      let (r, disk) = q.run c sql args s.disk in (returned r, record s { disk = disk })

  unfoldable pub select : String → List (Value D) → Db Conn Disk (Reply D)
  select sql args s = run_on s.db sql args s

  -- The same where the rows are not read: an exception is one at once.
  abbrev pub raise_if : Bool → Db Conn Disk (Unit {0})
  raise_if true s = (threw, s)
  raise_if false s = (returned tt, s)

  unfoldable pub exec : String → List (Value D) → Db Conn Disk (Unit {0})
  unfolding select
  exec sql args = do r ← select sql args; raise_if r.threw

  abbrev pub value_on : Option Conn → String → List (Value D) → Db Conn Disk (Value D)
  value_on none sql args s = (faulted, s)
  value_on (some c) sql args s =
      let (r, disk) = q.run_value c sql args s.disk in
      elim r [
        | none ↦ (threw, record s { disk = disk })
        | some v ↦ (returned v, record s { disk = disk })
      ]

  unfoldable pub read_value : String → List (Value D) → Db Conn Disk (Value D)
  read_value sql args s = value_on s.db sql args s

  abbrev pub discard : Option Conn → Disk → Disk
  discard none disk = disk
  discard (some c) disk = q.close_database c disk

  -- `db_ = std::make_unique<sqlite::database>(db_path_, config)`: the old connection goes last.
  unfoldable pub connect : Db Conn Disk (Unit {0})
  connect s =
      let (opened, disk) = q.open_database s.db_path s.disk in
      elim opened [
        | none ↦ (threw, record s { disk = disk })
        | some c ↦ (returned tt, record s { db = some c; disk = discard s.db disk })
      ]
