-- ===== src/Database.antt =====
-- driver/publisher_info_database.h and .cc: the object, the engine that it calls and the actions
-- on both. The methods are in the modules below.
pub mod Action
pub mod Engine
pub mod Tables
pub mod Schema
pub mod Writes
pub mod QueryText
pub mod Placeholders
pub mod Selection
pub mod Queries
pub mod Safety
pub mod Activity
pub mod Tests
pub mod Reports
use bat_native_ledger_isolat.Prelude.{
  ℕ, ℤ, String, ◌≡◌, Bool, true, false, List, Option, none, some, if◌then◌else◌,
}

-- What is bound to a `?`, and what a column holds.
pub data Value (D : Type 0) : Type 0 where
  int : ℤ → Value D
  unsigned : ℕ → Value D
  flag : Bool → Value D
  real : D → Value D
  text : String → Value D

abbrev pub Row : Type 0 → Type 0
Row D = List (Value D)

-- The rows that a statement yields until it is done or throws.
pub record Reply (D : Type 0) : Type 0 where
  pub rows : List (Row D)
  pub threw : Bool

-- SqliteModernCpp over SQLite (a submodule and a library). `Disk` is all that the engine keeps.
-- `open_database` fails by an exception; `run_value` is `>> value`, which wants one row; a
-- column is converted to the type of the lambda's parameter.
pub record Sqlite (D Conn Disk : Type 0) : Type 0 where
  pub open_database : String → Disk → Option Conn × Disk
  pub close_database : Conn → Disk → Disk
  pub run : Conn → String → List (Value D) → Disk → Reply D × Disk
  pub run_value : Conn → String → List (Value D) → Disk → Option (Value D) × Disk
  pub as_text : Option (Value D) → String
  pub as_unsigned : Option (Value D) → ℕ
  pub as_int : Option (Value D) → ℤ
  pub as_flag : Option (Value D) → Bool
  pub as_real : Option (Value D) → D

-- The object's fields, and the engine's state beside them.
pub record PublisherInfoDatabase (Conn Disk : Type 0) : Type 0 where
  pub db_path : String
  pub initialized : Bool
  pub db : Option Conn
  pub disk : Disk

-- The constructor.
unfoldable pub open_at : {Conn Disk : Type 0} → String → Disk → PublisherInfoDatabase Conn Disk
open_at path disk = record { db_path = path; initialized = false; db = none; disk = disk }
