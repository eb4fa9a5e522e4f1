-- ===== src/Database/Tables.antt =====
-- The tables and indexes of driver/publisher_info_database.cc. A literal that the source builds in
-- a stream around `name` is joined by `+++`.
use bat_native_ledger_isolat.Prelude.{ℤ, pos, Bool, [], ◌∷◌, ◌+++◌}
use bat_native_ledger_isolat.Database.{int, text, Sqlite}
use bat_native_ledger_isolat.Database.Action.{succeeds, ◌>>◌}
use bat_native_ledger_isolat.Database.Engine.{Db, exec}

abbrev pub k_current_version_number : ℤ
k_current_version_number = pos 1

abbrev k_compatible_version_number : ℤ
k_compatible_version_number = pos 1

abbrev pub get_current_version : ℤ
get_current_version = k_current_version_number

module _ {D Conn Disk : Type 0} (q : Sqlite D Conn Disk) where
  unfoldable pub meta_table_init : Db Conn Disk Bool
  unfolding exec
  meta_table_init = succeeds (do
    exec q
        "create table if not exists meta (key longvarchar not null unique primary key, value longvarchar);"
        []
    exec q "insert or replace into meta (key,value) values (?,?)"
        (text "version" ∷ int get_current_version ∷ [])
    exec q "insert or replace into meta (key,value) values (?,?)"
        (text "last_compatible_version" ∷ int k_compatible_version_number ∷ []))

  unfoldable pub create_contribution_info_table : Db Conn Disk Bool
  unfolding exec
  create_contribution_info_table = succeeds (
      exec q
        ("create table if not exists " +++ "contribution_info"
          +++ " (publisher_id LONGVARCHAR,probi TEXT \"0\"  NOT NULL,date INTEGER NOT NULL,category INTEGER NOT NULL,month INTEGER NOT NULL,year INTEGER NOT NULL,CONSTRAINT fk_contribution_info_publisher_id    FOREIGN KEY (publisher_id)    REFERENCES publisher_info (publisher_id)    ON DELETE CASCADE)")
        [])

  unfoldable pub create_contribution_info_index : Db Conn Disk Bool
  unfolding exec
  create_contribution_info_index = succeeds (
      exec q
        "CREATE INDEX IF NOT EXISTS contribution_info_publisher_id_index ON contribution_info (publisher_id);"
        [])

  unfoldable pub create_publisher_info_table : Db Conn Disk Bool
  unfolding exec
  create_publisher_info_table = succeeds (
      exec q
        ("CREATE TABLE IF NOT EXISTS " +++ "publisher_info"
          +++ " (publisher_id LONGVARCHAR PRIMARY KEY NOT NULL UNIQUE,verified BOOLEAN DEFAULT 0 NOT NULL,excluded INTEGER DEFAULT 0 NOT NULL,name TEXT NOT NULL,favIcon TEXT NOT NULL,url TEXT NOT NULL,provider TEXT NOT NULL)")
        [])

  unfoldable pub create_activity_info_table : Db Conn Disk Bool
  unfolding exec
  create_activity_info_table = succeeds (
      exec q
        ("CREATE TABLE IF NOT EXISTS " +++ "activity_info"
          +++ " (publisher_id LONGVARCHAR NOT NULL,duration INTEGER DEFAULT 0 NOT NULL,score DOUBLE DEFAULT 0 NOT NULL,percent INTEGER DEFAULT 0 NOT NULL,weight DOUBLE DEFAULT 0 NOT NULL,category INTEGER NOT NULL,month INTEGER NOT NULL,year INTEGER NOT NULL,reconcile_stamp INTEGER DEFAULT 0 NOT NULL,CONSTRAINT fk_activity_info_publisher_id    FOREIGN KEY (publisher_id)    REFERENCES publisher_info (publisher_id)    ON DELETE CASCADE)")
        [])

  unfoldable pub create_activity_info_index : Db Conn Disk Bool
  unfolding exec
  create_activity_info_index = succeeds (
      exec q
        "CREATE INDEX IF NOT EXISTS activity_info_publisher_id_index ON activity_info (publisher_id)"
        [])

  unfoldable pub create_media_publisher_info_table : Db Conn Disk Bool
  unfolding exec
  create_media_publisher_info_table = succeeds (
      exec q
        ("CREATE TABLE IF NOT EXISTS " +++ "media_publisher_info"
          +++ " (media_key TEXT NOT NULL PRIMARY KEY UNIQUE,publisher_id LONGVARCHAR NOT NULL,CONSTRAINT fk_media_publisher_info_publisher_id    FOREIGN KEY (publisher_id)    REFERENCES publisher_info (publisher_id)    ON DELETE CASCADE)")
        [])

  unfoldable pub create_recurring_donation_table : Db Conn Disk Bool
  unfolding exec
  create_recurring_donation_table = succeeds (
      exec q
        ("CREATE TABLE IF NOT EXISTS " +++ "recurring_donation"
          +++ "( publisher_id LONGVARCHAR NOT NULL PRIMARY KEY UNIQUE,amount DOUBLE DEFAULT 0 NOT NULL,added_date INTEGER DEFAULT 0 NOT NULL,CONSTRAINT fk_recurring_donation_publisher_id    FOREIGN KEY (publisher_id)    REFERENCES publisher_info (publisher_id)    ON DELETE CASCADE)")
        [])

  unfoldable pub create_recurring_donation_index : Db Conn Disk Bool
  unfolding exec
  create_recurring_donation_index = succeeds (
      exec q
        "CREATE INDEX IF NOT EXISTS recurring_donation_publisher_id_index ON recurring_donation (publisher_id)"
        [])
