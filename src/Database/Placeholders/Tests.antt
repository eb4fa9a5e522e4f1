-- ===== src/Database/Placeholders/Tests.antt =====
-- A history that saves, finds and removes.
use bat_native_ledger_isolat.Prelude.{ℕ, pos, true, false, List, [], ◌∷◌, All, none, some, refl}
use bat_native_ledger_isolat.Database.{PublisherInfoDatabase}
use bat_native_ledger_isolat.Database.Tests.{constants, Rows, engine, may, this_month}
use bat_native_ledger_isolat.Database.Safety.History.{
  Method, insert_publisher, find_list, remove, run_history,
}
use bat_native_ledger_isolat.Database.Placeholders.Noted.{Statement, noting, IsSent}
use bat_native_ledger_isolat.Database.Placeholders.Sent.{run_history-IsSent}

abbrev calls : List (Method ℕ)
calls =
    insert_publisher may
    ∷ find_list (pos 0) (pos 10)
        (record this_month { id = "brave.com"; order_by = ("ai.weight", true) ∷ [] }) (some [])
    ∷ remove "brave.com"
    ∷ []

abbrev fresh : PublisherInfoDatabase ℕ (Rows × List (Statement ℕ))
fresh = record { db_path = "publishers"; initialized = false; db = none; disk = ([], []) }

run_history-IsSent_example : All IsSent (run_history constants (noting engine) calls fresh).1.disk.1
run_history-IsSent_example =
    run_history-IsSent constants engine calls fresh (tt, ((search), (tt, tt))) refl
