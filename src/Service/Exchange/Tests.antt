-- ===== src/Service/Exchange/Tests.antt =====
-- Two calls with the callback 3, whose tasks run in the other order.
use bat_native_ledger_isolat.Prelude.{ℕ, true, List, [], ◌∷◌}
use bat_native_ledger_isolat.Database.Tests.{constants, Rows, engine}
use bat_native_ledger_isolat.Service.Tests.{may_2019}
use bat_native_ledger_isolat.Service.Safety.{Call}
use bat_native_ledger_isolat.Service.{of_ledger, ledger_state, Service, new_service}
use bat_native_ledger_isolat.Service.Exchange.{Move, called, ran, run_moves}
use bat_native_ledger_isolat.Service.Exchange.Adds.{Within}
use bat_native_ledger_isolat.Service.Exchange.Once.{run_moves-answers}

abbrev moves : List (Move ℕ)
moves =
    called (Call.load_file ledger_state 3)
    ∷ called (Call.remove "brave.com" 3)
    ∷ called (Call.recurring_list (of_ledger 4))
    ∷ ran 1
    ∷ ran 0
    ∷ []

-- A new service.
abbrev service : Service ℕ ℕ Rows
service = new_service "home" [] (λ f. "") (λ f. true)

run_moves-answers_example : Within 3 2 (run_moves constants engine may_2019 moves service)
run_moves-answers_example = run_moves-answers constants engine may_2019 3 moves service
