-- ===== src/Service/Found/Tests.antt =====
-- Loads of publishers of driver/brave_rewards_service_impl.cc over a database of four rows.
use bat_native_ledger_isolat.Prelude.{ℕ, pos, true, List, [], ◌∷◌, none, some, ◌≡◌, refl}
use bat_native_ledger_isolat.Ledger.{PublisherInfo, PublisherInfoFilter}
use bat_native_ledger_isolat.Database.Action.{returned}
use bat_native_ledger_isolat.Database.Tests.{constants, this_month}
use bat_native_ledger_isolat.Database.Selection.{Selection}
use bat_native_ledger_isolat.Database.Selection.Texts.{selection_of}
use bat_native_ledger_isolat.Database.Selection.Tests.{
  knowing, join, knowing-Evaluates, weighing, stored,
}
use bat_native_ledger_isolat.Service.{Task, list_answer, Service}
use bat_native_ledger_isolat.Service.Publishers.{load_publisher_info, load_publisher_info_list}
use bat_native_ledger_isolat.Service.Dispatch.{run}
use bat_native_ledger_isolat.Service.Tests.{may_2019}
use bat_native_ledger_isolat.Service.Found.{
  one_answer, of_month, load_publisher_info-one_answer, load_publisher_info_list-shown,
}

abbrev service : Service ℕ ℕ (List (PublisherInfo ℕ))
service = record {
  ledger = true;
  backend = some stored;
  observers = [];
  tasks = [];
  events = [];
  files = λ f. "";
  writable = λ f. true;
}

-- Three rows are of the month.
abbrev unordered : PublisherInfoFilter
unordered = record this_month { order_by = [] }

abbrev of_two : Selection
of_two = selection_of constants (pos 0) (pos 2) none unordered

load_publisher_info-one_answer_example :
    (task : Task ℕ) × (load_publisher_info constants (knowing of_two) unordered 5 service
      ≡ (returned tt, record service { tasks = task ∷ [] }))
    × (run constants (knowing of_two) may_2019 task service ≡ (
      returned tt,
      record service { events = one_answer 5 (weighing 30 ∷ weighing 10 ∷ weighing 20 ∷ []) ∷ [] },
    ))
load_publisher_info-one_answer_example =
    load_publisher_info-one_answer constants (knowing of_two) (join of_two) may_2019 unordered none
      5 service service refl refl refl refl (knowing-Evaluates of_two)

abbrev lightest : Selection
lightest =
    selection_of constants (pos 1) (pos 2) (some ("ai.weight", true))
      (of_month may_2019 0 (record unordered { order_by = ("ai.weight", true) ∷ [] }))

-- Asked for the second on, it answers with the first two.
load_publisher_info_list-shown_example :
    (task : Task ℕ) × (load_publisher_info_list constants
        (knowing lightest)
        may_2019
        0
        1
        2
        (record unordered { order_by = ("ai.weight", true) ∷ [] })
        5
        service
      ≡ (returned tt, record service { tasks = task ∷ [] }))
    × (run constants (knowing lightest) may_2019 task service ≡ (
      returned tt,
      record service { events = list_answer 5 (weighing 10 ∷ weighing 20 ∷ []) 4 ∷ [] },
    ))
load_publisher_info_list-shown_example =
    load_publisher_info_list-shown constants (knowing lightest) (join lightest) may_2019 0 1 2
      (record unordered { order_by = ("ai.weight", true) ∷ [] }) (some ("ai.weight", true)) 5
      service service refl refl refl refl refl (knowing-Evaluates lightest)
