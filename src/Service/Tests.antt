-- ===== src/Service/Tests.antt =====
-- The theorems about driver/brave_rewards_service_impl.cc at concrete inputs.
use bat_native_ledger_isolat.Prelude.{
  ℕ, pos, true, false, List, [], ◌∷◌, ◌++◌, none, some, ◌≡◌, refl,
}
use bat_native_ledger_isolat.Ledger.{ledger_ok, ledger_error}
use bat_native_ledger_isolat.Database.Action.{returned, faulted, Ends}
use bat_native_ledger_isolat.Database.Tests.{constants, Rows, engine, opened, opened-Inv, tip}
use bat_native_ledger_isolat.Service.{
  publisher_state, ledger_state, media_publisher_info_loaded, contribution_info_saved,
  removed_recurring, state_saved, remove_answer, saved_answer, Clock, Service,
}
use bat_native_ledger_isolat.Service.Core.{with_backend}
use bat_native_ledger_isolat.Service.Publishers.{next_record, load_media_publisher_info}
use bat_native_ledger_isolat.Service.Donations.{save_contribution_info, on_remove_recurring}
use bat_native_ledger_isolat.Service.Files.{same_file, save_state}
use bat_native_ledger_isolat.Service.Dispatch.{run}
use bat_native_ledger_isolat.Service.Answers.{
  Ready, save_contribution_info-refreshes_nothing, on_remove_recurring-reports_error,
  load_media_publisher_info-faults,
}
use bat_native_ledger_isolat.Service.Paging.{next_record-skips}
use bat_native_ledger_isolat.Service.States.{save_state-reports_success}
use bat_native_ledger_isolat.Service.Safety.Tasks.{run-Safe}
use native.Mathlib.Omega.{arith}
use bat_native_ledger_isolat.Service.Timers.{Timers, no_timers, set_timers, allow_timers_run}
use bat_native_ledger_isolat.Service.Timers.Limits.{numbered, set_timers-allow_timers_run}
use bat_native_ledger_isolat.UrlFetcher.{CurlOption, UrlFetcher, get}
use bat_native_ledger_isolat.UrlFetcher.Tests.{curl, fresh}
use bat_native_ledger_isolat.Service.Loads.{Loads, on_url_fetch_complete}
use bat_native_ledger_isolat.Service.Loads.Once.{on_url_fetch_complete-answers_once}
use bat_native_ledger_isolat.Service.Drain.{join_all, join_all-finishes}

abbrev pub may_2019 : Clock
may_2019 = record { month = pos 5; year = pos 2019; time = 1556700000 }

-- A service with a database and one observer, whose second file does not open for writing.
abbrev service : Service ℕ ℕ Rows
service = record {
  ledger = true;
  backend = some opened;
  observers = 1 ∷ [];
  tasks = [];
  events = [];
  files = λ f. "";
  writable = λ f. same_file f ledger_state;
}

abbrev without_database : Service ℕ ℕ Rows
without_database = record service { backend = none }

run-Safe_example :
    Ends (λ _. Ready) Ready (run constants engine may_2019 (removed_recurring 3 true) service)
run-Safe_example =
    (run-Safe constants engine may_2019 (removed_recurring 3 true) tt).at service opened-Inv

save_contribution_info-refreshes_nothing_example :
    ((save_contribution_info constants engine tip service).1.tasks
      ≡ contribution_info_saved (pos 8) false ∷ [])
    × (run constants engine may_2019 (contribution_info_saved (pos 8) false) service
        ≡ (returned tt, service))
save_contribution_info-refreshes_nothing_example =
    save_contribution_info-refreshes_nothing constants engine may_2019 tip service service
      opened-Inv

on_remove_recurring-reports_error_example :
    ((on_remove_recurring constants engine "brave.com" 3 service).1.tasks
      ≡ removed_recurring 3 false ∷ [])
    × ((run constants engine may_2019 (removed_recurring 3 false) service).1.events
        ≡ remove_answer 3 ledger_error ∷ [])
on_remove_recurring-reports_error_example =
    on_remove_recurring-reports_error constants engine may_2019 "brave.com" 3 service service
      opened-Inv

load_media_publisher_info-faults_example :
    ((load_media_publisher_info constants engine "youtube_1" 3 without_database).1.tasks
      ≡ media_publisher_info_loaded 3 none ∷ [])
    × (run constants engine may_2019 (media_publisher_info_loaded 3 none) without_database
        ≡ (faulted, without_database))
unfolding with_backend
load_media_publisher_info-faults_example =
    load_media_publisher_info-faults constants engine may_2019 "youtube_1" 3 without_database
      without_database refl

abbrev numbers : List ℕ
numbers = 10 ∷ 11 ∷ 12 ∷ 13 ∷ 14 ∷ []

-- The page from record 1 on shows the first two, and the records 12 and 13 are on neither page.
next_record-skips_example : [] ++ (10 ∷ 11 ∷ []) ++ (12 ∷ 13 ∷ []) ++ (14 ∷ []) ≡ numbers
unfolding next_record
next_record-skips_example = next_record-skips 1 2 numbers (omega arith) (omega arith) refl

save_state-reports_success_example :
    ((save_state publisher_state "{}" 1 service).1.files ledger_state ≡ service.files ledger_state)
    × ((save_state publisher_state "{}" 1 service).1.tasks
        ≡ state_saved publisher_state 1 true ∷ [])
    × (run constants engine may_2019 (state_saved publisher_state 1 true) service
        ≡ (returned tt, record service { events = saved_answer publisher_state 1 ledger_ok ∷ [] }))
unfolding same_file
save_state-reports_success_example =
    save_state-reports_success constants engine may_2019 publisher_state ledger_state "{}" 1 service
      service refl

abbrev two_timers : Timers
two_timers = record no_timers { timer_id = 2; timers = (5, 1) ∷ (9, 2) ∷ [] }

-- The third timer is not set.
set_timers-allow_timers_run_example :
    (set_timers (30 ∷ 40 ∷ 50 ∷ []) (allow_timers_run 2 two_timers)).timers
    ≡ (5, 1) ∷ (9, 2) ∷ (30, 3) ∷ (40, 4) ∷ []
unfolding numbered
set_timers-allow_timers_run_example =
    set_timers-allow_timers_run 2 (30 ∷ 40 ∷ 50 ∷ []) two_timers (omega arith) (omega arith)

abbrev pub no_loads : Loads
no_loads = record { next_id = 1; fetchers = []; tasks = [] }

abbrev grants : UrlFetcher (List CurlOption)
grants = record {
  url_ = "https://brave.com/grants";
  metod = get;
  curl = [];
  response_code = pos 77;
  response_data = "";
  response_header_data = "";
}

abbrev one_load : Loads
one_load = record no_loads {
  fetchers = (4096, record { handler = 6; request_id = 1; url = "https://brave.com" }) ∷ [];
}

on_url_fetch_complete-answers_once_example :
    on_url_fetch_complete curl 4096 grants (on_url_fetch_complete curl 4096 fresh one_load)
    ≡ on_url_fetch_complete curl 4096 fresh one_load
on_url_fetch_complete-answers_once_example =
    on_url_fetch_complete-answers_once curl 4096 fresh grants one_load

abbrev busy : Service ℕ ℕ Rows
busy = record service {
  tasks = removed_recurring 3 true ∷ contribution_info_saved (pos 8) true ∷ [];
}

-- The first pending task is picked each time.
join_all-finishes_example :
    Ends
      (λ _ t. (t.tasks ≡ []) × Ready t)
      Ready
      (join_all constants engine may_2019 (λ s. 0) 4 busy)
join_all-finishes_example =
    join_all-finishes constants engine may_2019 (λ s. 0) 4 busy (λ s h. h) (omega arith)
      (tt, (tt, tt)) opened-Inv
