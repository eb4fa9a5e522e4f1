-- ===== src/Session/Tests.antt =====
-- The theorems about the wallet, the settings and the visits at concrete inputs.
use bat_native_ledger_isolat.Prelude.{
  ℕ, String, ◌≤◌, pos, true, false, List, [], ◌∷◌, All, none, some, ◌≡◌, refl,
}
use bat_native_ledger_isolat.Prelude.Dict.{lookup}
use bat_native_ledger_isolat.Ledger.{Grant, ledger_ok, ledger_error, wallet_created}
use bat_native_ledger_isolat.Database.Action.{returned, Ends}
use bat_native_ledger_isolat.Database.Tests.{constants}
use bat_native_ledger_isolat.Service.Tests.{may_2019, no_loads}
use bat_native_ledger_isolat.Url.{CrackUrl}
use bat_native_ledger_isolat.Values.{BalanceReport}
use bat_native_ledger_isolat.Session.{Told, Session, say, each_observer}
use bat_native_ledger_isolat.Session.Wallet.{
  WalletInfo, BalanceReportInfo, get_all_balance_reports, on_wallet_properties, converted_info,
  on_grant_finish, on_reconcile_complete,
}
use bat_native_ledger_isolat.Session.Wallet.Reports.{
  values_of, Matches, on_grant_finish-tells, on_reconcile_complete-tells,
  on_wallet_properties-tells, get_all_balance_reports-lookup,
}
use bat_native_ledger_isolat.Session.Visits.{on_load, get_publisher_activity_from_url}
use bat_native_ledger_isolat.Session.Visits.Activity.{load_said, panel_said, visits_passed_on}
use bat_native_ledger_isolat.Session.Methods.{
  Outside, Method, create, load, grant_finished, add, remove, down, run_methods,
}
use bat_native_ledger_isolat.Session.Methods.Pointer.{HasLedger, run_methods-Safe}
use bat_native_ledger_isolat.Session.Methods.Heard.{Alike, run_methods-Alike}
use bat_native_ledger_isolat.Session.Methods.Once.{Counted, creations, run_methods-create_once}

abbrev session : Session ℕ
session = record {
  ledger = true;
  created_wallet = false;
  observers = 1 ∷ 2 ∷ [];
  loads = no_loads;
  said = [];
}

-- Every URL is taken for one page.
abbrev crack_url : CrackUrl
crack_url url = some ("www.brave.com", "/")

abbrev outside : Outside
outside = record { crack = crack_url; decode = λ s. s }

abbrev promotion : Grant
promotion = record { promotion_id = "p"; altcurrency = "BAT"; probi = "30"; expiry_time = 9 }

abbrev wallet : WalletInfo ℕ
wallet = record {
  probi = "1";
  balance = 3;
  rates = [];
  parameters_choices = 5 ∷ [];
  parameters_range = [];
  parameters_days = 30;
  grants = promotion ∷ [];
}

abbrev may_report : BalanceReportInfo
may_report = record {
  opening_balance = "1";
  closing_balance = "2";
  grants = "3";
  earning_from_ads = "4";
  auto_contribute = "5";
  recurring_donation = "6";
  one_time_donation = "7";
}

run_methods-Safe_example :
    Ends
      (λ _. HasLedger)
      HasLedger
      (run_methods constants outside may_2019
        (create ∷ load 0 1 "https://www.brave.com/" ∷ [])
        session)
run_methods-Safe_example =
    (run_methods-Safe constants outside may_2019 (create ∷ load 0 1 "https://www.brave.com/" ∷ [])
        tt).at
      session refl

run_methods-create_once_example :
    let end = (run_methods constants outside may_2019 (create ∷ down ∷ create ∷ []) session).1 in
    Counted end × (creations end.said ≤ 1)
run_methods-create_once_example =
    run_methods-create_once constants outside may_2019 (create ∷ down ∷ create ∷ []) session refl

-- The third observer comes and goes.
abbrev visitors : List (Method ℕ)
visitors =
    add 3
    ∷ Method.wallet_initialized wallet_created
    ∷ Method.wallet_properties ledger_ok (some wallet)
    ∷ remove 3
    ∷ grant_finished ledger_error promotion
    ∷ []

run_methods-Alike_example : Alike 1 2 (run_methods constants outside may_2019 visitors session).1
run_methods-Alike_example =
    run_methods-Alike constants outside may_2019 1 2 visitors session
      ((refl, refl), (tt, (tt, ((refl, refl), (tt, tt))))) (refl, refl)

on_grant_finish-tells_example :
    on_grant_finish constants may_2019 ledger_error promotion session ≡ (
      returned tt,
      say (each_observer (Told.grant_finish ledger_error promotion) (1 ∷ 2 ∷ [])) session,
    )
on_grant_finish-tells_example =
    on_grant_finish-tells constants may_2019 ledger_error promotion session refl

on_reconcile_complete-tells_example :
    on_reconcile_complete may_2019 ledger_error "v" (pos 2) "30" session ≡ (
      returned tt,
      say (each_observer (Told.reconcile_complete ledger_error "v" "30") (1 ∷ 2 ∷ [])) session,
    )
on_reconcile_complete-tells_example =
    on_reconcile_complete-tells may_2019 ledger_error "v" (pos 2) "30" session refl

on_wallet_properties-tells_example :
    (on_wallet_properties constants ledger_ok (some wallet) session ≡ (
      returned tt,
      say
          (each_observer
            (Told.wallet_properties ledger_ok (converted_info constants wallet))
            (1 ∷ 2 ∷ []))
          session,
    ))
    × (values_of (converted_info constants wallet).grants ≡ ("BAT", "30", 9) ∷ [])
    × All (λ g. g.promotion_id ≡ "") (converted_info constants wallet).grants
    × (on_wallet_properties constants ledger_ok none session ≡ (returned tt, session))
on_wallet_properties-tells_example = on_wallet_properties-tells constants ledger_ok wallet session

get_all_balance_reports-lookup_example :
    (answer : List (String × BalanceReport)) × (get_all_balance_reports
        (("2019_5", may_report) ∷ [])
        session
      ≡ (returned answer, session))
    × ((name : String) → Matches (lookup name (("2019_5", may_report) ∷ [])) (lookup name answer))
unfolding lookup
get_all_balance_reports-lookup_example =
    get_all_balance_reports-lookup (("2019_5", may_report) ∷ []) session refl (refl, tt)

visits_passed_on_example :
    (on_load crack_url may_2019 7 1 "https://www.brave.com/" session ≡ (
      returned tt,
      say
          (load_said constants may_2019 7 1 "https://www.brave.com/" (some ("www.brave.com", "/")))
          session,
    ))
    × (get_publisher_activity_from_url constants crack_url may_2019 3 "https://www.brave.com/" ""
          session
        ≡ (
          returned tt,
          say
              (panel_said constants may_2019 3 "https://www.brave.com/" ""
                (1 ∷ 2 ∷ [])
                (some ("www.brave.com", "/")))
              session,
        ))
visits_passed_on_example =
    visits_passed_on constants may_2019 crack_url 7 1 3 "https://www.brave.com/" "" session refl
