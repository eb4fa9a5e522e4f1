-- ===== src/Session/Wallet/Reports.antt =====
-- What the observers and the ledger are told of the wallet in driver/brave_rewards_service_impl.cc.
use bat_native_ledger_isolat.Prelude.{
  ℕ, ℤ, String, Bool, true, false, List, [], ◌∷◌, All, ◌++◌, append_assoc, append-nil, Option, none,
  some, eq_iff, if◌then◌else◌, ◌≡◌, refl, ap, arith,
}
use bat_native_ledger_isolat.Prelude.Dict.{lookup, assign, lookup-assign}
use bat_native_ledger_isolat.Ledger.{Grant, LedgerResult, ledger_ok, wallet_created, Ledger}
use bat_native_ledger_isolat.Database.Action.{returned, pure, modify, ◌>>=◌}
use bat_native_ledger_isolat.Values.{BalanceReport}
use bat_native_ledger_isolat.Service.{Clock}
use bat_native_ledger_isolat.Session.{
  Request, Call, Told, Said, to_ledger, Session, say, each_observer, ask, read, tell,
}
use bat_native_ledger_isolat.Session.Settings.{
  fetch_wallet_properties, set_rewards_main_enabled, set_auto_contribute,
}
use bat_native_ledger_isolat.Session.Wallet.{
  WalletInfo, BalanceReportInfo, is_ok, is_wallet_created, converted_report, convert_reports,
  get_all_balance_reports, trigger_on_wallet_initialized, on_wallet_initialized,
  on_reconcile_complete, plain_grant, plain_grants, converted_info, properties_told,
  on_wallet_properties, trigger_on_grant_finish, grant_properties, on_grant_finish,
}

-- The requests that turn a new wallet on.
abbrev pub turned_on : {D : Type 0} → Bool → List (Said D)
turned_on true =
    to_ledger (Call.request (Request.set_rewards_main_enabled true))
    ∷ to_ledger (Call.request (Request.set_auto_contribute true))
    ∷ []
turned_on false = []

module _ {D : Type 0} where
  -- With its ledger, OnWalletInitialized of a new wallet turns the rewards and the contributions on
  -- and tells every observer LEDGER_OK; of any other result, it tells them the result and nothing
  -- else.
  on_wallet_initialized-tells :
      (result : LedgerResult) (s : Session D)
      → s.ledger ≡ true
      → let created = is_wallet_created result in
        on_wallet_initialized result s ≡ (
          returned tt,
          say
              (turned_on created
                ++ each_observer
                    (Told.wallet_initialized (if created then ledger_ok else result))
                    s.observers)
              s,
        )
  unfolding on_wallet_initialized trigger_on_wallet_initialized set_rewards_main_enabled
      set_auto_contribute ask tell ◌>>=◌ modify
  on_wallet_initialized-tells wallet_created s h = rw (h, append_assoc, append_assoc)
  on_wallet_initialized-tells _ s h = refl

  -- With its ledger, OnGrantFinish writes the grant into the month's balance report exactly where the
  -- result is LEDGER_OK, and tells every observer the result with the grant either way.
  pub on_grant_finish-tells :
      (l : Ledger D) (clock : Clock) (result : LedgerResult) (grant : Grant) (s : Session D)
      → s.ledger ≡ true
      → on_grant_finish l clock result grant s ≡ (
        returned tt,
        say
            ((if is_ok result
                then to_ledger (Call.set_balance_report_item clock.month clock.year grant.probi)
                  ∷ []
                else [])
              ++ each_observer (Told.grant_finish result grant) s.observers)
            s,
      )
  unfolding on_grant_finish trigger_on_grant_finish grant_properties ask tell ◌>>=◌ modify pure
  on_grant_finish-tells l clock ledger_ok grant s h = rw (h, append_assoc)
  on_grant_finish-tells l clock _ grant s h = refl

  -- With its ledger, OnReconcileComplete fetches the wallet again and reports the contribution to the
  -- ledger, in this order, exactly where the result is LEDGER_OK, and tells every observer the result
  -- either way.
  pub on_reconcile_complete-tells :
      (clock : Clock) (result : LedgerResult) (id : String) (category : ℤ) (probi : String)
      (s : Session D)
      → s.ledger ≡ true
      → on_reconcile_complete clock result id category probi s ≡ (
        returned tt,
        say
            ((if is_ok result
                then to_ledger (Call.request Request.fetch_wallet_properties)
                  ∷ to_ledger (
                      Call.on_reconcile_complete_success id category probi clock.month clock.year
                        clock.time)
                  ∷ []
                else [])
              ++ each_observer (Told.reconcile_complete result id probi) s.observers)
            s,
      )
  unfolding on_reconcile_complete fetch_wallet_properties ask tell ◌>>=◌ modify pure
  on_reconcile_complete-tells clock ledger_ok id category probi s h =
      rw (h, append_assoc, append_assoc)
  on_reconcile_complete-tells clock _ id category probi s h = refl

-- The promotions of grants.
abbrev promotions : List Grant → List String
promotions [] = []
promotions (g ∷ gs) = g.promotion_id ∷ promotions gs

abbrev pub values_of : List Grant → List (String × String × ℕ)
values_of [] = []
values_of (g ∷ gs) = (g.altcurrency, g.probi, g.expiry_time) ∷ values_of gs

module _ {D : Type 0} (l : Ledger D) where
  plain_grants-values :
      (grants : List Grant)
      → (values_of (plain_grants l grants) ≡ values_of grants)
        × All (λ g. g.promotion_id ≡ l.default_grant.promotion_id) (plain_grants l grants)
  unfolding plain_grants plain_grant
  plain_grants-values [] = (refl, tt)
  plain_grants-values (g ∷ gs) = (
    ap (λ (vs : List (String × String × ℕ)). (g.altcurrency, g.probi, g.expiry_time) ∷ vs)
        (plain_grants-values gs).0,
    (refl, (plain_grants-values gs).1),
  )

  properties_told-each :
      (code : LedgerResult) (info : WalletInfo D) (os : List ℕ)
      → properties_told l code (some info) os
        ≡ each_observer (Told.wallet_properties code (converted_info l info)) os
  unfolding properties_told
  properties_told-each code info [] = refl
  properties_told-each code info (o ∷ os) = rw (properties_told-each code info os)

  properties_told-none : (code : LedgerResult) (os : List ℕ) → properties_told l code none os ≡ []
  unfolding properties_told
  properties_told-none code [] = refl
  properties_told-none code (o ∷ os) = refl

  -- OnWalletProperties of an info tells every observer the same properties, whose grants have the
  -- values of the wallet's and the promotion of a new grant in place of theirs; without an info it
  -- tells no observer anything, not even the result.
  pub on_wallet_properties-tells :
      (code : LedgerResult) (info : WalletInfo D) (s : Session D)
      → (on_wallet_properties l code (some info) s ≡ (
        returned tt,
        say (each_observer (Told.wallet_properties code (converted_info l info)) s.observers) s,
      ))
        × (values_of (converted_info l info).grants ≡ values_of info.grants)
        × All (λ g. g.promotion_id ≡ l.default_grant.promotion_id) (converted_info l info).grants
        × (on_wallet_properties l code none s ≡ (returned tt, s))
  unfolding on_wallet_properties converted_info modify
  on_wallet_properties-tells code info s = (
    ap (λ (new : List (Said D)). (returned tt, say new s))
        (properties_told-each code info s.observers),
    (plain_grants-values info.grants).0,
    (plain_grants-values info.grants).1,
    ap (λ (said : List (Said D)). (returned tt, record s { said = said }))
        (rw (properties_told-none code s.observers) (append-nil s.said)),
  )

-- Each name stands once, as in a `std::map`.
abbrev pub IsMap {ℓ} : {V : Type ℓ} → List (String × V) → Type ℓ
IsMap [] = Unit
IsMap (entry ∷ m) = (lookup entry.0 m ≡ none) × IsMap m

abbrev pub converted : Option BalanceReportInfo → Option BalanceReport → Option BalanceReport
converted none out = out
converted (some report) out = some (converted_report report)

lookup-convert_reports :
    (name : String) (out : List (String × BalanceReport))
    (reports : List (String × BalanceReportInfo))
    → IsMap reports
    → lookup name (convert_reports out reports) ≡ converted (lookup name reports) (lookup name out)
unfolding convert_reports lookup
lookup-convert_reports name out [] m = refl
lookup-convert_reports name out (entry ∷ reports) m = ground (
  arith,
  lookup-convert_reports name (assign out entry.0 (converted_report entry.1)) reports m.1,
  lookup-assign out entry.0 name (converted_report entry.1),
  eq_iff entry.0 name,
  m.0,
)

-- The seven values that a report takes over, and the two that it does not.
pub record TakesOver (report : BalanceReportInfo) (told : BalanceReport) : Type 0 where
  pub opening_balance : told.opening_balance ≡ report.opening_balance
  pub closing_balance : told.closing_balance ≡ report.closing_balance
  pub grants : told.grants ≡ report.grants
  pub earning_from_ads : told.earning_from_ads ≡ report.earning_from_ads
  pub auto_contribute : told.auto_contribute ≡ report.auto_contribute
  pub recurring_donation : told.recurring_donation ≡ report.recurring_donation
  pub one_time_donation : told.one_time_donation ≡ report.one_time_donation
  pub deposits : told.deposits ≡ "0"
  pub total : told.total ≡ "0"

-- A report where the ledger has one of the name, and none where it has none.
abbrev pub Matches : Option BalanceReportInfo → Option BalanceReport → Type 0
Matches (some report) (some told) = TakesOver report told
Matches none none = Unit {0}
Matches _ _ = ⊥

converted-Matches : (o : Option BalanceReportInfo) → Matches o (converted o none)
unfolding converted_report
converted-Matches none = tt
converted-Matches (some report) = record {
  opening_balance = refl;
  closing_balance = refl;
  grants = refl;
  earning_from_ads = refl;
  auto_contribute = refl;
  recurring_donation = refl;
  one_time_donation = refl;
  deposits = refl;
  total = refl;
}

-- With its ledger, where the ledger's reports have each name once, GetAllBalanceReports leaves the
-- service as it is and answers with reports that have, for every name that the ledger has a report
-- of and for no other, one with the ledger's values for the seven that it takes over, and with the
-- deposits and the total at the "0" of a new report.
pub get_all_balance_reports-lookup :
    {D : Type 0} (reports : List (String × BalanceReportInfo)) (s : Session D)
    → s.ledger ≡ true
    → IsMap reports
    → (answer : List (String × BalanceReport)) × (get_all_balance_reports reports s
        ≡ (returned answer, s))
      × ((name : String) → Matches (lookup name reports) (lookup name answer))
unfolding get_all_balance_reports read lookup
get_all_balance_reports-lookup reports s h m = (
  convert_reports [] reports,
  rw h,
  λ name. rw (lookup-convert_reports name [] reports m) (converted-Matches (lookup name reports)),
)
