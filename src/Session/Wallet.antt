-- ===== src/Session/Wallet.antt =====
-- The wallet in driver/brave_rewards_service_impl.cc: what the ledger reports of it, and what the
-- observers are told.
pub mod Reports
use bat_native_ledger_isolat.Prelude.{
  ℕ, ℤ, String, Bool, true, false, List, [], ◌∷◌, ◌++◌, Option, none, some, if◌then◌else◌,
}
use bat_native_ledger_isolat.Prelude.Dict.{assign}
use bat_native_ledger_isolat.Ledger.{
  PublisherInfo, Grant, LedgerResult, ledger_ok, ledger_error, not_found, too_many_results,
  wallet_created, no_ledger_state, no_publisher_list, other_result, Ledger,
}
use bat_native_ledger_isolat.Database.Action.{Action, pure, gets, modify, ◌>>=◌, ◌>>◌}
use bat_native_ledger_isolat.Values.{
  BalanceReport, WalletProperties, PublisherBanner, new_balance_report, new_publisher_banner,
  new_wallet_properties,
}
use bat_native_ledger_isolat.Service.{Clock}
use bat_native_ledger_isolat.Session.{
  Request, Call, Told, Said, to_observer, Session, say, ask, read, tell,
}
use bat_native_ledger_isolat.Session.Settings.{
  Sess, fetch_wallet_properties, set_rewards_main_enabled, set_auto_contribute,
}

-- `ledger::WalletInfo` and `ledger::BalanceReportInfo`, the members that the service reads.
pub record WalletInfo (D : Type 0) : Type 0 where
  pub probi : String
  pub balance : D
  pub rates : List (String × D)
  pub parameters_choices : List D
  pub parameters_range : List D
  pub parameters_days : ℕ
  pub grants : List Grant

pub record BalanceReportInfo : Type 0 where
  pub opening_balance : String
  pub closing_balance : String
  pub grants : String
  pub earning_from_ads : String
  pub auto_contribute : String
  pub recurring_donation : String
  pub one_time_donation : String

abbrev pub is_ok : LedgerResult → Bool
is_ok ledger_ok = true
is_ok ledger_error = false
is_ok not_found = false
is_ok too_many_results = false
is_ok wallet_created = false
is_ok no_ledger_state = false
is_ok no_publisher_list = false
is_ok (other_result n) = false

abbrev pub is_wallet_created : LedgerResult → Bool
is_wallet_created wallet_created = true
is_wallet_created ledger_ok = false
is_wallet_created ledger_error = false
is_wallet_created not_found = false
is_wallet_created too_many_results = false
is_wallet_created no_ledger_state = false
is_wallet_created no_publisher_list = false
is_wallet_created (other_result n) = false

-- The loop of `GetAllBalanceReports`.
unfoldable pub converted_report : BalanceReportInfo → BalanceReport
unfolding new_balance_report
converted_report report = record new_balance_report {
  opening_balance = report.opening_balance;
  closing_balance = report.closing_balance;
  grants = report.grants;
  earning_from_ads = report.earning_from_ads;
  auto_contribute = report.auto_contribute;
  recurring_donation = report.recurring_donation;
  one_time_donation = report.one_time_donation;
}

unfoldable pub convert_reports :
    List (String × BalanceReport)
    → List (String × BalanceReportInfo)
    → List (String × BalanceReport)
unfolding assign converted_report
convert_reports out [] = out
convert_reports out (report ∷ reports) =
    convert_reports (assign out report.0 (converted_report report.1)) reports

module _ {D : Type 0} where
  unfoldable pub create_wallet : Sess D (Unit {0})
  unfolding pure modify ◌>>=◌ ask
  create_wallet = do
    created ← gets (λ s. s.created_wallet)
    if created
        then pure tt
        else (do ask Call.create_wallet; modify (λ s. record s { created_wallet = true }))

  unfoldable pub trigger_on_wallet_initialized : LedgerResult → Sess D (Unit {0})
  unfolding tell
  trigger_on_wallet_initialized error_code = tell (Told.wallet_initialized error_code)

  unfoldable pub on_wallet_initialized : LedgerResult → Sess D (Unit {0})
  unfolding ◌>>=◌ set_rewards_main_enabled set_auto_contribute trigger_on_wallet_initialized
  on_wallet_initialized result =
      if is_wallet_created result
      then (do
        set_rewards_main_enabled true
        set_auto_contribute true
        trigger_on_wallet_initialized ledger_ok)
      else trigger_on_wallet_initialized result

  unfoldable pub trigger_on_grant_captcha : String → String → Sess D (Unit {0})
  unfolding tell
  trigger_on_grant_captcha image hint = tell (Told.grant_captcha image hint)

  -- `time` is `std::time(nullptr)`.
  unfoldable pub on_reconcile_complete :
      Clock → LedgerResult → String → ℤ → String → Sess D (Unit {0})
  unfolding pure ◌>>=◌ fetch_wallet_properties ask tell
  on_reconcile_complete clock result viewing_id category probi = do
    if is_ok result
        then (do
          fetch_wallet_properties
          ask (
              Call.on_reconcile_complete_success viewing_id category probi clock.month clock.year
                clock.time))
        else pure tt
    tell (Told.reconcile_complete result viewing_id probi)

  unfoldable pub on_excluded_sites_changed : Sess D (Unit {0})
  unfolding tell
  on_excluded_sites_changed = tell Told.excluded_sites_changed

  -- `new_banner` is made from the banner where there is one.
  unfoldable pub on_publisher_banner : Option PublisherBanner → Sess D (Unit {0})
  unfolding pure tell new_publisher_banner
  on_publisher_banner none = pure tt
  on_publisher_banner (some banner) = tell (
      Told.publisher_banner (record new_publisher_banner {
        publisher_key = banner.publisher_key;
        title = banner.title;
        name = banner.name;
        description = banner.description;
        background = banner.background;
        logo = banner.logo;
        amounts = banner.amounts;
        social = banner.social;
      }))

  unfoldable pub get_all_balance_reports :
      List (String × BalanceReportInfo) → Sess D (List (String × BalanceReport))
  unfolding read convert_reports
  get_all_balance_reports reports = read (convert_reports [] reports)

  -- `TriggerOnGetCurrentBalanceReport` does nothing.
  unfoldable pub get_current_balance_report : Bool → Sess D (Unit {0})
  unfolding pure ◌>>=◌ read
  get_current_balance_report success = do read success; pure tt

module _ {D : Type 0} (l : Ledger D) where
  -- A grant without its promotion id, as the wallet's properties and a recovery have it.
  unfoldable pub plain_grant : Grant → Grant
  plain_grant grant = record l.default_grant {
    altcurrency = grant.altcurrency;
    probi = grant.probi;
    expiry_time = grant.expiry_time;
  }

  unfoldable pub plain_grants : List Grant → List Grant
  unfolding plain_grant
  plain_grants [] = []
  plain_grants (grant ∷ grants) = plain_grant grant ∷ plain_grants grants

  unfoldable pub grant_properties : Grant → Grant
  grant_properties grant = record l.default_grant {
    promotion_id = grant.promotion_id;
    altcurrency = grant.altcurrency;
    probi = grant.probi;
    expiry_time = grant.expiry_time;
  }

  unfoldable pub converted_info : WalletInfo D → WalletProperties D
  unfolding new_wallet_properties plain_grants
  converted_info info = record (new_wallet_properties l) {
    probi = info.probi;
    balance = info.balance;
    rates = info.rates;
    parameters_choices = info.parameters_choices;
    parameters_range = info.parameters_range;
    parameters_days = info.parameters_days;
    grants = plain_grants info.grants;
  }

  -- The loop over the observers, which returns at the first one where there is no info.
  unfoldable pub properties_told : LedgerResult → Option (WalletInfo D) → List ℕ → List (Said D)
  unfolding converted_info
  properties_told error_code info [] = []
  properties_told error_code none (o ∷ os) = []
  properties_told error_code (some info) (o ∷ os) =
      to_observer o (Told.wallet_properties error_code (converted_info info))
      ∷ properties_told error_code (some info) os

  unfoldable pub on_wallet_properties : LedgerResult → Option (WalletInfo D) → Sess D (Unit {0})
  unfolding modify properties_told
  on_wallet_properties error_code info =
      modify (λ s. say (properties_told error_code info s.observers) s)

  unfoldable pub on_grant : LedgerResult → Grant → Sess D (Unit {0})
  unfolding tell grant_properties
  on_grant result grant = tell (Told.grant result (grant_properties grant))

  unfoldable pub on_recover_wallet : LedgerResult → D → List Grant → Sess D (Unit {0})
  unfolding tell plain_grants
  on_recover_wallet result balance grants =
      tell (Told.recovered_wallet result balance (plain_grants grants))

  unfoldable pub trigger_on_grant_finish : LedgerResult → Grant → Sess D (Unit {0})
  unfolding tell grant_properties
  trigger_on_grant_finish result grant = tell (Told.grant_finish result (grant_properties grant))

  unfoldable pub on_grant_finish : Clock → LedgerResult → Grant → Sess D (Unit {0})
  unfolding pure ◌>>=◌ ask trigger_on_grant_finish
  on_grant_finish clock result grant = do
    if is_ok result
        then ask (Call.set_balance_report_item clock.month clock.year grant.probi)
        else pure tt
    trigger_on_grant_finish result grant
