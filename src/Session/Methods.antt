-- ===== src/Session/Methods.antt =====
-- Histories of the methods of driver/brave_rewards_service_impl.cc that concern the wallet, the
-- settings and the visits.
pub mod Keeping
pub mod Heard
pub mod Once
pub mod Pointer
use bat_native_ledger_isolat.Prelude.{ℕ, ℤ, String, Bool, List, [], ◌∷◌, Option}
use bat_native_ledger_isolat.Ledger.{
  PublisherInfo, PublisherInfoFilter, Grant, LedgerResult, Ledger,
}
use bat_native_ledger_isolat.Database.Action.{Action, pure, ◌>>=◌, ◌>>◌}
use bat_native_ledger_isolat.Values.{PublisherBanner}
use bat_native_ledger_isolat.Service.{Clock}
use bat_native_ledger_isolat.Url.{CrackUrl}
use bat_native_ledger_isolat.Session.{Request, Session, add_observer, remove_observer, shutdown}
use bat_native_ledger_isolat.Session.Settings.{Sess, forward}
use bat_native_ledger_isolat.Session.Wallet.{
  WalletInfo, create_wallet, on_wallet_initialized, on_wallet_properties, on_grant,
  trigger_on_grant_captcha, on_recover_wallet, on_grant_finish, on_reconcile_complete,
  on_excluded_sites_changed, on_publisher_banner, get_current_balance_report,
}
use bat_native_ledger_isolat.Session.Visits.{
  on_load, on_post_data, on_xhr_load, on_publisher_activity, get_publisher_activity_from_url,
  get_content_site_list,
}

-- What the methods use of Windows and of the ledger library.
pub record Outside : Type 0 where
  pub crack : CrackUrl
  pub decode : String → String

-- `plain` is each method that only passes its arguments on.
pub data Method (D : Type 0) : Type 0 where
  plain : Request D → Method D
  create : Method D
  wallet_initialized : LedgerResult → Method D
  wallet_properties : LedgerResult → Option (WalletInfo D) → Method D
  granted : LedgerResult → Grant → Method D
  captcha : String → String → Method D
  recovered : LedgerResult → D → List Grant → Method D
  grant_finished : LedgerResult → Grant → Method D
  reconciled : LedgerResult → String → ℤ → String → Method D
  excluded_sites : Method D
  banner : Option PublisherBanner → Method D
  current_report : Bool → Method D
  load : ℕ → ℕ → String → Method D
  post : ℕ → String → String → String → String → Method D
  xhr : ℕ → String → String → String → Method D
  activity : LedgerResult → Option (PublisherInfo D) → ℕ → Method D
  activity_from_url : ℕ → String → String → Method D
  site_list : PublisherInfoFilter → ℕ → ℕ → Method D
  add : ℕ → Method D
  remove : ℕ → Method D
  down : Method D

module _ {D : Type 0} (l : Ledger D) (o : Outside) (clock : Clock) where
  unfoldable pub perform : Method D → Sess D (Unit {0})
  perform (plain r) = forward r
  perform create = create_wallet
  perform (wallet_initialized result) = on_wallet_initialized result
  perform (wallet_properties result info) = on_wallet_properties l result info
  perform (granted result grant) = on_grant l result grant
  perform (captcha image hint) = trigger_on_grant_captcha image hint
  perform (recovered result balance grants) = on_recover_wallet l result balance grants
  perform (grant_finished result grant) = on_grant_finish l clock result grant
  perform (reconciled result id category probi) =
      on_reconcile_complete clock result id category probi
  perform excluded_sites = on_excluded_sites_changed
  perform (banner b) = on_publisher_banner b
  perform (current_report success) = get_current_balance_report success
  perform (load now tab_id url) = on_load o.crack clock now tab_id url
  perform (post tab_id url first_party_url referrer post_data) =
      on_post_data o.decode clock tab_id url first_party_url referrer post_data
  perform (xhr tab_id url first_party_url referrer) =
      on_xhr_load clock tab_id url first_party_url referrer
  perform (activity result info window_id) = on_publisher_activity l result info window_id
  perform (activity_from_url window_id url favicon_url) =
      get_publisher_activity_from_url l o.crack clock window_id url favicon_url
  perform (site_list new start limit) = get_content_site_list l clock new start limit
  perform (add observer) = add_observer observer
  perform (remove observer) = remove_observer observer
  perform down = shutdown

  -- One after the other; a fault ends it.
  unfoldable pub run_methods : List (Method D) → Sess D (Unit {0})
  unfolding pure ◌>>=◌ perform
  run_methods [] = pure tt
  run_methods (m ∷ ms) = perform m >> run_methods ms
