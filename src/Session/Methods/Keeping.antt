-- ===== src/Session/Methods/Keeping.antt =====
-- Conditions that every method of driver/brave_rewards_service_impl.cc keeps, however it ends.
use bat_native_ledger_isolat.Prelude.{
  ℕ, Bool, true, false, List, [], ◌∷◌, All, Option, none, some, ◌≡◌, refl,
}
use bat_native_ledger_isolat.Ledger.{LedgerResult, Ledger}
use bat_native_ledger_isolat.Database.Action.Keeping.{Keeps, Keeps-pure, Keeps-bind, keeping_rules}
use bat_native_ledger_isolat.Service.{Clock}
use bat_native_ledger_isolat.Session.{
  Call, Told, Said, to_ledger, Session, through, say, ask, read, tell, shutdown, add_observer,
  remove_observer,
}
use bat_native_ledger_isolat.Session.Settings.{
  fetch_wallet_properties, set_rewards_main_enabled, set_auto_contribute,
}
use bat_native_ledger_isolat.Session.Wallet.{
  WalletInfo, create_wallet, trigger_on_wallet_initialized, on_wallet_initialized,
  on_wallet_properties, on_grant, trigger_on_grant_captcha, on_recover_wallet,
  trigger_on_grant_finish, on_grant_finish, on_reconcile_complete, on_excluded_sites_changed,
  on_publisher_banner, get_current_balance_report,
}
use bat_native_ledger_isolat.Session.Visits.{
  on_load, on_post_data, on_xhr_load, trigger_on_get_publisher_activity_from_url,
  on_publisher_activity, get_publisher_activity_from_url, get_content_site_list,
}
use bat_native_ledger_isolat.Session.Methods.{
  Outside, Method, plain, create, granted, captcha, recovered, grant_finished, reconciled,
  excluded_sites, banner, current_report, load, post, xhr, activity, activity_from_url, site_list,
  add, remove, down, perform, run_methods,
}

abbrev pub creation : {D : Type 0} → Said D → ℕ
creation (to_ledger Call.create_wallet) = 1
creation _ = 0

through-keeps :
    {D : Type 0} (P : Session D → Type 0) {A : Type 0} (b : Bool) (a : A) (s after : Session D)
    → P s
    → P after
    → P (through b a s after).1
through-keeps P true a s after h k = k
through-keeps P false a s after h k = h

module _ {D : Type 0} {P : Session D → Type 0} where
  -- A call through the pointer, where what it says is kept.
  pub Keeps-ask :
      (call : Call D)
      → ((s : Session D) → P s → P (say (to_ledger call ∷ []) s))
      → Keeps P (ask call)
  unfolding ask
  Keeps-ask call h = record { at = λ s v. through-keeps P s.ledger tt s _ v (h s v) }

  Keeps-read : {A : Type 0} (a : A) → Keeps P (read a)
  unfolding read
  Keeps-read a = record { at = λ s h. through-keeps P s.ledger a s s h h }

  ruleset keep_rules = (keeping_rules, Keeps-read)

module _ {D : Type 0} (l : Ledger D) (o : Outside) (clock : Clock) where
  -- What a condition is kept by, with which each method keeps it.
  pub record Rules (P : Session D → Type 0) : Type 0 where
    pub asks : (call : Call D) → creation (to_ledger call) ≡ 0 → Keeps P (ask call)
    pub creates : Keeps P create_wallet
    pub tells : (t : Told D) → Keeps P (tell t)
    pub properties :
        (result : LedgerResult) (info : Option (WalletInfo D))
        → Keeps P (on_wallet_properties l result info)

  -- The methods on which a condition may depend.
  abbrev pub Special : (Session D → Type 0) → Method D → Type 0
  Special P (add observer) = Keeps P (add_observer observer)
  Special P (remove observer) = Keeps P (remove_observer observer)
  Special P down = Keeps P shutdown
  Special P _ = Unit {0}

  perform-Keeps :
      {P : Session D → Type 0}
      → Rules P
      → (m : Method D) → Special P m
      → Keeps P (perform l o clock m)
  unfolding perform fetch_wallet_properties set_rewards_main_enabled set_auto_contribute
      trigger_on_wallet_initialized on_wallet_initialized on_grant trigger_on_grant_captcha
      on_recover_wallet trigger_on_grant_finish on_grant_finish on_reconcile_complete
      on_excluded_sites_changed on_publisher_banner get_current_balance_report on_load on_post_data
      on_xhr_load trigger_on_get_publisher_activity_from_url on_publisher_activity
      get_publisher_activity_from_url get_content_site_list
  perform-Keeps r (plain request) h = r.asks _ refl
  perform-Keeps r create h = r.creates
  perform-Keeps r (Method.wallet_initialized result) h = search (keep_rules, r.asks, r.tells)
  perform-Keeps r (Method.wallet_properties result info) h = r.properties result info
  perform-Keeps r (granted result grant) h = r.tells _
  perform-Keeps r (captcha image hint) h = r.tells _
  perform-Keeps r (recovered result balance grants) h = r.tells _
  perform-Keeps r (grant_finished result grant) h = search (keep_rules, r.asks, r.tells)
  perform-Keeps r (reconciled result id category probi) h = search (keep_rules, r.asks, r.tells)
  perform-Keeps r excluded_sites h = r.tells _
  perform-Keeps r (banner none) h = Keeps-pure tt
  perform-Keeps r (banner (some b)) h = r.tells _
  perform-Keeps r (current_report success) h = search keep_rules
  perform-Keeps r (load now tab_id url) h = search (keep_rules, r.asks)
  perform-Keeps r (post tab_id url first_party_url referrer post_data) h =
      search (keep_rules, r.asks)
  perform-Keeps r (xhr tab_id url first_party_url referrer) h = r.asks _ refl
  perform-Keeps r (activity result info window_id) h = search (keep_rules, r.tells)
  perform-Keeps r (activity_from_url window_id url favicon_url) h =
      search (keep_rules, r.asks, r.tells)
  perform-Keeps r (site_list new start limit) h = r.asks _ refl
  perform-Keeps r (add observer) h = h
  perform-Keeps r (remove observer) h = h
  perform-Keeps r down h = h

  pub run_methods-Keeps :
      {P : Session D → Type 0}
      → Rules P
      → (ms : List (Method D)) → All (Special P) ms
      → Keeps P (run_methods l o clock ms)
  unfolding run_methods
  run_methods-Keeps r [] h = Keeps-pure tt
  run_methods-Keeps r (m ∷ ms) h =
      Keeps-bind (perform l o clock m) _ (perform-Keeps r m h.0) (λ _. run_methods-Keeps r ms h.1)
