-- ===== src/Session/Methods/Pointer.antt =====
-- The pointer `ledger_` of driver/brave_rewards_service_impl.cc in histories of methods.
use bat_native_ledger_isolat.Prelude.{Bool, true, false, List, [], ◌∷◌, none, some, ◌≡◌}
use bat_native_ledger_isolat.Ledger.{Ledger}
use bat_native_ledger_isolat.Database.Action.{
  Ends, Safe, modify, steady_rules, Steady-pure, Safe-bind,
}
use bat_native_ledger_isolat.Service.{Clock}
use bat_native_ledger_isolat.Session.{
  Call, Told, Session, through, ask, read, tell, add_observer, remove_observer,
}
use bat_native_ledger_isolat.Session.Settings.{
  Sess, fetch_wallet_properties, set_rewards_main_enabled, set_auto_contribute,
}
use bat_native_ledger_isolat.Session.Wallet.{
  create_wallet, trigger_on_wallet_initialized, on_wallet_initialized, on_wallet_properties,
  on_grant, trigger_on_grant_captcha, on_recover_wallet, trigger_on_grant_finish, on_grant_finish,
  on_reconcile_complete, on_excluded_sites_changed, on_publisher_banner, get_current_balance_report,
}
use bat_native_ledger_isolat.Session.Visits.{
  on_load, on_post_data, on_xhr_load, trigger_on_get_publisher_activity_from_url,
  on_publisher_activity, get_publisher_activity_from_url, get_content_site_list,
}
use bat_native_ledger_isolat.Session.Methods.{
  Outside, Method, plain, create, granted, captcha, recovered, grant_finished, reconciled,
  excluded_sites, banner, current_report, load, post, xhr, activity, activity_from_url, site_list,
  add, remove, down, perform, run_methods,
}

abbrev pub HasLedger : {D : Type 0} → Session D → Type 0
HasLedger s = s.ledger ≡ true

-- No `Shutdown` is among the methods.
abbrev pub IsUp : {D : Type 0} → List (Method D) → Type 0
IsUp [] = Unit {0}
IsUp (down ∷ ms) = ⊥
IsUp (m ∷ ms) = IsUp ms

module _ {D : Type 0} where
  abbrev Keeps : {A : Type 0} → Sess D A → Type 0
  Keeps m = Safe HasLedger m (λ _. HasLedger) HasLedger

  through-Ends :
      {A : Type 0} (b : Bool) (a : A) (s after : Session D)
      → b ≡ true
      → HasLedger after
      → Ends (λ _. HasLedger) HasLedger (through b a s after)
  through-Ends true a s after e h = h
  through-Ends false a s after e h = cc

  ask-Keeps : (call : Call D) → Keeps (ask call)
  unfolding ask
  ask-Keeps call = record { at = λ s h. through-Ends s.ledger tt s _ h h }

  read-Keeps : {A : Type 0} (a : A) → Keeps (read a)
  unfolding read
  read-Keeps a = record { at = λ s h. through-Ends s.ledger a s s h h }

  tell-Keeps : (t : Told D) → Keeps (tell t)
  unfolding tell
  tell-Keeps t = record { at = λ s h. h }

  mark-Keeps : (b : Bool) → Keeps (modify (λ (s : Session D). record s { created_wallet = b }))
  unfolding modify
  mark-Keeps b = record { at = λ s h. h }

  ruleset pointer_rules = (steady_rules, ask-Keeps, read-Keeps, tell-Keeps)

  create_wallet-Keeps : Keeps create_wallet
  unfolding create_wallet
  create_wallet-Keeps = search (pointer_rules, mark-Keeps)

module _ {D : Type 0} (l : Ledger D) (o : Outside) (clock : Clock) where
  IsUp-head : (m : Method D) (ms : List (Method D)) → IsUp (m ∷ ms) → IsUp (m ∷ []) × IsUp ms
  IsUp-head down ms h = absurd h
  IsUp-head create ms h = (tt, h)
  IsUp-head _ ms h = (tt, h)

  perform-Keeps : (m : Method D) → IsUp (m ∷ []) → Keeps (perform l o clock m)
  unfolding perform fetch_wallet_properties set_rewards_main_enabled set_auto_contribute
      create_wallet trigger_on_wallet_initialized on_wallet_initialized on_wallet_properties
      on_grant trigger_on_grant_captcha on_recover_wallet trigger_on_grant_finish on_grant_finish
      on_reconcile_complete on_excluded_sites_changed on_publisher_banner get_current_balance_report
      on_load on_post_data on_xhr_load trigger_on_get_publisher_activity_from_url
      on_publisher_activity get_publisher_activity_from_url get_content_site_list add_observer
      remove_observer modify
  perform-Keeps (plain r) h = ask-Keeps _
  perform-Keeps create h = create_wallet-Keeps
  perform-Keeps (Method.wallet_initialized result) h = search pointer_rules
  perform-Keeps (Method.wallet_properties result info) h = record { at = λ s v. v }
  perform-Keeps (granted result grant) h = tell-Keeps _
  perform-Keeps (captcha image hint) h = tell-Keeps _
  perform-Keeps (recovered result balance grants) h = tell-Keeps _
  perform-Keeps (grant_finished result grant) h = search pointer_rules
  perform-Keeps (reconciled result id category probi) h = search pointer_rules
  perform-Keeps excluded_sites h = tell-Keeps _
  perform-Keeps (banner none) h = Steady-pure tt
  perform-Keeps (banner (some b)) h = tell-Keeps _
  perform-Keeps (current_report success) h = search pointer_rules
  perform-Keeps (load now tab_id url) h = search pointer_rules
  perform-Keeps (post tab_id url first_party_url referrer post_data) h = search pointer_rules
  perform-Keeps (xhr tab_id url first_party_url referrer) h = ask-Keeps _
  perform-Keeps (activity result info window_id) h = search pointer_rules
  perform-Keeps (activity_from_url window_id url favicon_url) h = search pointer_rules
  perform-Keeps (site_list new start limit) h = ask-Keeps _
  perform-Keeps (add observer) h = record { at = λ s v. v }
  perform-Keeps (remove observer) h = record { at = λ s v. v }
  perform-Keeps down h = absurd h

  -- From a service with its ledger, no history of methods without Shutdown goes through a null
  -- pointer, and the ledger is there at its end.
  pub run_methods-Safe :
      (ms : List (Method D))
      → IsUp ms
      → Safe HasLedger (run_methods l o clock ms) (λ _. HasLedger) HasLedger
  unfolding run_methods
  run_methods-Safe [] h = Steady-pure tt
  run_methods-Safe (m ∷ ms) h =
      Safe-bind (perform l o clock m) _ (perform-Keeps m (IsUp-head m ms h).0)
        (λ _. run_methods-Safe ms (IsUp-head m ms h).1)
