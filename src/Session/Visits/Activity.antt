-- ===== src/Session/Visits/Activity.antt =====
-- Which visits driver/brave_rewards_service_impl.cc passes on to the ledger.
use bat_native_ledger_isolat.Prelude.{
  ℕ, String, empty, true, List, [], ◌∷◌, append-nil, Option, none, some, if◌then◌else◌, ◌≡◌, sym,
  ap, inl, inr, Bool-cases,
}
use bat_native_ledger_isolat.Ledger.{not_found, Ledger}
use bat_native_ledger_isolat.Database.Action.{Outcome, returned, pure, modify}
use bat_native_ledger_isolat.Service.{Clock}
use bat_native_ledger_isolat.Url.{CrackUrl, parsed, parse_url, tld_of}
use bat_native_ledger_isolat.Session.{
  of_arguments, of_members, Call, Told, Said, to_ledger, Session, say, each_observer, ask, tell,
}
use bat_native_ledger_isolat.Session.Visits.{
  on_parsed_load, on_load, shown_info, trigger_on_get_publisher_activity_from_url,
  on_publisher_activity, on_parsed_activity, get_publisher_activity_from_url,
}

module _ {D : Type 0} (l : Ledger D) (clock : Clock) where
  -- What a load says of the host and the path, where the URL is parsed.
  abbrev pub load_said : ℕ → ℕ → String → Option (String × String) → List (Said D)
  load_said now tab_id url none = []
  load_said now tab_id url (some (host, path)) =
      let tld = tld_of host in
      if empty tld
      then []
      else to_ledger (
          Call.on_load (of_arguments tld host path tab_id clock.month clock.year tld url "" "") now)
        ∷ []

  -- And the panel's question.
  abbrev pub panel_said : ℕ → String → String → List ℕ → Option (String × String) → List (Said D)
  panel_said window_id url favicon_url observers none = []
  panel_said window_id url favicon_url observers (some (host, path)) =
      let tld = tld_of host in
      if empty tld
      then each_observer
          (Told.publisher_activity not_found (record l.default_info { id = "" }) window_id)
          observers
      else to_ledger (
          Call.get_publisher_activity_from_url window_id
            (of_members tld path clock.month clock.year tld url favicon_url))
        ∷ []

  silent :
      (s : Session D)
      → ◌≡◌ {A = Outcome (Unit {0}) × Session D} (returned tt, s) (returned tt, say [] s)
  silent s =
      ap (λ (said : List (Said D)). (returned tt, record s { said = said }))
        (sym (append-nil s.said))

  parsed_load :
      (now tab_id : ℕ) (url : String) (o : Option (String × String)) (s : Session D)
      → s.ledger ≡ true
      → on_parsed_load clock now tab_id url (parsed o) s
        ≡ (returned tt, say (load_said now tab_id url o) s)
  unfolding pure ask
  parsed_load now tab_id url none s h = silent s
  parsed_load now tab_id url (some (host, path)) s h = elim (Bool-cases (empty (tld_of host))) [
    | inl e ↦ rw e (silent s)
    | inr e ↦ rw (e, h)
  ]

  parsed_activity :
      (window_id : ℕ) (url favicon_url : String) (o : Option (String × String)) (s : Session D)
      → s.ledger ≡ true
      → on_parsed_activity l clock window_id url favicon_url (parsed o) s
        ≡ (returned tt, say (panel_said window_id url favicon_url s.observers o) s)
  unfolding pure ask tell modify on_publisher_activity trigger_on_get_publisher_activity_from_url
      shown_info
  parsed_activity window_id url favicon_url none s h = silent s
  parsed_activity window_id url favicon_url (some (host, path)) s h =
      elim (Bool-cases (empty (tld_of host))) [ inl e ↦ rw e | inr e ↦ rw (e, h) ]

  -- With its ledger: of a URL that is not parsed, neither a load nor the panel's question says
  -- anything; where the domain is empty, the load says nothing and the question tells every observer
  -- NOT_FOUND with the info of no publisher; else each passes one visit to the ledger, with the domain
  -- as its name, and the load with the whole host too.
  pub visits_passed_on :
      (crack : CrackUrl) (now tab_id window_id : ℕ) (url favicon_url : String) (s : Session D)
      → s.ledger ≡ true
      → (on_load crack clock now tab_id url s
          ≡ (returned tt, say (load_said now tab_id url (crack url)) s))
        × (get_publisher_activity_from_url l crack clock window_id url favicon_url s
            ≡ (returned tt, say (panel_said window_id url favicon_url s.observers (crack url)) s))
  unfolding on_load get_publisher_activity_from_url parse_url
  visits_passed_on crack now tab_id window_id url favicon_url s h = (
    parsed_load now tab_id url (crack url) s h,
    parsed_activity window_id url favicon_url (crack url) s h,
  )
