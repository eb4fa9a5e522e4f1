-- ===== src/Session/Visits.antt =====
-- What driver/brave_rewards_service_impl.cc makes of the pages that are visited. The calls with a tab
-- alone are in Session/Settings.antt.
pub mod Activity
use bat_native_ledger_isolat.Prelude.{
  ℕ, ℤ, String, empty, Bool, true, false, List, [], ◌∷◌, ◌++◌, Option, none, some, if◌then◌else◌,
}
use bat_native_ledger_isolat.Ledger.{
  PublisherInfo, PublisherInfoFilter, LedgerResult, ledger_ok, not_found, ledger_error,
  too_many_results, wallet_created, no_ledger_state, no_publisher_list, other_result, Ledger,
}
use bat_native_ledger_isolat.Database.Action.{Action, pure, modify}
use bat_native_ledger_isolat.Service.{ContentSite, Clock}
use bat_native_ledger_isolat.Service.Publishers.{content_site_of}
use bat_native_ledger_isolat.Url.{CrackUrl, ParsedUrl, parse_url}
use bat_native_ledger_isolat.Session.{
  VisitData, of_arguments, of_members, Call, Told, Session, ask, tell,
}
use bat_native_ledger_isolat.Session.Settings.{Sess}

-- `BraveRewardsServiceImpl` answers the panel where the result is one of these two.
abbrev pub is_answered : LedgerResult → Bool
is_answered ledger_ok = true
is_answered not_found = true
is_answered ledger_error = false
is_answered too_many_results = false
is_answered wallet_created = false
is_answered no_ledger_state = false
is_answered no_publisher_list = false
is_answered (other_result n) = false

module _ {D : Type 0} where
  abbrev pub on_parsed_load : Clock → ℕ → ℕ → String → ParsedUrl → Sess D (Unit {0})
  on_parsed_load clock now tab_id url p =
      if empty p.tld
      then pure tt
      else ask (
          Call.on_load
            (of_arguments p.tld p.host p.path tab_id clock.month clock.year p.tld url "" "") now)

  -- What `parseUrl` answers is not looked at.
  unfoldable pub on_load : CrackUrl → Clock → ℕ → ℕ → String → Sess D (Unit {0})
  unfolding pure ask parse_url
  on_load crack clock now tab_id url = on_parsed_load clock now tab_id url (parse_url crack url)

  -- `decode` is `braveledger_bat_helper::DecodeURLChars`.
  unfoldable pub on_post_data :
      (String → String) → Clock → ℕ → String → String → String → String → Sess D (Unit {0})
  unfolding pure ask
  on_post_data decode clock tab_id url first_party_url referrer post_data =
      if empty (decode post_data)
      then pure tt
      else ask (
          Call.on_post_data url first_party_url referrer (decode post_data)
            (of_arguments "" "" url tab_id clock.month clock.year "" "" "" ""))

  -- The parts of the query are commented out.
  unfoldable pub on_xhr_load : Clock → ℕ → String → String → String → Sess D (Unit {0})
  unfolding ask
  on_xhr_load clock tab_id url first_party_url referrer = ask (
      Call.on_xhr_load tab_id url [] first_party_url referrer
        (of_arguments "" "" url tab_id clock.month clock.year "" "" "" ""))

module _ {D : Type 0} (l : Ledger D) where
  -- The info that the observers see where there is none.
  unfoldable pub shown_info : Option (PublisherInfo D) → PublisherInfo D
  shown_info none = record l.default_info { id = "" }
  shown_info (some info) = info

  unfoldable pub trigger_on_get_publisher_activity_from_url :
      LedgerResult → Option (PublisherInfo D) → ℕ → Sess D (Unit {0})
  unfolding tell shown_info
  trigger_on_get_publisher_activity_from_url result info window_id =
      tell (Told.publisher_activity result (shown_info info) window_id)

  unfoldable pub on_publisher_activity :
      LedgerResult → Option (PublisherInfo D) → ℕ → Sess D (Unit {0})
  unfolding pure trigger_on_get_publisher_activity_from_url
  on_publisher_activity result info window_id =
      if is_answered result
      then trigger_on_get_publisher_activity_from_url result info window_id
      else pure tt

  abbrev pub on_parsed_activity : Clock → ℕ → String → String → ParsedUrl → Sess D (Unit {0})
  on_parsed_activity clock window_id url favicon_url p =
      if p.succeeded
      then (if empty p.tld
          then on_publisher_activity not_found none window_id
          else ask (
              Call.get_publisher_activity_from_url window_id
                (of_members p.tld p.path clock.month clock.year p.tld url favicon_url)))
      else pure tt

  unfoldable pub get_publisher_activity_from_url :
      CrackUrl → Clock → ℕ → String → String → Sess D (Unit {0})
  unfolding pure ask parse_url on_publisher_activity
  get_publisher_activity_from_url crack clock window_id url favicon_url =
      on_parsed_activity clock window_id url favicon_url (parse_url crack url)

  abbrev pub content_filter : Clock → PublisherInfoFilter → PublisherInfoFilter
  content_filter clock new = record new {
    category = l.auto_contribute;
    month = clock.month;
    year = clock.year;
    order_by = new.order_by ++ ("percent", false) ∷ [];
  }

  -- `new` is a new `ledger::PublisherInfoFilter`.
  unfoldable pub get_content_site_list : Clock → PublisherInfoFilter → ℕ → ℕ → Sess D (Unit {0})
  unfolding ask
  get_content_site_list clock new start limit =
      ask (Call.get_publisher_info_list start limit (content_filter clock new))
