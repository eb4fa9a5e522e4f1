-- ===== src/Session/Settings.antt =====
-- The methods of driver/brave_rewards_service_impl.cc that pass their arguments on to the ledger, and
-- those that pass on what the ledger has.
use bat_native_ledger_isolat.Prelude.{ℕ, String, Bool, List, []}
use bat_native_ledger_isolat.Prelude.Dict.{assign}
use bat_native_ledger_isolat.Database.Action.{Action}
use bat_native_ledger_isolat.Session.{
  unload, show, hide, foreground, background, media_start, media_stop, Request, Call, Session, ask,
  read,
}

abbrev pub Sess : Type 0 → Type 0 → Type 0
Sess D A = Action (Session D) A

-- What the ledger has.
pub record Replies (D : Type 0) : Type 0 where
  pub wallet_passphrase : String
  pub num_excluded_sites : ℕ
  pub reconcile_stamp : ℕ
  pub bat_address : String
  pub btc_address : String
  pub eth_address : String
  pub ltc_address : String
  pub contribution_amount : D
  pub wallet_created : Bool

module _ {D : Type 0} where
  abbrev pub forward : Request D → Sess D (Unit {0})
  forward r = ask (Call.request r)

  unfoldable pub init : Sess D (Unit {0})
  unfolding ask
  init = forward (Request.initialize)

  unfoldable pub fetch_wallet_properties : Sess D (Unit {0})
  unfolding ask
  fetch_wallet_properties = forward (Request.fetch_wallet_properties)

  unfoldable pub fetch_grant : String → String → Sess D (Unit {0})
  unfolding ask
  fetch_grant lang payment_id = forward (Request.fetch_grant lang payment_id)

  unfoldable pub get_grant_captcha : Sess D (Unit {0})
  unfolding ask
  get_grant_captcha = forward (Request.get_grant_captcha)

  unfoldable pub solve_grant_captcha : String → Sess D (Unit {0})
  unfolding ask
  solve_grant_captcha solution = forward (Request.solve_grant_captcha solution)

  unfoldable pub recover_wallet : String → Sess D (Unit {0})
  unfolding ask
  recover_wallet pass_phrase = forward (Request.recover_wallet pass_phrase)

  -- `SetPublisherExclude` with `EXCLUDED`.
  unfoldable pub exclude_publisher : String → Sess D (Unit {0})
  unfolding ask
  exclude_publisher publisher_key = forward (Request.exclude_publisher publisher_key)

  unfoldable pub restore_publishers : Sess D (Unit {0})
  unfolding ask
  restore_publishers = forward (Request.restore_publishers)

  unfoldable pub remove_recurring : String → Sess D (Unit {0})
  unfolding ask
  remove_recurring publisher_key = forward (Request.remove_recurring publisher_key)

  unfoldable pub set_rewards_main_enabled : Bool → Sess D (Unit {0})
  unfolding ask
  set_rewards_main_enabled enabled = forward (Request.set_rewards_main_enabled enabled)

  unfoldable pub set_publisher_min_visit_time : ℕ → Sess D (Unit {0})
  unfolding ask
  set_publisher_min_visit_time duration_in_seconds =
      forward (Request.set_publisher_min_visit_time duration_in_seconds)

  unfoldable pub set_publisher_min_visits : ℕ → Sess D (Unit {0})
  unfolding ask
  set_publisher_min_visits visits = forward (Request.set_publisher_min_visits visits)

  unfoldable pub set_publisher_allow_non_verified : Bool → Sess D (Unit {0})
  unfolding ask
  set_publisher_allow_non_verified allow = forward (Request.set_publisher_allow_non_verified allow)

  unfoldable pub set_publisher_allow_videos : Bool → Sess D (Unit {0})
  unfolding ask
  set_publisher_allow_videos allow = forward (Request.set_publisher_allow_videos allow)

  unfoldable pub set_contribution_amount : D → Sess D (Unit {0})
  unfolding ask
  set_contribution_amount amount = forward (Request.set_contribution_amount amount)

  unfoldable pub set_user_changed_contribution : Sess D (Unit {0})
  unfolding ask
  set_user_changed_contribution = forward (Request.set_user_changed_contribution)

  unfoldable pub set_auto_contribute : Bool → Sess D (Unit {0})
  unfolding ask
  set_auto_contribute enabled = forward (Request.set_auto_contribute enabled)

  -- `EXCLUDED` or `INCLUDED`.
  unfoldable pub set_contribution_auto_include : String → Bool → ℕ → Sess D (Unit {0})
  unfolding ask
  set_contribution_auto_include publisher_key excluded window_id =
      forward (Request.set_publisher_panel_exclude publisher_key excluded window_id)

  -- The answer goes to `OnPublisherBanner`.
  unfoldable pub get_publisher_banner : String → Sess D (Unit {0})
  unfolding ask
  get_publisher_banner publisher_id = forward (Request.get_publisher_banner publisher_id)

  -- `now` is `GetCurrentTimeStamp()`.
  unfoldable pub on_unload : ℕ → ℕ → Sess D (Unit {0})
  unfolding ask
  on_unload now tab_id = forward (Request.tab_event unload tab_id now)

  unfoldable pub on_show : ℕ → ℕ → Sess D (Unit {0})
  unfolding ask
  on_show now tab_id = forward (Request.tab_event show tab_id now)

  unfoldable pub on_hide : ℕ → ℕ → Sess D (Unit {0})
  unfolding ask
  on_hide now tab_id = forward (Request.tab_event hide tab_id now)

  unfoldable pub on_foreground : ℕ → ℕ → Sess D (Unit {0})
  unfolding ask
  on_foreground now tab_id = forward (Request.tab_event foreground tab_id now)

  unfoldable pub on_background : ℕ → ℕ → Sess D (Unit {0})
  unfolding ask
  on_background now tab_id = forward (Request.tab_event background tab_id now)

  unfoldable pub on_media_start : ℕ → ℕ → Sess D (Unit {0})
  unfolding ask
  on_media_start now tab_id = forward (Request.tab_event media_start tab_id now)

  unfoldable pub on_media_stop : ℕ → ℕ → Sess D (Unit {0})
  unfolding ask
  on_media_stop now tab_id = forward (Request.tab_event media_stop tab_id now)

module _ {D : Type 0} (r : Replies D) where
  unfoldable pub get_wallet_passphrase : Sess D String
  unfolding read
  get_wallet_passphrase = read r.wallet_passphrase

  unfoldable pub get_num_excluded_sites : Sess D ℕ
  unfolding read
  get_num_excluded_sites = read r.num_excluded_sites

  unfoldable pub get_reconcile_stamp : Sess D ℕ
  unfolding read
  get_reconcile_stamp = read r.reconcile_stamp

  unfoldable pub is_wallet_created : Sess D Bool
  unfolding read
  is_wallet_created = read r.wallet_created

  unfoldable pub get_contribution_amount : Sess D D
  unfolding read
  get_contribution_amount = read r.contribution_amount

  unfoldable pub get_addresses : Sess D (List (String × String))
  unfolding read
  get_addresses = read (
      assign
        (assign (assign (assign [] "BAT" r.bat_address) "BTC" r.btc_address) "ETH" r.eth_address)
        "LTC" r.ltc_address)
