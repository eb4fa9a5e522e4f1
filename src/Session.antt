-- ===== src/Session.antt =====
-- driver/brave_rewards_service_impl.h and .cc: what the service says to the ledger and to its
-- observers of the wallet, the settings and the visits. `ledger_` is null behind `Shutdown`, and a
-- call through it then is a fault.
pub mod Settings
pub mod Wallet
pub mod Visits
pub mod Methods
mod Tests
use bat_native_ledger_isolat.Prelude.{
  ℕ, ℤ, String, Bool, true, false, List, [], ◌∷◌, ◌++◌, Option, ◌==◌, if◌then◌else◌,
}
use bat_native_ledger_isolat.Ledger.{PublisherInfo, PublisherInfoFilter, Grant, LedgerResult}
use bat_native_ledger_isolat.Database.Action.{Outcome, returned, faulted, Action, gets, modify}
use bat_native_ledger_isolat.Values.{WalletProperties, PublisherBanner}
use bat_native_ledger_isolat.Service.Loads.{Loads}

-- `ledger::VisitData`, by its constructor's arguments in order, or by the members that
-- `GetPublisherActivityFromUrl` sets.
pub data VisitData : Type 0 where
  of_arguments :
      String → String → String → ℕ → ℤ → ℤ → String → String → String → String → VisitData
  of_members : String → String → ℤ → ℤ → String → String → String → VisitData

pub data TabEvent : Type 0 where
  unload show hide foreground background media_start media_stop : TabEvent

-- The calls of the ledger that a method makes with its own arguments, and does nothing else.
pub data Request (D : Type 0) : Type 0 where
  initialize : Request D
  fetch_wallet_properties : Request D
  fetch_grant : String → String → Request D
  get_grant_captcha : Request D
  solve_grant_captcha : String → Request D
  recover_wallet : String → Request D
  exclude_publisher : String → Request D
  restore_publishers : Request D
  remove_recurring : String → Request D
  set_rewards_main_enabled : Bool → Request D
  set_publisher_min_visit_time : ℕ → Request D
  set_publisher_min_visits : ℕ → Request D
  set_publisher_allow_non_verified : Bool → Request D
  set_publisher_allow_videos : Bool → Request D
  set_contribution_amount : D → Request D
  set_user_changed_contribution : Request D
  set_auto_contribute : Bool → Request D
  set_publisher_panel_exclude : String → Bool → ℕ → Request D
  get_publisher_banner : String → Request D
  tab_event : TabEvent → ℕ → ℕ → Request D

-- All calls of the ledger.
pub data Call (D : Type 0) : Type 0 where
  request : Request D → Call D
  create_wallet : Call D
  set_balance_report_item : ℤ → ℤ → String → Call D
  on_reconcile_complete_success : String → ℤ → String → ℤ → ℤ → ℕ → Call D
  get_publisher_info_list : ℕ → ℕ → PublisherInfoFilter → Call D
  on_load : VisitData → ℕ → Call D
  on_post_data : String → String → String → String → VisitData → Call D
  on_xhr_load : ℕ → String → List (String × String) → String → String → VisitData → Call D
  get_publisher_activity_from_url : ℕ → VisitData → Call D

-- What an observer is told.
pub data Told (D : Type 0) : Type 0 where
  wallet_initialized : LedgerResult → Told D
  wallet_properties : LedgerResult → WalletProperties D → Told D
  grant : LedgerResult → Grant → Told D
  grant_captcha : String → String → Told D
  recovered_wallet : LedgerResult → D → List Grant → Told D
  grant_finish : LedgerResult → Grant → Told D
  reconcile_complete : LedgerResult → String → String → Told D
  excluded_sites_changed : Told D
  publisher_activity : LedgerResult → PublisherInfo D → ℕ → Told D
  publisher_banner : PublisherBanner → Told D

pub data Said (D : Type 0) : Type 0 where
  to_ledger : Call D → Said D
  to_observer : ℕ → Told D → Said D

-- `ledger` says whether `ledger_` holds an object; `created_wallet` is the file's own static.
pub record Session (D : Type 0) : Type 0 where
  pub ledger : Bool
  pub created_wallet : Bool
  pub observers : List ℕ
  pub loads : Loads
  pub said : List (Said D)

-- `std::list::remove`: every entry that is equal.
abbrev pub without : ℕ → List ℕ → List ℕ
without observer [] = []
without observer (o ∷ os) =
    let rest = without observer os in if o == observer then rest else o ∷ rest

module _ {D : Type 0} where
  abbrev pub say : List (Said D) → Session D → Session D
  say new s = record s { said = s.said ++ new }

  abbrev pub through : {A : Type 0} → Bool → A → Session D → Session D → Outcome A × Session D
  through true a s after = (returned a, after)
  through false a s after = (faulted, s)

  -- `ledger_->…`
  unfoldable pub ask : Call D → Action (Session D) (Unit {0})
  ask call s = through s.ledger tt s (say (to_ledger call ∷ []) s)

  -- A call whose answer is a value that the ledger has.
  unfoldable pub read : {A : Type 0} → A → Action (Session D) A
  read answer s = through s.ledger answer s s

  abbrev pub each_observer : Told D → List ℕ → List (Said D)
  each_observer t [] = []
  each_observer t (o ∷ os) = to_observer o t ∷ each_observer t os

  -- `for (auto& observer : observers_)`
  unfoldable pub tell : Told D → Action (Session D) (Unit {0})
  unfolding modify
  tell t = modify (λ s. say (each_observer t s.observers) s)

  unfoldable pub add_observer : ℕ → Action (Session D) (Unit {0})
  unfolding modify
  add_observer observer = modify (λ s. record s { observers = s.observers ++ observer ∷ [] })

  unfoldable pub remove_observer : ℕ → Action (Session D) (Unit {0})
  unfolding modify
  remove_observer observer = modify (λ s. record s { observers = without observer s.observers })

  unfoldable pub shutdown : Action (Session D) (Unit {0})
  unfolding modify
  shutdown = modify (λ s. record s { loads = record s.loads { fetchers = [] }; ledger = false })
