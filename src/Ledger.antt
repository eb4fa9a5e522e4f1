-- ===== src/Ledger.antt =====
-- What the driver uses of `ledger::` (bat-native-ledger, a submodule): the fields that
-- driver/*.cc and driver/*.h name, with enumerators as integers where the driver prints, stores or
-- casts them. The values of the enumerators and the constructors' defaults are a parameter. `D`
-- stands for `double`, which the driver copies and converts and never computes with.
use bat_native_ledger_isolat.Prelude.{ℕ, ℤ, String, ◌≡◌, Bool, List}

pub record PublisherInfo (D : Type 0) : Type 0 where
  pub id : String
  pub duration : ℕ
  pub score : D
  pub percent : ℕ
  pub weight : D
  pub verified : Bool
  pub excluded : ℤ
  pub category : ℤ
  pub month : ℤ
  pub year : ℤ
  pub name : String
  pub url : String
  pub provider : String
  pub favicon_url : String
  pub reconcile_stamp : ℕ

pub record PublisherInfoFilter : Type 0 where
  pub id : String
  pub category : ℤ
  pub month : ℤ
  pub year : ℤ
  pub reconcile_stamp : ℕ
  pub min_duration : ℕ
  pub excluded : ℤ
  pub order_by : List (String × Bool)

pub record Grant : Type 0 where
  pub promotion_id : String
  pub altcurrency : String
  pub probi : String
  pub expiry_time : ℕ

-- The enumerators of `ledger::Result` that the driver names.
pub data LedgerResult : Type 0 where
  ledger_ok ledger_error not_found too_many_results : LedgerResult
  wallet_created no_ledger_state no_publisher_list : LedgerResult
  other_result : ℕ → LedgerResult

-- Enumerators, `new ledger::PublisherInfo()`, `ledger::PublisherInfo(id, month, year)`, and the
-- conversions to `double`.
pub record Ledger (D : Type 0) : Type 0 where
  pub all_categories : ℤ
  pub auto_contribute : ℤ
  pub direct_donation : ℤ
  pub tipping : ℤ
  pub month_any : ℤ
  pub filter_all : ℤ
  pub filter_all_except_excluded : ℤ
  pub default_info : PublisherInfo D
  pub default_grant : Grant
  pub new_info : String → ℤ → ℤ → PublisherInfo D
  pub new_info-id : (i : String) (m y : ℤ) → (new_info i m y).id ≡ i
  pub new_info-month : (i : String) (m y : ℤ) → (new_info i m y).month ≡ m
  pub new_info-year : (i : String) (m y : ℤ) → (new_info i m y).year ≡ y
  pub double_of_ℤ : ℤ → D
  pub double_of_ℕ : ℕ → D
