-- ===== src/Service.antt =====
-- driver/brave_rewards_service_impl.h and .cc: the state of the service, its tasks, and what it
-- says to the ledger and to its observers. A callback or a handler that the ledger passes in, and
-- an observer, is a number. A task is what `std::bind` has put together.
pub mod Core
pub mod Publishers
pub mod Donations
pub mod Files
pub mod Dispatch
pub mod Answers
pub mod Paging
pub mod States
pub mod Safety
pub mod Timers
pub mod Found
pub mod Loads
pub mod Drain
pub mod Exchange
pub mod Tests
use bat_native_ledger_isolat.Prelude.{ℕ, ℤ, String, ◌+++◌, Bool, true, List, [], Option, some}
use bat_native_ledger_isolat.Ledger.{PublisherInfo, LedgerResult}
use bat_native_ledger_isolat.Database.{PublisherInfoDatabase, open_at}

-- driver/content_site.h
pub record ContentSite (D : Type 0) : Type 0 where
  pub id : String
  pub percentage : D
  pub verified : Bool
  pub excluded : ℤ
  pub name : String
  pub favicon_url : String
  pub url : String
  pub provider : String
  pub reconcile_stamp : ℕ

-- The callback of a list: the ledger's, or `OnRecurringDonationUpdated`.
pub data ListCallback : Type 0 where
  of_ledger : ℕ → ListCallback
  recurring_donation_updated : ListCallback

-- The three texts that the service keeps in files.
pub data StateFile : Type 0 where
  ledger_state publisher_state publisher_list : StateFile

pub data Task (D : Type 0) : Type 0 where
  media_publisher_info_loaded : ℕ → Option (PublisherInfo D) → Task D
  media_publisher_info_saved : Bool → Task D
  publisher_info_saved : ℕ → PublisherInfo D → Bool → Task D
  publisher_info_loaded : ℕ → List (PublisherInfo D) → Task D
  publisher_info_list_loaded : ℕ → ℕ → ℕ → List (PublisherInfo D) → Task D
  contribution_info_saved : ℤ → Bool → Task D
  recurring_donation_saved : Bool → Task D
  recurring_donations_data : ListCallback → List (PublisherInfo D) → Task D
  tips_updated_data : List (PublisherInfo D) → Task D
  removed_recurring : ℕ → Bool → Task D
  state_loaded : StateFile → ℕ → String → Task D
  state_saved : StateFile → ℕ → Bool → Task D

-- What an observer is told.
pub data Notice (D : Type 0) : Type 0 where
  content_site_updated : Notice D
  donations_updated : List (ContentSite D) → Notice D
  current_tips : List (ContentSite D) → Notice D

-- What the service says, in order.
pub data Event (D : Type 0) : Type 0 where
  info_answer : ℕ → LedgerResult → Option (PublisherInfo D) → Event D
  list_answer : ℕ → List (PublisherInfo D) → ℕ → Event D
  remove_answer : ℕ → LedgerResult → Event D
  loaded_answer : StateFile → ℕ → LedgerResult → String → Event D
  saved_answer : StateFile → ℕ → LedgerResult → Event D
  direct_donation_call : PublisherInfo D → ℤ → String → Event D
  notice : ℕ → Notice D → Event D

-- `GetLocalMonthYear` and `std::time`, as they answer during a call.
pub record Clock : Type 0 where
  pub month : ℤ
  pub year : ℤ
  pub time : ℕ

-- `ledger` is whether `ledger_` points to one, which `Shutdown` ends. `tasks` are those whose thread has not run yet; `files` is what a stream reads from each file, the
-- empty text where there is none, and `writable` whether a stream opens for writing.
pub record Service (D Conn Disk : Type 0) : Type 0 where
  pub ledger : Bool
  pub backend : Option (PublisherInfoDatabase Conn Disk)
  pub observers : List ℕ
  pub tasks : List (Task D)
  pub events : List (Event D)
  pub files : StateFile → String
  pub writable : StateFile → Bool

-- The constructor, from `profile_->GetPath()`, what the files hold and which of them can be written.
abbrev pub new_service :
    {D Conn Disk : Type 0}
    → String
    → Disk
    → (StateFile → String)
    → (StateFile → Bool)
    → Service D Conn Disk
new_service profile_path disk files writable = record {
  ledger = true;
  backend = some (open_at (profile_path +++ "\\publisher_info_db") disk);
  observers = [];
  tasks = [];
  events = [];
  files = files;
  writable = writable;
}
