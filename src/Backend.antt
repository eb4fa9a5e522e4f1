-- ===== src/Backend.antt =====
-- driver/publisher_info_backend.h and .cc: a store of texts over LevelDB. `DCHECK` is `assert` and
-- compiled out. A loop takes fuel, and is `none` where that runs out.
pub mod Pages
pub mod Scans
mod Tests
use bat_native_ledger_isolat.Prelude.{
  ℕ, zero, suc, ◌+◌, ◌%◌, ltb, u32_mod, String, Bool, true, false, ◌&&◌, List, [], ◌∷◌, ◌++◌,
  Option, none, some, if◌then◌else◌,
}

-- `leveldb::Status` of `DB::Open`, with the database where it is ok.
pub data OpenStatus (Handle : Type 0) : Type 0 where
  opened : Handle → OpenStatus Handle
  corruption : OpenStatus Handle
  unopened : OpenStatus Handle

-- LevelDB (a submodule) and `boost::filesystem::remove_all`. `Disk` is all that they keep.
pub record LevelDb (Handle Iter Disk : Type 0) : Type 0 where
  pub open_db : String → Disk → OpenStatus Handle × Disk
  pub remove_all : String → Disk → Disk
  pub put : Handle → String → String → Disk → Bool × Disk
  pub get : Handle → String → Disk → Option String
  pub new_iterator : Handle → Disk → Iter
  pub seek : String → Iter → Iter
  pub seek_to_first : Iter → Iter
  pub seek_to_last : Iter → Iter
  pub next : Iter → Iter
  pub valid : Iter → Bool
  pub value : Iter → String
  pub starts_with : String → String → Bool

pub record PublisherInfoBackend (Handle Disk : Type 0) : Type 0 where
  pub path : String
  pub db : Option Handle
  pub disk : Disk

-- The constructor.
abbrev pub backend_at : {Handle Disk : Type 0} → String → Disk → PublisherInfoBackend Handle Disk
backend_at path disk = record { path = path; db = none; disk = disk }

-- The loops' `position`, `count` and `results`.
pub record Page : Type 0 where
  pub position : ℕ
  pub count : ℕ
  pub results : List String

abbrev pub first_page : Page
first_page = record { position = 0; count = 0; results = [] }

-- `if (position++ < start) continue; else count++; results.push_back(…);`
unfoldable pub visit : ℕ → String → Page → Page
visit start v p =
    let moved : Page = record p { position = (p.position + 1) % u32_mod } in
    if ltb p.position start
    then moved
    else record moved { count = (p.count + 1) % u32_mod; results = p.results ++ v ∷ [] }

module _ {Handle Iter Disk : Type 0} (e : LevelDb Handle Iter Disk) where
  -- The status of the open that counts: the second, where the first finds a corrupt database.
  abbrev reopen : String → OpenStatus Handle × Disk → OpenStatus Handle × Disk
  reopen path (opened h, d) = (opened h, d)
  reopen path (corruption, d) = e.open_db path (e.remove_all path d)
  reopen path (unopened, d) = (unopened, d)

  abbrev settle :
      PublisherInfoBackend Handle Disk
      → OpenStatus Handle × Disk
      → Bool × PublisherInfoBackend Handle Disk
  settle b (opened h, d) = (true, record b { db = some h; disk = d })
  settle b (corruption, d) = (false, record b { disk = d })
  settle b (unopened, d) = (false, record b { disk = d })

  unfoldable pub ensure_initialized :
      PublisherInfoBackend Handle Disk → Bool × PublisherInfoBackend Handle Disk
  ensure_initialized b = elim b.db [
    | some h ↦ (true, b)
    | none ↦ settle b (reopen b.path (e.open_db b.path b.disk))
  ]

  abbrev pub put_on :
      Bool × PublisherInfoBackend Handle Disk
      → Option Handle
      → String
      → String
      → Bool × PublisherInfoBackend Handle Disk
  put_on (true, b) (some h) key v =
      let (ok, disk) = e.put h key v b.disk in (ok, record b { disk = disk })
  put_on (ready, b) db key v = (false, b)

  unfoldable pub put :
      String → String → PublisherInfoBackend Handle Disk → Bool × PublisherInfoBackend Handle Disk
  unfolding ensure_initialized
  put key v b = let r = ensure_initialized b in put_on r r.1.db key v

  abbrev pub get_on :
      Bool × PublisherInfoBackend Handle Disk → Option Handle → String → Option String
  get_on (true, b) (some h) lookup = e.get h lookup b.disk
  get_on (ready, b) db lookup = none

  -- The value is there where the answer is true.
  unfoldable pub get :
      String → PublisherInfoBackend Handle Disk → Option String × PublisherInfoBackend Handle Disk
  unfolding ensure_initialized
  get lookup b = let r = ensure_initialized b in (get_on r r.1.db lookup, r.1)

  -- The loop of `Load`.
  unfoldable pub load_loop : ℕ → ℕ → ℕ → Iter → Page → Option Page
  unfolding visit
  load_loop start limit zero it p = none
  load_loop start limit (suc fuel) it p =
      let rest = load_loop start limit fuel (e.next it) (visit start (e.value it) p) in
      if ltb p.count limit && e.valid it then rest else some p

  -- The inner loop of `Search`, behind `Seek`: at a value without the prefix it moves behind the
  -- last entry, and so ends.
  unfoldable pub prefix_loop : ℕ → ℕ → String → ℕ → Iter → Page → Option (Iter × Page)
  unfolding visit
  prefix_loop start limit prefix zero it p = none
  prefix_loop start limit prefix (suc fuel) it p =
      let found = prefix_loop start limit prefix fuel (e.next it) (visit start (e.value it) p) in
      let leave = prefix_loop start limit prefix fuel (e.next (e.seek_to_last it)) p in
      if ltb p.count limit && e.valid it
      then (if e.starts_with (e.value it) prefix then found else leave)
      else some (it, p)

  abbrev pub go_on : (Iter → Page → Option Page) → Option (Iter × Page) → Option Page
  go_on k none = none
  go_on k (some (it, p)) = k it p

  -- The outer loop: the iterator and the counters go on from prefix to prefix.
  unfoldable pub search_loop : ℕ → ℕ → ℕ → List String → Iter → Page → Option Page
  unfolding prefix_loop
  search_loop start limit fuel [] it p = some p
  search_loop start limit fuel (prefix ∷ prefixes) it p =
      go_on (search_loop start limit fuel prefixes)
        (prefix_loop start limit prefix fuel (e.seek prefix it) p)

  abbrev pub results_of : Option Page → Option (Option (List String))
  results_of none = none
  results_of (some p) = some (some p.results)

  abbrev pub scan_on :
      (Iter → Option Page)
      → Bool × PublisherInfoBackend Handle Disk
      → Option Handle
      → Option (Option (List String))
  scan_on loop (true, b) (some h) = results_of (loop (e.new_iterator h b.disk))
  scan_on loop (ready, b) db = some none

  -- The answers are `none` out of fuel, `some none` for false, and the results for true.
  unfoldable pub load :
      ℕ
      → ℕ
      → ℕ
      → PublisherInfoBackend Handle Disk
      → Option (Option (List String)) × PublisherInfoBackend Handle Disk
  unfolding ensure_initialized load_loop
  load fuel start limit b =
      let r = ensure_initialized b in
      (scan_on (λ it. load_loop start limit fuel (e.seek_to_first it) first_page) r r.1.db, r.1)

  unfoldable pub search_prefixes :
      ℕ
      → List String
      → ℕ
      → ℕ
      → PublisherInfoBackend Handle Disk
      → Option (Option (List String)) × PublisherInfoBackend Handle Disk
  unfolding ensure_initialized search_loop
  search_prefixes fuel prefixes start limit b =
      let r = ensure_initialized b in
      (scan_on (λ it. search_loop start limit fuel prefixes it first_page) r r.1.db, r.1)
