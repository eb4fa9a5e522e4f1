-- ===== src/Backend/Scans.antt =====
-- `Load` and `Search` of driver/publisher_info_backend.cc against the entries in key order.
use bat_native_ledger_isolat.Prelude.{
  ℕ, zero, suc, ◌≤◌, ◌<◌, ltb, u32_mod, String, Bool, true, false, inl, inr, Bool-cases, List, [],
  ◌∷◌, ◌++◌, length, take, drop, Option, some, if◌then◌else◌, ◌≡◌, refl, ap, ◌∙◌, arith,
}
use bat_native_ledger_isolat.Backend.{
  LevelDb, PublisherInfoBackend, Page, first_page, visit, load_loop, prefix_loop, search_loop, load,
  search_prefixes, ensure_initialized, results_of, scan_on,
}
use bat_native_ledger_isolat.Backend.Pages.{collect, collect-append, collect-first_page}

-- LevelDB's iterator: `rest` lists the values from its entry on, in key order, and is empty where
-- it is not valid. It stays with the state that it was made on (`origin`); `from k d` are the
-- values of the entries whose key is not below `k`.
pub record IteratorLaws {Handle Iter Disk : Type 0} (e : LevelDb Handle Iter Disk) : Type 0 where
  pub rest : Iter → List String
  pub origin : Iter → Disk
  pub entries : Disk → List String
  pub from : String → Disk → List String
  pub valid-nil : (it : Iter) → rest it ≡ [] → e.valid it ≡ false
  pub valid-cons :
      (it : Iter) (v : String) (vs : List String) → rest it ≡ v ∷ vs → e.valid it ≡ true
  pub value-cons : (it : Iter) (v : String) (vs : List String) → rest it ≡ v ∷ vs → e.value it ≡ v
  pub next-cons :
      (it : Iter) (v : String) (vs : List String) → rest it ≡ v ∷ vs → rest (e.next it) ≡ vs
  pub last-next :
      (it : Iter) (v : String) (vs : List String)
      → rest it ≡ v ∷ vs
      → rest (e.next (e.seek_to_last it)) ≡ []
  pub first : (it : Iter) → rest (e.seek_to_first it) ≡ entries (origin it)
  pub seek : (k : String) (it : Iter) → rest (e.seek k it) ≡ from k (origin it)
  pub from-le : (k : String) (d : Disk) → length (from k d) ≤ length (entries d)
  pub origin-new : (h : Handle) (d : Disk) → origin (e.new_iterator h d) ≡ d
  pub origin-next : (it : Iter) → origin (e.next it) ≡ origin it
  pub origin-last : (it : Iter) → origin (e.seek_to_last it) ≡ origin it
  pub origin-seek : (k : String) (it : Iter) → origin (e.seek k it) ≡ origin it

-- The values in front of the first that fails the test.
unfoldable pub take_while : (String → Bool) → List String → List String
take_while test [] = []
take_while test (v ∷ vs) = let rest = take_while test vs in if test v then v ∷ rest else []

module _ {Handle Iter Disk : Type 0} (e : LevelDb Handle Iter Disk) (laws : IteratorLaws e) where
  load_loop-collect :
      (start limit fuel : ℕ) (vs : List String) (it : Iter) (p : Page)
      → laws.rest it ≡ vs
      → length vs < fuel
      → load_loop e start limit fuel it p ≡ some (collect start limit vs p)
  unfolding load_loop collect
  load_loop-collect start limit zero vs it p r h = absurd (omega arith)
  load_loop-collect start limit (suc fuel) [] it p r h = rw (laws.valid-nil it r) (ground arith)
  load_loop-collect start limit (suc fuel) (v ∷ vs) it p r h =
      rw
        (
          laws.valid-cons it v vs r,
          laws.value-cons it v vs r,
          load_loop-collect start limit fuel vs (e.next it) (visit start v p)
              (laws.next-cons it v vs r) (omega arith),
        )
        (ground arith)

  -- The inner loop of `Search` collects the values with the prefix, and keeps the origin.
  prefix_loop-collect :
      (start limit : ℕ) (prefix : String) (fuel : ℕ) (vs : List String) (it : Iter) (p : Page)
      → laws.rest it ≡ vs
      → length vs < fuel
      → (it' : Iter) × (laws.origin it' ≡ laws.origin it)
        × (prefix_loop e start limit prefix fuel it p
            ≡ some (it', collect start limit (take_while (λ v. e.starts_with v prefix) vs) p))
  unfolding prefix_loop collect take_while
  prefix_loop-collect start limit prefix zero vs it p r h = absurd (omega arith)
  prefix_loop-collect start limit prefix (suc fuel) [] it p r h =
      (it, refl, rw (laws.valid-nil it r) (ground arith))
  prefix_loop-collect start limit prefix (suc fuel) (v ∷ vs) it p r h =
      elim (Bool-cases (e.starts_with v prefix)) [
        | inl starts ↦
            let (it', o, q) =
              prefix_loop-collect start limit prefix fuel vs (e.next it) (visit start v p)
                (laws.next-cons it v vs r) (omega arith) in
            elim (Bool-cases (ltb p.count limit)) [
              | inl more ↦ (
                it',
                o ∙ laws.origin-next it,
                rw (more, laws.valid-cons it v vs r, laws.value-cons it v vs r, starts, q)
                    (rw more refl),
              )
              | inr full ↦ (it, refl, rw (full, starts) (rw full refl))
            ]
        | inr other ↦
            let (it', o, q) =
              prefix_loop-collect start limit prefix fuel [] (e.next (e.seek_to_last it)) p
                (laws.last-next it v vs r) (omega arith) in
            elim (Bool-cases (ltb p.count limit)) [
              | inl more ↦ (
                it',
                o ∙ laws.origin-next _ ∙ laws.origin-last it,
                rw (more, laws.valid-cons it v vs r, laws.value-cons it v vs r, other, q) refl,
              )
              | inr full ↦ (it, refl, rw (full, other) refl)
            ]
      ]

  -- The values that `Search` looks for: for each prefix, those from its place on that start with it.
  unfoldable pub matches : List String → Disk → List String
  matches [] d = []
  matches (prefix ∷ prefixes) d =
      take_while (λ v. e.starts_with v prefix) (laws.from prefix d) ++ matches prefixes d

  search_loop-collect :
      (start limit fuel : ℕ) (prefixes : List String) (it : Iter) (p : Page)
      → length (laws.entries (laws.origin it)) < fuel
      → search_loop e start limit fuel prefixes it p
        ≡ some (collect start limit (matches prefixes (laws.origin it)) p)
  unfolding search_loop matches collect
  search_loop-collect start limit fuel [] it p h = refl
  search_loop-collect start limit fuel (prefix ∷ prefixes) it p h =
      let (it', o, q) =
        prefix_loop-collect start limit prefix fuel (laws.from prefix (laws.origin it))
          (e.seek prefix it) p (laws.seek prefix it)
          (omega (arith, laws.from-le prefix (laws.origin it))) in
      let same : laws.origin it' ≡ laws.origin it = o ∙ laws.origin-seek prefix it in
      rw q (
        search_loop-collect start limit fuel prefixes it' _ (rw same h)
        ∙ rw same (ap (λ (x : Page). some x) (collect-append start limit _ _ p)))

  module _ (b b' : PublisherInfoBackend Handle Disk) (h : Handle) where
    -- The loop runs on an iterator over the open database.
    answer_on :
        (Iter → Option Page)
        → Bool × PublisherInfoBackend Handle Disk
        → Option (Option (List String)) × PublisherInfoBackend Handle Disk
    answer_on loop r = (scan_on e loop r r.1.db, r.1)

    scanned :
        (loop : Iter → Option Page)
        → ensure_initialized e b ≡ (true, b')
        → b'.db ≡ some h
        → answer_on loop (ensure_initialized e b)
          ≡ (results_of e (loop (e.new_iterator h b'.disk)), b')
    unfolding answer_on
    scanned loop ready o =
        ap (answer_on loop) ready
        ∙ ap (λ (db : Option Handle). (scan_on e loop (true, b') db, b')) o

    -- Where the database is open or opens, holds fewer than 2^32 entries and the fuel passes their
    -- number, `Load` answers true with the values from `start` on in key order, at most `limit`.
    pub load-window :
        ensure_initialized e b ≡ (true, b')
        → b'.db ≡ some h
        → (fuel start limit : ℕ) → length (laws.entries b'.disk) < fuel
        → length (laws.entries b'.disk) < u32_mod
        → load e fuel start limit b
          ≡ (some (some (take limit (drop start (laws.entries b'.disk)))), b')
    unfolding load answer_on
    load-window ready o fuel start limit f n =
        let loaded =
          load_loop-collect start limit fuel (laws.entries b'.disk)
            (e.seek_to_first (e.new_iterator h b'.disk)) first_page
            (laws.first _ ∙ ap laws.entries (laws.origin-new h b'.disk)) f in
        scanned (λ it. load_loop e start limit fuel (e.seek_to_first it) first_page) ready o
        ∙ ap (λ (r : Option Page). (results_of e r, b')) loaded
        ∙ ap (λ (vs : List String). (some (some vs), b')) (collect-first_page start limit _ n)

    -- Under the same conditions, with fewer than 2^32 matches, `Search` answers true with the
    -- matches from `start` on, prefix after prefix, at most `limit` in all.
    pub search_prefixes-window :
        ensure_initialized e b ≡ (true, b')
        → b'.db ≡ some h
        → (fuel start limit : ℕ) (prefixes : List String) → length (laws.entries b'.disk) < fuel
        → length (matches prefixes b'.disk) < u32_mod
        → search_prefixes e fuel prefixes start limit b
          ≡ (some (some (take limit (drop start (matches prefixes b'.disk)))), b')
    unfolding search_prefixes answer_on
    search_prefixes-window ready o fuel start limit prefixes f n =
        let same : laws.origin (e.new_iterator h b'.disk) ≡ b'.disk = laws.origin-new h b'.disk in
        let searched =
          search_loop-collect start limit fuel prefixes (e.new_iterator h b'.disk) first_page
            (rw same f) in
        scanned (λ it. search_loop e start limit fuel prefixes it first_page) ready o
        ∙ ap (λ (r : Option Page). (results_of e r, b')) searched
        ∙ rw same
            (ap (λ (vs : List String). (some (some vs), b')) (collect-first_page start limit _ n))
