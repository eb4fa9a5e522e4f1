-- ===== src/Service/Loads/Once.antt =====
-- Completions of the loads of driver/brave_rewards_service_impl.cc.
use bat_native_ledger_isolat.Prelude.{
  ℕ, ℤ, ◌==◌, ◌+◌, ◌%◌, ◌^◌, String, true, false, List, [], ◌∷◌, ◌++◌, Option, none, some,
  if◌then◌else◌, inl, inr, Bool-cases, ◌≡◌, refl, ap, sym, ◌∙◌, arith,
}
use bat_native_ledger_isolat.UrlFetcher.{UrlMethod, Curl, UrlFetcher, create}
use bat_native_ledger_isolat.Service.Loads.{
  FetchCallback, Loads, find_fetcher, erase_fetcher, assign_fetcher, register, loaded, load_url,
  response_of, answer_to, on_url_fetch_complete,
}

pub find_fetcher-erase_fetcher :
    (source : ℕ) (l : List (ℕ × FetchCallback))
    → find_fetcher source (erase_fetcher source l) ≡ none
unfolding find_fetcher erase_fetcher
find_fetcher-erase_fetcher source [] = refl
find_fetcher-erase_fetcher source ((p, callback) ∷ more) = elim (Bool-cases (p == source)) [
  | inl e ↦ rw (e, find_fetcher-erase_fetcher source more)
  | inr e ↦ rw (e, e, find_fetcher-erase_fetcher source more)
]

same_address : (n : ℕ) → (n == n) ≡ true
same_address n = ground arith

abbrev pub Unused : ℕ → List (ℕ × FetchCallback) → Type 0
Unused source l = find_fetcher source l ≡ none

pub erase_fetcher-Unused :
    (source : ℕ) (l : List (ℕ × FetchCallback)) → Unused source l → erase_fetcher source l ≡ l
unfolding find_fetcher erase_fetcher
erase_fetcher-Unused source [] h = refl
erase_fetcher-Unused source ((p, callback) ∷ more) h = elim (Bool-cases (p == source)) [
  | inl e ↦ absurd (used e)
  | inr e ↦ rw e (
      ap (λ (l : List (ℕ × FetchCallback)). (p, callback) ∷ l)
        (erase_fetcher-Unused source more (behind e)))
]
  where
    used : (p == source) ≡ true → ⊥
    used e = cc

    behind : (p == source) ≡ false → Unused source more
    behind e = ap (λ b. if b then some callback else find_fetcher source more) (sym e) ∙ h

module _ {Handle Net : Type 0} (c : Curl Handle Net) where
  -- Whatever the fetchers read, a second completion at the same address changes nothing.
  pub on_url_fetch_complete-answers_once :
      (source : ℕ) (f later : UrlFetcher Handle) (s : Loads)
      → on_url_fetch_complete c source later (on_url_fetch_complete c source f s)
        ≡ on_url_fetch_complete c source f s
  unfolding on_url_fetch_complete
  on_url_fetch_complete-answers_once source f later s = again (find_fetcher source s.fetchers) refl
    where
      again :
          (o : Option FetchCallback)
          → find_fetcher source s.fetchers ≡ o
          → on_url_fetch_complete c source later (answer_to c o source f s)
            ≡ answer_to c o source f s
      again none e = ap (λ o. answer_to c o source later s) e
      again (some callback) e =
          ap (λ o. answer_to c o source later (answer_to c (some callback) source f s))
            (find_fetcher-erase_fetcher source s.fetchers)

  pub on_url_fetch_complete-register :
      (source handler : ℕ) (url : String) (f : UrlFetcher Handle) (s : Loads)
      → Unused source s.fetchers
      → on_url_fetch_complete c source f (register source handler url s) ≡ record s {
        next_id = (s.next_id + 1) % 2 ^ 64;
        tasks =
            s.tasks
            ++ response_of c (record { handler = handler; request_id = s.next_id; url = url }) f
              ∷ [];
      }
  unfolding on_url_fetch_complete register assign_fetcher find_fetcher erase_fetcher
  on_url_fetch_complete-register source handler url f s h = rw (
    same_address source,
    erase_fetcher-Unused source s.fetchers h,
    same_address source,
    erase_fetcher-Unused source s.fetchers h,
  )

  loaded-register :
      (source handler : ℕ) (url : String) (headers : List String) (content content_type : String)
      (s : Loads) (r : Option (UrlFetcher Handle) × Net) (loader : ℕ × UrlFetcher Handle)
      → (loaded c source handler url headers content content_type s r).0 ≡ some loader
      → (loaded c source handler url headers content content_type s r).1
        ≡ register source handler url s
  loaded-register source handler url headers content content_type s (none, net) loader e = cc
  loaded-register source handler url headers content content_type s (some f, net) loader e = refl

  -- A load that returned, and that got an address without a fetcher, is answered by the completion at
  -- that address, once, with its own id, URL and handler, whatever the fetcher has read by then; and
  -- the fetchers are again what they were.
  on_url_fetch_complete-load_url :
      (source : ℕ) (indeterminate : ℤ) (url : String) (headers : List String)
      (content content_type : String) (method : UrlMethod) (handler : ℕ) (s : Loads) (net : Net)
      (loader : ℕ × UrlFetcher Handle) (f : UrlFetcher Handle)
      → (load_url c source indeterminate url headers content content_type method handler s net).0
        ≡ some loader
      → Unused source s.fetchers
      → on_url_fetch_complete c source f
          (load_url c source indeterminate url headers content content_type method handler s net).1
        ≡ record s {
          next_id = (s.next_id + 1) % 2 ^ 64;
          tasks =
              s.tasks
              ++ response_of c (record { handler = handler; request_id = s.next_id; url = url }) f
                ∷ [];
        }
  unfolding load_url
  on_url_fetch_complete-load_url source indeterminate url headers content content_type method
        handler s net loader f e h =
      ap (λ t. on_url_fetch_complete c source f t)
        (loaded-register source handler url headers content content_type s
          (create c indeterminate url method net) loader e)
      ∙ on_url_fetch_complete-register source handler url f s h
