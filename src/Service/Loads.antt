-- ===== src/Service/Loads.antt =====
-- LoadURL and OnURLFetchComplete of driver/brave_rewards_service_impl.cc. The address of a fetcher
-- is a number; `fetchers_` is a list without a second entry for an address.
pub mod Once
pub mod Answers
pub mod Requests
pub mod Started
mod Tests
use bat_native_ledger_isolat.Prelude.{
  ℕ, ℤ, ◌+◌, ◌%◌, ◌^◌, ◌==◌, ◌==ℤ◌, ◌&&◌, String, empty, Bool, List, [], ◌∷◌, ◌++◌, Option, none,
  some, if◌then◌else◌,
}
use bat_native_ledger_isolat.UrlFetcher.{
  UrlMethod, Curl, UrlFetcher, create, add_headers, set_upload_data, get_status, http_ok,
  get_response_headers,
}

-- `OnURLRequestResponse` of a handler, bound to the id and the URL of its request.
pub record FetchCallback : Type 0 where
  pub handler : ℕ
  pub request_id : ℕ
  pub url : String

-- What a task tells a handler.
pub record Response : Type 0 where
  pub callback : FetchCallback
  pub response_code : ℤ
  pub body : String
  pub headers : List (String × String)

-- `tasks` are the continuations whose thread has not run yet.
pub record Loads : Type 0 where
  pub next_id : ℕ
  pub fetchers : List (ℕ × FetchCallback)
  pub tasks : List Response

-- `fetchers_.find`, `fetchers_.erase` and `fetchers_[source] = callback`
unfoldable pub find_fetcher : ℕ → List (ℕ × FetchCallback) → Option FetchCallback
find_fetcher source [] = none
find_fetcher source ((p, callback) ∷ more) =
    if p == source then some callback else find_fetcher source more

unfoldable pub erase_fetcher : ℕ → List (ℕ × FetchCallback) → List (ℕ × FetchCallback)
erase_fetcher source [] = []
erase_fetcher source ((p, callback) ∷ more) =
    let rest = erase_fetcher source more in if p == source then rest else (p, callback) ∷ rest

unfoldable pub assign_fetcher :
    ℕ → FetchCallback → List (ℕ × FetchCallback) → List (ℕ × FetchCallback)
unfolding erase_fetcher
assign_fetcher source callback fetchers = (source, callback) ∷ erase_fetcher source fetchers

unfoldable pub register : ℕ → ℕ → String → Loads → Loads
unfolding assign_fetcher
register source handler url s = record s {
  fetchers =
      assign_fetcher source (record { handler = handler; request_id = s.next_id; url = url })
        s.fetchers;
  next_id = (s.next_id + 1) % 2 ^ 64;
}

module _ {Handle Net : Type 0} (c : Curl Handle Net) where
  abbrev pub with_content : String → String → UrlFetcher Handle → UrlFetcher Handle
  with_content content_type content f =
      if empty content then f else set_upload_data c content_type content f

  abbrev pub loaded :
      ℕ
      → ℕ
      → String
      → List String
      → String
      → String
      → Loads
      → Option (UrlFetcher Handle) × Net
      → Option (ℕ × UrlFetcher Handle) × Loads × Net
  loaded source handler url headers content content_type s (none, net) = (none, s, net)
  loaded source handler url headers content content_type s (some f, net) = (
    some (s.next_id, with_content content_type content (add_headers c headers f)),
    register source handler url s,
    net,
  )

  -- The loader, which is the id of the request and the fetcher to start, or none where the
  -- constructor of the fetcher throws. `source` is the address that the fetcher gets, and
  -- `indeterminate` what its memory holds.
  unfoldable pub load_url :
      ℕ
      → ℤ
      → String
      → List String
      → String
      → String
      → UrlMethod
      → ℕ
      → Loads
      → Net
      → Option (ℕ × UrlFetcher Handle) × Loads × Net
  unfolding create add_headers set_upload_data register
  load_url source indeterminate url headers content content_type method handler s net =
      loaded source handler url headers content content_type s
        (create c indeterminate url method net)

  abbrev pub response_of : FetchCallback → UrlFetcher Handle → Response
  response_of callback f = record {
    callback = callback;
    response_code = f.response_code;
    body = if f.response_code ==ℤ http_ok && get_status f then f.response_data else "";
    headers = get_response_headers c f [];
  }

  abbrev pub answer_to : Option FetchCallback → ℕ → UrlFetcher Handle → Loads → Loads
  answer_to none source f s = s
  answer_to (some callback) source f s = record s {
    fetchers = erase_fetcher source s.fetchers;
    tasks = s.tasks ++ response_of callback f ∷ [];
  }

  -- The call that a fetcher makes at the end of its transfer; `f` is the fetcher at `source`.
  unfoldable pub on_url_fetch_complete : ℕ → UrlFetcher Handle → Loads → Loads
  unfolding find_fetcher erase_fetcher get_response_headers
  on_url_fetch_complete source f s = answer_to (find_fetcher source s.fetchers) source f s
