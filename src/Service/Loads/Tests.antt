-- ===== src/Service/Loads/Tests.antt =====
-- Loads of driver/brave_rewards_service_impl.cc at concrete inputs: two whose transfers end in the
-- other order, and one with its transfer.
use bat_native_ledger_isolat.Prelude.{ℕ, pos, ◌==◌, Bool, true, List, [], ◌∷◌, ◌≡◌, refl}
use bat_native_ledger_isolat.UrlFetcher.{CurlOption, Transfer, UrlFetcher, post}
use bat_native_ledger_isolat.UrlFetcher.Tests.{curl, fresh}
use bat_native_ledger_isolat.Service.Loads.{FetchCallback, Loads, find_fetcher, load_url}
use bat_native_ledger_isolat.Service.Loads.Answers.{answered, complete_all, complete_all-answers}
use bat_native_ledger_isolat.Service.Loads.Requests.{set_all, options_of}
use bat_native_ledger_isolat.Service.Loads.Started.{start_loaded, served, start_loaded-served}

abbrev two_loads : Loads
two_loads = record {
  next_id = 3;
  fetchers =
      (10, record { handler = 6; request_id = 1; url = "https://brave.com/grants" })
      ∷ (20, record { handler = 6; request_id = 2; url = "https://brave.com/captcha" })
      ∷ [];
  tasks = [];
}

-- One transfer is not of a fetcher that is registered.
abbrev ends : List (ℕ × UrlFetcher (List CurlOption))
ends = (20, fresh) ∷ (15, fresh) ∷ (10, fresh) ∷ []

abbrev of_second : FetchCallback → Bool
of_second callback = callback.request_id == 2

complete_all-answers_example :
    ((complete_all curl ends two_loads).fetchers ≡ [])
    × (answered of_second (complete_all curl ends two_loads).tasks ≡ 1)
unfolding find_fetcher
complete_all-answers_example =
    complete_all-answers curl of_second ends two_loads (refl, (refl, tt)) (refl, (refl, tt))

-- The network is the transfer that comes next.
abbrev promotion : Transfer
promotion = record {
  ok = true;
  code = pos 200;
  body = "{\"promotion" ∷ "Id\":1}" ∷ [];
  header = "HTTP/1.1 200" ∷ "\r\n" ∷ [];
}

start_loaded-served_example :
    start_loaded curl 4096 (
      load_url curl 4096
        (pos 77)
        "https://brave.com/grants"
        ("Digest: x" ∷ [])
        "{}"
        "text/json"
        post
        6
        two_loads
        promotion)
    ≡ served curl 6 "https://brave.com/grants" two_loads
        (pos 77)
        (set_all curl (options_of "https://brave.com/grants" ("Digest: x" ∷ []) "{}" post) [])
        promotion
unfolding find_fetcher
start_loaded-served_example =
    start_loaded-served curl 4096 (pos 77) "https://brave.com/grants" ("Digest: x" ∷ []) "{}"
      "text/json" post 6 two_loads promotion promotion [] refl refl
