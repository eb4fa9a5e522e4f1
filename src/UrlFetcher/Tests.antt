-- ===== src/UrlFetcher/Tests.antt =====
-- A curl whose handle is the list of the options set, and the theorems about the fetcher on it.
use bat_native_ledger_isolat.Prelude.{pos, String, false, List, [], ◌∷◌, none, some, ◌≡◌}
use bat_native_ledger_isolat.Prelude.Dict.{lookup}
use bat_native_ledger_isolat.UrlFetcher.{
  post, CurlOption, http_header, Transfer, Curl, UrlFetcher, get_response_headers,
}
use bat_native_ledger_isolat.UrlFetcher.Headers.{combined, values_of, lookup-get_response_headers}

abbrev sent_headers : List CurlOption → List String
sent_headers [] = []
sent_headers (http_header l ∷ more) = l
sent_headers (o ∷ more) = sent_headers more

abbrev pub offline : Transfer
offline = record { ok = false; code = pos 0; body = []; header = [] }

abbrev pub curl : Curl (List CurlOption) Transfer
curl = record {
  easy_init = λ net. (some [], net);
  easy_setopt = λ o h. o ∷ h;
  easy_perform = λ h net. (net, net);
  easy_cleanup = λ h net. net;
  split_lines = λ s. s ∷ "again" ∷ [];
  split_colons = λ s. "Set-Cookie" ∷ s ∷ [];
}

abbrev pub fresh : UrlFetcher (List CurlOption)
fresh = record {
  url_ = "https://brave.com";
  metod = post;
  curl = [];
  response_code = pos 77;
  response_data = "";
  response_header_data = "a=1";
}

lookup-get_response_headers_example :
    lookup "Set-Cookie" (get_response_headers curl fresh [])
    ≡ combined none (values_of curl "Set-Cookie" ("a=1" ∷ "again" ∷ []))
lookup-get_response_headers_example = lookup-get_response_headers curl "Set-Cookie" fresh
