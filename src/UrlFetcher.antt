-- ===== src/UrlFetcher.antt =====
-- driver/URLFetcher.h and URLFetcher.cpp: one transfer through libcurl.
pub mod Headers
pub mod Tests
use bat_native_ledger_isolat.Prelude.{
  ℤ, pos, ◌==ℤ◌, String, ◌+++◌, Bool, true, false, List, [], ◌∷◌, ◌++◌, Option, none, some,
  if◌then◌else◌,
}
use bat_native_ledger_isolat.Prelude.Dict.{lookup, assign}

-- `ledger::URL_METHOD`
pub data UrlMethod : Type 0 where
  get put post : UrlMethod

-- The options that the driver sets, but for the callbacks.
pub data CurlOption : Type 0 where
  url : String → CurlOption
  follow_location : Bool → CurlOption
  ssl_verify_peer : Bool → CurlOption
  upload : Bool → CurlOption
  post_request : Bool → CurlOption
  http_header : List String → CurlOption
  post_fields : String → CurlOption

-- What `curl_easy_perform` does: whether it says CURLE_OK, the chunks that it hands to the two
-- callbacks, and the response code that it then knows.
pub record Transfer : Type 0 where
  pub ok : Bool
  pub code : ℤ
  pub body : List String
  pub header : List String

-- libcurl (a submodule) and the two splits of Boost: at "\r\n", and at runs of ":".
pub record Curl (Handle Net : Type 0) : Type 0 where
  pub easy_init : Net → Option Handle × Net
  pub easy_setopt : CurlOption → Handle → Handle
  pub easy_perform : Handle → Net → Transfer × Net
  pub easy_cleanup : Handle → Net → Net
  pub split_lines : String → List String
  pub split_colons : String → List String

-- `response_code_` has no initializer: what it holds at first is an argument of `create`.
pub record UrlFetcher (Handle : Type 0) : Type 0 where
  pub url_ : String
  pub metod : UrlMethod
  pub curl : Handle
  pub response_code : ℤ
  pub response_data : String
  pub response_header_data : String

abbrev pub http_ok : ℤ
http_ok = pos 200

-- A callback is called for each chunk.
abbrev pub write_all : String → List String → String
write_all out [] = out
write_all out (chunk ∷ chunks) = write_all (out +++ chunk) chunks

-- A repeated header goes behind the value that is there.
abbrev pub extend : Option String → String → String
extend none value = value
extend (some old) value = old +++ ", " +++ value

-- The parts of a line around its colons; only a name and the part behind the first colon are read.
unfoldable pub add_header : List String → List (String × String) → List (String × String)
add_header [] headers = headers
add_header (name ∷ []) headers = headers
add_header (name ∷ value ∷ more) headers = assign headers name (extend (lookup name headers) value)

module _ {Handle Net : Type 0} (c : Curl Handle Net) where
  -- The constructor, which throws where there is no handle; `indeterminate` is the memory it takes.
  unfoldable pub create : ℤ → String → UrlMethod → Net → Option (UrlFetcher Handle) × Net
  create indeterminate u m net =
      let (handle, net') = c.easy_init net in
      elim handle [
        | none ↦ (none, net')
        | some h ↦ (
          some (record {
            url_ = u;
            metod = m;
            curl = h;
            response_code = indeterminate;
            response_data = "";
            response_header_data = "";
          }),
          net',
        )
      ]

  abbrev set_method : UrlMethod → Handle → Handle
  set_method get h = h
  set_method put h = c.easy_setopt (upload true) h
  set_method post h = c.easy_setopt (post_request true) h

  -- The options that `Start` sets.
  unfoldable pub prepare : UrlFetcher Handle → Handle
  prepare f = set_method f.metod (
      c.easy_setopt (ssl_verify_peer false)
        (c.easy_setopt (follow_location true) (c.easy_setopt (url f.url_) f.curl)))

  -- `Start`, up to the call of the delegate.
  unfoldable pub start : UrlFetcher Handle → Net → UrlFetcher Handle × Net
  unfolding prepare
  start f net =
      let (t, net') = c.easy_perform (prepare f) net in
      (
        record f {
          curl = prepare f;
          response_code = if t.ok then t.code else f.response_code;
          response_data = write_all f.response_data t.body;
          response_header_data = write_all f.response_header_data t.header;
        },
        net',
      )

  -- A list of one header, whatever was set before.
  unfoldable pub add_extra_request_header : String → UrlFetcher Handle → UrlFetcher Handle
  add_extra_request_header header f = record f {
    curl = c.easy_setopt (http_header (header ∷ [])) f.curl;
  }

  -- The loop of `LoadURL`.
  unfoldable pub add_headers : List String → UrlFetcher Handle → UrlFetcher Handle
  unfolding add_extra_request_header
  add_headers [] f = f
  add_headers (h ∷ hs) f = add_headers hs (add_extra_request_header h f)

  -- `contentType` is not used.
  unfoldable pub set_upload_data : String → String → UrlFetcher Handle → UrlFetcher Handle
  set_upload_data content_type content f = record f {
    curl = c.easy_setopt (post_fields content) f.curl;
  }

  unfoldable pub add_lines : List String → List (String × String) → List (String × String)
  unfolding add_header
  add_lines [] headers = headers
  add_lines (line ∷ lines) headers = add_lines lines (add_header (c.split_colons line) headers)

  unfoldable pub get_response_headers :
      UrlFetcher Handle → List (String × String) → List (String × String)
  unfolding add_lines
  get_response_headers f headers = add_lines (c.split_lines f.response_header_data) headers

abbrev pub get_status : {Handle : Type 0} → UrlFetcher Handle → Bool
get_status f = http_ok ==ℤ f.response_code
