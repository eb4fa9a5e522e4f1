-- ===== src/Service/Loads/Requests.antt =====
-- What `LoadURL` of driver/brave_rewards_service_impl.cc makes of a new handle, and what `Start` then
-- asks of libcurl.
use bat_native_ledger_isolat.Prelude.{
  ℕ, ℤ, String, empty, true, false, List, [], ◌∷◌, ◌++◌, map, some, if◌then◌else◌, ◌≡◌, refl, sym,
  ap, ◌∙◌, arith,
}
use bat_native_ledger_isolat.UrlFetcher.{
  UrlMethod, get, put, post, CurlOption, url, follow_location, ssl_verify_peer, upload,
  post_request, http_header, post_fields, Curl, UrlFetcher, create, prepare, add_headers,
  set_upload_data, add_extra_request_header,
}
use bat_native_ledger_isolat.Service.Loads.{Loads, register, loaded, load_url, with_content}

-- What is asked of libcurl for a load, in order.
abbrev posted : String → List CurlOption
posted content = if empty content then [] else post_fields content ∷ []

abbrev of_method : UrlMethod → List CurlOption
of_method get = []
of_method put = upload true ∷ []
of_method post = post_request true ∷ []

abbrev header_options : List String → List CurlOption
header_options headers = map (λ header. http_header (header ∷ [])) headers

abbrev start_options : String → String → UrlMethod → List CurlOption
start_options u content method =
    posted content ++ url u ∷ follow_location true ∷ ssl_verify_peer false ∷ of_method method

abbrev pub options_of : String → List String → String → UrlMethod → List CurlOption
options_of u headers content method = header_options headers ++ start_options u content method

module _ {Handle Net : Type 0} (c : Curl Handle Net) where
  abbrev pub set_all : List CurlOption → Handle → Handle
  set_all [] h = h
  set_all (o ∷ os) h = set_all os (c.easy_setopt o h)

  set_all-append :
      (os more : List CurlOption) (h : Handle)
      → set_all (os ++ more) h ≡ set_all more (set_all os h)
  set_all-append [] more h = refl
  set_all-append (o ∷ os) more h = set_all-append os more (c.easy_setopt o h)

  set_all-add_headers :
      (headers : List String) (f : UrlFetcher Handle)
      → add_headers c headers f ≡ record f { curl = set_all (header_options headers) f.curl }
  unfolding add_headers
  set_all-add_headers [] f = refl
  set_all-add_headers (header ∷ headers) f =
      set_all-add_headers headers (add_extra_request_header c header f)

  set_all-prepare :
      (content_type content : String) (f : UrlFetcher Handle)
      → prepare c (with_content c content_type content f)
        ≡ set_all (start_options f.url_ content f.metod) f.curl
  unfolding prepare set_upload_data
  set_all-prepare content_type content f = ground arith

  abbrev new_fetcher : ℤ → String → UrlMethod → Handle → UrlFetcher Handle
  new_fetcher indeterminate u method h = record {
    url_ = u;
    metod = method;
    curl = h;
    response_code = indeterminate;
    response_data = "";
    response_header_data = "";
  }

  -- What `LoadURL` makes of a handle.
  abbrev pub requested :
      ℤ → String → List String → String → String → UrlMethod → Handle → UrlFetcher Handle
  requested indeterminate u headers content content_type method h =
      with_content c content_type content
        (add_headers c headers (new_fetcher indeterminate u method h))

  pub requested-prepare :
      (indeterminate : ℤ) (u : String) (headers : List String) (content content_type : String)
      (method : UrlMethod) (h : Handle)
      → prepare c (requested indeterminate u headers content content_type method h)
        ≡ set_all (options_of u headers content method) h
  requested-prepare indeterminate u headers content content_type method h =
      ap (λ f. prepare c (with_content c content_type content f))
        (set_all-add_headers headers (new_fetcher indeterminate u method h))
      ∙ set_all-prepare content_type content
          (new_fetcher indeterminate u method (set_all (header_options headers) h))
      ∙ sym (set_all-append (header_options headers) (start_options u content method) h)

  fields-with_content :
      (content_type content : String) (f : UrlFetcher Handle)
      → ((with_content c content_type content f).response_code ≡ f.response_code)
        × (((with_content c content_type content f).response_data ≡ f.response_data)
            × ((with_content c content_type content f).response_header_data
                ≡ f.response_header_data))
  unfolding set_upload_data
  fields-with_content content_type content f = ground arith

  pub requested-fields :
      (indeterminate : ℤ) (u : String) (headers : List String) (content content_type : String)
      (method : UrlMethod) (h : Handle)
      → let f = requested indeterminate u headers content content_type method h in
        (f.response_code ≡ indeterminate) × ((f.response_data ≡ "") × (f.response_header_data ≡ ""))
  requested-fields indeterminate u headers content content_type method h =
      let f = new_fetcher indeterminate u method h in
      rw (set_all-add_headers headers f) (
        fields-with_content content_type content
          (record f { curl = set_all (header_options headers) h }))

  create-new_fetcher :
      (indeterminate : ℤ) (u : String) (method : UrlMethod) (net net' : Net) (h : Handle)
      → c.easy_init net ≡ (some h, net')
      → create c indeterminate u method net ≡ (some (new_fetcher indeterminate u method h), net')
  unfolding create
  create-new_fetcher indeterminate u method net net' h e = ground arith

  pub load_url-requested :
      (source : ℕ) (indeterminate : ℤ) (u : String) (headers : List String)
      (content content_type : String) (method : UrlMethod) (handler : ℕ) (s : Loads)
      (net net' : Net) (h : Handle)
      → c.easy_init net ≡ (some h, net')
      → load_url c source indeterminate u headers content content_type method handler s net ≡ (
        some (s.next_id, requested indeterminate u headers content content_type method h),
        register source handler u s,
        net',
      )
  unfolding load_url
  load_url-requested source indeterminate u headers content content_type method handler s net net' h
        e =
      ap (λ r. loaded c source handler u headers content content_type s r)
        (create-new_fetcher indeterminate u method net net' h e)
