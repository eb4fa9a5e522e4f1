-- ===== src/Service/Loads/Started.antt =====
-- `LedgerURLLoaderImpl` of driver/brave_rewards_service_impl.cc, whose `Start` is that of the fetcher
-- with the call of `OnURLFetchComplete` at its end: a load from its request to its answer.
use text.Mathlib.TextLemmas.{nil-append, append-nil, append_assoc}
use bat_native_ledger_isolat.Prelude.{
  ℕ, ℤ, pos, negsuc, ◌==ℤ◌, ◌+◌, ◌%◌, ◌^◌, String, ◌+++◌, ◌&&◌, List, [], ◌∷◌, ◌++◌, Option, none,
  some, if◌then◌else◌, ◌≡◌, refl, sym, ap, ◌∙◌, arith,
}
use bat_native_ledger_isolat.UrlFetcher.{
  UrlMethod, Transfer, Curl, UrlFetcher, start, prepare, get_response_headers, add_lines, write_all,
}
use bat_native_ledger_isolat.Service.Loads.{
  FetchCallback, Response, Loads, find_fetcher, assign_fetcher, register, load_url, response_of,
  on_url_fetch_complete,
}
use bat_native_ledger_isolat.Service.Loads.Once.{Unused, on_url_fetch_complete-register}
use bat_native_ledger_isolat.Service.Loads.Requests.{
  options_of, set_all, requested, requested-prepare, requested-fields, load_url-requested,
}

module _ {Handle Net : Type 0} (c : Curl Handle Net) where
  -- `delete source`, behind the early return.
  abbrev delete_fetcher : Option FetchCallback → UrlFetcher Handle → Net → Net
  delete_fetcher none f net = net
  delete_fetcher (some callback) f net = c.easy_cleanup f.curl net

  -- `LedgerURLLoaderImpl::Start`; `source` is the address of its fetcher.
  unfoldable pub start_loader : ℕ → ℕ × UrlFetcher Handle → Loads → Net → Loads × Net
  unfolding start on_url_fetch_complete
  start_loader source loader s net =
      let (f, net') = start c loader.1 net in
      (on_url_fetch_complete c source f s, delete_fetcher (find_fetcher source s.fetchers) f net')

  -- A caller that starts its loader, where it gets one.
  abbrev pub start_loaded : ℕ → Option (ℕ × UrlFetcher Handle) × Loads × Net → Loads × Net
  start_loaded source (none, s, net) = (s, net)
  start_loaded source (some loader, s, net) = start_loader source loader s net

abbrev pub concat : List String → String
concat [] = ""
concat (chunk ∷ chunks) = chunk +++ concat chunks

concat-write_all :
    (out : String) (chunks : List String) → write_all out chunks ≡ out +++ concat chunks
concat-write_all out [] = sym (append-nil out)
concat-write_all out (chunk ∷ chunks) =
    concat-write_all (out +++ chunk) chunks ∙ append_assoc out chunk (concat chunks)

concat-write_nil : (chunks : List String) → write_all "" chunks ≡ concat chunks
concat-write_nil chunks = concat-write_all "" chunks ∙ nil-append (concat chunks)

module _ {Handle Net : Type 0} (c : Curl Handle Net) where
  -- What a transfer from a new fetcher leaves in it.
  abbrev code_of : ℤ → Transfer → ℤ
  code_of indeterminate t = if t.ok then t.code else indeterminate

  -- The answer that a transfer means.
  abbrev pub answer_of : ℤ → FetchCallback → Transfer → Response
  answer_of indeterminate callback t = record {
    callback = callback;
    response_code = code_of indeterminate t;
    body = if code_of indeterminate t ==ℤ pos 200 then concat t.body else "";
    headers = add_lines c (c.split_lines (concat t.header)) [];
  }

  ok_twice : (n : ℤ) → (n ==ℤ pos 200 && pos 200 ==ℤ n) ≡ (n ==ℤ pos 200)
  ok_twice (pos n) = ground arith
  ok_twice (negsuc n) = refl

  response_of-transfer :
      (callback : FetchCallback) (f : UrlFetcher Handle) (t : Transfer) (h : Handle)
      → f.response_data ≡ ""
      → f.response_header_data ≡ ""
      → response_of c callback (record f {
        curl = h;
        response_code = code_of f.response_code t;
        response_data = write_all f.response_data t.body;
        response_header_data = write_all f.response_header_data t.header;
      })
        ≡ answer_of f.response_code callback t
  unfolding get_response_headers
  response_of-transfer callback f t h empty_body empty_header =
      simp (empty_body, empty_header, concat-write_nil, ok_twice)

  find_fetcher-register :
      (source handler : ℕ) (u : String) (s : Loads)
      → find_fetcher source (register source handler u s).fetchers
        ≡ some (record { handler = handler; request_id = s.next_id; url = u })
  unfolding register assign_fetcher find_fetcher
  find_fetcher-register source handler u s = ground arith

  -- The loads behind one that is answered, and the network behind its transfer.
  abbrev pub served : ℕ → String → Loads → ℤ → Handle → Net → Loads × Net
  served handler u s indeterminate h net =
      let (t, net') = c.easy_perform h net in
      (
        record s {
          next_id = (s.next_id + 1) % 2 ^ 64;
          tasks =
              s.tasks
              ++ answer_of indeterminate
                  (record { handler = handler; request_id = s.next_id; url = u }) t
                ∷ [];
        },
        c.easy_cleanup h net',
      )

  start_loader-served :
      (source handler : ℕ) (u : String) (f : UrlFetcher Handle) (s : Loads) (net : Net)
      → Unused source s.fetchers
      → f.response_data ≡ ""
      → f.response_header_data ≡ ""
      → start_loader c source (s.next_id, f) (register source handler u s) net
        ≡ served handler u s f.response_code (prepare c f) net
  unfolding start_loader start
  start_loader-served source handler u f s net unused empty_body empty_header =
      let t = c.easy_perform (prepare c f) net in
      let callback : FetchCallback = record {
        handler = handler;
        request_id = s.next_id;
        url = u;
      } in
      let f' = (start c f net).0 in
      let answered =
        on_url_fetch_complete-register c source handler u f' s unused
        ∙ ap
            (λ (r : Response). record s {
              next_id = (s.next_id + 1) % 2 ^ 64;
              tasks = s.tasks ++ r ∷ [];
            })
            (response_of-transfer callback f t.0 (prepare c f) empty_body empty_header) in
      let deleted =
        ap (λ o. delete_fetcher c o f' t.1) (find_fetcher-register source handler u s) in
      λ i. (answered i, deleted i)

  -- A caller that asks for a load and starts the loader, where libcurl has a handle and the address
  -- of the fetcher has none yet, makes one transfer, with the headers one by one, the content, the
  -- URL and the method as options, and starts one task. It tells the handler, the id and the URL of
  -- the load, the code that the transfer knows, or what the memory held where it failed, the
  -- transfer's headers, and its whole body where the code is 200, none else. The fetchers are again
  -- what they were, and the handle is cleaned up.
  pub start_loaded-served :
      (source : ℕ) (indeterminate : ℤ) (u : String) (headers : List String)
      (content content_type : String) (method : UrlMethod) (handler : ℕ) (s : Loads)
      (net net' : Net) (h : Handle)
      → c.easy_init net ≡ (some h, net')
      → Unused source s.fetchers
      → start_loaded c source
          (load_url c source indeterminate u headers content content_type method handler s net)
        ≡ served handler u s indeterminate (set_all c (options_of u headers content method) h) net'
  start_loaded-served source indeterminate u headers content content_type method handler s net net'
        h e unused =
      let f = requested c indeterminate u headers content content_type method h in
      let fields = requested-fields c indeterminate u headers content content_type method h in
      ap (start_loaded c source) (
        load_url-requested c source indeterminate u headers content content_type method handler s
          net net' h e)
      ∙ start_loader-served source handler u f s net' unused fields.1.0 fields.1.1
      ∙ ap (λ code. served handler u s code (prepare c f) net') fields.0
      ∙ ap (λ k. served handler u s indeterminate k net')
          (requested-prepare c indeterminate u headers content content_type method h)
