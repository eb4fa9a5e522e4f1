-- ===== src/UrlFetcher/Headers.antt =====
-- What `GetResponseHeaders` of driver/URLFetcher.cpp collects, and what its header options send.
use bat_native_ledger_isolat.Prelude.{
  ℤ, ◌==ℤ◌, String, ◌+++◌, str_eq, eq_iff, false, List, [], ◌∷◌, ◌++◌, Option, none, some,
  Bool-cases, if◌then◌else◌, inl, inr, ◌≡◌, refl, ◌∙◌, ap, arith,
}
use bat_native_ledger_isolat.Prelude.Dict.{lookup, lookup-assign}
use bat_native_ledger_isolat.UrlFetcher.{
  Curl, extend, http_header, UrlFetcher, add_header, add_lines, get_response_headers, add_headers,
  create, start, prepare, get_status, http_ok, UrlMethod,
}

-- Behind each header of the name, the next one stands after a comma and a space.
pub joined : String → List String → String
joined v [] = v
joined v (w ∷ ws) = joined (v +++ ", " +++ w) ws

abbrev pub combined : Option String → List String → Option String
combined none [] = none
combined none (v ∷ vs) = some (joined v vs)
combined (some old) vs = some (joined old vs)

combined-one : (o : Option String) (v : String) → some (extend o v) ≡ combined o (v ∷ [])
unfolding joined
combined-one none v = refl
combined-one (some old) v = refl

combined-nil : (o : Option String) → o ≡ combined o []
unfolding joined
combined-nil none = refl
combined-nil (some old) = refl

combined-append :
    (o : Option String) (vs ws : List String) → combined (combined o vs) ws ≡ combined o (vs ++ ws)
unfolding joined
combined-append none [] ws = refl
combined-append none (v ∷ vs) ws = combined-append (some v) vs ws
combined-append (some old) [] ws = refl
combined-append (some old) (v ∷ vs) ws = combined-append (some (old +++ ", " +++ v)) vs ws

-- The value of a line, if it has the name.
abbrev value_of : String → List String → List String
value_of name [] = []
value_of name (n ∷ []) = []
value_of name (n ∷ v ∷ more) = if str_eq n name then v ∷ [] else []

lookup-add_header :
    (name : String) (parts : List String) (headers : List (String × String))
    → lookup name (add_header parts headers) ≡ combined (lookup name headers) (value_of name parts)
unfolding add_header
lookup-add_header name [] headers = combined-nil (lookup name headers)
lookup-add_header name (n ∷ []) headers = combined-nil (lookup name headers)
lookup-add_header name (n ∷ v ∷ more) headers = elim (Bool-cases (str_eq n name)) [
  | inl same ↦
      rw (lookup-assign headers n name (extend (lookup n headers) v), same, (eq_iff n name).0 same)
        (combined-one (lookup name headers) v)
  | inr other ↦
      rw (lookup-assign headers n name (extend (lookup n headers) v), other)
        (combined-nil (lookup name headers))
]

module _ {Handle Net : Type 0} (c : Curl Handle Net) where
  unfoldable pub values_of : String → List String → List String
  values_of name [] = []
  values_of name (line ∷ lines) = value_of name (c.split_colons line) ++ values_of name lines

  lookup-add_lines :
      (name : String) (lines : List String) (headers : List (String × String))
      → lookup name (add_lines c lines headers)
        ≡ combined (lookup name headers) (values_of name lines)
  unfolding add_lines values_of
  lookup-add_lines name [] headers = combined-nil (lookup name headers)
  lookup-add_lines name (line ∷ lines) headers =
      lookup-add_lines name lines (add_header (c.split_colons line) headers)
      ∙ ap (λ o. combined o (values_of name lines))
          (lookup-add_header name (c.split_colons line) headers)
      ∙ combined-append _ _ _

  -- From an empty map, a name's entry holds the values of all its lines in order, each behind the
  -- one before it with a comma and a space; a name without a line has no entry.
  pub lookup-get_response_headers :
      (name : String) (f : UrlFetcher Handle)
      → lookup name (get_response_headers c f [])
        ≡ combined none (values_of name (c.split_lines f.response_header_data))
  unfolding get_response_headers lookup
  lookup-get_response_headers name f = lookup-add_lines name _ []

  -- Under curl's rule that an option keeps the last value it was given (`headers` reads the list
  -- of extra headers), of several headers that `LoadURL` adds only the last is left to be sent.
  add_headers-last :
      (headers : Handle → List String)
      → ((l : List String) (h : Handle) → headers (c.easy_setopt (http_header l) h) ≡ l)
      → (hs : List String) (last : String) (f : UrlFetcher Handle)
      → headers (add_headers c (hs ++ last ∷ []) f).curl ≡ last ∷ []
  unfolding add_headers
  add_headers-last headers law [] last f = law _ _
  add_headers-last headers law (h ∷ hs) last f = add_headers-last headers law hs last _

  -- Where the transfer fails, the code that the fetcher reports, and whether it reports success,
  -- are what the memory held before the constructor, which the transfer leaves alone.
  start-failed :
      (indeterminate : ℤ) (u : String) (m : UrlMethod) (net net' : Net) (f : UrlFetcher Handle)
      → create c indeterminate u m net ≡ (some f, net')
      → (c.easy_perform (prepare c f) net').0.ok ≡ false
      → ((start c f net').0.response_code ≡ indeterminate)
        × (get_status (start c f net').0 ≡ (http_ok ==ℤ indeterminate))
  unfolding create start
  start-failed indeterminate u m net net' f made failed =
      let kept : f.response_code ≡ indeterminate = ground arith in
      (rw failed kept, rw (failed, kept) refl)
