-- ===== src/Service/Loads/Answers.antt =====
-- Every load of driver/brave_rewards_service_impl.cc and its answer, over many completions.
use bat_native_ledger_isolat.Prelude.{
  ℕ, ◌+◌, ◌==◌, ◌||◌, String, Bool, true, false, List, [], ◌∷◌, ◌++◌, All, Option, none, some,
  if◌then◌else◌, inl, inr, Bool-cases, ◌≡◌, refl, subst, ap, sym, arith,
}
use bat_native_ledger_isolat.UrlFetcher.{Curl, UrlFetcher}
use bat_native_ledger_isolat.Service.Loads.{
  FetchCallback, Response, Loads, find_fetcher, erase_fetcher, assign_fetcher, register, answer_to,
  response_of, on_url_fetch_complete,
}
use bat_native_ledger_isolat.Service.Loads.Once.{
  Unused, erase_fetcher-Unused, find_fetcher-erase_fetcher,
}

-- `std::map` has one entry for an address.
abbrev pub IsKeyed : List (ℕ × FetchCallback) → Type 0
IsKeyed [] = Unit {0}
IsKeyed ((p, callback) ∷ more) = Unused p more × IsKeyed more

-- How many of the handlers that wait, and of those that are answered, meet a condition.
abbrev pub pending : (FetchCallback → Bool) → List (ℕ × FetchCallback) → ℕ
pending q [] = 0
pending q ((p, callback) ∷ more) = (if q callback then 1 else 0) + pending q more

abbrev pub answered : (FetchCallback → Bool) → List Response → ℕ
answered q [] = 0
answered q (response ∷ more) = (if q response.callback then 1 else 0) + answered q more

abbrev found : (FetchCallback → Bool) → Option FetchCallback → ℕ
found q none = 0
found q (some callback) = if q callback then 1 else 0

answered-append :
    (q : FetchCallback → Bool) (xs ys : List Response)
    → answered q (xs ++ ys) ≡ answered q xs + answered q ys
answered-append q [] ys = omega arith
answered-append q (x ∷ xs) ys = omega (arith, answered-append q xs ys)

pending-erase_fetcher :
    (q : FetchCallback → Bool) (source : ℕ) (l : List (ℕ × FetchCallback))
    → IsKeyed l
    → pending q (erase_fetcher source l) + found q (find_fetcher source l) ≡ pending q l
unfolding erase_fetcher find_fetcher
pending-erase_fetcher q source [] k = omega arith
pending-erase_fetcher q source ((p, callback) ∷ more) k =
    ground (arith, pending-erase_fetcher q source more k.1, k.0)

find_fetcher-erase_other :
    (source p : ℕ) (l : List (ℕ × FetchCallback))
    → find_fetcher p l ≡ none
    → find_fetcher p (erase_fetcher source l) ≡ none
unfolding erase_fetcher find_fetcher
find_fetcher-erase_other source p [] h = refl
find_fetcher-erase_other source p ((j, callback) ∷ more) h =
    ground (arith, find_fetcher-erase_other source p more)

erase_fetcher-IsKeyed :
    (source : ℕ) (l : List (ℕ × FetchCallback)) → IsKeyed l → IsKeyed (erase_fetcher source l)
unfolding erase_fetcher
erase_fetcher-IsKeyed source [] k = tt
erase_fetcher-IsKeyed source ((p, callback) ∷ more) k = elim (Bool-cases (p == source)) [
  | inl e ↦ rw e (erase_fetcher-IsKeyed source more k.1)
  | inr e ↦ rw e (find_fetcher-erase_other source p more k.0, erase_fetcher-IsKeyed source more k.1)
]

module _ {Handle Net : Type 0} (c : Curl Handle Net) where
  -- The transfers that end, in turn: the address of each fetcher, and the fetcher.
  unfoldable pub complete_all : List (ℕ × UrlFetcher Handle) → Loads → Loads
  unfolding on_url_fetch_complete
  complete_all [] s = s
  complete_all ((source, f) ∷ more) s = complete_all more (on_url_fetch_complete c source f s)

  fetchers-on_url_fetch_complete :
      (source : ℕ) (f : UrlFetcher Handle) (s : Loads)
      → (on_url_fetch_complete c source f s).fetchers ≡ erase_fetcher source s.fetchers
  unfolding on_url_fetch_complete
  fetchers-on_url_fetch_complete source f s = by_answer (find_fetcher source s.fetchers) refl
    where
      by_answer :
          (o : Option FetchCallback)
          → find_fetcher source s.fetchers ≡ o
          → (answer_to c o source f s).fetchers ≡ erase_fetcher source s.fetchers
      by_answer none e = sym (erase_fetcher-Unused source s.fetchers e)
      by_answer (some callback) e = refl

  -- Each entry stays the only one of its address, under a load as under a completion.
  pub register-IsKeyed :
      (source handler : ℕ) (url : String) (f : UrlFetcher Handle) (s : Loads)
      → IsKeyed s.fetchers
      → IsKeyed (register source handler url s).fetchers
        × IsKeyed (on_url_fetch_complete c source f s).fetchers
  unfolding register assign_fetcher
  register-IsKeyed source handler url f s k = (
    (find_fetcher-erase_fetcher source s.fetchers, erase_fetcher-IsKeyed source s.fetchers k),
    subst IsKeyed (sym (fetchers-on_url_fetch_complete source f s))
        (erase_fetcher-IsKeyed source s.fetchers k),
  )

  answered-answer_to :
      (q : FetchCallback → Bool) (o : Option FetchCallback) (source : ℕ) (f : UrlFetcher Handle)
      (s : Loads)
      → answered q (answer_to c o source f s).tasks ≡ answered q s.tasks + found q o
  answered-answer_to q none source f s = omega arith
  answered-answer_to q (some callback) source f s =
      omega (arith, answered-append q s.tasks (response_of c callback f ∷ []))

  answered-on_url_fetch_complete :
      (q : FetchCallback → Bool) (source : ℕ) (f : UrlFetcher Handle) (s : Loads)
      → answered q (on_url_fetch_complete c source f s).tasks
        ≡ answered q s.tasks + found q (find_fetcher source s.fetchers)
  unfolding on_url_fetch_complete
  answered-on_url_fetch_complete q source f s =
      answered-answer_to q (find_fetcher source s.fetchers) source f s

  abbrev pub listed : ℕ → List (ℕ × UrlFetcher Handle) → Bool
  listed p [] = false
  listed p ((source, f) ∷ more) = source == p || listed p more

  -- Every fetcher ends its transfer.
  abbrev pub IsCovered : List (ℕ × UrlFetcher Handle) → List (ℕ × FetchCallback) → Type 0
  IsCovered ends fetchers = All (λ entry. listed entry.0 ends ≡ true) fetchers

  erase_fetcher-IsCovered :
      (source : ℕ) (f : UrlFetcher Handle) (ends : List (ℕ × UrlFetcher Handle))
      (l : List (ℕ × FetchCallback))
      → IsCovered ((source, f) ∷ ends) l
      → IsCovered ends (erase_fetcher source l)
  unfolding erase_fetcher
  erase_fetcher-IsCovered source f ends [] h = tt
  erase_fetcher-IsCovered source f ends ((p, callback) ∷ more) h = elim (Bool-cases (p == source)) [
    | inl e ↦ rw e (erase_fetcher-IsCovered source f ends more h.1)
    | inr e ↦ rw e (ground (arith, h.0), erase_fetcher-IsCovered source f ends more h.1)
  ]

  none_left : (l : List (ℕ × FetchCallback)) → IsCovered [] l → l ≡ []
  none_left [] h = refl
  none_left ((p, callback) ∷ more) h = cc (h.0)

  -- Where every fetcher that is registered ends its transfer, in whatever order and among whatever
  -- other completions, none is left, and of the handlers that meet a condition, whatever it is, as
  -- many more are answered by a task as waited.
  pub complete_all-answers :
      (q : FetchCallback → Bool) (ends : List (ℕ × UrlFetcher Handle)) (s : Loads)
      → IsKeyed s.fetchers
      → IsCovered ends s.fetchers
      → ((complete_all ends s).fetchers ≡ [])
        × (answered q (complete_all ends s).tasks ≡ answered q s.tasks + pending q s.fetchers)
  unfolding complete_all
  complete_all-answers q [] s k h =
      (none_left s.fetchers h, omega (arith, ap (pending q) (none_left s.fetchers h)))
  complete_all-answers q ((source, f) ∷ ends) s k h =
      let same = fetchers-on_url_fetch_complete source f s in
      let rest =
        complete_all-answers q ends (on_url_fetch_complete c source f s)
          (subst IsKeyed (sym same) (erase_fetcher-IsKeyed source s.fetchers k))
          (subst (IsCovered ends) (sym same)
            (erase_fetcher-IsCovered source f ends s.fetchers h)) in
      (
        rest.0,
        omega (
          arith,
          rest.1,
          ap (pending q) same,
          answered-on_url_fetch_complete q source f s,
          pending-erase_fetcher q source s.fetchers k,
        ),
      )
