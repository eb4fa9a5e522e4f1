-- ===== src/Backend/Tests.antt =====
-- A store in key order that meets the iterator's laws, and the theorems about it.
use Prim.Native.Nat.{Ordering}
use Prim.Native.String
use bat_native_ledger_isolat.Prelude.{
  ℕ, ◌≤◌, String, Bool, true, false, List, [], ◌∷◌, length, take, drop, some, if◌then◌else◌, ◌≡◌,
  refl, arith, ◌==◌,
}
use bat_native_ledger_isolat.Prelude.Dict.{lookup, assign}
use bat_native_ledger_isolat.Backend.{
  LevelDb, opened, PublisherInfoBackend, load, search_prefixes, ensure_initialized,
}
use bat_native_ledger_isolat.Backend.Scans.{
  IteratorLaws, take_while, matches, load-window, search_prefixes-window,
}

abbrev Entries : Type 0
Entries = List (String × String)

abbrev values : Entries → List String
values [] = []
values ((k, v) ∷ d) = v ∷ values d

abbrev below : String → String → Bool
below a b = elim (String.compare a b) [ Ordering.lt ↦ true | _ ↦ false ]

abbrev values_from : String → Entries → List String
values_from k [] = []
values_from k ((j, v) ∷ d) = let rest = values_from k d in if below j k then rest else v ∷ values d

values_from-le : (k : String) (d : Entries) → length (values_from k d) ≤ length (values d)
values_from-le k [] = omega arith
values_from-le k ((j, v) ∷ d) = ground (arith, values_from-le k d)

abbrev tail : List String → List String
tail [] = []
tail (v ∷ vs) = vs

abbrev head : List String → String
head [] = ""
head (v ∷ vs) = v

abbrev some_left : List String → Bool
some_left [] = false
some_left (v ∷ vs) = true

abbrev last_of : List String → List String
last_of [] = []
last_of (v ∷ []) = v ∷ []
last_of (v ∷ w ∷ vs) = last_of (w ∷ vs)

tail-last_of : (vs : List String) → tail (last_of vs) ≡ []
tail-last_of [] = refl
tail-last_of (v ∷ []) = refl
tail-last_of (v ∷ w ∷ vs) = tail-last_of (w ∷ vs)

abbrev store : LevelDb ℕ (List String × Entries) Entries
store = record {
  open_db = λ path d. (opened 1, d);
  remove_all = λ path d. [];
  put = λ h k v d. (true, assign d k v);
  get = λ h k d. lookup k d;
  new_iterator = λ h d. ([], d);
  seek = λ k it. (values_from k it.1, it.1);
  seek_to_first = λ it. (values it.1, it.1);
  seek_to_last = λ it. (last_of (values it.1), it.1);
  next = λ it. (tail it.0, it.1);
  valid = λ it. some_left it.0;
  value = λ it. head it.0;
  starts_with = λ v p. String.find v p == 0;
}

abbrev store_laws : IteratorLaws store
store_laws = record {
  rest = λ it. it.0;
  origin = λ it. it.1;
  entries = values;
  from = values_from;
  valid-nil = λ it r. rw r;
  valid-cons = λ it v vs r. rw r;
  value-cons = λ it v vs r. rw r;
  next-cons = λ it v vs r. rw r;
  last-next = λ it v vs r. tail-last_of (values it.1);
  first = λ it. refl;
  seek = λ k it. refl;
  from-le = values_from-le;
  origin-new = λ h d. refl;
  origin-next = λ it. refl;
  origin-last = λ it. refl;
  origin-seek = λ k it. refl;
}

abbrev three : PublisherInfoBackend ℕ Entries
three = record {
  path = "publishers";
  db = some 1;
  disk = ("a", "a1") ∷ ("b", "b1") ∷ ("c", "c1") ∷ [];
}

load-window_example : load store 4 1 1 three ≡ (some (some ("b1" ∷ [])), three)
unfolding ensure_initialized
load-window_example =
    load-window store store_laws three three 1 refl refl 4 1 1 (omega arith) (omega arith)

search_prefixes-window_example :
    search_prefixes store 4 ("b" ∷ []) 0 5 three
    ≡ (some (some (take 5 (drop 0 (matches store store_laws ("b" ∷ []) three.disk)))), three)
unfolding ensure_initialized
search_prefixes-window_example =
    search_prefixes-window store store_laws three three 1 refl refl 4 0 5 ("b" ∷ []) (omega arith)
      (unfold matches take_while in omega arith)
