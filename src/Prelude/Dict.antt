-- ===== src/Prelude/Dict.antt =====
-- `std::map<std::string, V>` as an association list: only look-ups tell maps apart.
use Prim.Native.String.{String}
use text.Mathlib.Text.{◌==◌ as str_eq}
use text.Mathlib.TextEquality.{eq_iff}
use mathlib.Core.Path.{◌≡◌, refl}
use mathlib.Core.Option.{Option, none, some}
use mathlib.Core.List.{List, [], ◌∷◌}
use native.Mathlib.Omega.{arith}
use bat_native_ledger_isolat.Prelude.Tests.{if◌then◌else◌}

-- The entry of a key, and `m[key] = value`.
unfoldable pub lookup {ℓ} : {V : Type ℓ} → String → List (String × V) → Option V
lookup key [] = none
lookup key (entry ∷ m) = if str_eq entry.0 key then some entry.1 else lookup key m

unfoldable pub assign {ℓ} : {V : Type ℓ} → List (String × V) → String → V → List (String × V)
assign [] key value = (key, value) ∷ []
assign (entry ∷ m) key value =
    if str_eq entry.0 key then (key, value) ∷ m else entry ∷ assign m key value

-- After an assignment the key has the value, and every other key what it had.
pub lookup-assign {ℓ} :
    {V : Type ℓ} (m : List (String × V)) (key other : String) (value : V)
    → lookup other (assign m key value) ≡ (if str_eq key other then some value else lookup other m)
unfolding lookup assign
lookup-assign [] key other value = refl
lookup-assign (entry ∷ m) key other value = ground (
  arith,
  lookup-assign m key other value,
  eq_iff key other,
  eq_iff entry.0 other,
  eq_iff entry.0 key,
)
