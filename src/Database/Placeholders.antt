-- ===== src/Database/Placeholders.antt =====
-- How SQLite reads a text that driver/publisher_info_database.cc sends: a `?` outside of quotes is a
-- placeholder, and a quote opens or closes a literal.
pub mod Texts
pub mod Noted
pub mod Init
pub mod Sent
mod Tests
use Prim.Native.Char.{Char, code}
use Prim.Native.String
use text.Mathlib.TextLemmas.{nil-append, cons-append}
use bat_native_ledger_isolat.Prelude.{
  ℕ, ◌+◌, ◌==◌, String, ◌+++◌, Bool, true, false, ◌&&◌, not, if◌then◌else◌, ◌≡◌, refl, arith,
}

abbrev pub is_quote : Char → Bool
is_quote c = code c == b'\''

abbrev pub is_mark : Char → Bool
is_mark c = code c == b'?'

-- Whether the text ends within a literal, where it starts within one or not.
unfoldable pub quoted : Bool → String → Bool
quoted b String.[] = b
quoted b (String.◌∷◌ c s) = quoted (if is_quote c then not b else b) s

unfoldable pub placeholders : Bool → String → ℕ
placeholders b String.[] = 0
placeholders b (String.◌∷◌ c s) =
    (if is_mark c && not b then 1 else 0) + placeholders (if is_quote c then not b else b) s

pub quoted-append : (b : Bool) (s t : String) → quoted b (s +++ t) ≡ quoted (quoted b s) t
unfolding quoted
quoted-append b String.[] t = rw nil-append
quoted-append b (String.◌∷◌ c s) t =
    rw (cons-append c s t) (quoted-append (if is_quote c then not b else b) s t)

pub placeholders-append :
    (b : Bool) (s t : String)
    → placeholders b (s +++ t) ≡ placeholders b s + placeholders (quoted b s) t
unfolding quoted placeholders
placeholders-append b String.[] t = rw nil-append (omega arith)
placeholders-append b (String.◌∷◌ c s) t =
    rw (cons-append c s t)
      (omega (arith, placeholders-append (if is_quote c then not b else b) s t))
