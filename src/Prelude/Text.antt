-- ===== src/Prelude/Text.antt =====
-- Texts are the native `String`; a stream of decimal numbers and literals is written into one.
use Prim.Native.Char.{Char, code}
use Prim.Native.Nat.{ℕ, zero, suc, ◌/◌, ◌%◌, ◌≤◌}
use Prim.Native.String
use Prim.Native.String.{String}
use mathlib.Core.Bool.{Bool, true, false}
use mathlib.Core.Path.{◌≡◌, refl}
use mathlib.Core.Logic.{inl, inr}
use native.Mathlib.Omega.{arith}
use text.Mathlib.TextLemmas.{nil-append, cons-append}
use bat_native_ledger_isolat.Prelude.Tests.{ltb, if◌then◌else◌, Bool-cases}
use bat_native_ledger_isolat.Prelude.Int.{ℤ, pos, negsuc}
pub use text.Mathlib.Text.{◌==◌ as str_eq}
pub use text.Mathlib.TextEquality.{eq_iff}

abbrev pub empty : String → Bool
empty String.[] = true
empty (String.◌∷◌ c s) = false

infixr 65 ◌+++◌
abbrev pub ◌+++◌ : String → String → String
s +++ t = String.◌++◌ s t

digit : ℕ → String
digit zero = "0"
digit (suc zero) = "1"
digit (suc (suc zero)) = "2"
digit (suc (suc (suc zero))) = "3"
digit (suc (suc (suc (suc zero)))) = "4"
digit (suc (suc (suc (suc (suc zero))))) = "5"
digit (suc (suc (suc (suc (suc (suc zero)))))) = "6"
digit (suc (suc (suc (suc (suc (suc (suc zero))))))) = "7"
digit (suc (suc (suc (suc (suc (suc (suc (suc zero)))))))) = "8"
digit (suc (suc (suc (suc (suc (suc (suc (suc (suc n))))))))) = "9"

-- A number has fewer digits than its value plus one, so the number itself is fuel enough.
digits : ℕ → ℕ → String → String
digits zero n out = digit n +++ out
digits (suc fuel) n out =
    let rest = digits fuel (n / 10) (digit (n % 10) +++ out) in
    if ltb n 10 then digit n +++ out else rest

-- `stream << n` for an unsigned number and for an `int`.
unfoldable pub show_ℕ : ℕ → String
unfolding digit digits
show_ℕ n = digits n n ""

unfoldable pub show_ℤ : ℤ → String
unfolding show_ℕ
show_ℤ (pos n) = show_ℕ n
show_ℤ (negsuc n) = "-" +++ show_ℕ (suc n)

pub show_ℤ-pos : (n : ℕ) → show_ℤ (pos n) ≡ show_ℕ n
unfolding show_ℤ
show_ℤ-pos n = refl

show_ℤ_test : show_ℤ (negsuc 2018) ≡ "-2019"
unfolding show_ℤ
show_ℤ_test = refl

abbrev pub AllChars : (Char → Type 0) → String → Type 0
AllChars P String.[] = Unit {0}
AllChars P (String.◌∷◌ c s) = P c × AllChars P s

pub AllChars-append :
    (P : Char → Type 0) (s t : String) → AllChars P s → AllChars P t → AllChars P (s +++ t)
AllChars-append P String.[] t h k = rw nil-append k
AllChars-append P (String.◌∷◌ c s) t h k = rw cons-append (h.0, AllChars-append P s t h.1 k)

-- From `-` to `9` in the order of the code points.
abbrev pub IsNumeric : Char → Type 0
IsNumeric c = (b'-' ≤ code c) × (code c ≤ b'9')

digit-IsNumeric : (n : ℕ) → AllChars IsNumeric (digit n)
unfolding digit
digit-IsNumeric zero = omega arith
digit-IsNumeric (suc zero) = omega arith
digit-IsNumeric (suc (suc zero)) = omega arith
digit-IsNumeric (suc (suc (suc zero))) = omega arith
digit-IsNumeric (suc (suc (suc (suc zero)))) = omega arith
digit-IsNumeric (suc (suc (suc (suc (suc zero))))) = omega arith
digit-IsNumeric (suc (suc (suc (suc (suc (suc zero)))))) = omega arith
digit-IsNumeric (suc (suc (suc (suc (suc (suc (suc zero))))))) = omega arith
digit-IsNumeric (suc (suc (suc (suc (suc (suc (suc (suc zero)))))))) = omega arith
digit-IsNumeric (suc (suc (suc (suc (suc (suc (suc (suc (suc n))))))))) = omega arith

digits-IsNumeric :
    (fuel n : ℕ) (out : String) → AllChars IsNumeric out → AllChars IsNumeric (digits fuel n out)
unfolding digits
digits-IsNumeric zero n out h = AllChars-append IsNumeric (digit n) out (digit-IsNumeric n) h
digits-IsNumeric (suc fuel) n out h = elim (Bool-cases (ltb n 10)) [
  | inl e ↦ rw e (AllChars-append IsNumeric (digit n) out (digit-IsNumeric n) h)
  | inr e ↦ rw e (
      digits-IsNumeric fuel (n / 10) (digit (n % 10) +++ out)
        (AllChars-append IsNumeric (digit (n % 10)) out (digit-IsNumeric (n % 10)) h))
]

pub show_ℕ-IsNumeric : (n : ℕ) → AllChars IsNumeric (show_ℕ n)
unfolding show_ℕ
show_ℕ-IsNumeric n = digits-IsNumeric n n "" tt

pub show_ℤ-IsNumeric : (z : ℤ) → AllChars IsNumeric (show_ℤ z)
unfolding show_ℤ
show_ℤ-IsNumeric (pos n) = show_ℕ-IsNumeric n
show_ℤ-IsNumeric (negsuc n) =
    AllChars-append IsNumeric "-" (show_ℕ (suc n)) (omega arith) (show_ℕ-IsNumeric (suc n))
