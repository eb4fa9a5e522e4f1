-- ===== src/Url/Domains.antt =====
-- The domain that driver/brave_rewards_service_impl.cc takes for a publisher's.

use text.Mathlib.TextLemmas.{nil-append, cons-append}
use bat_native_ledger_isolat.Prelude.{suc, ltb, String, ◌+++◌, if◌then◌else◌, ◌≡◌, arith}
use bat_native_ledger_isolat.Url.{dots, behind_dot, tld_of}

-- A dot in front of a text.
dot_front : (s : String) → "." +++ s ≡ String.◌∷◌ "." s
dot_front s = rw (cons-append, nil-append)

dots-label :
    (label suffix : String) → dots label ≡ 0 → dots (label +++ "." +++ suffix) ≡ suc (dots suffix)
unfolding dots
dots-label String.[] suffix h = rw (nil-append, dot_front)
dots-label (String.◌∷◌ c s) suffix h =
    rw (cons-append c s ("." +++ suffix)) (ground (arith, dots-label s suffix))

behind_dot-label :
    (label suffix : String) → dots label ≡ 0 → behind_dot (label +++ "." +++ suffix) ≡ suffix
unfolding dots behind_dot
behind_dot-label String.[] suffix h = rw (nil-append, dot_front)
behind_dot-label (String.◌∷◌ c s) suffix h =
    rw (cons-append c s ("." +++ suffix)) (ground (arith, behind_dot-label s suffix))

-- Of a host that is a label without a dot, a dot, and a rest: the domain is the rest where that has
-- a dot, and the host else.
tld_of-label :
    (label rest : String)
    → dots label ≡ 0
    → tld_of (label +++ "." +++ rest) ≡ (if ltb 0 (dots rest) then rest else label +++ "." +++ rest)
unfolding tld_of
tld_of-label label rest h = ground (arith, dots-label label rest, behind_dot-label label rest)
