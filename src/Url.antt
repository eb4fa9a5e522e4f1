-- ===== src/Url.antt =====
-- `parseUrl` of driver/brave_rewards_service_impl.cc. `InternetCrackUrlA` of Windows is a parameter,
-- which finds the host and the path of a URL, with the sizes of the buffers that it is given.
pub mod Domains
use Prim.Native.Char.{code}
use Prim.Native.String
use bat_native_ledger_isolat.Prelude.{
  ℕ, suc, ◌==◌, ltb, String, Bool, true, false, Option, none, some, if◌then◌else◌,
}

abbrev pub CrackUrl : Type 0
CrackUrl = String → Option (String × String)

-- `std::count(tld.begin(), tld.end(), '.')`
unfoldable pub dots : String → ℕ
dots String.[] = 0
dots (String.◌∷◌ c s) = let rest = dots s in if code c == b'.' then suc rest else rest

-- `tld.substr(tld.find('.') + 1)`
unfoldable pub behind_dot : String → String
behind_dot String.[] = ""
behind_dot (String.◌∷◌ c s) = let rest = behind_dot s in if code c == b'.' then s else rest

unfoldable pub tld_of : String → String
unfolding dots behind_dot
tld_of host = if ltb 1 (dots host) then behind_dot host else host

-- The answer, and what it leaves in `tld`, `host` and `path`, which are empty before.
pub record ParsedUrl : Type 0 where
  pub succeeded : Bool
  pub tld : String
  pub host : String
  pub path : String

abbrev pub parsed : Option (String × String) → ParsedUrl
parsed none = record { succeeded = false; tld = ""; host = ""; path = "" }
parsed (some (h, p)) = record { succeeded = true; tld = tld_of h; host = h; path = p }

unfoldable pub parse_url : CrackUrl → String → ParsedUrl
parse_url crack url = parsed (crack url)
