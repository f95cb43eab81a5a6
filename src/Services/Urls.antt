-- ===== src/Services/Urls.antt =====
-- internal/services/url_validator.go: which URLs may be fetched. Packages net and net/url and the resolver
-- are parameters; the answers of the resolver may change from one lookup to the next.
pub mod Visits
mod Tests
use goread.Base.{
  string_Eq, ℕ, suc, Bool, true, false, ◌||◌, not, String, Option, none, some, List, [], ◌∷◌, ◌++◌,
  if◌then◌else◌, ◌==◌, leb, length,
}
use goread.Database.{Result, ok, err}

-- What `url.Parse` finds.
pub record Url : Type 0 where
  pub scheme : String
  pub host : String
  pub hostname : String

-- The parser of URLs, that of addresses, and whether a block holds an address.
pub record Nets : Type 1 where
  pub Address : Type 0
  pub parse_url : String → Option Url
  pub parse_ip : String → Option Address
  pub contains : String → Address → Bool

pub data UrlError : Type 0 where
  invalid_url scheme_blocked host_missing address_blocked lookup_failed empty_url
        too_many_redirects :
      UrlError

abbrev pub blocked_networks : List String
blocked_networks =
    "127.0.0.0/8" ∷ "10.0.0.0/8" ∷ "172.16.0.0/12" ∷ "192.168.0.0/16" ∷ "169.254.0.0/16"
    ∷ "224.0.0.0/4" ∷ "240.0.0.0/4" ∷ "::1/128" ∷ "fe80::/10" ∷ "fc00::/7" ∷ "ff00::/8" ∷ []

abbrev pub is_allowed_scheme : String → Bool
is_allowed_scheme scheme = scheme == "http" || scheme == "https"

module _ (nets : Nets) where
  -- A lookup of a host name at some time; `none` is a failure or the timeout of five seconds.
  abbrev pub Lookup : Type 0
  Lookup = String → Option (List nets.Address)

  unfoldable pub is_in_any : List String → nets.Address → Bool
  is_in_any [] ip = false
  is_in_any (network ∷ networks) ip =
      if nets.contains network ip then true else is_in_any networks ip

  unfoldable pub is_blocked_ip : nets.Address → Bool
  is_blocked_ip ip = is_in_any blocked_networks ip

  unfoldable pub any_blocked : List nets.Address → Bool
  any_blocked [] = false
  any_blocked (ip ∷ ips) = if is_blocked_ip ip then true else any_blocked ips

  abbrev pub is_blocked_literal : Option nets.Address → Bool
  is_blocked_literal none = false
  is_blocked_literal (some ip) = is_blocked_ip ip

  -- The addresses that a lookup returned.
  unfoldable pub validate_addresses : Option (List nets.Address) → Result UrlError (Unit {0})
  validate_addresses none = err lookup_failed
  validate_addresses (some []) = err lookup_failed
  validate_addresses (some (ip ∷ ips)) =
      if any_blocked (ip ∷ ips) then err address_blocked else ok tt

  unfoldable pub validate_url : Lookup → String → Result UrlError (Unit {0})
  validate_url look_up raw_url = elim (nets.parse_url raw_url) [
    | none ↦ err invalid_url
    | some url ↦
        if not (is_allowed_scheme url.scheme)
        then err scheme_blocked
        else if url.host == ""
        then err host_missing
        else if url.hostname == ""
        then err host_missing
        else if is_blocked_literal (nets.parse_ip url.hostname)
        then err address_blocked
        else validate_addresses (look_up url.hostname)
  ]

  -- `strings.TrimSpace`, `strings.HasPrefix` of "http://" or "https://", and putting "https://" in front.
  module _ (trim_space : String → String) (has_scheme : String → Bool)
      (with_https : String → String) where
    unfoldable pub validate_and_normalize_url : Lookup → String → Result UrlError String
    validate_and_normalize_url look_up raw_url =
        let trimmed = trim_space raw_url in
        let url = if has_scheme trimmed then trimmed else with_https trimmed in
        if trimmed == ""
        then err empty_url
        else elim (validate_url look_up url) [ err e ↦ err e | ok _ ↦ ok url ]

  -- `CheckRedirect`: `via` holds the requests made so far.
  unfoldable pub check_redirect : Lookup → String → List String → Result UrlError (Unit {0})
  check_redirect look_up raw_url via =
      if leb 10 (length via) then err too_many_redirects else validate_url look_up raw_url

  -- The URLs that a client requests: the first one was validated by the caller, and each redirection, with
  -- the answers of the resolver at that time, is checked before it is followed.
  unfoldable pub follow : List String → List (Lookup × String) → List String
  follow via [] = via
  follow via ((look_up, url) ∷ redirects) = elim (check_redirect look_up url via) [
    | err _ ↦ via
    | ok _ ↦ follow (url ∷ via) redirects
  ]
