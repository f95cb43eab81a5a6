-- ===== src/Services/Urls/Tests.antt =====
-- A public host that redirects to a private one.
use goread.Base.{
  string_Eq, ◌≡◌, refl, ◌&&◌, String, none, some, [], ◌∷◌, ◌==◌, ◌≤◌, length, All, if◌then◌else◌,
}
use goread.Database.{err}
use goread.Services.Urls.{
  Nets, Lookup, validate_url, validate_addresses, any_blocked, is_blocked_ip, is_in_any, follow,
  check_redirect, address_blocked,
}
use goread.Services.Urls.Visits.{follow-checked, WasChecked}

abbrev toy_nets : Nets
toy_nets = record {
  Address = String;
  parse_url = λ raw. some (record { scheme = "https"; host = raw; hostname = raw });
  parse_ip = λ raw. none;
  contains = λ network ip. network == "10.0.0.0/8" && ip == "10.0.0.1";
}

abbrev toy_lookup : Lookup toy_nets
toy_lookup host = some ((if host == "inside" then "10.0.0.1" else "192.0.2.1") ∷ [])

inside_blocked : validate_url toy_nets toy_lookup "inside" ≡ err address_blocked
unfolding validate_url validate_addresses any_blocked is_blocked_ip is_in_any
inside_blocked = refl

redirect_refused : follow toy_nets ("outside" ∷ []) ((toy_lookup, "inside") ∷ []) ≡ "outside" ∷ []
unfolding follow check_redirect validate_url validate_addresses any_blocked is_blocked_ip is_in_any
redirect_refused = refl

follow-checked_example :
    All
      (WasChecked toy_nets ((toy_lookup, "outside") ∷ (toy_lookup, "inside") ∷ []))
      (follow toy_nets ("outside" ∷ []) ((toy_lookup, "inside") ∷ []))
    × (length (follow toy_nets ("outside" ∷ []) ((toy_lookup, "inside") ∷ [])) ≤ 10)
follow-checked_example =
    follow-checked toy_nets toy_lookup "outside" ((toy_lookup, "inside") ∷ [])
      (unfold validate_url validate_addresses any_blocked is_blocked_ip is_in_any in refl)
