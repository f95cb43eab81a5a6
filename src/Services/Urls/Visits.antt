-- ===== src/Services/Urls/Visits.antt =====
-- internal/services/url_validator.go: what the checks guarantee of every request.
use goread.Base.{
  string_Eq, ◌≤◌, ◌<◌, ◌≡◌, refl, true, false, String, Option, none, some, List, [], ◌∷◌, length,
  arith, All, Bool-cases, Option-cases, inl, inr, ◌⊎◌,
}
use goread.Database.{Result-cases, ok}
use goread.Services.Urls.{
  Url, Nets, Lookup, blocked_networks, is_allowed_scheme, is_in_any, is_blocked_ip, any_blocked,
  validate_addresses, validate_url, check_redirect, follow,
}

module _ (nets : Nets) where
  -- An address in no blocked network.
  abbrev pub IsOutside : nets.Address → Type 0
  IsOutside ip = All (λ network. nets.contains network ip ≡ false) blocked_networks

  -- A URL that parses to an allowed scheme with a host name, whose addresses, of which there is one at
  -- least, lie outside the blocked networks when it is looked up.
  pub record IsPublic (look_up : Lookup nets) (raw_url : String) : Type 0 where
    pub url : Url
    pub addresses : List nets.Address
    pub parsed : nets.parse_url raw_url ≡ some url
    pub allowed : is_allowed_scheme url.scheme ≡ true
    pub found : look_up url.hostname ≡ some addresses
    pub some_address : 0 < length addresses
    pub outside : All IsOutside addresses

  in_none :
      (networks : List String) (ip : nets.Address)
      → is_in_any nets networks ip ≡ false
      → All (λ network. nets.contains network ip ≡ false) networks
  unfolding is_in_any
  in_none [] ip h = tt
  in_none (network ∷ networks) ip h = elim (Bool-cases (nets.contains network ip)) [
    | inl inside ↦ absurd (ground (arith, inside))
    | inr outside ↦ (outside, in_none networks ip (ground (arith, outside)))
  ]

  unblocked : (ips : List nets.Address) → any_blocked nets ips ≡ false → All IsOutside ips
  unfolding any_blocked is_blocked_ip
  unblocked [] h = tt
  unblocked (ip ∷ ips) h = elim (Bool-cases (is_blocked_ip nets ip)) [
    | inl blocked ↦ absurd (ground (arith, blocked))
    | inr free ↦ (in_none blocked_networks ip free, unblocked ips (ground (arith, free)))
  ]

  -- What a lookup found where its addresses pass.
  passed :
      (found : Option (List nets.Address))
      → validate_addresses nets found ≡ ok tt
      → (addresses : List nets.Address) × (found ≡ some addresses)
        × (0 < length addresses)
        × All IsOutside addresses
  unfolding validate_addresses
  passed none h = cc
  passed (some []) h = cc
  passed (some (ip ∷ ips)) h = (ip ∷ ips, refl, omega arith, unblocked (ip ∷ ips) (ground arith))

  validate-IsPublic :
      (look_up : Lookup nets) (raw_url : String)
      → validate_url nets look_up raw_url ≡ ok tt
      → IsPublic look_up raw_url
  unfolding validate_url
  validate-IsPublic look_up raw_url h = elim (Option-cases (nets.parse_url raw_url)) [
    | inl bad ↦ absurd (ground (arith, bad))
    | inr (u, good) ↦
        let checked : validate_addresses nets (look_up u.hostname) ≡ ok tt = ground (arith, good) in
        let (ips, found, one, outside) = passed (look_up u.hostname) checked in
        record {
          url = u;
          addresses = ips;
          parsed = good;
          allowed = ground (arith, good);
          found = found;
          some_address = one;
          outside = outside;
        }
  ]

  -- A URL that one of the checks found public.
  abbrev pub WasChecked : List (Lookup nets × String) → String → Type 0
  WasChecked [] url = ⊥
  WasChecked ((look_up, checked) ∷ checks) url =
      ((checked ≡ url) × IsPublic look_up checked) ⊎ WasChecked checks url

  abbrev Gives : (String → Type 0) → (Lookup nets × String) → Type 0
  Gives P (look_up, url) = IsPublic look_up url → P url

  All-follow :
      (P : String → Type 0) (via : List String) (redirects : List (Lookup nets × String))
      → All P via
      → All (Gives P) redirects
      → length via ≤ 10
      → All P (follow nets via redirects) × (length (follow nets via redirects) ≤ 10)
  unfolding follow check_redirect
  All-follow P via [] h g few = (h, few)
  All-follow P via ((look_up, url) ∷ redirects) h g few =
      elim (Result-cases (check_redirect nets look_up url via)) [
        | inr (e, refused) ↦ rw (refused, follow) (h, few)
        | inl (unit, passes) ↦
            let short : length via < 10 = ground (arith, passes) in
            let valid : validate_url nets look_up url ≡ ok tt = ground (arith, passes) in
            rw (passes, follow)
              (All-follow P (url ∷ via) redirects (g.0 (validate-IsPublic look_up url valid), h) g.1
                (omega (arith, short)))
      ]

  All-Gives :
      (P Q : String → Type 0) (l : List (Lookup nets × String))
      → ((url : String) → P url → Q url)
      → All (Gives P) l
      → All (Gives Q) l
  All-Gives P Q [] f h = tt
  All-Gives P Q (x ∷ l) f h = ((λ public. f x.1 (h.0 public)), All-Gives P Q l f h.1)

  each_checked : (l : List (Lookup nets × String)) → All (Gives (WasChecked l)) l
  each_checked [] = tt
  each_checked (x ∷ l) = (
    (λ public. inl (refl, public)),
    All-Gives (WasChecked l) (WasChecked (x ∷ l)) l (λ url h. inr h) (each_checked l),
  )

  -- A client that starts at a URL that was validated makes at most ten requests, whatever redirections it is
  -- given, and every URL that it requests was checked at one of the lookups: it has an allowed scheme, its
  -- host name had an address, and none of its addresses lay in a blocked network.
  pub follow-checked :
      (look_up : Lookup nets) (first : String) (redirects : List (Lookup nets × String))
      → validate_url nets look_up first ≡ ok tt
      → All (WasChecked ((look_up, first) ∷ redirects)) (follow nets (first ∷ []) redirects)
        × (length (follow nets (first ∷ []) redirects) ≤ 10)
  follow-checked look_up first redirects valid =
      let pool = (look_up, first) ∷ redirects in
      let gives = each_checked pool in
      All-follow (WasChecked pool) (first ∷ []) redirects
        (gives.0 (validate-IsPublic look_up first valid), tt) gives.1 (omega arith)
