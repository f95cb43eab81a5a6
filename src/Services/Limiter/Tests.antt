-- ===== src/Services/Limiter/Tests.antt =====
-- Two domains with buckets that hold a number of tokens and never refill.
use goread.Base.{
  ℕ, suc, zero, ◌≡◌, refl, Bool, true, false, some, [], ◌∷◌, ℤ, pos, negsuc, lookup, insert, delete,
}
use goread.Services.Limiter.{
  Buckets, Hosts, allow_call, cleanup_call, new_domain_rate_limiter, get_limiter_for_domain, sweep,
  cleanup_old_limiters, extract_domain, allow, step, run,
}
use goread.Services.Limiter.Solo.{allow-solo, solo_run, solo_step}

abbrev capacity : ℤ → ℕ
capacity (pos n) = n
capacity (negsuc n) = 0

abbrev draw : ℕ → ℕ × Bool
draw zero = (0, false)
draw (suc n) = (n, true)

abbrev no_refill : Buckets
no_refill = record {
  Bucket = ℕ;
  new_bucket = λ interval burst. capacity burst;
  allow = λ held now. draw held;
  wait = λ held now. draw held;
  tokens = λ held now. pos held;
}

abbrev plain : Hosts
plain = record { parse_host = λ url. some url; to_lower = λ host. host; trim_www = λ host. host }

-- The second request for a domain is refused, a first one for another is not, and an hour later the
-- bucket starts afresh.
two_domains :
    ((allow no_refill plain 2 "a" (
        run no_refill plain
          (new_domain_rate_limiter no_refill (pos 6) (pos 1))
          (allow_call 1 "a" ∷ []))).1
      ≡ false)
    × ((allow no_refill plain 2 "b" (
          run no_refill plain
            (new_domain_rate_limiter no_refill (pos 6) (pos 1))
            (allow_call 1 "a" ∷ []))).1
        ≡ true)
    × ((allow no_refill plain 3600000000004 "a" (
          run no_refill plain
            (new_domain_rate_limiter no_refill (pos 6) (pos 1))
            (allow_call 1 "a" ∷ cleanup_call 3600000000003 ∷ []))).1
        ≡ true)
unfolding allow run step new_domain_rate_limiter extract_domain get_limiter_for_domain
    cleanup_old_limiters sweep lookup insert delete
two_domains = (refl, refl, refl)

allow-solo_example :
    (allow no_refill plain 2 "b" (
      run no_refill plain
        (new_domain_rate_limiter no_refill (pos 6) (pos 1))
        (allow_call 1 "a" ∷ []))).1
    ≡ true
unfolding new_domain_rate_limiter extract_domain solo_run solo_step
allow-solo_example = allow-solo no_refill plain (pos 6) (pos 1) (allow_call 1 "a" ∷ []) 2 "b"
