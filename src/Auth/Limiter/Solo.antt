-- ===== src/Auth/Limiter/Solo.antt =====
-- internal/auth/rate_limiter.go: a client is answered by its own requests alone.
use goread.Base.{
  string_Eq, ℕ, ◌+◌, ◌≡◌, refl, Bool, String, Option, none, some, List, [], ◌∷◌, lookup, insert,
  not, if◌then◌else◌, ltb, ◌==◌, IsUnique, lookup-insert, lookup-keep, insert-IsUnique,
  keep-IsUnique, guarded, Option-cases, Bool-cases, inl, inr, ap,
}
use goread.Services.Limiter.{Buckets}
use goread.Auth.Client.{Net, Request, get_secure_client_ip}
use goread.Auth.Limiter.{
  IpEntry, RateLimiter, new_rate_limiter, entry_at, hour, get_limiter, cleanup_ips,
  rate_limit_middleware, step, run,
}

module _ (b : Buckets) (net : Net) (on_app_engine : Bool) where
  abbrev pub bucket_or : b.Bucket → Option (IpEntry b) → b.Bucket
  bucket_or first none = first
  bucket_or first (some entry) = entry.limiter

  -- A limiter for one client: it answers that client's requests and is dropped when a cleanup finds it
  -- idle.
  unfoldable pub solo_step :
      b.Bucket → String → Option (IpEntry b) → (ℕ × Option Request) → Option (IpEntry b)
  solo_step first ip s (now, some c) =
      if get_secure_client_ip net on_app_engine c == ip
      then some (entry_at b now (b.allow (bucket_or first s) now).0)
      else s
  solo_step first ip s (now, none) = guarded (λ entry. not (ltb (entry.last_access + hour) now)) s

  unfoldable pub solo_run :
      b.Bucket → String → Option (IpEntry b) → List (ℕ × Option Request) → Option (IpEntry b)
  solo_run first ip s [] = s
  solo_run first ip s (event ∷ events) = solo_run first ip (solo_step first ip s event) events

  pub record Agrees (first : b.Bucket) (ip : String) (rl : RateLimiter b) (s : Option (IpEntry b))
      : Type 0 where
    pub entry_agrees : lookup ip rl.ips ≡ s
    pub unique : IsUnique rl.ips
    pub config : rl.fresh ≡ first

  -- The bucket that the middleware reads.
  got :
      (now : ℕ) (ip : String) (rl : RateLimiter b)
      → (get_limiter b now ip rl).1 ≡ bucket_or rl.fresh (lookup ip rl.ips)
  unfolding get_limiter
  got now ip rl = elim (Option-cases (lookup ip rl.ips)) [
    | inl absent ↦ rw (absent, get_limiter)
    | inr (entry, present) ↦ rw (present, get_limiter)
  ]

  after_get :
      (now : ℕ) (ip : String) (rl : RateLimiter b)
      → (entry : IpEntry b) × ((get_limiter b now ip rl).0
          ≡ record rl { ips = insert ip entry rl.ips })
  unfolding get_limiter
  after_get now ip rl = elim (Option-cases (lookup ip rl.ips)) [
    | inl absent ↦ (entry_at b now rl.fresh, rw (absent, get_limiter))
    | inr (entry, present) ↦ (record entry { last_access = now }, rw (present, get_limiter))
  ]

  request-Agrees :
      (first : b.Bucket) (ip : String) (now : ℕ) (c : Request) (rl : RateLimiter b)
      (s : Option (IpEntry b))
      → Agrees first ip rl s
      → Agrees first ip
          (rate_limit_middleware b net on_app_engine now c rl).0
          (solo_step first ip s (now, some c))
  unfolding rate_limit_middleware solo_step
  request-Agrees first ip now c rl s a =
      let from = get_secure_client_ip net on_app_engine c in
      let (entry, after) = after_get now from rl in
      let spent = entry_at b now (b.allow (bucket_or rl.fresh (lookup from rl.ips)) now).0 in
      rw (got now from rl, after)
        (record {
          entry_agrees = elim (Bool-cases (from == ip)) [
            | inl here ↦
                rw (
                  lookup-insert,
                  here,
                  (string_Eq.beq_iff from ip).0 here,
                  a.entry_agrees,
                  a.config,
                )
            | inr other ↦ rw (lookup-insert, other, lookup-insert, other) a.entry_agrees
          ];
          unique = insert-IsUnique from spent _ (insert-IsUnique from entry rl.ips a.unique);
          config = a.config;
        })

  step-Agrees :
      (first : b.Bucket) (ip : String) (rl : RateLimiter b) (s : Option (IpEntry b))
      (event : ℕ × Option Request)
      → Agrees first ip rl s
      → Agrees first ip (step b net on_app_engine rl event) (solo_step first ip s event)
  unfolding step solo_step cleanup_ips
  step-Agrees first ip rl s (now, some c) a = request-Agrees first ip now c rl s a
  step-Agrees first ip rl s (now, none) a = record {
    entry_agrees = rw (lookup-keep _ ip rl.ips a.unique) (ap (guarded _) a.entry_agrees);
    unique = keep-IsUnique _ rl.ips a.unique;
    config = a.config;
  }

  run-Agrees :
      (first : b.Bucket) (ip : String) (rl : RateLimiter b) (s : Option (IpEntry b))
      (events : List (ℕ × Option Request))
      → Agrees first ip rl s
      → Agrees first ip (run b net on_app_engine rl events) (solo_run first ip s events)
  unfolding run solo_run
  run-Agrees first ip rl s [] a = a
  run-Agrees first ip rl s (event ∷ events) a =
      run-Agrees first ip (step b net on_app_engine rl event) (solo_step first ip s event) events
        (step-Agrees first ip rl s event a)

  -- After any requests and cleanups on a new limiter, a request is let through as the bucket of its own
  -- client address says, which only the requests of that address have drawn from, and which is a new
  -- one after a cleanup that found the address idle for more than an hour.
  pub middleware-solo :
      (first : b.Bucket) (events : List (ℕ × Option Request)) (now : ℕ) (c : Request)
      → (rate_limit_middleware b net on_app_engine now c
          (run b net on_app_engine (new_rate_limiter b first) events)).1
        ≡ (b.allow
            (bucket_or first
              (solo_run first (get_secure_client_ip net on_app_engine c) none events))
            now).1
  unfolding rate_limit_middleware lookup
  middleware-solo first events now c =
      let ip = get_secure_client_ip net on_app_engine c in
      let begin : Agrees first ip (new_rate_limiter b first) none = record {
        entry_agrees = refl;
        unique = tt;
        config = refl;
      } in
      let a = run-Agrees first ip (new_rate_limiter b first) none events begin in
      rw (
        got now ip (run b net on_app_engine (new_rate_limiter b first) events),
        a.entry_agrees,
        a.config,
      )
