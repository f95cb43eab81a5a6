-- ===== src/Auth/Limiter.antt =====
-- internal/auth/rate_limiter.go: one token bucket per client address. `fresh` is `rate.NewLimiter(rl.r,
-- rl.b)`, whose arguments never change. What `Allow` changes in the shared bucket is written back.
pub mod Solo
mod Tests
use goread.Base.{
  string_Eq, ℕ, ◌+◌, Bool, true, false, String, Option, none, some, List, [], ◌∷◌, Map, lookup,
  insert, keep, not, if◌then◌else◌, ltb,
}
use goread.Services.Limiter.{Buckets}
use goread.Auth.Client.{Net, Request, get_secure_client_ip}

abbrev pub hour : ℕ
hour = 3600000000000

module _ (buckets : Buckets) where
  pub record IpEntry : Type 0 where
    pub limiter : buckets.Bucket
    pub last_access : ℕ

  pub record RateLimiter : Type 0 where
    pub ips : Map String IpEntry
    pub fresh : buckets.Bucket

  abbrev pub new_rate_limiter : buckets.Bucket → RateLimiter
  new_rate_limiter first = record { ips = []; fresh = first }

  abbrev pub entry_at : ℕ → buckets.Bucket → IpEntry
  entry_at now bucket = record { limiter = bucket; last_access = now }

  unfoldable pub add_ip : ℕ → String → RateLimiter → RateLimiter × buckets.Bucket
  add_ip now ip rl = (record rl { ips = insert ip (entry_at now rl.fresh) rl.ips }, rl.fresh)

  unfoldable pub get_limiter : ℕ → String → RateLimiter → RateLimiter × buckets.Bucket
  get_limiter now ip rl = elim (lookup ip rl.ips) [
    | none ↦ (record rl { ips = insert ip (entry_at now rl.fresh) rl.ips }, rl.fresh)
    | some entry ↦
        (record rl { ips = insert ip (record entry { last_access = now }) rl.ips }, entry.limiter)
  ]

  -- One tick of `cleanupIPs`.
  unfoldable pub cleanup_ips : ℕ → RateLimiter → RateLimiter
  cleanup_ips now rl = record rl {
    ips = keep (λ entry. not (ltb (entry.last_access + hour) now)) rl.ips;
  }

  -- Whether the request goes on (`c.Next`) or is answered with 429.
  unfoldable pub rate_limit_middleware : Net → Bool → ℕ → Request → RateLimiter → RateLimiter × Bool
  rate_limit_middleware net on_app_engine now c rl =
      let ip = get_secure_client_ip net on_app_engine c in
      let (rl', limiter) = get_limiter now ip rl in
      let (limiter', allowed) = buckets.allow limiter now in
      (record rl' { ips = insert ip (entry_at now limiter') rl'.ips }, allowed)

  module _ (net : Net) (on_app_engine : Bool) where
    -- What happens to the limiter, in any order.
    unfoldable pub step : RateLimiter → (ℕ × Option Request) → RateLimiter
    step rl (now, some c) = (rate_limit_middleware net on_app_engine now c rl).0
    step rl (now, none) = cleanup_ips now rl

    unfoldable pub run : RateLimiter → List (ℕ × Option Request) → RateLimiter
    run rl [] = rl
    run rl (event ∷ events) = run (step rl event) events
