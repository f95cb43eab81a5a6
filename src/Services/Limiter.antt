-- ===== src/Services/Limiter.antt =====
-- internal/services/rate_limiter.go: one token bucket per domain. The buckets of golang.org/x/time/rate
-- and net/url are parameters. The pointers of the source are shared: what `Allow` changes in a bucket is
-- seen in the map, so the bucket is written back.
pub mod Sweep
pub mod Solo
mod Tests
use goread.Base.{
  int_Eq, string_Eq, ℕ, ◌+◌, Bool, true, false, String, Option, none, some, List, [], ◌∷◌, ℤ, pos,
  Map, lookup, insert, delete, if◌then◌else◌, ltb, leb_ℤ, ◌==◌, div_ℕ, get_or,
}

-- `rate.NewLimiter(rate.Every(interval), burst)`, `Allow` and `Wait` at a time, and `int(Tokens())`.
pub record Buckets : Type 1 where
  pub Bucket : Type 0
  pub new_bucket : ℤ → ℤ → Bucket
  pub allow : Bucket → ℕ → Bucket × Bool
  pub wait : Bucket → ℕ → Bucket × Bool
  pub tokens : Bucket → ℕ → ℤ

-- The host of a URL that parses, `strings.ToLower`, and `strings.TrimPrefix` of "www.".
pub record Hosts : Type 0 where
  pub parse_host : String → Option String
  pub to_lower : String → String
  pub trim_www : String → String

-- A quotient by a positive number.
abbrev pub quotient : ℕ → ℤ → ℤ
quotient n (pos d) = div_ℕ (pos n) d
quotient n _ = pos 0

abbrev pub minute : ℕ
minute = 60000000000

abbrev pub cleanup_idle_threshold : ℕ
cleanup_idle_threshold = 3600000000000

pub record DomainStats : Type 0 where
  pub domain : String
  pub tokens_remaining : ℤ
  pub burst_limit : ℤ

-- The calls of the fetchers and of the scheduler, each with its reading of the clock.
pub data Call : Type 0 where
  allow_call : ℕ → String → Call
  wait_call : ℕ → String → Call
  cleanup_call : ℕ → Call

module _ (buckets : Buckets) where
  pub record DomainRateLimiter : Type 0 where
    pub limiters : Map String buckets.Bucket
    pub last_accessed : Map String ℕ
    pub requests_per_minute : ℤ
    pub burst_size : ℤ

  unfoldable pub new_domain_rate_limiter : ℤ → ℤ → DomainRateLimiter
  new_domain_rate_limiter requests burst = record {
    limiters = [];
    last_accessed = [];
    requests_per_minute = if leb_ℤ requests (pos 0) then pos 6 else requests;
    burst_size = if leb_ℤ burst (pos 0) then pos 1 else burst;
  }

  -- The bucket of a domain that has none yet.
  abbrev pub fresh : DomainRateLimiter → buckets.Bucket
  fresh d = buckets.new_bucket (quotient minute d.requests_per_minute) d.burst_size

  unfoldable pub get_limiter_for_domain :
      ℕ → String → DomainRateLimiter → DomainRateLimiter × buckets.Bucket
  get_limiter_for_domain now domain d = elim (lookup domain d.limiters) [
    | some limiter ↦ (record d { last_accessed = insert domain now d.last_accessed }, limiter)
    | none ↦ (
      record d {
        limiters = insert domain (fresh d) d.limiters;
        last_accessed = insert domain now d.last_accessed;
      },
      fresh d,
    )
  ]

  -- One tick of `cleanupLoop`: the loop over `d.lastAccessed`.
  unfoldable pub sweep : ℕ → Map String ℕ → DomainRateLimiter → DomainRateLimiter
  sweep now [] d = d
  sweep now ((domain, last) ∷ m) d = sweep now m (
      if ltb (last + cleanup_idle_threshold) now
      then record d {
        limiters = delete domain d.limiters;
        last_accessed = delete domain d.last_accessed;
      }
      else d)

  unfoldable pub cleanup_old_limiters : ℕ → DomainRateLimiter → DomainRateLimiter
  cleanup_old_limiters now d = sweep now d.last_accessed d

  unfoldable pub stats_of : ℕ → ℤ → Map String buckets.Bucket → Map String DomainStats
  stats_of now burst [] = []
  stats_of now burst ((name, limiter) ∷ m) =
      (
        name,
        record {
          domain = name;
          tokens_remaining = buckets.tokens limiter now;
          burst_limit = burst;
        },
      )
      ∷ stats_of now burst m

  unfoldable pub get_domain_stats : ℕ → DomainRateLimiter → Map String DomainStats
  get_domain_stats now d = stats_of now d.burst_size d.limiters

  module _ (hosts : Hosts) where
    unfoldable pub extract_domain : String → String
    extract_domain url = elim (hosts.parse_host url) [
      | none ↦ ""
      | some host ↦ hosts.trim_www (hosts.to_lower host)
    ]

    unfoldable pub allow : ℕ → String → DomainRateLimiter → DomainRateLimiter × Bool
    allow now url d =
        let domain = extract_domain url in
        if domain == ""
        then (d, false)
        else let (d', limiter) = get_limiter_for_domain now domain d in
          let (limiter', allowed) = buckets.allow limiter now in
          (record d' { limiters = insert domain limiter' d'.limiters }, allowed)

    -- Whether the wait ends well; the error of an invalid URL and that of the bucket are one answer.
    unfoldable pub wait : ℕ → String → DomainRateLimiter → DomainRateLimiter × Bool
    wait now url d =
        let domain = extract_domain url in
        if domain == ""
        then (d, false)
        else let (d', limiter) = get_limiter_for_domain now domain d in
          let (limiter', waited) = buckets.wait limiter now in
          (record d' { limiters = insert domain limiter' d'.limiters }, waited)

    unfoldable pub step : DomainRateLimiter → Call → DomainRateLimiter
    step d (allow_call now url) = (allow now url d).0
    step d (wait_call now url) = (wait now url d).0
    step d (cleanup_call now) = cleanup_old_limiters now d

    unfoldable pub run : DomainRateLimiter → List Call → DomainRateLimiter
    run d [] = d
    run d (call ∷ calls) = run (step d call) calls
