-- ===== src/Services/Limiter/Solo.antt =====
-- internal/services/rate_limiter.go: what a domain is told depends on its own requests alone.
use goread.Base.{
  string_Eq, ℕ, ◌≡◌, ◌≢◌, refl, Bool, false, String, Option, none, some, List, [], ◌∷◌, ℤ, lookup,
  insert, if◌then◌else◌, ◌==◌, arith, IsUnique, lookup-insert, insert-IsUnique, Bool-cases,
  Option-cases, inl, inr, ◌∙◌, sym, ap,
}
use goread.Services.Limiter.{
  Buckets, Hosts, Call, allow_call, wait_call, cleanup_call, DomainRateLimiter, fresh,
  new_domain_rate_limiter, get_limiter_for_domain, cleanup_old_limiters, extract_domain, allow,
  wait, step, run,
}
use goread.Services.Limiter.Sweep.{is_idle, lookup-swept, sweep-swept, swept-IsUnique}

module _ (b : Buckets) (hosts : Hosts) where
  -- The one bucket of a domain and its last use, if it is kept.
  abbrev pub Solo : Type 0
  Solo = Option (b.Bucket × ℕ)

  abbrev pub bucket_or : b.Bucket → Solo → b.Bucket
  bucket_or first none = first
  bucket_or first (some (bucket, last)) = bucket

  abbrev pub bucket_of : Solo → Option b.Bucket
  bucket_of none = none
  bucket_of (some (bucket, last)) = some bucket

  abbrev pub last_of : Solo → Option ℕ
  last_of none = none
  last_of (some (bucket, last)) = some last

  -- A rate limiter for one domain: it serves the requests for its domain, is dropped when a cleanup
  -- finds it idle, and knows of no other request.
  unfoldable pub solo_step : b.Bucket → String → Solo → Call → Solo
  solo_step first name s (allow_call now url) =
      if extract_domain b hosts url == name
      then some ((b.allow (bucket_or first s) now).0, now)
      else s
  solo_step first name s (wait_call now url) =
      if extract_domain b hosts url == name
      then some ((b.wait (bucket_or first s) now).0, now)
      else s
  solo_step first name s (cleanup_call now) = if is_idle now (last_of s) then none else s

  unfoldable pub solo_run : b.Bucket → String → Solo → List Call → Solo
  solo_run first name s [] = s
  solo_run first name s (call ∷ calls) = solo_run first name (solo_step first name s call) calls

  record Agrees (first : b.Bucket) (name : String) (d : DomainRateLimiter b) (s : Solo)
      : Type 0 where
    buckets_agree : lookup name d.limiters ≡ bucket_of s
    uses_agree : lookup name d.last_accessed ≡ last_of s
    unique : IsUnique d.last_accessed
    config : fresh b d ≡ first

  -- The bucket that a request spends is that of the solo limiter.
  same_bucket :
      (first : b.Bucket) (name : String) (now : ℕ) (d : DomainRateLimiter b) (s : Solo)
      → Agrees first name d s
      → (get_limiter_for_domain b now name d).1 ≡ bucket_or first s
  unfolding get_limiter_for_domain
  same_bucket first name now d none a = rw (a.buckets_agree, get_limiter_for_domain) a.config
  same_bucket first name now d (some (bucket, last)) a =
      rw (a.buckets_agree, get_limiter_for_domain)

  record IsServed (now : ℕ) (domain : String) (d : DomainRateLimiter b) (spent : b.Bucket)
      : Type 0 where
    after : DomainRateLimiter b
    is_after :
        record (get_limiter_for_domain b now domain d).0 {
          limiters = insert domain spent (get_limiter_for_domain b now domain d).0.limiters;
        }
        ≡ after
    wrote :
        (name : String)
        → lookup name after.limiters
          ≡ (if domain == name then some spent else lookup name d.limiters)
    used : after.last_accessed ≡ insert domain now d.last_accessed
    config_kept : fresh b after ≡ fresh b d

  serve :
      (now : ℕ) (domain : String) (d : DomainRateLimiter b) (spent : b.Bucket)
      → IsServed now domain d spent
  unfolding get_limiter_for_domain
  serve now domain d spent = elim (Option-cases (lookup domain d.limiters)) [
    | inl absent ↦ record {
      after = record d {
        limiters = insert domain spent (insert domain (fresh b d) d.limiters);
        last_accessed = insert domain now d.last_accessed;
      };
      is_after = rw (absent, get_limiter_for_domain);
      wrote = λ name. ground (
        arith,
        lookup-insert domain name spent (insert domain (fresh b d) d.limiters),
        lookup-insert domain name (fresh b d) d.limiters,
      );
      used = refl;
      config_kept = refl;
    }
    | inr (bucket, present) ↦ record {
      after = record d {
        limiters = insert domain spent d.limiters;
        last_accessed = insert domain now d.last_accessed;
      };
      is_after = rw (present, get_limiter_for_domain);
      wrote = λ name. lookup-insert domain name spent d.limiters;
      used = refl;
      config_kept = refl;
    }
  ]

  served-Agrees :
      (first : b.Bucket) (spend : b.Bucket → b.Bucket × Bool) (now : ℕ) (domain name : String)
      (d : DomainRateLimiter b) (s : Solo)
      → Agrees first name d s
      → Agrees first name
          (record (get_limiter_for_domain b now domain d).0 {
            limiters =
                insert domain
                  (spend (get_limiter_for_domain b now domain d).1).0
                  (get_limiter_for_domain b now domain d).0.limiters;
          })
          (if domain == name then some ((spend (bucket_or first s)).0, now) else s)
  served-Agrees first spend now domain name d s a =
      let done = serve now domain d (spend (get_limiter_for_domain b now domain d).1).0 in
      rw done.is_after (elim (Bool-cases (domain == name)) [
        | inl here ↦
            let same = (string_Eq.beq_iff domain name).0 here in
            let bucket = same_bucket first name now d s a in
            rw here (record {
              buckets_agree = rw (done.wrote name, here, same, bucket);
              uses_agree = rw (done.used, lookup-insert, here);
              unique = rw done.used (insert-IsUnique domain now d.last_accessed a.unique);
              config = done.config_kept ∙ a.config;
            })
        | inr other ↦ rw other (record {
          buckets_agree = rw (done.wrote name, other) a.buckets_agree;
          uses_agree = rw (done.used, lookup-insert, other) a.uses_agree;
          unique = rw done.used (insert-IsUnique domain now d.last_accessed a.unique);
          config = done.config_kept ∙ a.config;
        })
      ])

  -- What `Allow` and `Wait` do alike.
  request :
      (spend : b.Bucket → b.Bucket × Bool) → ℕ → String → DomainRateLimiter b → DomainRateLimiter b
  request spend now domain d =
      if domain == "" then d else record (get_limiter_for_domain b now domain d).0 {
        limiters =
            insert domain (spend (get_limiter_for_domain b now domain d).1).0
              (get_limiter_for_domain b now domain d).0.limiters;
      }

  request-Agrees :
      (first : b.Bucket) (spend : b.Bucket → b.Bucket × Bool) (now : ℕ) (domain name : String)
      (d : DomainRateLimiter b) (s : Solo)
      → name ≢ ""
      → Agrees first name d s
      → Agrees first name
          (request spend now domain d)
          (if domain == name then some ((spend (bucket_or first s)).0, now) else s)
  unfolding request
  request-Agrees first spend now domain name d s named a = elim (Bool-cases (domain == "")) [
    | inl bad ↦
        rw (bad, request)
          (elim (Bool-cases (domain == name)) [
            | inl here ↦ absurd (
                named (
                  sym ((string_Eq.beq_iff domain name).0 here)
                  ∙ (string_Eq.beq_iff domain "").0 bad))
            | inr other ↦ rw other a
          ])
    | inr good ↦ rw (good, request) (served-Agrees first spend now domain name d s a)
  ]

  allow-request :
      (now : ℕ) (url : String) (d : DomainRateLimiter b)
      → (allow b hosts now url d).0
        ≡ request (λ l. b.allow l now) now (extract_domain b hosts url) d
  unfolding allow request
  allow-request now url d = elim (Bool-cases (extract_domain b hosts url == "")) [
    | inl bad ↦ rw bad
    | inr good ↦ rw good
  ]

  wait-request :
      (now : ℕ) (url : String) (d : DomainRateLimiter b)
      → (wait b hosts now url d).0 ≡ request (λ l. b.wait l now) now (extract_domain b hosts url) d
  unfolding wait request
  wait-request now url d = elim (Bool-cases (extract_domain b hosts url == "")) [
    | inl bad ↦ rw bad
    | inr good ↦ rw good
  ]

  gone_bucket :
      (now : ℕ) (s : Solo)
      → (if is_idle now (last_of s) then none else bucket_of s)
        ≡ bucket_of (if is_idle now (last_of s) then none else s)
  gone_bucket now s = elim (Bool-cases (is_idle now (last_of s))) [
    | inl idle ↦ rw idle
    | inr busy ↦ rw busy
  ]

  gone_use :
      (now : ℕ) (s : Solo)
      → (if is_idle now (last_of s) then none else last_of s)
        ≡ last_of (if is_idle now (last_of s) then none else s)
  gone_use now s = elim (Bool-cases (is_idle now (last_of s))) [
    | inl idle ↦ rw idle
    | inr busy ↦ rw busy
  ]

  cleanup-Agrees :
      (first : b.Bucket) (name : String) (now : ℕ) (d : DomainRateLimiter b) (s : Solo)
      → Agrees first name d s
      → Agrees first name
          (cleanup_old_limiters b now d)
          (if is_idle now (last_of s) then none else s)
  unfolding cleanup_old_limiters
  cleanup-Agrees first name now d s a = rw (sweep-swept b now d.last_accessed d) (record {
    buckets_agree =
        rw
          (lookup-swept now name d.last_accessed d.limiters a.unique, a.uses_agree, a.buckets_agree)
          (gone_bucket now s);
    uses_agree =
        rw (lookup-swept now name d.last_accessed d.last_accessed a.unique, a.uses_agree)
          (gone_use now s);
    unique = swept-IsUnique now d.last_accessed d.last_accessed a.unique;
    config = a.config;
  })

  step-Agrees :
      (first : b.Bucket) (name : String) (d : DomainRateLimiter b) (s : Solo) (call : Call)
      → name ≢ ""
      → Agrees first name d s
      → Agrees first name (step b hosts d call) (solo_step first name s call)
  unfolding step solo_step
  step-Agrees first name d s (allow_call now url) named a =
      rw (allow-request now url d) (
        request-Agrees first (λ l. b.allow l now) now (extract_domain b hosts url) name d s named a)
  step-Agrees first name d s (wait_call now url) named a =
      rw (wait-request now url d)
        (request-Agrees first (λ l. b.wait l now) now (extract_domain b hosts url) name d s named a)
  step-Agrees first name d s (cleanup_call now) named a = cleanup-Agrees first name now d s a

  run-Agrees :
      (first : b.Bucket) (name : String) (d : DomainRateLimiter b) (s : Solo) (calls : List Call)
      → name ≢ ""
      → Agrees first name d s
      → Agrees first name (run b hosts d calls) (solo_run first name s calls)
  unfolding run solo_run
  run-Agrees first name d s [] named a = a
  run-Agrees first name d s (call ∷ calls) named a =
      run-Agrees first name (step b hosts d call) (solo_step first name s call) calls named
        (step-Agrees first name d s call named a)

  -- After any requests and cleanups on a new rate limiter, a request is refused where its URL has no
  -- domain, and otherwise is answered by the bucket of a limiter that serves its domain alone: it sees
  -- only the requests for that domain, and starts afresh when a cleanup finds it idle for an hour.
  pub allow-solo :
      (requests burst : ℤ) (calls : List Call) (now : ℕ) (url : String)
      → (allow b hosts now url (run b hosts (new_domain_rate_limiter b requests burst) calls)).1 ≡ (
          if extract_domain b hosts url == ""
          then false
          else (b.allow
              (bucket_or (fresh b (new_domain_rate_limiter b requests burst)) (
                solo_run
                  (fresh b (new_domain_rate_limiter b requests burst))
                  (extract_domain b hosts url)
                  none
                  calls))
              now).1)
  unfolding allow new_domain_rate_limiter lookup
  allow-solo requests burst calls now url = elim (Bool-cases (extract_domain b hosts url == "")) [
    | inl bad ↦ rw bad
    | inr good ↦
        let start = new_domain_rate_limiter b requests burst in
        let first = fresh b start in
        let name = extract_domain b hosts url in
        let begin : Agrees first name start none = record {
          buckets_agree = refl;
          uses_agree = refl;
          unique = tt;
          config = refl;
        } in
        let a =
          run-Agrees first name start none calls (λ e. ground (arith, string_Eq.beq_iff name ""))
            begin in
        rw good (ap (λ l. (b.allow l now).1) (same_bucket first name now _ _ a))
  ]
