-- ===== src/Services/Limiter/Sweep.antt =====
-- internal/services/rate_limiter.go: what the cleanup leaves of the maps.
use goread.Base.{
  string_Eq, ℕ, ◌+◌, ◌≡◌, refl, Bool, false, String, Option, none, some, [], ◌∷◌, lookup, delete,
  if◌then◌else◌, ltb, arith, Map, IsUnique, lookup-delete, delete-IsUnique, Bool-cases, inl, inr,
}
use goread.Services.Limiter.{Buckets, DomainRateLimiter, sweep, cleanup_idle_threshold}

-- A bucket left alone for longer than the threshold.
abbrev pub is_idle : ℕ → Option ℕ → Bool
is_idle now none = false
is_idle now (some last) = ltb (last + cleanup_idle_threshold) now

-- What a sweep leaves of one of the two maps.
unfoldable pub swept : {V : Type 0} → ℕ → Map String ℕ → Map String V → Map String V
swept now [] held = held
swept now ((domain, last) ∷ m) held =
    swept now m (if ltb (last + cleanup_idle_threshold) now then delete domain held else held)

pub lookup-swept :
    {V : Type 0} (now : ℕ) (name : String) (m : Map String ℕ) (held : Map String V)
    → IsUnique m
    → lookup name (swept now m held)
      ≡ (if is_idle now (lookup name m) then none else lookup name held)
unfolding swept lookup
lookup-swept now name [] held u = refl
lookup-swept now name ((domain, last) ∷ m) held u =
    elim (Bool-cases (ltb (last + cleanup_idle_threshold) now)) [
      | inl old ↦ ground (
        arith,
        string_Eq.beq_iff domain name,
        lookup-swept now name m (delete domain held) u.1,
        lookup-delete domain name held,
      )
      | inr young ↦
          ground (arith, string_Eq.beq_iff domain name, lookup-swept now name m held u.1, u.0)
    ]

pub sweep-swept :
    (b : Buckets) (now : ℕ) (m : Map String ℕ) (d : DomainRateLimiter b)
    → sweep b now m d
      ≡ record d { limiters = swept now m d.limiters; last_accessed = swept now m d.last_accessed }
unfolding sweep swept
sweep-swept b now [] d = refl
sweep-swept b now ((domain, last) ∷ m) d =
    elim (Bool-cases (ltb (last + cleanup_idle_threshold) now)) [
      | inl old ↦ rw old (sweep-swept b now m _)
      | inr young ↦ rw young (sweep-swept b now m d)
    ]

pub swept-IsUnique : (now : ℕ) (m held : Map String ℕ) → IsUnique held → IsUnique (swept now m held)
unfolding swept
swept-IsUnique now [] held u = u
swept-IsUnique now ((domain, last) ∷ m) held u =
    elim (Bool-cases (ltb (last + cleanup_idle_threshold) now)) [
      | inl old ↦ rw old (swept-IsUnique now m (delete domain held) (delete-IsUnique domain held u))
      | inr young ↦ rw young (swept-IsUnique now m held u)
    ]
