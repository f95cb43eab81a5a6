-- ===== src/Cache/Unread/Counts.antt =====
-- internal/cache/unread_cache.go: what `UpdateCount` does to the counts that `Get` returns.
use mathlib.Core.Option
use goread.Base.{
  int_Eq, ℕ, ◌+◌, ◌-◌, ◌≤◌, ◌<◌, ◌≡◌, Bool, true, false, arith, ltb, if◌then◌else◌, ℤ, pos, Map,
  lookup, lookup-insert, get_or, Option-cases, inl, inr, int_eq_iff, ◌==◌, int_max, wrap, ◌+ℤ◌,
  ◌-ℤ◌,
}
use goread.Cache.Unread.{UnreadCache, get, expiry, add_one, after_read, update_feed, update_count}

-- Marking an unread article as read takes one from a positive count, and leaves 0 at 0.
after_read-pos : (n : ℕ) → n ≤ int_max → after_read (pos n) ≡ pos (n - 1)
unfolding after_read wrap ◌-ℤ◌
after_read-pos n h = ground arith

add_one-pos : (n : ℕ) → n < int_max → add_one (pos n) ≡ pos (n + 1)
unfolding wrap ◌+ℤ◌
add_one-pos n h = ground arith

-- After `UpdateCount` at a time when the entry has not expired, `Get` answers for the user with the
-- updated counts, and for every other user as before.
pub get-update_count :
    (c : UnreadCache) (now now' : ℕ) (user user' feed : ℤ) (was_read now_read : Bool)
    → ltb (expiry c user) now ≡ false
    → (get (update_count c now user feed was_read now_read) now' user').1
      ≡ Option.map
          (λ m. if user == user' then update_feed m feed was_read now_read else m)
          (get c now' user').1
unfolding get update_count
get-update_count c now now' user user' feed was_read now_read valid =
    elim (Option-cases (lookup user c.counts)) [
      | inl absent ↦ rw (absent, update_count) (ground (arith, int_eq_iff user user'))
      | inr (m, present) ↦
          rw (present, update_count)
            (ground (
              arith,
              int_eq_iff user user',
              lookup-insert user user' (update_feed m feed was_read now_read) c.counts,
            ))
    ]

-- The count that an update leaves for any feed `g`: one less (but never below 0) for the feed of an
-- article that was unread and is read, one more for the feed of one that was read and is unread,
-- and the same in all other cases. The counts are not negative and below the largest `int`.
pub lookup-update_feed :
    (m : Map ℤ ℤ) (feed g : ℤ) (was_read now_read : Bool) (n : ℕ)
    → get_or (lookup feed m) (pos 0) ≡ pos n
    → n < int_max
    → get_or (lookup g (update_feed m feed was_read now_read)) (pos 0) ≡ (
        if feed == g
        then pos
            (if was_read then (if now_read then n else n + 1) else (if now_read then n - 1 else n))
        else get_or (lookup g m) (pos 0))
unfolding update_feed
lookup-update_feed m feed g true true n e h = ground (arith, int_eq_iff feed g)
lookup-update_feed m feed g false false n e h = ground (arith, int_eq_iff feed g)
lookup-update_feed m feed g true false n e h = rw (e, lookup-insert, add_one-pos n h) (ground arith)
lookup-update_feed m feed g false true n e h =
    rw (e, lookup-insert, after_read-pos n (omega arith)) (ground arith)
