-- ===== src/Cache/Unread/Tests.antt =====
-- Runs of the unread cache, and the theorems about it at concrete inputs.
use goread.Base.{
  int_Eq, ◌≡◌, refl, true, false, none, some, List, [], ◌∷◌, arith, pos, lookup, insert, delete,
  wrap, ◌+ℤ◌, ◌-ℤ◌,
}
use goread.Cache.Unread.{
  UnreadCache, Op, get_op, set_op, update_op, cleanup_op, new_unread_cache, get, set, update_count,
  update_feed, after_read, make_room, scan, sweep, cleanup, invalidate, invalidate_all,
  set_max_users, active_entries, get_stats, step, run,
}
use goread.Cache.Unread.Valid.{IsValid}
use goread.Cache.Unread.Ideal.{ideal_get, ideal_run, ideal_step, get_sound}

program : Unit {0}
unfolding new_unread_cache get set update_count update_feed after_read make_room scan sweep cleanup
    invalidate invalidate_all set_max_users active_entries get_stats step run lookup insert delete
    wrap ◌+ℤ◌ ◌-ℤ◌ ideal_run ideal_step ideal_get
program = tt

-- Two users and room for two.
abbrev two_users : UnreadCache
two_users = record {
  counts = (pos 1, (pos 10, pos 3) ∷ []) ∷ (pos 2, (pos 20, pos 1) ∷ []) ∷ [];
  refresh_at = (pos 1, 100) ∷ (pos 2, 50) ∷ [];
  ttl = 60;
  max_users = pos 2;
  hits = pos 0;
  misses = pos 0;
}

two_users-IsValid : IsValid two_users
unfolding lookup
two_users-IsValid = record {
  ttl_positive = omega arith;
  counts_unique = (refl, (refl, tt));
  refresh_unique = (refl, (refl, tt));
  same_keys = λ u. ground arith;
  expiries = λ u t e. ground arith;
}

abbrev calls : List Op
calls =
    set_op 45 (pos 3) ((pos 30, pos 5) ∷ [])
    ∷ update_op 46 (pos 3) (pos 30) false true
    ∷ get_op 47 (pos 1)
    ∷ cleanup_op 101
    ∷ []

-- The call for user 3 evicts user 2, who expires first, and the cleanup removes user 1.
calls_counts : (run two_users calls).counts ≡ (pos 3, (pos 30, pos 4) ∷ []) ∷ []
unfolding program
calls_counts = refl

-- A read below zero stays at zero.
below_zero :
    (update_count two_users 10 (pos 2) (pos 21) false true).counts
    ≡ (pos 1, (pos 10, pos 3) ∷ []) ∷ (pos 2, (pos 20, pos 1) ∷ (pos 21, pos 0) ∷ []) ∷ []
unfolding program
below_zero = refl

stats_expired : (get_stats two_users 60).cached_users ≡ 1
unfolding program
stats_expired = refl

abbrev session : List Op
session = set_op 40 (pos 3) ((pos 30, pos 5) ∷ []) ∷ update_op 41 (pos 3) (pos 30) false true ∷ []

get_sound_example :
    ideal_get (ideal_run 60 (λ u. none) session) 90 (pos 3) ≡ some ((pos 30, pos 4) ∷ [])
get_sound_example = get_sound 60 session 90 (pos 3) ((pos 30, pos 4) ∷ []) (unfold program in refl)
