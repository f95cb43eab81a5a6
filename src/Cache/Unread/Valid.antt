-- ===== src/Cache/Unread/Valid.antt =====
-- internal/cache/unread_cache.go: what holds of the cache between two calls.
use goread.Base.{
  get_or, int_Eq, ℕ, ◌+◌, ◌<◌, ◌≡◌, refl, Bool, some, List, [], ◌∷◌, arith, ltb, ℤ, pos, Map,
  lookup, insert, IsUnique, is_some, lookup-insert, lookup-delete, insert-IsUnique, delete-IsUnique,
  Option-cases, Bool-cases, inl, inr, int_eq_iff,
}
use goread.Cache.Unread.{
  UnreadCache, Op, get_op, set_op, update_op, invalidate_op, invalidate_all_op, cleanup_op,
  set_max_op, new_unread_cache, get, set_max_users, drop_user, is_full, scan, make_room, set,
  update_feed, update_count, invalidate, invalidate_all, sweep, cleanup, step, run,
}

-- The two maps have the same keys, each once, and no expiry is the zero time.
pub record IsValid (c : UnreadCache) : Type 0 where
  pub ttl_positive : 0 < c.ttl
  pub counts_unique : IsUnique c.counts
  pub refresh_unique : IsUnique c.refresh_at
  pub same_keys : (u : ℤ) → is_some (lookup u c.counts) ≡ is_some (lookup u c.refresh_at)
  pub expiries : (u : ℤ) (t : ℕ) → lookup u c.refresh_at ≡ some t → 0 < t

pub new-IsValid : (ttl : ℕ) → 0 < ttl → IsValid (new_unread_cache ttl)
unfolding new_unread_cache lookup
new-IsValid ttl h = record {
  ttl_positive = h;
  counts_unique = tt;
  refresh_unique = tt;
  same_keys = λ u. refl;
  expiries = λ u t e. cc;
}

pub drop_user-IsValid : (c : UnreadCache) (user : ℤ) → IsValid c → IsValid (drop_user c user)
drop_user-IsValid c user h = record {
  ttl_positive = h.ttl_positive;
  counts_unique = delete-IsUnique user c.counts h.counts_unique;
  refresh_unique = delete-IsUnique user c.refresh_at h.refresh_unique;
  same_keys = λ u. rw (lookup-delete, lookup-delete) (ground (arith, h.same_keys u));
  expiries = λ u t e. ground (arith, lookup-delete user u c.refresh_at, h.expiries u t);
}

pub make_room-IsValid : (c : UnreadCache) (user : ℤ) → IsValid c → IsValid (make_room c user)
unfolding make_room
make_room-IsValid c user h = elim (Bool-cases (is_full c user)) [
  | inl full ↦ rw full (drop_user-IsValid c (scan c.refresh_at (pos 0) 0).0 h)
  | inr room ↦ rw room h
]

put-IsValid :
    (c : UnreadCache) (now : ℕ) (user : ℤ) (counts : Map ℤ ℤ)
    → IsValid c
    → IsValid (record c {
      counts = insert user counts c.counts;
      refresh_at = insert user (now + c.ttl) c.refresh_at;
    })
put-IsValid c now user counts h = record {
  ttl_positive = h.ttl_positive;
  counts_unique = insert-IsUnique user counts c.counts h.counts_unique;
  refresh_unique = insert-IsUnique user (now + c.ttl) c.refresh_at h.refresh_unique;
  same_keys = λ u. rw (lookup-insert, lookup-insert) (ground (arith, h.same_keys u));
  expiries = λ u t e.
      ground
        (arith, lookup-insert user u (now + c.ttl) c.refresh_at, h.expiries u t, h.ttl_positive);
}

pub set-IsValid :
    (c : UnreadCache) (now : ℕ) (user : ℤ) (counts : Map ℤ ℤ)
    → IsValid c
    → IsValid (set c now user counts)
unfolding set
set-IsValid c now user counts h =
    put-IsValid (make_room c user) now user counts (make_room-IsValid c user h)

pub update_count-IsValid :
    (c : UnreadCache) (now : ℕ) (user feed : ℤ) (was_read now_read : Bool)
    → IsValid c
    → IsValid (update_count c now user feed was_read now_read)
unfolding update_count
update_count-IsValid c now user feed was_read now_read h =
    elim (Option-cases (lookup user c.counts)) [
      | inl absent ↦ rw (absent, update_count) h
      | inr (m, present) ↦
          rw (present, update_count)
            (elim (Bool-cases (ltb (get_or (lookup user c.refresh_at) 0) now)) [
              | inl expired ↦ rw expired h
              | inr valid ↦ rw valid (record {
                ttl_positive = h.ttl_positive;
                counts_unique =
                    insert-IsUnique user (update_feed m feed was_read now_read) c.counts
                      h.counts_unique;
                refresh_unique = h.refresh_unique;
                same_keys =
                    λ u. rw lookup-insert (ground (arith, h.same_keys u, int_eq_iff user u));
                expiries = h.expiries;
              })
            ])
    ]

pub sweep-IsValid : (now : ℕ) (m : Map ℤ ℕ) (c : UnreadCache) → IsValid c → IsValid (sweep now m c)
unfolding sweep
sweep-IsValid now [] c h = h
sweep-IsValid now ((user, at) ∷ m) c h = elim (Bool-cases (ltb at now)) [
  | inl old ↦ rw old (sweep-IsValid now m (drop_user c user) (drop_user-IsValid c user h))
  | inr young ↦ rw young (sweep-IsValid now m c h)
]

tally-IsValid :
    (c : UnreadCache) (hits misses : ℤ)
    → IsValid c
    → IsValid (record c { hits = hits; misses = misses })
tally-IsValid c hits misses h = record {
  ttl_positive = h.ttl_positive;
  counts_unique = h.counts_unique;
  refresh_unique = h.refresh_unique;
  same_keys = h.same_keys;
  expiries = h.expiries;
}

get-IsValid : (c : UnreadCache) (now : ℕ) (user : ℤ) → IsValid c → IsValid (get c now user).0
unfolding get
get-IsValid c now user h = elim (Option-cases (lookup user c.counts)) [
  | inl absent ↦ rw (absent, get) (tally-IsValid c _ _ h)
  | inr (m, present) ↦
      rw (present, get)
        (elim (Bool-cases (ltb (get_or (lookup user c.refresh_at) 0) now)) [
          | inl expired ↦ rw expired (tally-IsValid c _ _ h)
          | inr valid ↦ rw valid (tally-IsValid c _ _ h)
        ])
]

-- Every call keeps the invariant.
pub step-IsValid : (c : UnreadCache) (op : Op) → IsValid c → IsValid (step c op)
unfolding step invalidate invalidate_all cleanup set_max_users lookup
step-IsValid c (get_op now user) h = get-IsValid c now user h
step-IsValid c (set_op now user counts) h = set-IsValid c now user counts h
step-IsValid c (update_op now user feed was_read now_read) h =
    update_count-IsValid c now user feed was_read now_read h
step-IsValid c (invalidate_op user) h = drop_user-IsValid c user h
step-IsValid c invalidate_all_op h = record {
  ttl_positive = h.ttl_positive;
  counts_unique = tt;
  refresh_unique = tt;
  same_keys = λ u. refl;
  expiries = λ u t e. cc;
}
step-IsValid c (cleanup_op now) h = sweep-IsValid now c.refresh_at c h
step-IsValid c (set_max_op n) h = record {
  ttl_positive = h.ttl_positive;
  counts_unique = h.counts_unique;
  refresh_unique = h.refresh_unique;
  same_keys = h.same_keys;
  expiries = h.expiries;
}

-- Whatever the calls and the clock readings, a cache made with a positive TTL has the same users in
-- its two maps, each once, and no entry that expires at the zero time.
pub run-IsValid : (ops : List Op) (c : UnreadCache) → IsValid c → IsValid (run c ops)
unfolding run
run-IsValid [] c h = h
run-IsValid (op ∷ ops) c h = run-IsValid ops (step c op) (step-IsValid c op h)
