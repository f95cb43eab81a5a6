-- ===== src/Cache/Unread/Ideal.antt =====
-- internal/cache/unread_cache.go: an ideal cache, with no limit, no cleanup and no counters, and the
-- proof that the cache never answers anything else.
use goread.Base.{
  int_Eq, ℕ, ◌+◌, ◌≡◌, refl, Bool, Option, none, some, List, [], ◌∷◌, arith, ltb, if◌then◌else◌, ℤ,
  pos, Map, lookup, insert, lookup-insert, lookup-delete, Option-cases, Bool-cases, inl, inr,
  int_eq_iff, ◌==◌,
}
use goread.Cache.Unread.{
  new_unread_cache, UnreadCache, Op, get_op, set_op, update_op, invalidate_op, invalidate_all_op,
  cleanup_op, set_max_op, drop_user, is_full, scan, make_room, set, update_count, update_feed, get,
  sweep, step, run, expiry, invalidate, invalidate_all, cleanup, set_max_users,
}

-- What was last stored for each user, with its expiry, and updated since.
abbrev pub Ideal : Type 0
Ideal = ℤ → Option (ℕ × Map ℤ ℤ)

abbrev assign : Ideal → ℤ → Option (ℕ × Map ℤ ℤ) → Ideal
assign s user v u = if user == u then v else s u

-- An update counts only while the entry has not expired.
abbrev refreshed : ℕ → ℤ → Bool → Bool → Option (ℕ × Map ℤ ℤ) → Option (ℕ × Map ℤ ℤ)
refreshed now feed was_read now_read none = none
refreshed now feed was_read now_read (some (at, m)) =
    some (at, if ltb at now then m else update_feed m feed was_read now_read)

unfoldable pub ideal_step : ℕ → Ideal → Op → Ideal
ideal_step ttl s (set_op now user counts) = assign s user (some (now + ttl, counts))
ideal_step ttl s (update_op now user feed was_read now_read) =
    assign s user (refreshed now feed was_read now_read (s user))
ideal_step ttl s (invalidate_op user) = assign s user none
ideal_step ttl s invalidate_all_op = λ u. none
ideal_step ttl s (get_op now user) = s
ideal_step ttl s (cleanup_op now) = s
ideal_step ttl s (set_max_op n) = s

unfoldable pub ideal_run : ℕ → Ideal → List Op → Ideal
ideal_run ttl s [] = s
ideal_run ttl s (op ∷ ops) = ideal_run ttl (ideal_step ttl s op) ops

-- The answer of the ideal cache.
abbrev unexpired : ℕ → Option (ℕ × Map ℤ ℤ) → Option (Map ℤ ℤ)
unexpired now none = none
unexpired now (some (at, m)) = if ltb at now then none else some m

unfoldable pub ideal_get : Ideal → ℕ → ℤ → Option (Map ℤ ℤ)
ideal_get s now user = unexpired now (s user)

-- What the cache holds, the ideal cache holds with the same expiry.
pub record Refines (ttl : ℕ) (c : UnreadCache) (s : Ideal) : Type 0 where
  pub same_ttl : c.ttl ≡ ttl
  pub agree : (u : ℤ) (m : Map ℤ ℤ) → lookup u c.counts ≡ some m → s u ≡ some (expiry c u, m)

module _ (ttl : ℕ) where
  drop_user-Refines :
      (c : UnreadCache) (s : Ideal) (user : ℤ) → Refines ttl c s → Refines ttl (drop_user c user) s
  drop_user-Refines c s user r = record {
    same_ttl = r.same_ttl;
    agree = λ u m e. rw lookup-delete (ground (arith, lookup-delete user u c.counts, r.agree u m));
  }

  make_room-Refines :
      (c : UnreadCache) (s : Ideal) (user : ℤ) → Refines ttl c s → Refines ttl (make_room c user) s
  unfolding make_room
  make_room-Refines c s user r = elim (Bool-cases (is_full c user)) [
    | inl full ↦ rw full (drop_user-Refines c s (scan c.refresh_at (pos 0) 0).0 r)
    | inr room ↦ rw room r
  ]

  put-Refines :
      (c : UnreadCache) (s : Ideal) (now : ℕ) (user : ℤ) (counts : Map ℤ ℤ)
      → Refines ttl c s
      → Refines ttl
          (record c {
            counts = insert user counts c.counts;
            refresh_at = insert user (now + c.ttl) c.refresh_at;
          })
          (assign s user (some (now + ttl, counts)))
  put-Refines c s now user counts r = record {
    same_ttl = r.same_ttl;
    agree = λ u m e.
        rw lookup-insert
          (ground (arith, lookup-insert user u counts c.counts, r.agree u m, r.same_ttl));
  }

  update_count-Refines :
      (c : UnreadCache) (s : Ideal) (now : ℕ) (user feed : ℤ) (was_read now_read : Bool)
      → Refines ttl c s
      → Refines ttl
          (update_count c now user feed was_read now_read)
          (assign s user (refreshed now feed was_read now_read (s user)))
  unfolding update_count
  update_count-Refines c s now user feed was_read now_read r =
      elim (Option-cases (lookup user c.counts)) [
        | inl absent ↦
            rw (absent, update_count)
              (record {
                same_ttl = r.same_ttl;
                agree = λ u m e. ground (arith, r.agree u m, int_eq_iff user u);
              })
        | inr (m, present) ↦
            rw (present, update_count)
              (elim (Bool-cases (ltb (expiry c user) now)) [
                | inl expired ↦ rw expired (record {
                  same_ttl = r.same_ttl;
                  agree = λ u m' e.
                      ground (arith, r.agree u m', r.agree user m present, int_eq_iff user u);
                })
                | inr valid ↦ rw valid (record {
                  same_ttl = r.same_ttl;
                  agree = λ u m' e. ground (
                    arith,
                    r.agree u m',
                    r.agree user m present,
                    int_eq_iff user u,
                    lookup-insert user u (update_feed m feed was_read now_read) c.counts,
                  );
                })
              ])
      ]

  sweep-Refines :
      (now : ℕ) (m : Map ℤ ℕ) (c : UnreadCache) (s : Ideal)
      → Refines ttl c s
      → Refines ttl (sweep now m c) s
  unfolding sweep
  sweep-Refines now [] c s r = r
  sweep-Refines now ((user, at) ∷ m) c s r = elim (Bool-cases (ltb at now)) [
    | inl old ↦ rw old (sweep-Refines now m (drop_user c user) s (drop_user-Refines c s user r))
    | inr young ↦ rw young (sweep-Refines now m c s r)
  ]

  invalidate-Refines :
      (c : UnreadCache) (s : Ideal) (user : ℤ)
      → Refines ttl c s
      → Refines ttl (drop_user c user) (assign s user none)
  invalidate-Refines c s user r = record {
    same_ttl = r.same_ttl;
    agree = λ u m e. rw lookup-delete (ground (arith, lookup-delete user u c.counts, r.agree u m));
  }

  get-Refines :
      (c : UnreadCache) (s : Ideal) (now : ℕ) (user : ℤ)
      → Refines ttl c s
      → Refines ttl (get c now user).0 s
  unfolding get
  get-Refines c s now user r = record {
    same_ttl = ground (arith, r.same_ttl);
    agree = λ u m e. ground (arith, r.agree u m);
  }

  step-Refines :
      (c : UnreadCache) (s : Ideal) (op : Op)
      → Refines ttl c s
      → Refines ttl (step c op) (ideal_step ttl s op)
  unfolding step ideal_step invalidate invalidate_all cleanup set_max_users set lookup
  step-Refines c s (get_op now user) r = get-Refines c s now user r
  step-Refines c s (set_op now user counts) r =
      put-Refines (make_room c user) s now user counts (make_room-Refines c s user r)
  step-Refines c s (update_op now user feed was_read now_read) r =
      update_count-Refines c s now user feed was_read now_read r
  step-Refines c s (invalidate_op user) r = invalidate-Refines c s user r
  step-Refines c s invalidate_all_op r = record { same_ttl = r.same_ttl; agree = λ u m e. cc }
  step-Refines c s (cleanup_op now) r = sweep-Refines now c.refresh_at c s r
  step-Refines c s (set_max_op n) r = record { same_ttl = r.same_ttl; agree = r.agree }

  run-Refines :
      (ops : List Op) (c : UnreadCache) (s : Ideal)
      → Refines ttl c s
      → Refines ttl (run c ops) (ideal_run ttl s ops)
  unfolding run ideal_run
  run-Refines [] c s r = r
  run-Refines (op ∷ ops) c s r =
      run-Refines ops (step c op) (ideal_step ttl s op) (step-Refines c s op r)

get-Refines-some :
    (ttl : ℕ) (c : UnreadCache) (s : Ideal) (now : ℕ) (user : ℤ) (m : Map ℤ ℤ)
    → Refines ttl c s
    → (get c now user).1 ≡ some m
    → ideal_get s now user ≡ some m
unfolding get ideal_get
get-Refines-some ttl c s now user m r hit = elim (Option-cases (lookup user c.counts)) [
  | inl absent ↦ absurd (ground arith)
  | inr (m', present) ↦ rw (r.agree user m' present) (ground arith)
]

-- A hit is never wrong. After any calls on a new cache, evictions and cleanups among them, if `Get`
-- returns counts then they are those that were last stored for the user, with the updates made since
-- while they had not expired; they were not invalidated, and their expiry is not past.
pub get_sound :
    (ttl : ℕ) (ops : List Op) (now : ℕ) (user : ℤ) (m : Map ℤ ℤ)
    → (get (run (new_unread_cache ttl) ops) now user).1 ≡ some m
    → ideal_get (ideal_run ttl (λ u. none) ops) now user ≡ some m
unfolding new_unread_cache lookup
get_sound ttl ops now user m hit =
    get-Refines-some ttl (run (new_unread_cache ttl) ops) (ideal_run ttl (λ u. none) ops) now user m
      (run-Refines ttl ops (new_unread_cache ttl) (λ u. none)
        (record { same_ttl = refl; agree = λ u m e. cc }))
      hit
