-- ===== src/Cache/Unread/Size.antt =====
-- internal/cache/unread_cache.go: the eviction of `Set`, and the bound that it keeps.
use goread.Base.{
  All, int_Eq, ℕ, suc, ◌≤◌, ◌<◌, ◌≡◌, refl, ◌∙◌, Bool, true, false, none, some, List, [], ◌∷◌,
  arith, ltb, ◌||◌, if◌then◌else◌, ℤ, pos, Map, lookup, delete, IsUnique, is_some, lookup-insert,
  lookup-delete, Option-cases, Bool-cases, ◌⊎◌, inl, inr, int_eq_iff, length, ◌==◌, length-insert,
  length-delete-lt, length-delete-le, nat_eq,
}
use goread.Cache.Unread.{
  update_feed, invalidate, invalidate_all, cleanup, UnreadCache, Op, get_op, set_op, update_op,
  invalidate_op, invalidate_all_op, cleanup_op, set_max_op, drop_user, is_full, scan, make_room,
  set, update_count, get, sweep, step, run,
}
use goread.Cache.Unread.Valid.{IsValid, step-IsValid}

-- What the loop of `Set` finds: an entry of the map, or the one that it began with, and the earliest.
record IsEarliest (m : Map ℤ ℕ) (id : ℤ) (t : ℕ) (r : ℤ × ℕ) : Type 0 where
  here : (r ≡ (id, t)) ⊎ (lookup r.0 m ≡ some r.1)
  before : r.1 ≤ t
  least : (u : ℤ) (x : ℕ) → lookup u m ≡ some x → r.1 ≤ x

-- The expiries of a map are not the zero time.
abbrev Positive : Map ℤ ℕ → Type 0
Positive m = (u : ℤ) (t : ℕ) → lookup u m ≡ some t → 0 < t

Positive-tail :
    (u : ℤ) (x : ℕ) (m : Map ℤ ℕ) → IsUnique ((u, x) ∷ m) → Positive ((u, x) ∷ m) → Positive m
unfolding lookup
Positive-tail u x m d p v t e = p v t (ground (arith, int_eq_iff u v))

scan-IsEarliest :
    (m : Map ℤ ℕ) (id : ℤ) (t : ℕ)
    → 0 < t
    → IsUnique m
    → lookup id m ≡ none
    → Positive m
    → IsEarliest m id t (scan m id t)
unfolding scan lookup
scan-IsEarliest [] id t h d absent p = record {
  here = inl refl;
  before = omega arith;
  least = λ u x e. cc;
}
scan-IsEarliest ((u, x) ∷ m) id t h d absent p = elim (Bool-cases (nat_eq t 0 || ltb x t)) [
  | inl sooner ↦
      let r =
        scan-IsEarliest m u x (p u x (ground (arith, int_eq_iff u u))) d.1 d.0
          (Positive-tail u x m d p) in
      rw sooner (record {
        here = ground (arith, r.here, int_eq_iff u u, int_eq_iff u (scan m u x).0);
        before = ground (arith, r.before);
        least = λ v y e. ground (arith, r.before, r.least v y, int_eq_iff u v);
      })
  | inr later ↦
      let r = scan-IsEarliest m id t h d.1 (ground arith) (Positive-tail u x m d p) in
      rw later (record {
        here = ground (arith, r.here, int_eq_iff u (scan m id t).0);
        before = r.before;
        least = λ v y e. ground (arith, r.before, r.least v y, int_eq_iff u v);
      })
]

-- The entry that `Set` evicts: it is in the map, and none expires before it.
pub record IsVictim (m : Map ℤ ℕ) (v : ℤ) (t : ℕ) : Type 0 where
  pub present : lookup v m ≡ some t
  pub earliest : (u : ℤ) (x : ℕ) → lookup u m ≡ some x → t ≤ x

-- From the zero time the scan of a map that is not empty finds a victim.
scan-IsVictim :
    (u : ℤ) (x : ℕ) (m : Map ℤ ℕ)
    → IsUnique ((u, x) ∷ m)
    → Positive ((u, x) ∷ m)
    → IsVictim ((u, x) ∷ m) (scan ((u, x) ∷ m) (pos 0) 0).0 (scan ((u, x) ∷ m) (pos 0) 0).1
unfolding scan lookup
scan-IsVictim u x m d p =
    let r =
      scan-IsEarliest m u x (p u x (ground (arith, int_eq_iff u u))) d.1 d.0
        (Positive-tail u x m d p) in
    record {
      present = ground (arith, r.here, int_eq_iff u u, int_eq_iff u (scan m u x).0);
      earliest = λ v y e. ground (arith, r.before, r.least v y, int_eq_iff u v);
    }

-- A map with a key is not empty.
lookup-nonempty :
    {V : Type 0} (m : Map ℤ V) (n : ℕ) → suc n ≤ length m → (u : ℤ) × (is_some (lookup u m) ≡ true)
unfolding lookup
lookup-nonempty [] n h = absurd (omega arith)
lookup-nonempty ((u, x) ∷ m) n h = (u, ground (arith, int_eq_iff u u))

IsVictim-of_present :
    (m : Map ℤ ℕ) (u : ℤ)
    → is_some (lookup u m) ≡ true
    → IsUnique m
    → Positive m
    → IsVictim m (scan m (pos 0) 0).0 (scan m (pos 0) 0).1
IsVictim-of_present [] u h d p = absurd (unfold lookup in cc)
IsVictim-of_present ((v, x) ∷ m) u h d p = scan-IsVictim v x m d p

-- A cache that is full has an entry to evict.
full-IsVictim :
    (c : UnreadCache) (user : ℤ)
    → IsValid c
    → is_full c user ≡ true
    → IsVictim c.refresh_at (scan c.refresh_at (pos 0) 0).0 (scan c.refresh_at (pos 0) 0).1
full-IsVictim c user h full =
    let some_user = lookup-nonempty c.counts 0 (ground arith) in
    IsVictim-of_present c.refresh_at some_user.0
      (ground (arith, h.same_keys some_user.0, some_user.1)) h.refresh_unique h.expiries

-- The size that the configuration allows.
pub record IsBounded (c : UnreadCache) : Type 0 where
  pub within : (n : ℕ) → c.max_users ≡ pos (suc n) → length c.counts ≤ suc n

make_room-size :
    (c : UnreadCache) (user : ℤ) (n : ℕ)
    → IsValid c
    → c.max_users ≡ pos (suc n)
    → length c.counts ≤ suc n
    → (is_some (lookup user (make_room c user).counts) ≡ true
        → length (make_room c user).counts ≤ suc n)
      × (is_some (lookup user (make_room c user).counts) ≡ false
          → length (make_room c user).counts ≤ n)
unfolding make_room
make_room-size c user n h e fits = elim (Bool-cases (is_full c user)) [
  | inl full ↦
      let v = (scan c.refresh_at (pos 0) 0).0 in
      let victim = full-IsVictim c user h full in
      let shorter : length (delete v c.counts) < length c.counts =
        length-delete-lt v c.counts (ground (arith, h.same_keys v, victim.present)) in
      rw full ((λ _. omega arith), (λ _. omega arith))
  | inr room ↦ rw room ((λ _. fits), (λ absent. ground arith))
]

max_users-make_room : (c : UnreadCache) (user : ℤ) → c.max_users ≡ (make_room c user).max_users
unfolding make_room
max_users-make_room c user = elim (Bool-cases (is_full c user)) [
  | inl full ↦ rw full
  | inr room ↦ rw room
]

set-IsBounded :
    (c : UnreadCache) (now : ℕ) (user : ℤ) (counts : Map ℤ ℤ)
    → IsValid c
    → IsBounded c
    → IsBounded (set c now user counts)
unfolding set
set-IsBounded c now user counts h b = record {
  within = λ n e.
      let e' : c.max_users ≡ pos (suc n) = max_users-make_room c user ∙ e in
      let size = make_room-size c user n h e' (b.within n e') in
      ground (arith, length-insert user counts (make_room c user).counts, size.0, size.1);
}

drop_user-IsBounded : (c : UnreadCache) (user : ℤ) → IsBounded c → IsBounded (drop_user c user)
drop_user-IsBounded c user b = record {
  within = λ n e. omega (arith, b.within n e, length-delete-le user c.counts);
}

sweep-IsBounded :
    (now : ℕ) (m : Map ℤ ℕ) (c : UnreadCache) → IsBounded c → IsBounded (sweep now m c)
unfolding sweep
sweep-IsBounded now [] c b = b
sweep-IsBounded now ((user, at) ∷ m) c b = elim (Bool-cases (ltb at now)) [
  | inl old ↦ rw old (sweep-IsBounded now m (drop_user c user) (drop_user-IsBounded c user b))
  | inr young ↦ rw young (sweep-IsBounded now m c b)
]

-- Only `SetMaxUsers` changes the limit.
abbrev pub keeps_limit : Op → Bool
keeps_limit (set_max_op _) = false
keeps_limit _ = true

update_count-IsBounded :
    (c : UnreadCache) (now : ℕ) (user feed : ℤ) (was_read now_read : Bool)
    → IsBounded c
    → IsBounded (update_count c now user feed was_read now_read)
unfolding update_count
update_count-IsBounded c now user feed was_read now_read b =
    elim (Option-cases (lookup user c.counts)) [
      | inl absent ↦ rw (absent, update_count) b
      | inr (m, present) ↦
          rw (present, update_count)
            (record {
              within = λ n e.
                  let m' = update_feed m feed was_read now_read in
                  ground (arith, b.within n, length-insert user m' c.counts);
            })
    ]

step-IsBounded :
    (c : UnreadCache) (op : Op)
    → keeps_limit op ≡ true
    → IsValid c
    → IsBounded c
    → IsBounded (step c op)
unfolding step get update_count invalidate invalidate_all cleanup
step-IsBounded c (get_op now user) k h b = record { within = λ n e. ground (arith, b.within n) }
step-IsBounded c (set_op now user counts) k h b = set-IsBounded c now user counts h b
step-IsBounded c (update_op now user feed was_read now_read) k h b =
    update_count-IsBounded c now user feed was_read now_read b
step-IsBounded c (invalidate_op user) k h b = drop_user-IsBounded c user b
step-IsBounded c invalidate_all_op k h b = record { within = λ n e. omega arith }
step-IsBounded c (cleanup_op now) k h b = sweep-IsBounded now c.refresh_at c b
step-IsBounded c (set_max_op n) k h b = cc

-- With a positive limit of `n + 1` users, no sequence of calls that leaves the limit alone makes the
-- cache hold more than `n + 1` users, if it is valid and holds no more at the start.
pub run-IsBounded :
    (ops : List Op) (c : UnreadCache)
    → All (λ op. keeps_limit op ≡ true) ops
    → IsValid c
    → IsBounded c
    → IsBounded (run c ops)
unfolding run
run-IsBounded [] c k h b = b
run-IsBounded (op ∷ ops) c k h b =
    run-IsBounded ops (step c op) k.1 (step-IsValid c op h) (step-IsBounded c op k.0 h b)

-- When the cache is full, `Set` for a new user removes one entry, which is there and than which none
-- expires earlier; it stores the new counts, and leaves all other users as they were.
pub set-evicts_earliest :
    (c : UnreadCache) (now : ℕ) (user : ℤ) (counts : Map ℤ ℤ)
    → IsValid c
    → is_full c user ≡ true
    → (v : ℤ) × (t : ℕ) × IsVictim c.refresh_at v t
      × ((u : ℤ)
          → lookup u (set c now user counts).counts
            ≡ (if user == u then some counts else if v == u then none else lookup u c.counts))
unfolding set make_room
set-evicts_earliest c now user counts h full = (
  (scan c.refresh_at (pos 0) 0).0,
  (scan c.refresh_at (pos 0) 0).1,
  full-IsVictim c user h full,
  λ u. rw (full, lookup-insert, lookup-delete),
)
