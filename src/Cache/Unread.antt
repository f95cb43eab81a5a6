-- ===== src/Cache/Unread.antt =====
-- internal/cache/unread_cache.go: the cache of unread counts. Every method holds the cache's mutex
-- from its first to its last line, so a method is one function from state to state. A method that
-- reads the clock takes its reading as `now`, in nanoseconds since the zero `time.Time`.
pub mod Valid
pub mod Size
pub mod Counts
pub mod Ideal
mod Tests
use goread.Base.{
  int_Eq, ℕ, ◌+◌, Bool, true, false, not, ◌&&◌, ◌||◌, Option, none, some, get_or, List, [], ◌∷◌,
  ltb, if◌then◌else◌, ℤ, pos, negsuc, wrap, ◌+ℤ◌, ◌-ℤ◌, ltb_ℤ, leb_ℤ, Map, lookup, insert, delete,
  length, is_some, nat_eq,
}

pub record UnreadCache : Type 0 where
  pub counts : Map ℤ (Map ℤ ℤ)
  pub refresh_at : Map ℤ ℕ
  pub ttl : ℕ
  pub max_users : ℤ
  pub hits : ℤ
  pub misses : ℤ

unfoldable pub new_unread_cache : ℕ → UnreadCache
new_unread_cache ttl = record {
  counts = [];
  refresh_at = [];
  ttl = ttl;
  max_users = pos 0;
  hits = pos 0;
  misses = pos 0;
}

-- `atomic.AddInt64(&x, 1)` and `x++` on an `int`.
abbrev pub add_one : ℤ → ℤ
add_one n = wrap (n +ℤ pos 1)

-- `uc.refreshAt[userID]`, the zero time if the key is missing.
abbrev pub expiry : UnreadCache → ℤ → ℕ
expiry c user = get_or (lookup user c.refresh_at) 0

unfoldable pub get : UnreadCache → ℕ → ℤ → UnreadCache × Option (Map ℤ ℤ)
get c now user = elim (lookup user c.counts) [
  | none ↦ (record c { misses = add_one c.misses }, none)
  | some counts ↦
      if ltb (expiry c user) now
      then (record c { misses = add_one c.misses }, none)
      else (record c { hits = add_one c.hits }, some counts)
]

unfoldable pub set_max_users : UnreadCache → ℤ → UnreadCache
set_max_users c n = record c { max_users = n }

-- The loop of `Set` over `uc.refreshAt`: the user whose entry expires first. `earliest` is the zero
-- time until an entry was seen.
unfoldable pub scan : Map ℤ ℕ → ℤ → ℕ → ℤ × ℕ
scan [] evict_id earliest = (evict_id, earliest)
scan ((uid, at) ∷ m) evict_id earliest =
    let better = nat_eq earliest 0 || ltb at earliest in
    scan m (if better then uid else evict_id) (if better then at else earliest)

abbrev pub drop_user : UnreadCache → ℤ → UnreadCache
drop_user c user = record c { counts = delete user c.counts; refresh_at = delete user c.refresh_at }

-- The test of `Set` that leads to an eviction.
abbrev pub is_full : UnreadCache → ℤ → Bool
is_full c user =
    ltb_ℤ (pos 0) c.max_users
    && (not (is_some (lookup user c.counts)) && leb_ℤ c.max_users (pos (length c.counts)))

unfoldable pub make_room : UnreadCache → ℤ → UnreadCache
make_room c user = if is_full c user then drop_user c (scan c.refresh_at (pos 0) 0).0 else c

unfoldable pub set : UnreadCache → ℕ → ℤ → Map ℤ ℤ → UnreadCache
set c now user counts =
    let c' = make_room c user in
    record c' {
      counts = insert user counts c'.counts;
      refresh_at = insert user (now + c'.ttl) c'.refresh_at;
    }

-- The new count of a feed; a missing feed counts 0. `counts[feedID]--` and its safety check.
unfoldable pub after_read : ℤ → ℤ
after_read n = let n' = wrap (n -ℤ pos 1) in if ltb_ℤ n' (pos 0) then pos 0 else n'

unfoldable pub update_feed : Map ℤ ℤ → ℤ → Bool → Bool → Map ℤ ℤ
update_feed counts feed was_read now_read =
    if not was_read && now_read
    then insert feed (after_read (get_or (lookup feed counts) (pos 0))) counts
    else if was_read && not now_read
    then insert feed (add_one (get_or (lookup feed counts) (pos 0))) counts
    else counts

-- The inner map is shared with `uc.counts`, so the update is a write to it.
unfoldable pub update_count : UnreadCache → ℕ → ℤ → ℤ → Bool → Bool → UnreadCache
update_count c now user feed was_read now_read = elim (lookup user c.counts) [
  | none ↦ c
  | some counts ↦
      if ltb (expiry c user) now
      then c
      else record c { counts = insert user (update_feed counts feed was_read now_read) c.counts }
]

unfoldable pub invalidate : UnreadCache → ℤ → UnreadCache
invalidate c user = drop_user c user

unfoldable pub invalidate_all : UnreadCache → UnreadCache
invalidate_all c = record c { counts = []; refresh_at = [] }

-- One tick of `cleanupExpiredEntries`: the loop over `uc.refreshAt`.
unfoldable pub sweep : ℕ → Map ℤ ℕ → UnreadCache → UnreadCache
sweep now [] c = c
sweep now ((user, at) ∷ m) c = sweep now m (if ltb at now then drop_user c user else c)

unfoldable pub cleanup : UnreadCache → ℕ → UnreadCache
cleanup c now = sweep now c.refresh_at c

-- `HitRate`, a float quotient of the two counters, is left out.
pub record CacheStats : Type 0 where
  pub cached_users : ℕ
  pub max_users : ℤ
  pub total_feeds : ℕ
  pub hits : ℤ
  pub misses : ℤ

-- The loop of `GetStats`.
unfoldable pub active_entries : UnreadCache → ℕ → Map ℤ (Map ℤ ℤ) → ℕ × ℕ → ℕ × ℕ
active_entries c now [] (users, feeds) = (users, feeds)
active_entries c now ((user, counts) ∷ m) (users, feeds) =
    active_entries c now m
      (if ltb now (expiry c user) then (users + 1, feeds + length counts) else (users, feeds))

unfoldable pub get_stats : UnreadCache → ℕ → CacheStats
get_stats c now =
    let (users, feeds) = active_entries c now c.counts (0, 0) in
    record {
      cached_users = users;
      max_users = c.max_users;
      total_feeds = feeds;
      hits = c.hits;
      misses = c.misses;
    }

-- The calls that a client makes, each with its reading of the clock.
pub data Op : Type 0 where
  get_op : ℕ → ℤ → Op
  set_op : ℕ → ℤ → Map ℤ ℤ → Op
  update_op : ℕ → ℤ → ℤ → Bool → Bool → Op
  invalidate_op : ℤ → Op
  invalidate_all_op : Op
  cleanup_op : ℕ → Op
  set_max_op : ℤ → Op

unfoldable pub step : UnreadCache → Op → UnreadCache
step c (get_op now user) = (get c now user).0
step c (set_op now user counts) = set c now user counts
step c (update_op now user feed was_read now_read) = update_count c now user feed was_read now_read
step c (invalidate_op user) = invalidate c user
step c invalidate_all_op = invalidate_all c
step c (cleanup_op now) = cleanup c now
step c (set_max_op n) = set_max_users c n

unfoldable pub run : UnreadCache → List Op → UnreadCache
run c [] = c
run c (op ∷ ops) = run (step c op) ops
