-- ===== src/Cache/FeedList/Answers.antt =====
-- internal/cache/feed_list_cache.go: the cache against the last list that was stored in it.
use goread.Base.{
  ℕ, ◌+◌, ◌≤◌, ◌≡◌, refl, Bool, true, false, Option, none, some, List, [], ◌∷◌, ltb, if◌then◌else◌,
  ℤ, pos, ltb_ℤ, length, arith,
}
use goread.Database.{Feed}
use goread.Cache.FeedList.{
  FeedListCache, Op, get_op, set_op, invalidate_op, cleanup_op, new_feed_list_cache, get, set,
  invalidate, cleanup, step, run,
}

-- The limit of `SetMaxFeeds`, 0 or less for none.
abbrev pub fits : ℤ → List Feed → Bool
fits max feeds =
    if ltb_ℤ (pos 0) max then (if ltb_ℤ max (pos (length feeds)) then false else true) else true

-- The list that was last stored, with its expiry. A list over the limit is not stored, and leaves the
-- one before it.
unfoldable pub stored : ℕ → ℤ → Option (ℕ × List Feed) → List Op → Option (ℕ × List Feed)
stored ttl max last [] = last
stored ttl max last (set_op now feeds ∷ ops) =
    stored ttl max (if fits max feeds then some (now + ttl, feeds) else last) ops
stored ttl max last (invalidate_op ∷ ops) = stored ttl max none ops
stored ttl max last (get_op now ∷ ops) = stored ttl max last ops
stored ttl max last (cleanup_op now ∷ ops) = stored ttl max last ops

abbrev unexpired : ℕ → Option (ℕ × List Feed) → Option (List Feed)
unexpired now none = none
unexpired now (some (at, feeds)) = if ltb at now then none else some feeds

-- The clock does not go back, from `t` over the calls to `now`.
abbrev pub Forward : ℕ → List Op → ℕ → Type 0
Forward t [] now = t ≤ now
Forward t (set_op at _ ∷ ops) now = (t ≤ at) × Forward at ops now
Forward t (get_op at ∷ ops) now = (t ≤ at) × Forward at ops now
Forward t (cleanup_op at ∷ ops) now = (t ≤ at) × Forward at ops now
Forward t (invalidate_op ∷ ops) now = Forward t ops now

-- The cache answers as the stored list does, from the time `t` on.
record Tracks (ttl : ℕ) (max : ℤ) (t : ℕ) (c : FeedListCache) (last : Option (ℕ × List Feed))
    : Type 0 where
  same_ttl : c.ttl ≡ ttl
  same_max : c.max_feeds ≡ max
  answers : (now : ℕ) → t ≤ now → (get c now).1 ≡ unexpired now last

module _ (ttl : ℕ) (max : ℤ) where
  set-Tracks :
      (t at : ℕ) (feeds : List Feed) (c : FeedListCache) (last : Option (ℕ × List Feed))
      → t ≤ at
      → Tracks ttl max t c last
      → Tracks ttl max at (set c at feeds) (if fits max feeds then some (at + ttl, feeds) else last)
  unfolding set get
  set-Tracks t at feeds c last h k = record {
    same_ttl = ground (arith, k.same_ttl);
    same_max = ground (arith, k.same_max);
    answers = λ now le. ground (arith, k.answers now, k.same_ttl, k.same_max);
  }

  get-Tracks :
      (t at : ℕ) (c : FeedListCache) (last : Option (ℕ × List Feed))
      → t ≤ at
      → Tracks ttl max t c last
      → Tracks ttl max at (get c at).0 last
  unfolding get
  get-Tracks t at c last h k = record {
    same_ttl = ground (arith, k.same_ttl);
    same_max = ground (arith, k.same_max);
    answers = λ now le. ground (arith, k.answers now);
  }

  cleanup-Tracks :
      (t at : ℕ) (c : FeedListCache) (last : Option (ℕ × List Feed))
      → t ≤ at
      → Tracks ttl max t c last
      → Tracks ttl max at (cleanup c at) last
  unfolding cleanup get
  cleanup-Tracks t at c last h k = record {
    same_ttl = ground (arith, k.same_ttl);
    same_max = ground (arith, k.same_max);
    answers = λ now le. ground (arith, k.answers now);
  }

  invalidate-Tracks :
      (t : ℕ) (c : FeedListCache) (last : Option (ℕ × List Feed))
      → Tracks ttl max t c last
      → Tracks ttl max t (invalidate c) none
  unfolding invalidate get
  invalidate-Tracks t c last k = record {
    same_ttl = k.same_ttl;
    same_max = k.same_max;
    answers = λ now le. refl;
  }

  run-Tracks :
      (ops : List Op) (t now : ℕ) (c : FeedListCache) (last : Option (ℕ × List Feed))
      → Forward t ops now
      → Tracks ttl max t c last
      → (get (run c ops) now).1 ≡ unexpired now (stored ttl max last ops)
  unfolding run stored step
  run-Tracks [] t now c last f k = k.answers now f
  run-Tracks (set_op at feeds ∷ ops) t now c last f k =
      run-Tracks ops at now (set c at feeds) _ f.1 (set-Tracks t at feeds c last f.0 k)
  run-Tracks (get_op at ∷ ops) t now c last f k =
      run-Tracks ops at now (get c at).0 last f.1 (get-Tracks t at c last f.0 k)
  run-Tracks (cleanup_op at ∷ ops) t now c last f k =
      run-Tracks ops at now (cleanup c at) last f.1 (cleanup-Tracks t at c last f.0 k)
  run-Tracks (invalidate_op ∷ ops) t now c last f k =
      run-Tracks ops t now (invalidate c) none f (invalidate-Tracks t c last k)

-- While the clock does not go back, `Get` after any calls on a new cache with the limit `max` returns
-- the list that was last stored, unless it was invalidated since or its expiry is past. Cleanups and
-- other reads change no answer, and a list over the limit is not stored.
pub get-exact :
    (ttl : ℕ) (max : ℤ) (ops : List Op) (t now : ℕ)
    → Forward t ops now
    → (get (run (record (new_feed_list_cache ttl) { max_feeds = max }) ops) now).1
      ≡ unexpired now (stored ttl max none ops)
unfolding new_feed_list_cache get
get-exact ttl max ops t now f =
    run-Tracks ttl max ops t now (record (new_feed_list_cache ttl) { max_feeds = max }) none f
      (record { same_ttl = refl; same_max = refl; answers = λ now le. refl })
