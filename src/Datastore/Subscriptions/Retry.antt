-- ===== src/Datastore/Subscriptions/Retry.antt =====
-- internal/database/datastore.go: the retries of getUserFeedsWithRetry.
use goread.Base.{
  ℕ, zero, suc, ◌≡◌, Bool, true, false, Option, none, some, ℤ, List, [], arith, inl, inr,
}
use goread.Database.{Feed, DbError, ok, err, Result-cases}
use goread.Datastore.{Store, Ds}
use goread.Datastore.Subscriptions.{get_user_feeds, retry_loop, get_user_feeds_with_retry}

-- The first answer among a number of further attempts, or the last error.
unfoldable pub first_answer : ℕ → ℤ → Ds (List Feed)
first_answer zero user_id s = get_user_feeds user_id s
first_answer (suc retries) user_id s = elim (get_user_feeds user_id s).1 [
  | ok feeds ↦ ((get_user_feeds user_id s).0, ok feeds)
  | err _ ↦ first_answer retries user_id (get_user_feeds user_id s).0
]

loop-eq-first :
    (retries : ℕ) (first : Bool) (last_err : Option DbError) (user_id : ℤ) (s : Store)
    → retry_loop retries first [] last_err user_id s ≡ first_answer retries user_id s
unfolding retry_loop first_answer
loop-eq-first zero first last_err user_id s = elim (Result-cases (get_user_feeds user_id s).1) [
  | inl (feeds, good) ↦ ground arith
  | inr (e, bad) ↦ ground arith
]
loop-eq-first (suc retries) first last_err user_id s =
    elim (Result-cases (get_user_feeds user_id s).1) [
      | inl (feeds, good) ↦ ground arith
      | inr (e, bad) ↦
          ground (arith, loop-eq-first retries false (some e) user_id (get_user_feeds user_id s).0)
    ]

-- With any faults, reading the feeds with retries is reading them until the first answer, at most once
-- more than the number of retries: the rule that asks again where fewer feeds came back than before is
-- never used.
pub retry-eq-first :
    (max_retries : ℕ) (user_id : ℤ) (s : Store)
    → get_user_feeds_with_retry user_id max_retries s ≡ first_answer max_retries user_id s
unfolding get_user_feeds_with_retry
retry-eq-first max_retries user_id s = loop-eq-first max_retries true none user_id s
