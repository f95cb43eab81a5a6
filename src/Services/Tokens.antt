-- ===== src/Services/Tokens.antt =====
-- internal/services/subscription_service.go: the admin tokens, in the SQLite store. The hash, SHA-256 in
-- hexadecimal, is a parameter, and so is the random token, which is 64 hexadecimal digits.
pub mod Answers
mod Tests
use Prim.Native.String.{len}
use goread.Base.{
  int_Eq, string_Eq, ℕ, suc, ◌+◌, Bool, true, false, not, ◌&&◌, String, Option, none, some, List,
  [], ◌∷◌, ℤ, pos, Map, lookup, insert, if◌then◌else◌, ◌==◌, nat_eq, ltb, is_some,
}
use goread.Database.{DbError, unavailable, Result, ok, err}

pub record AdminToken : Type 0 where
  pub id : ℤ
  pub token_hash : String
  pub created_at : ℕ
  pub last_used_at : ℕ
  pub description : String
  pub is_active : Bool

-- The table `admin_tokens` of the store.
pub record TokenTable : Type 0 where
  pub up : Bool
  pub tokens : Map ℤ AdminToken
  pub next_token : ℕ

pub data TokenError : Type 0 where
  no_randomness not_stored not_found not_queried : TokenError

abbrev pub Hash : Type 0
Hash = String → String

-- The hashes are unique, whether active or not.
unfoldable pub row_with_hash : String → Map ℤ AdminToken → Option AdminToken
row_with_hash hash [] = none
row_with_hash hash ((_, row) ∷ m) =
    if row.token_hash == hash then some row else row_with_hash hash m

unfoldable pub generate_admin_token :
    Hash → ℕ → Option String → String → TokenTable → TokenTable × Result TokenError String
generate_admin_token hash now none description t = (t, err no_randomness)
generate_admin_token hash now (some token) description t =
    let row : AdminToken = record {
      id = pos t.next_token;
      token_hash = hash token;
      created_at = now;
      last_used_at = now;
      description = description;
      is_active = true;
    } in
    if t.up && not (is_some (row_with_hash (hash token) t.tokens))
    then (record t { tokens = insert row.id row t.tokens; next_token = t.next_token + 1 }, ok token)
    else (t, err not_stored)

-- `UPDATE admin_tokens SET … WHERE id = ?`
abbrev pub update_token : ℤ → (AdminToken → AdminToken) → TokenTable → TokenTable
update_token id f t = elim (lookup id t.tokens) [
  | none ↦ t
  | some row ↦ record t { tokens = insert id (f row) t.tokens }
]

-- `SELECT … WHERE token_hash = ? AND is_active = 1`
unfoldable pub active_with_hash : String → Map ℤ AdminToken → Option AdminToken
active_with_hash hash [] = none
active_with_hash hash ((_, row) ∷ m) =
    if row.token_hash == hash && row.is_active then some row else active_with_hash hash m

-- A failed query is answered like a missing token.
unfoldable pub validate_admin_token : Hash → ℕ → String → TokenTable → TokenTable × Bool
validate_admin_token hash now token t =
    if not (nat_eq (len token) 64)
    then (t, false)
    else if not t.up
    then (t, false)
    else elim (active_with_hash (hash token) t.tokens) [
      | none ↦ (t, false)
      | some row ↦ (update_token row.id (λ row. record row { last_used_at = now }) t, true)
    ]

-- `ORDER BY created_at DESC`; the statement leaves the order of equal times open.
unfoldable pub insert_token : AdminToken → List AdminToken → List AdminToken
insert_token a [] = a ∷ []
insert_token a (b ∷ l) = if ltb a.created_at b.created_at then b ∷ insert_token a l else a ∷ b ∷ l

unfoldable pub sort_tokens : Map ℤ AdminToken → List AdminToken
sort_tokens [] = []
sort_tokens ((_, row) ∷ m) = insert_token row (sort_tokens m)

unfoldable pub list_admin_tokens : TokenTable → Result TokenError (List AdminToken)
list_admin_tokens t = if t.up then ok (sort_tokens t.tokens) else err not_queried

-- `UPDATE … SET is_active = 0 WHERE id = ? AND is_active = 1`, and an error where no row changed.
unfoldable pub revoke_admin_token : ℤ → TokenTable → TokenTable × Result TokenError (Unit {0})
revoke_admin_token id t = if not t.up then (t, err not_stored) else elim (lookup id t.tokens) [
  | none ↦ (t, err not_found)
  | some row ↦
      if row.is_active
      then (record t { tokens = insert id (record row { is_active = false }) t.tokens }, ok tt)
      else (t, err not_found)
]

unfoldable pub any_active : Map ℤ AdminToken → Bool
any_active [] = false
any_active ((_, row) ∷ m) = if row.is_active then true else any_active m

unfoldable pub has_admin_tokens : TokenTable → Result TokenError Bool
has_admin_tokens t = if t.up then ok (any_active t.tokens) else err not_queried
