-- ===== src/Services/Tokens/Answers.antt =====
-- internal/services/subscription_service.go: which admin tokens are valid.
use Prim.Native.String.{len}
use goread.Base.{
  int_Eq, string_Eq, ℕ, ◌+◌, ◌≡◌, ◌≢◌, refl, true, false, ◌&&◌, ◌||◌, String, none, some, [], ◌∷◌,
  ℤ, pos, Map, lookup, insert, ◌==◌, nat_eq, is_some, arith, Bool-cases, Option-cases, inl, inr,
  ◌∙◌, lookup-insert, beq_refl,
}
use goread.Services.Tokens.{
  AdminToken, TokenTable, Hash, row_with_hash, active_with_hash, generate_admin_token,
  validate_admin_token, revoke_admin_token,
}

-- Whether the query finds a row, after a row with a new id.
active-insert :
    (hash : String) (id : ℤ) (row : AdminToken) (m : Map ℤ AdminToken)
    → lookup id m ≡ none
    → is_some (active_with_hash hash (insert id row m))
      ≡ ((row.token_hash == hash && row.is_active) || is_some (active_with_hash hash m))
unfolding active_with_hash insert lookup
active-insert hash id row [] new = ground arith
active-insert hash id row ((j, old) ∷ m) new = ground (arith, active-insert hash id row m)

no_row-no_active :
    (hash : String) (m : Map ℤ AdminToken)
    → row_with_hash hash m ≡ none
    → is_some (active_with_hash hash m) ≡ false
unfolding active_with_hash row_with_hash
no_row-no_active hash [] h = refl
no_row-no_active hash ((j, old) ∷ m) h = ground (arith, no_row-no_active hash m)

insert-insert :
    (id : ℤ) (row row' : AdminToken) (m : Map ℤ AdminToken)
    → insert id row' (insert id row m) ≡ insert id row' m
unfolding insert
insert-insert id row row' [] = ground (arith, beq_refl id)
insert-insert id row row' ((j, old) ∷ m) = ground (arith, beq_refl id, insert-insert id row row' m)

-- The answer, as the driver answers.
validate-active :
    (hash : Hash) (now : ℕ) (token : String) (t : TokenTable)
    → t.up ≡ true
    → (validate_admin_token hash now token t).1
      ≡ (nat_eq (len token) 64 && is_some (active_with_hash (hash token) t.tokens))
unfolding validate_admin_token
validate-active hash now token t up = elim (Bool-cases (nat_eq (len token) 64)) [
  | inl long ↦
      rw (long, up)
        (elim (Option-cases (active_with_hash (hash token) t.tokens)) [
          | inl absent ↦ rw absent
          | inr (row, found) ↦ rw found
        ])
  | inr other ↦ rw other
]

abbrev new_token : Hash → ℕ → String → String → TokenTable → AdminToken
new_token hash now token description t = record {
  id = pos t.next_token;
  token_hash = hash token;
  created_at = now;
  last_used_at = now;
  description = description;
  is_active = true;
}

generate-new :
    (hash : Hash) (now : ℕ) (token description : String) (t : TokenTable)
    → t.up ≡ true
    → row_with_hash (hash token) t.tokens ≡ none
    → (generate_admin_token hash now (some token) description t).0 ≡ record t {
      tokens = insert (pos t.next_token) (new_token hash now token description t) t.tokens;
      next_token = t.next_token + 1;
    }
unfolding generate_admin_token
generate-new hash now token description t up new = rw (up, new)

revoke-found :
    (id : ℤ) (row : AdminToken) (t : TokenTable)
    → t.up ≡ true
    → lookup id t.tokens ≡ some row
    → row.is_active ≡ true
    → (revoke_admin_token id t).0
      ≡ record t { tokens = insert id (record row { is_active = false }) t.tokens }
unfolding revoke_admin_token
revoke-found id row t up found active = ground (arith, up, found, active)

-- A new token is valid until it is revoked, which makes it invalid at once; every token with another hash
-- is answered, before and after, as it was before the token was made. The driver answers, the token has 64
-- characters and a new hash, and no row has the next id.
pub revoke-generate :
    (hash : Hash) (now now' : ℕ) (token other description : String) (t : TokenTable)
    → t.up ≡ true
    → len token ≡ 64
    → row_with_hash (hash token) t.tokens ≡ none
    → lookup (pos t.next_token) t.tokens ≡ none
    → hash token ≢ hash other
    → let made = (generate_admin_token hash now (some token) description t).0 in
      let revoked = (revoke_admin_token (pos t.next_token) made).0 in
      ((validate_admin_token hash now' token made).1 ≡ true)
      × ((validate_admin_token hash now' token revoked).1 ≡ false)
      × ((validate_admin_token hash now' other made).1 ≡ (validate_admin_token hash now' other t).1)
      × ((validate_admin_token hash now' other revoked).1
          ≡ (validate_admin_token hash now' other t).1)
revoke-generate hash now now' token other description t up long new free differs =
    let id = pos t.next_token in
    let row = new_token hash now token description t in
    let off : AdminToken = record row { is_active = false } in
    let made : TokenTable = record t {
      tokens = insert id row t.tokens;
      next_token = t.next_token + 1;
    } in
    let revoked : TokenTable = record made { tokens = insert id off (insert id row t.tokens) } in
    let self = beq_refl (hash token) in
    let none_yet = no_row-no_active (hash token) t.tokens new in
    let apart = string_Eq.beq_iff (hash token) (hash other) in
    let valid_made : (validate_admin_token hash now' token made).1 ≡ true =
      validate-active hash now' token made up
      ∙ ground (arith, active-insert (hash token) id row t.tokens free, self, long) in
    let invalid : (validate_admin_token hash now' token revoked).1 ≡ false =
      validate-active hash now' token revoked up
      ∙ rw (insert-insert id row off t.tokens)
          (ground (arith, active-insert (hash token) id off t.tokens free, self, none_yet)) in
    let other_made : (validate_admin_token hash now' other made).1
        ≡ (validate_admin_token hash now' other t).1 =
      validate-active hash now' other made up
      ∙ ground (
        arith,
        active-insert (hash other) id row t.tokens free,
        apart,
        differs,
        validate-active hash now' other t up,
      ) in
    let other_revoked : (validate_admin_token hash now' other revoked).1
        ≡ (validate_admin_token hash now' other t).1 =
      validate-active hash now' other revoked up
      ∙ rw (insert-insert id row off t.tokens) (
          ground (
            arith,
            active-insert (hash other) id off t.tokens free,
            apart,
            differs,
            validate-active hash now' other t up,
          )) in
    rw (generate-new hash now token description t up new) (
      rw
        (revoke-found id row made up (ground (arith, lookup-insert id id row t.tokens, beq_refl id))
          refl)
        (valid_made, invalid, other_made, other_revoked))
