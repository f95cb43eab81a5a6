-- ===== src/Services/Tokens/Tests.antt =====
-- A token that is made, used and revoked.
use goread.Base.{
  int_Eq, string_Eq, ◌≡◌, refl, true, false, String, some, [], pos, lookup, insert, arith,
}
use goread.Database.{ok}
use goread.Services.Tokens.{
  TokenTable, Hash, row_with_hash, generate_admin_token, validate_admin_token, revoke_admin_token,
  has_admin_tokens, any_active,
}
use goread.Services.Tokens.Answers.{revoke-generate}

abbrev empty_table : TokenTable
empty_table = record { up = true; tokens = []; next_token = 1 }

abbrev token : String
token = "0123456789abcdef0123456789abcdef0123456789abcdef0123456789abcdef"

abbrev guess : String
guess = "ffffffffffffffff0123456789abcdef0123456789abcdef0123456789abcdef"

-- A hash that keeps everything.
abbrev plain : Hash
plain s = s

abbrev made : TokenTable
made = (generate_admin_token plain 5 (some token) "ops" empty_table).0

one_active : has_admin_tokens made ≡ ok true
unfolding has_admin_tokens any_active generate_admin_token row_with_hash insert
one_active = refl

short_refused : (validate_admin_token plain 6 "0123" made).1 ≡ false
unfolding validate_admin_token
short_refused = refl

revoke-generate_example :
    ((validate_admin_token plain 6 token made).1 ≡ true)
    × ((validate_admin_token plain 6 token (revoke_admin_token (pos 1) made).0).1 ≡ false)
    × ((validate_admin_token plain 6 guess made).1
        ≡ (validate_admin_token plain 6 guess empty_table).1)
    × ((validate_admin_token plain 6 guess (revoke_admin_token (pos 1) made).0).1
        ≡ (validate_admin_token plain 6 guess empty_table).1)
revoke-generate_example =
    revoke-generate plain 5 6 token guess "ops" empty_table refl refl (unfold row_with_hash in refl)
      (unfold lookup in refl) (λ same. ground (arith, (string_Eq.beq_iff token guess).1 same))
