-- ===== src/Auth/Tokens.antt =====
-- pkg/jwt/jwt.go and authservice/service/auth.go: what a token tells.
use shahboard.Base.{ℕ, ◌+◌, ◌*◌, ◌/◌, ◌≤◌, pos, ◌≡◌, refl, arith, lookup}
use shahboard.Types.{User, dec_id}
use shahboard.Auth.{
  JwtLib, JwtLaws, ok, text_claim, number_claim, user_claims, generate_jwt, validate_jwt,
  user_of_claims,
}

module _ (lib : JwtLib) where
  -- A token that the service makes for a user tells who he is, until it expires: his identifier,
  -- his email and whether he is a guest, but not his score.
  pub validate_jwt-generate_jwt :
      (expiration now later : ℕ) (u : User)
      → JwtLaws lib (user_claims expiration now u)
      → now / 1000000000 ≤ later
      → later ≤ (now + expiration * 1000000000) / 1000000000
      → validate_jwt lib later (generate_jwt lib expiration now u) ≡ ok (record u { score = pos 0 })
  unfolding validate_jwt generate_jwt user_of_claims user_claims text_claim number_claim dec_id
      lookup
  validate_jwt-generate_jwt expiration now later u laws a b = ground (
    arith,
    laws.parse-sign later (now / 1000000000) ((now + expiration * 1000000000) / 1000000000) refl
        refl a b,
  )
