-- ===== src/Auth.antt =====
-- pkg/jwt/jwt.go, and the tokens of authservice/service/auth.go. Signing and parsing tokens, bcrypt
-- and Google's validation are libraries: records of operations, with the behaviour relied on.
pub mod Accounts
pub mod Tokens
pub mod Passwords
use shahboard.Base.{
  ℕ, ◌+◌, ◌*◌, ◌/◌, ◌≤◌, ℤ, pos, ltb_ℤ, Bool, true, false, not, ◌&&◌, ◌||◌, List, [], ◌∷◌, Option,
  none, some, ◌≡◌, lookup, if◌then◌else◌,
}
use shahboard.Types.{Bytes, bytes, User, dec_id, same_id}

-- A value of `MapClaims`; a number is what `int64` makes of it.
pub data Claim : Type 0 where
  text : Bytes → Claim
  number : ℤ → Claim
  flag : Bool → Claim
  other : Claim

abbrev pub Claims : Type 0
Claims = List (Bytes × Claim)

-- A value, an error of the code with its text, an error of a library, or a failed type assertion.
pub data Result (A : Type 0) : Type 0 where
  ok : A → Result A
  err : Bytes → Result A
  failed panics : Result A

-- `claims[k].(string)` and so on; `none` when the claim is missing or of another type.
unfoldable pub text_claim : Bytes → Claims → Option Bytes
text_claim k c = elim (lookup dec_id k c) [
  | none ↦ none
  | some (text t) ↦ some t
  | some (number n) ↦ none
  | some (flag b) ↦ none
  | some other ↦ none
]

unfoldable pub number_claim : Bytes → Claims → Option ℤ
number_claim k c = elim (lookup dec_id k c) [
  | none ↦ none
  | some (text t) ↦ none
  | some (number n) ↦ some n
  | some (flag b) ↦ none
  | some other ↦ none
]

unfoldable pub flag_claim : Bytes → Claims → Option Bool
flag_claim k c = elim (lookup dec_id k c) [
  | none ↦ none
  | some (text t) ↦ none
  | some (number n) ↦ none
  | some (flag b) ↦ some b
  | some other ↦ none
]

-- github.com/golang-jwt/jwt with the service's pair of keys: `parse` checks the signature and the
-- times at the time `now`; `parse_unverified` checks nothing.
pub record JwtLib : Type 0 where
  pub sign : Claims → Bytes
  pub parse : ℕ → Bytes → Option Claims
  pub parse_unverified : Bytes → Option Claims
  -- `idtoken.Validate` of Google's library, for a client
  pub validate : Bytes → Bytes → Option Claims

-- Documented behaviour, for the claims of a token: signed, they parse until they expire.
pub record JwtLaws (lib : JwtLib) (c : Claims) : Type 0 where
  pub parse-sign :
      (now issued expires : ℕ)
      → number_claim (bytes "iat") c ≡ some (pos issued)
      → number_claim (bytes "exp") c ≡ some (pos expires)
      → issued ≤ now
      → now ≤ expires
      → lib.parse now (lib.sign c) ≡ some c

-- golang.org/x/crypto/bcrypt; `hash` takes the salt that it draws.
pub record BcryptLib : Type 0 where
  pub hash : ℕ → Bytes → Option Bytes
  pub compare : Bytes → Bytes → Bool

pub record BcryptLaws (lib : BcryptLib) : Type 0 where
  pub compare-hash : (salt : ℕ) (p h : Bytes) → lib.hash salt p ≡ some h → lib.compare h p ≡ true
  -- a text that is too short is no hash
  pub compare_empty : (p : Bytes) → lib.compare (bytes "") p ≡ false

-- The claims of `GenerateJWT` at the time `now` in nanoseconds; `expiration` is in seconds.
unfoldable pub user_claims : ℕ → ℕ → User → Claims
user_claims expiration now u =
    (bytes "id", text u.id)
    ∷ (bytes "email", text u.email)
    ∷ (bytes "is_guest", flag u.is_guest)
    ∷ (bytes "exp", number (pos ((now + expiration * 1000000000) / 1000000000)))
    ∷ (bytes "iat", number (pos (now / 1000000000)))
    ∷ []

unfoldable pub generate_jwt : JwtLib → ℕ → ℕ → User → Bytes
unfolding user_claims
generate_jwt lib expiration now u = lib.sign (user_claims expiration now u)

-- The end of `ValidateJWT`; a user that it gives has no score.
unfoldable pub user_of_claims : Claims → Bytes → Bytes → Result User
user_of_claims c id email = elim (lookup dec_id (bytes "is_guest") c) [
  | none ↦ ok (record { id = id; email = email; is_guest = false; score = pos 0 })
  | some (flag b) ↦ ok (record { id = id; email = email; is_guest = b; score = pos 0 })
  | some (text t) ↦ panics
  | some (number n) ↦ panics
  | some other ↦ panics
]

-- `ValidateJWT` at the Unix time `now`.
unfoldable pub validate_jwt : JwtLib → ℕ → Bytes → Result User
unfolding user_of_claims text_claim number_claim
validate_jwt lib now token = elim (lib.parse now token) [
  | none ↦ failed
  | some c ↦ elim (number_claim (bytes "exp") c) [
    | none ↦ err (bytes "exp claim missing or invalid")
    | some exp ↦
        if ltb_ℤ exp (pos now)
        then err (bytes "token has expired")
        else elim (text_claim (bytes "id") c) [
          | none ↦ err (bytes "missing or invalid id or email claim")
          | some id ↦ elim (text_claim (bytes "email") c) [
            | none ↦ err (bytes "missing or invalid id or email claim")
            | some email ↦ user_of_claims c id email
          ]
        ]
  ]
]

pub record TokenInfo : Type 0 where
  pub email : Bytes
  pub email_verified : Bool
  pub name : Bytes
  pub picture : Bytes

-- The literal of `tokenInfo`, whose assertions are unchecked.
unfoldable pub token_info : Claims → Bytes → Result TokenInfo
unfolding text_claim flag_claim
token_info c email = elim (flag_claim (bytes "email_verified") c) [
  | none ↦ panics
  | some v ↦ elim (text_claim (bytes "name") c) [
    | none ↦ panics
    | some n ↦ elim (text_claim (bytes "picture") c) [
      | none ↦ panics
      | some p ↦ ok (record { email = email; email_verified = v; name = n; picture = p })
    ]
  ]
]

unfoldable pub validate_google_jwt : JwtLib → Bytes → Bytes → Result TokenInfo
unfolding token_info text_claim flag_claim
validate_google_jwt lib client token = elim (lib.validate client token) [
  | none ↦ failed
  | some c ↦ elim (flag_claim (bytes "email_verified") c) [
    | none ↦ panics
    | some false ↦ err (bytes "email not verified")
    | some true ↦ elim (text_claim (bytes "email") c) [ none ↦ panics | some e ↦ token_info c e ]
  ]
]

abbrev pub is_google : Bytes → Bool
is_google iss =
    same_id iss (bytes "https://accounts.google.com") || same_id iss (bytes "accounts.google.com")

-- `parseGoogleJWT` at the Unix time `now`.
unfoldable pub parse_google_jwt : JwtLib → ℕ → Bytes → Bytes → Result TokenInfo
unfolding token_info text_claim number_claim
parse_google_jwt lib now client token = elim (lib.parse_unverified token) [
  | none ↦ failed
  | some c ↦ elim (number_claim (bytes "exp") c) [
    | none ↦ err (bytes "token has expired or missing exp claim")
    | some exp ↦
        if ltb_ℤ exp (pos now)
        then err (bytes "token has expired or missing exp claim")
        else elim (text_claim (bytes "iss") c) [
          | none ↦ err (bytes "invalid issuer")
          | some iss ↦
              if not (is_google iss)
              then err (bytes "invalid issuer")
              else elim (text_claim (bytes "aud") c) [
                | none ↦ err (bytes "invalid audience")
                | some aud ↦
                    if not (same_id aud client)
                    then err (bytes "invalid audience")
                    else elim (text_claim (bytes "email") c) [
                      | none ↦ err (bytes "missing or invalid email claim")
                      | some email ↦ token_info c email
                    ]
              ]
        ]
  ]
]
