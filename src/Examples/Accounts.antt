-- ===== src/Examples/Accounts.antt =====
-- A small library of tokens and of bcrypt, and the theorems on accounts applied to them.
use shahboard.Base.{pos, true, false, [], ◌∷◌, none, some, ◌≡◌, refl, arith}
use shahboard.Types.{bytes, same_id}
use shahboard.Event.Publisher.{done}
use shahboard.Auth.{
  Claims, JwtLib, JwtLaws, BcryptLib, BcryptLaws, ok, err, text, number, flag, user_claims,
}
use shahboard.Auth.Accounts.{Account, AuthEnv, AuthState, get_by_email, response, password_auth}
use shahboard.Auth.Passwords.{account, password_auth-password_auth}
use shahboard.Event.{UserCreated}
use shahboard.Examples.Games.{ann}

abbrev google_claims : Claims
google_claims =
    (bytes "exp", number (pos 90))
    ∷ (bytes "iss", text (bytes "accounts.google.com"))
    ∷ (bytes "aud", text (bytes "chess"))
    ∷ (bytes "email", text (bytes "a@x"))
    ∷ (bytes "email_verified", flag false)
    ∷ (bytes "name", text (bytes "ann"))
    ∷ (bytes "picture", text (bytes "p"))
    ∷ []

-- Every token is the same, with the claims of one user.
abbrev pub jwt : JwtLib
jwt = record {
  sign = λ c. bytes "token";
  parse = λ now t. some (user_claims 60 5000000000 ann);
  parse_unverified = λ t. some google_claims;
  validate = λ client t. some google_claims;
}

pub jwt_laws : JwtLaws jwt (user_claims 60 5000000000 ann)
jwt_laws = record { parse-sign = λ now issued expires a b c d. refl }

-- A hash is the password behind a mark.
abbrev bcrypt : BcryptLib
bcrypt = record { hash = λ salt p. some (0 ∷ p); compare = λ h p. same_id h (0 ∷ p) }

bcrypt_laws : BcryptLaws bcrypt
bcrypt_laws = record {
  compare-hash = λ salt p h e. ground arith;
  compare_empty = λ p. ground arith;
}

abbrev env : AuthEnv
env = record {
  now = 5000000000;
  fresh = λ n. bytes "31";
  salt = 1;
  reads = true;
  write = done;
  send = λ e. done;
}

abbrev nobody : AuthState
nobody = record { users = []; log = [] }

unknown : get_by_email nobody.users (bytes "a@x") ≡ none
unfolding get_by_email
unknown = refl

abbrev announced : UserCreated
announced = record {
  id = bytes "32";
  user_id = bytes "31";
  is_guest = false;
  email = bytes "a@x";
  name = bytes "ann";
  picture = bytes "p";
  timestamp = 5;
}

-- A library that refuses all tokens, and the account of the claims.
abbrev refusing : JwtLib
refusing = record jwt { validate = λ client t. none }

abbrev owner : Account
owner = record {
  id = bytes "31";
  email = bytes "a@x";
  password = bytes "";
  created_at = 1;
  updated_at = 1;
}

abbrev owned : AuthState
owned = record nobody { users = owner ∷ [] }

password_auth-password_auth_example :
    let s' = (password_auth jwt bcrypt 60 env nobody (bytes "a@x") (bytes "pw")).0 in
    ((password_auth jwt bcrypt 60 env nobody (bytes "a@x") (bytes "pw")).1
      ≡ ok (
          response jwt bcrypt 60 env
            (account jwt bcrypt 60 env (bytes "a@x") (0 ∷ bytes "pw"))
            false))
    × (password_auth jwt bcrypt 60 env s' (bytes "a@x") (bytes "pw") ≡ (
      s',
      ok (
          response jwt bcrypt 60 env
            (account jwt bcrypt 60 env (bytes "a@x") (0 ∷ bytes "pw"))
            true),
    ))
    × (password_auth jwt bcrypt 60 env s' (bytes "a@x") (bytes "no")
        ≡ (s', err (bytes "invalid password")))
password_auth-password_auth_example =
    password_auth-password_auth jwt bcrypt 60 bcrypt_laws env env nobody (bytes "a@x") (bytes "pw")
      (0 ∷ bytes "pw") (0 ∷ bytes "pw") (λ e. ground arith) (λ e. ground arith) unknown refl refl
      refl refl refl refl (bytes "no") (0 ∷ bytes "no") (λ e. ground arith) refl (ground arith)
