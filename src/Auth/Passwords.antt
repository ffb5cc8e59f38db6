-- ===== src/Auth/Passwords.antt =====
-- authservice/service/auth.go: accounts, the ways into them, and their emails.
use shahboard.Base.{
  ℕ, true, false, List, [], ◌∷◌, ◌++◌, none, some, ◌≡◌, ◌≢◌, arith, is_some, if◌then◌else◌,
}
use shahboard.Types.{Bytes, bytes, same_id}
use shahboard.Event.Publisher.{done}
use shahboard.Auth.{JwtLib, BcryptLib, BcryptLaws, TokenInfo, ok, err}
use shahboard.Auth.Accounts.{
  Account, AuthEnv, AuthState, new_user, get_by_email, has_id, create, publish_created, register,
  response, password_auth, google_user,
}

get_by_email-append :
    (us : List Account) (u : Account) (email : Bytes)
    → get_by_email (us ++ (u ∷ [])) email ≡ (
        if is_some (get_by_email us email)
        then get_by_email us email
        else if same_id u.email email
        then some u
        else none)
unfolding get_by_email
get_by_email-append [] u email = ground arith
get_by_email-append (v ∷ us) u email = let ih = get_by_email-append us u email in ground arith

module _ (jwt : JwtLib) (bcrypt : BcryptLib) (expiration : ℕ) where
  -- What a new account is, and the state with it.
  abbrev pub account : AuthEnv → Bytes → Bytes → Account
  account env email hashed = new_user (env.fresh 0) env.now email hashed

  register-found :
      (env : AuthEnv) (s : AuthState) (email pass name picture : Bytes)
      → get_by_email s.users email ≡ none
      → has_id s.users (env.fresh 0) ≡ false
      → env.write ≡ done
      → ((register jwt bcrypt expiration env s email pass name picture).1
          ≡ some (account env email pass))
        × (get_by_email (register jwt bcrypt expiration env s email pass name picture).0.users email
            ≡ some (account env email pass))
  unfolding register create publish_created
  register-found env s email pass name picture e f w =
      (ground arith, ground (arith, get_by_email-append s.users (account env email pass) email))

  -- Signing up with an email that nobody has, and a password, makes an account; the same email and
  -- password then sign in to it, without making another, and a password that bcrypt does not match
  -- with the stored hash is refused. The conditions are that neither text is empty, that the
  -- identifier is new, and that the database and bcrypt answer.
  pub password_auth-password_auth :
      BcryptLaws bcrypt
      → (env later : AuthEnv) (s : AuthState) (email password h h' : Bytes) → email ≢ bytes ""
      → password ≢ bytes ""
      → get_by_email s.users email ≡ none
      → has_id s.users (env.fresh 0) ≡ false
      → env.write ≡ done
      → env.reads ≡ true
      → later.reads ≡ true
      → bcrypt.hash env.salt password ≡ some h
      → bcrypt.hash later.salt password ≡ some h'
      → (wrong x : Bytes) → wrong ≢ bytes ""
      → bcrypt.hash later.salt wrong ≡ some x
      → bcrypt.compare h wrong ≡ false
      → let s' = (password_auth jwt bcrypt expiration env s email password).0 in
        ((password_auth jwt bcrypt expiration env s email password).1
          ≡ ok (response jwt bcrypt expiration env (account env email h) false))
        × (password_auth jwt bcrypt expiration later s' email password
            ≡ (s', ok (response jwt bcrypt expiration later (account env email h) true)))
        × (password_auth jwt bcrypt expiration later s' email wrong
            ≡ (s', err (bytes "invalid password")))
  unfolding password_auth
  password_auth-password_auth laws env later s email password h h' ne np free new w r r' e e' wrong
        x nw ew cw =
      let (made, found) = register-found env s email h (bytes "") (bytes "") free new w in
      let same = laws.compare-hash env.salt password h e in
      (ground arith, ground arith, ground arith)

  -- An account that Google made has no password, so that no password opens it.
  pub password_auth-google_user :
      BcryptLaws bcrypt
      → (env later : AuthEnv) (s : AuthState) (t : TokenInfo) (password h : Bytes)
      → t.email ≢ bytes ""
      → password ≢ bytes ""
      → get_by_email s.users t.email ≡ none
      → has_id s.users (env.fresh 0) ≡ false
      → env.write ≡ done
      → env.reads ≡ true
      → later.reads ≡ true
      → bcrypt.hash later.salt password ≡ some h
      → let s' = (google_user jwt bcrypt expiration env s t).0 in
        password_auth jwt bcrypt expiration later s' t.email password
        ≡ (s', err (bytes "invalid password"))
  unfolding password_auth google_user
  password_auth-google_user laws env later s t password h ne np free new w r r' e =
      let (made, found) = register-found env s t.email (bytes "") t.name t.picture free new w in
      let refused = laws.compare_empty password in ground arith
