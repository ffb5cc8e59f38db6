-- ===== src/Auth/Accounts.antt =====
-- authservice/service/auth.go and repository/user.go: the users and their ways in.
use shahboard.Base.{
  ℕ, ◌/◌, pos, Bool, true, false, not, ◌&&◌, ◌||◌, List, [], ◌∷◌, ◌++◌, Option, none, some, is_some,
  if◌then◌else◌,
}
use shahboard.Types.{Bytes, bytes, ObjectId, same_id}
use shahboard.Event.{Event, user_created}
use shahboard.Event.Publisher.{Reply, publish, applied, answered}
use shahboard.Auth.{
  JwtLib, BcryptLib, Result, TokenInfo, ok, err, failed, panics, generate_jwt, parse_google_jwt,
  validate_google_jwt,
}

-- `entity.User`
pub record Account : Type 0 where
  pub id : ObjectId
  pub email : Bytes
  pub password : Bytes
  pub created_at : ℕ
  pub updated_at : ℕ

-- `NewUser`
abbrev pub new_user : ObjectId → ℕ → Bytes → Bytes → Account
new_user id now email pass = record {
  id = id;
  email = email;
  password = pass;
  created_at = now;
  updated_at = now;
}

-- `SELECT … WHERE email = $1`, the first row.
unfoldable pub get_by_email : List Account → Bytes → Option Account
get_by_email [] email = none
get_by_email (u ∷ us) email = if same_id u.email email then some u else get_by_email us email

abbrev pub has_id : List Account → ObjectId → Bool
has_id [] id = false
has_id (u ∷ us) id = if same_id u.id id then true else has_id us id

-- `INSERT`: identifiers and emails are unique. Was the row inserted?
unfoldable pub create : List Account → Account → List Account × Bool
unfolding get_by_email
create us u =
    if is_some (get_by_email us u.email) || has_id us u.id
    then (us, false)
    else (us ++ (u ∷ []), true)

-- The table, and the log of what is published.
pub record AuthState : Type 0 where
  pub users : List Account
  pub log : List Event

-- What a request meets: the clock in nanoseconds, the identifiers of `NewObjectId`, the salt of
-- bcrypt, the database on reading and on writing, and Kafka.
pub record AuthEnv : Type 0 where
  pub now : ℕ
  pub fresh : ℕ → ObjectId
  pub salt : ℕ
  pub reads : Bool
  pub write : Reply
  pub send : Event → Reply

pub record AuthResponse : Type 0 where
  pub id : Bytes
  pub email : Bytes
  pub jwt_token : Bytes
  pub exists : Bool

pub record GoogleAuthResponse : Type 0 where
  pub auth : AuthResponse
  pub name : Bytes
  pub picture : Bytes

abbrev pub unix : AuthEnv → ℕ
unix env = env.now / 1000000000

-- `Publish` of the new user; its error is only logged.
unfoldable pub publish_created :
    AuthEnv → AuthState → ObjectId → ObjectId → Bytes → Bool → Bytes → Bytes → AuthState
publish_created env s id user email guest name picture = record s {
  log =
      (publish env.send s.log (
        user_created (record {
          id = id;
          user_id = user;
          is_guest = guest;
          email = email;
          name = name;
          picture = picture;
          timestamp = unix env;
        })
        ∷ [])).0;
}

module _ (jwt : JwtLib) (bcrypt : BcryptLib) (expiration : ℕ) where
  abbrev token_of : AuthEnv → ObjectId → Bytes → Bool → Bytes
  token_of env id email guest =
      generate_jwt jwt expiration env.now
        (record { id = id; email = email; is_guest = guest; score = pos 0 })

  abbrev pub response : AuthEnv → Account → Bool → AuthResponse
  response env u exists = record {
    id = u.id;
    email = u.email;
    jwt_token = token_of env u.id u.email false;
    exists = exists;
  }

  -- `repo.Create` of a new user and, without an error, the news of him; `none` is the error.
  unfoldable pub register :
      AuthEnv → AuthState → Bytes → Bytes → Bytes → Bytes → AuthState × Option Account
  unfolding create publish_created
  register env s email pass name picture =
      let u = new_user (env.fresh 0) env.now email pass in
      let (users, inserted) = create s.users u in
      let s1 = record s { users = if applied env.write then users else s.users } in
      if answered env.write && inserted
      then (publish_created env s1 (env.fresh 1) u.id u.email false name picture, some u)
      else (s1, none)

  unfoldable pub password_auth :
      AuthEnv → AuthState → Bytes → Bytes → AuthState × Result AuthResponse
  unfolding get_by_email register
  password_auth env s email password =
      if same_id email (bytes "") || same_id password (bytes "")
      then (s, err (bytes "email and password are required"))
      else if not env.reads
      then (s, failed)
      else elim (bcrypt.hash env.salt password) [
        | none ↦ (s, failed)
        | some hashed ↦ elim (get_by_email s.users email) [
          | some u ↦
              if bcrypt.compare u.password password
              then (s, ok (response env u true))
              else (s, err (bytes "invalid password"))
          | none ↦
              let (s1, made) = register env s email hashed (bytes "") (bytes "") in
              elim made [ none ↦ (s1, failed) | some u ↦ (s1, ok (response env u false)) ]
        ]
      ]

  -- `GoogleAuth`, once the token is read.
  unfoldable pub google_user :
      AuthEnv → AuthState → TokenInfo → AuthState × Result GoogleAuthResponse
  unfolding get_by_email register
  google_user env s t =
      let answer : AuthResponse → GoogleAuthResponse =
        λ r. record { auth = r; name = t.name; picture = t.picture } in
      if not env.reads then (s, failed) else elim (get_by_email s.users t.email) [
        | some u ↦ (s, ok (answer (response env u true)))
        | none ↦
            let (s1, made) = register env s t.email (bytes "") t.name t.picture in
            elim made [ none ↦ (s1, failed) | some u ↦ (s1, ok (answer (response env u false))) ]
      ]

  -- `GoogleAuth` by what becomes of the token.
  unfoldable pub google_auth_by :
      AuthEnv → AuthState → Result TokenInfo → AuthState × Result GoogleAuthResponse
  unfolding google_user
  google_auth_by env s (ok t) = google_user env s t
  google_auth_by env s (err e) = (s, err e)
  google_auth_by env s failed = (s, failed)
  google_auth_by env s panics = (s, panics)

  unfoldable pub google_auth :
      Bool → Bytes → AuthEnv → AuthState → Bytes → AuthState × Result GoogleAuthResponse
  unfolding google_auth_by parse_google_jwt validate_google_jwt
  google_auth verify_pub_key client env s token = google_auth_by env s (
      if verify_pub_key
      then validate_google_jwt jwt client token
      else parse_google_jwt jwt (unix env) client token)

  -- `GuestLogin`: the identifier and the token.
  unfoldable pub guest_login : AuthEnv → AuthState → AuthState × Bytes × Bytes
  unfolding publish_created
  guest_login env s =
      let id = env.fresh 0 in
      let email = bytes "guest_" ++ id in
      (
        publish_created env s (env.fresh 1) id email true (bytes "") (bytes ""),
        id,
        token_of env id email true,
      )
