-- ===== src/Profile/Orders.antt =====
-- profileservice: a new user's profile, by the news of him and by his own update, in either order.
use shahboard.Base.{
  ℕ, true, false, [], ◌∷◌, ◌++◌, none, some, ◌≡◌, ◌∙◌, ap, refl, arith, lookup, insert,
  lookup-insert,
}
use shahboard.Types.{Bytes, bytes, ObjectId, dec_id}
use shahboard.Event.{Event, UserCreated, user_created}
use shahboard.Event.Publisher.{done, publish}
use shahboard.Auth.{JwtLib, BcryptLib, TokenInfo}
use shahboard.Auth.Accounts.{
  AuthEnv, AuthState, google_user, register, create, publish_created, get_by_email, has_id, unix,
}
use shahboard.Profile.{
  UserInfo, UpdateUserRequest, Profiles, ProfileEnv, email_taken, get_by_id, insert_user,
  create_user, updated_user, update_nx, user_info_of, handle_user_created, handle_user_event,
}

-- The profile that a user makes of himself.
abbrev own_user : ProfileEnv → ObjectId → Bytes → UpdateUserRequest → UserInfo
own_user env id email r = record {
  id = id;
  email = email;
  name = r.name;
  avatar_url = r.avatar_url;
  bio = r.bio;
  country = r.country;
  created_at = env.now;
  last_active_at = env.now;
}

module _ (env : ProfileEnv) (m : Profiles) (e : UserCreated) (up : env.write ≡ done) where
  handle_user_created_new :
      lookup dec_id e.user_id m ≡ none
      → email_taken m e.email ≡ false
      → handle_user_created env m e ≡ insert dec_id e.user_id (user_info_of env e) m
  unfolding handle_user_created create_user insert_user user_info_of
  handle_user_created_new new free = ground arith

  handle_user_created_old :
      (x : UserInfo) → lookup dec_id e.user_id m ≡ some x → handle_user_created env m e ≡ m
  unfolding handle_user_created create_user user_info_of
  handle_user_created_old x old = ground arith

  module _ (r : UpdateUserRequest) where
    update_nx_new :
        lookup dec_id e.user_id m ≡ none
        → email_taken m e.email ≡ false
        → (update_nx env m e.user_id e.email r).0
          ≡ insert dec_id e.user_id (own_user env e.user_id e.email r) m
    unfolding update_nx insert_user
    update_nx_new new free = ground arith

    update_nx_old :
        (x : UserInfo)
        → lookup dec_id e.user_id m ≡ some x
        → (update_nx env m e.user_id e.email r).0 ≡ insert dec_id e.user_id (updated_user x r) m
    unfolding update_nx
    update_nx_old x old = ground arith

found :
    (m : Profiles) (id : ObjectId) (x : UserInfo) → lookup dec_id id (insert dec_id id x m) ≡ some x
found m id x = ground (arith, lookup-insert dec_id id id x m)

module _ (env later : ProfileEnv) (m : Profiles) (e : UserCreated) (r : UpdateUserRequest) where
  -- A user who is new to the profile service is announced, and updates his profile himself. When
  -- the announcement comes first, the update is laid over it, field by field. When the update comes
  -- first, its profile stands alone: the announcement, with its name and picture, is dropped. In
  -- both orders the fields that the user has set are kept. The conditions are that the user and his
  -- email are new, and that the database answers.
  pub update_nx-handle_user_created :
      lookup dec_id e.user_id m ≡ none
      → email_taken m e.email ≡ false
      → env.write ≡ done
      → later.write ≡ done
      → (get_by_id (update_nx later (handle_user_created env m e) e.user_id e.email r).0 e.user_id
          ≡ some (updated_user (user_info_of env e) r))
        × (get_by_id (handle_user_created later (update_nx env m e.user_id e.email r).0 e) e.user_id
            ≡ some (own_user env e.user_id e.email r))
  unfolding get_by_id
  update_nx-handle_user_created new free w w' =
      let id = e.user_id in
      let made = user_info_of env e in
      let own = own_user env id e.email r in
      let m1 = insert dec_id id made m in
      let m2 = insert dec_id id own m in
      (
        rw
            (
              handle_user_created_new env m e w new free,
              update_nx_old later m1 e w' r made (found m id made),
            )
            (found m1 id (updated_user made r)),
        rw
            (
              update_nx_new env m e w r new free,
              handle_user_created_old later m2 e w' own (found m id own),
            )
            (found m id own),
      )

-- A user who signs in by Google for the first time is announced with what the profile service
-- needs: it then has his profile, with his email, name and picture. The conditions are that both
-- services do not know him, and that their databases and Kafka answer.
handle_user_event-google_user :
    (jwt : JwtLib) (bcrypt : BcryptLib) (expiration : ℕ) (env : AuthEnv) (s : AuthState)
    (t : TokenInfo) (penv : ProfileEnv) (m : Profiles)
    → get_by_email s.users t.email ≡ none
    → has_id s.users (env.fresh 0) ≡ false
    → env.reads ≡ true
    → env.write ≡ done
    → penv.write ≡ done
    → ((x : Event) → env.send x ≡ done)
    → lookup dec_id (env.fresh 0) m ≡ none
    → email_taken m t.email ≡ false
    → (x : Event) × ((google_user jwt bcrypt expiration env s t).0.log ≡ s.log ++ (x ∷ []))
      × (get_by_id (handle_user_event penv m x) (env.fresh 0)
          ≡ some (record {
            id = env.fresh 0;
            email = t.email;
            name = t.name;
            avatar_url = t.picture;
            bio = bytes "";
            country = bytes "";
            created_at = penv.now;
            last_active_at = penv.now;
          }))
unfolding google_user register create publish_created publish handle_user_event get_by_id
handle_user_event-google_user jwt bcrypt expiration env s t penv m nobody new reads w w' sent
      unknown free =
    let d : UserCreated = record {
      id = env.fresh 1;
      user_id = env.fresh 0;
      is_guest = false;
      email = t.email;
      name = t.name;
      picture = t.picture;
      timestamp = unix env;
    } in
    let told = sent (user_created d) in
    (
      user_created d,
      ground arith,
      ap (lookup dec_id (env.fresh 0)) (handle_user_created_new penv m d w' unknown free)
          ∙ found m (env.fresh 0) (user_info_of penv d)
          ∙ unfold user_info_of in refl,
    )
