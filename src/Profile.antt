-- ===== src/Profile.antt =====
-- profileservice/service/user/user.go, profileservice/entity/user.go and
-- profileservice/repository/user.go: the profiles of the users. The table is an association list by
-- identifier, with its unique column of emails; a transaction is one step.
pub mod Orders
pub mod Info
use shahboard.Base.{
  ℕ, Bool, true, false, not, ◌&&◌, ◌||◌, List, [], ◌∷◌, ◌++◌, Option, none, some, is_some, lookup,
  insert, if◌then◌else◌,
}
use shahboard.Types.{Bytes, bytes, ObjectId, User, dec_id, same_id}
use shahboard.Event.{Event, UserCreated, UserLogged, user_created, user_logged_in}
use shahboard.Event.Publisher.{Reply, applied, answered}

pub record UserInfo : Type 0 where
  pub id : ObjectId
  pub email : Bytes
  pub name : Bytes
  pub avatar_url : Bytes
  pub bio : Bytes
  pub country : Bytes
  pub created_at : ℕ
  pub last_active_at : ℕ

pub record UpdateUserRequest : Type 0 where
  pub name : Bytes
  pub avatar_url : Bytes
  pub bio : Bytes
  pub country : Bytes

abbrev pub Profiles : Type 0
Profiles = List (ObjectId × UserInfo)

-- What a call meets: the clock, and the database.
pub record ProfileEnv : Type 0 where
  pub now : ℕ
  pub write : Reply

unfoldable pub email_taken : Profiles → Bytes → Bool
email_taken [] email = false
email_taken ((id, u) ∷ m) email = if same_id u.email email then true else email_taken m email

-- `GetByID`
unfoldable pub get_by_id : Profiles → ObjectId → Option UserInfo
get_by_id m id = lookup dec_id id m

-- `INSERT`; the email must be new. Did it succeed?
unfoldable pub insert_user : Profiles → UserInfo → Profiles × Bool
unfolding email_taken
insert_user m u = if email_taken m u.email then (m, false) else (insert dec_id u.id u m, true)

-- `Create`, which leaves a row that is there: is there no error?
unfoldable pub create_user : ProfileEnv → Profiles → UserInfo → Profiles × Bool
unfolding insert_user
create_user env m u =
    let (m', inserted) = if is_some (lookup dec_id u.id m) then (m, true) else insert_user m u in
    (if applied env.write then m' else m, answered env.write && inserted)

abbrev or_old : Bytes → Bytes → Bytes
or_old new old = if same_id new (bytes "") then old else new

-- The fields that `UPDATE` sets: those of the request that are not empty.
unfoldable pub updated_user : UserInfo → UpdateUserRequest → UserInfo
updated_user u r = record u {
  name = or_old r.name u.name;
  avatar_url = or_old r.avatar_url u.avatar_url;
  bio = or_old r.bio u.bio;
  country = or_old r.country u.country;
}

-- `UpdateNX`: is there no error?
unfoldable pub update_nx :
    ProfileEnv → Profiles → ObjectId → Bytes → UpdateUserRequest → Profiles × Bool
unfolding insert_user updated_user
update_nx env m id email r = elim (lookup dec_id id m) [
  | none ↦
      let new : UserInfo = record {
        id = id;
        email = email;
        name = r.name;
        avatar_url = r.avatar_url;
        bio = r.bio;
        country = r.country;
        created_at = env.now;
        last_active_at = env.now;
      } in
      let (m', inserted) = insert_user m new in
      (if applied env.write then m' else m, answered env.write && inserted)
  | some u ↦
      (if applied env.write then insert dec_id id (updated_user u r) m else m, answered env.write)
]

-- `UpdateUser`
unfoldable pub update_user : ProfileEnv → Profiles → User → UpdateUserRequest → Profiles × Bool
unfolding update_nx
update_user env m u r = update_nx env m u.id u.email r

unfoldable update_last_active_at : ProfileEnv → Profiles → ObjectId → Profiles
update_last_active_at env m id = elim (lookup dec_id id m) [
  | none ↦ m
  | some u ↦
      if applied env.write then insert dec_id id (record u { last_active_at = env.now }) m else m
]

-- The `UserInfo` of `handleUserCreated` and `wrapUserInfoForGuest`.
unfoldable pub user_info_of : ProfileEnv → UserCreated → UserInfo
user_info_of env e = record {
  id = e.user_id;
  email = e.email;
  name = if e.is_guest then bytes "guest_" ++ e.user_id else e.name;
  avatar_url = if e.is_guest then bytes "" else e.picture;
  bio = bytes "";
  country = bytes "";
  created_at = env.now;
  last_active_at = env.now;
}

unfoldable pub handle_user_created : ProfileEnv → Profiles → UserCreated → Profiles
unfolding create_user user_info_of
handle_user_created env m e = (create_user env m (user_info_of env e)).0

-- `handleEvent`
unfoldable pub handle_user_event : ProfileEnv → Profiles → Event → Profiles
unfolding handle_user_created update_last_active_at
handle_user_event env m (user_created e) = handle_user_created env m e
handle_user_event env m (user_logged_in e) = update_last_active_at env m e.user_id
handle_user_event env m e = m
