-- ===== src/Profile/Info.antt =====
-- GetUserInfo of profileservice/service/user/user.go, and profileservice/delivery/http/user.go: a
-- user's profile with his rating, and the requests that read and change it.
use shahboard.Base.{
  ℕ, ℤ, pos, ◌≡◌, Bool, false, Option, none, some, lookup-insert, holds, if◌then◌else◌, arith,
}
use shahboard.Types.{Bytes, bytes, ObjectId, User, dec_id, level_string}
use shahboard.ObjectIds.{parse_object_id}
use shahboard.Elo.{get_player_level}
use shahboard.Event.Publisher.{done}
use shahboard.Rating.{Rating, Tables, get_user_rating}
use shahboard.Profile.{
  UserInfo, UpdateUserRequest, Profiles, ProfileEnv, get_by_id, updated_user, update_nx,
  update_user,
}

-- `GetUserInfo`: `none` is its error, and the profile comes without a rating if that cannot be read.
unfoldable get_user_info :
    Bool → Bool → Profiles → Tables → ObjectId → Option (Option (UserInfo × Option Rating))
unfolding get_by_id get_user_rating
get_user_info read_fails rating_fails m db id = if read_fails then none else elim (get_by_id m id) [
  | none ↦ some none
  | some u ↦ some (some (u, if rating_fails then none else some (get_user_rating db id)))
]

-- `UserInfoResponse`
pub record UserInfoResponse : Type 0 where
  pub name : Bytes
  pub email : Bytes
  pub avatar_url : Bytes
  pub bio : Bytes
  pub country : Bytes
  pub score : ℤ
  pub level : Bytes
  pub created_at : ℕ
  pub last_active_at : ℕ

unfoldable pub response_of : UserInfo → Option Rating → UserInfoResponse
response_of u r = record {
  name = u.name;
  email = u.email;
  avatar_url = u.avatar_url;
  bio = u.bio;
  country = u.country;
  score = elim r [ none ↦ pos 0 | some x ↦ x.current_score ];
  level = elim r [ none ↦ bytes "" | some x ↦ level_string (get_player_level x.current_score) ];
  created_at = u.created_at;
  last_active_at = u.last_active_at;
}

pub data InfoAnswer : Type 0 where
  info : UserInfoResponse → InfoAnswer
  status : ℕ → InfoAnswer

-- `getUserInfo`
unfoldable pub get_user_info_request : Bool → Bool → Profiles → Tables → Bytes → InfoAnswer
unfolding get_user_info
get_user_info_request read_fails rating_fails m db param = elim (parse_object_id param) [
  | none ↦ status 400
  | some id ↦ elim (get_user_info read_fails rating_fails m db id) [
    | none ↦ status 500
    | some none ↦ status 404
    | some (some (u, r)) ↦ info (response_of u r)
  ]
]

-- `updateUserInfo`, for the user whom the middleware has set, if it has, and what the body holds, if
-- it can be read: the profiles afterwards and the status.
unfoldable pub update_user_info :
    ProfileEnv → Profiles → Option User → Option UpdateUserRequest → Profiles × ℕ
unfolding update_user
update_user_info env m none r = (m, 401)
update_user_info env m (some u) none = (m, 400)
update_user_info env m (some u) (some r) =
    let (m', written) = update_user env m u r in (m', if written then 200 else 500)

-- A user with a profile who changes it, the database answering, is told so, and whoever asks for his
-- profile afterwards gets the fields that he set, the others as they were, with the score and the
-- level of his rating; other users' answers stay the same.
get_user_info_request-update_user_info :
    (env : ProfileEnv) (m : Profiles) (db : Tables) (u : User) (r : UpdateUserRequest)
    (old : UserInfo) (param : Bytes) (id : ObjectId)
    → env.write ≡ done
    → get_by_id m u.id ≡ some old
    → parse_object_id param ≡ some id
    → let (m', code) = update_user_info env m (some u) (some r) in
      (code ≡ 200)
      × (get_user_info_request false false m' db param ≡ (
          if holds (dec_id u.id id)
          then info (response_of (updated_user old r) (some (get_user_rating db id)))
          else get_user_info_request false false m db param))
unfolding update_user_info get_user_info_request get_by_id update_nx
get_user_info_request-update_user_info env m db u r old param id up here parsed =
    ground (arith, lookup-insert dec_id u.id id (updated_user old r) m)
