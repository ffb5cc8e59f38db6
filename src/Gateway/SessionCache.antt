-- ===== src/Gateway/SessionCache.antt =====
-- wsgateway/ws/cache.go: the sessions of each user, and the viewers of each game, in Redis. JSON is
-- left out: a field of a hash holds the record. `time.Now()` is an argument, in nanoseconds.
pub mod Caps
use shahboard.Base.{
  ℕ, suc, ◌-◌, Bool, true, false, not, List, [], ◌∷◌, ◌++◌, map, Option, none, some, length, leb,
  ltb, ◌==◌, if◌then◌else◌,
}
use shahboard.Types.{Bytes, bytes, ObjectId, object_zero, same_id}
use shahboard.ObjectIds.{parse_object_id}
use shahboard.Event.Publisher.{Reply, applied, answered}
use shahboard.RedisHashes.{HashLib}
use shahboard.Gateway.{Session}

pub record SessionInCache : Type 0 where
  pub session_id : ObjectId
  pub user_id : ObjectId
  pub game_id : ObjectId
  pub updated_at : ℕ

unfoldable pub user_key : ObjectId → Bytes
user_key user = bytes "user_sessions:" ++ user

unfoldable pub viewers_key : ObjectId → Bytes
viewers_key game = bytes "game_viewers:" ++ game

abbrev pub in_cache : ObjectId → ObjectId → ObjectId → ℕ → SessionInCache
in_cache user id game now = record {
  session_id = id;
  user_id = user;
  game_id = game;
  updated_at = now;
}

-- The loop of the two scripts that count: the sessions with a game.
unfoldable pub count_playing : List (Bytes × SessionInCache) → ℕ
count_playing [] = 0
count_playing ((k, v) ∷ l) =
    if same_id v.game_id (bytes "") then count_playing l else suc (count_playing l)

-- `strings.TrimPrefix(key, prefix)`
unfoldable pub trim_prefix : Bytes → Bytes → Bytes → Bytes
trim_prefix whole [] key = key
trim_prefix whole (p ∷ ps) [] = whole
trim_prefix whole (p ∷ ps) (c ∷ cs) = if p == c then trim_prefix whole ps cs else whole

abbrev game_of_key : Bytes → Option ObjectId
game_of_key key = parse_object_id (trim_prefix key (bytes "game_viewers:") key)

-- The users of a set that are identifiers.
unfoldable parse_users : List Bytes → List ObjectId
parse_users [] = []
parse_users (u ∷ us) = elim (parse_object_id u) [
  | none ↦ parse_users us
  | some id ↦ id ∷ parse_users us
]

module _ (redis : HashLib SessionInCache) where
  open redis use {Db, hgetall, hset, hdel, smembers, sadd, srem, del, keys}

  -- `addUserSessionScript`: was the session added?
  unfoldable pub add_user_session_script : Bytes → Bytes → SessionInCache → ℕ → Db → Db × Bool
  add_user_session_script key field value cap db =
      if leb cap (length (hgetall key db)) then (db, false) else (hset key field value db, true)

  -- `addUserSessionId`; `none` is its error.
  unfoldable pub add_user_session_id : Reply → ℕ → ObjectId → ObjectId → ℕ → Db → Db × Option Bool
  unfolding add_user_session_script
  add_user_session_id r cap user id now db =
      let (db', added) =
        add_user_session_script (user_key user) id (in_cache user id object_zero now) cap db in
      (if applied r then db' else db, if answered r then some added else none)

  -- `addGameIdToUserSessions`: is there no error?
  unfoldable pub add_game_id_to_user_sessions :
      Reply → ObjectId → ObjectId → ObjectId → ℕ → Db → Db × Bool
  add_game_id_to_user_sessions r user id game now db =
      (if applied r then hset (user_key user) id (in_cache user id game now) db else db, answered r)

  -- `removeGameIdFromUserSessions`: how many of the user's sessions still play; `none` is its error.
  unfoldable pub remove_game_id_from_user_sessions :
      Reply → ObjectId → ObjectId → ℕ → Db → Db × Option ℕ
  unfolding count_playing
  remove_game_id_from_user_sessions r user id now db =
      let db' = hset (user_key user) id (in_cache user id object_zero now) db in
      (
        if applied r then db' else db,
        if answered r then some (count_playing (hgetall (user_key user) db')) else none,
      )

  -- The pipeline of `updateSessionsTimestamp`.
  unfoldable set_all : List Session → ℕ → Db → Db
  set_all [] now db = db
  set_all (s ∷ ss) now db =
      set_all ss now
        (hset (user_key s.user_id) s.id (in_cache s.user_id s.id s.play_game_id now) db)

  -- `updateSessionsTimestamp`: is there no error?
  unfoldable pub update_sessions_timestamp : Reply → List Session → ℕ → Db → Db × Bool
  unfolding set_all
  update_sessions_timestamp r [] now db = (db, true)
  update_sessions_timestamp r (s ∷ ss) now db =
      (if applied r then set_all (s ∷ ss) now db else db, answered r)

  -- `deleteUserSession`: is there no error?
  unfoldable pub delete_user_session : Reply → ObjectId → ObjectId → Db → Db × Bool
  delete_user_session r user id db =
      (if applied r then hdel (user_key user) id db else db, answered r)

  -- `deleteUserGameSession`: how many of the user's sessions still play; `none` is its error.
  unfoldable pub delete_user_game_session : Reply → ObjectId → ObjectId → Db → Db × Option ℕ
  unfolding count_playing
  delete_user_game_session r user id db =
      let db' = hdel (user_key user) id db in
      (
        if applied r then db' else db,
        if answered r then some (count_playing (hgetall (user_key user) db')) else none,
      )

  -- The inner loop of `deleteExpiredSessions`: the fields of a key that are too old.
  unfoldable expired_fields : ℕ → Bytes → List (Bytes × SessionInCache) → List (Bytes × Bytes)
  expired_fields threshold key [] = []
  expired_fields threshold key ((f, v) ∷ l) =
      if ltb v.updated_at threshold
      then (key, f) ∷ expired_fields threshold key l
      else expired_fields threshold key l

  -- The outer loop; a key that cannot be read is passed over.
  unfoldable pub expired_sessions : ℕ → (Bytes → Bool) → List Bytes → Db → List (Bytes × Bytes)
  unfolding expired_fields
  expired_sessions threshold readable [] db = []
  expired_sessions threshold readable (k ∷ ks) db =
      if readable k
      then expired_fields threshold k (hgetall k db) ++ expired_sessions threshold readable ks db
      else expired_sessions threshold readable ks db

  unfoldable delete_fields : List (Bytes × Bytes) → Db → Db
  delete_fields [] db = db
  delete_fields ((k, f) ∷ l) db = delete_fields l (hdel k f db)

  -- `deleteExpiredSessions`: `listed` is the reply to `KEYS`, `r` that to the pipeline.
  unfoldable pub delete_expired_sessions : Reply → Reply → (Bytes → Bool) → ℕ → ℕ → Db → Db × Bool
  unfolding expired_sessions delete_fields
  delete_expired_sessions listed r readable now ttl db =
      let old = expired_sessions (now - ttl) readable (keys (bytes "user_sessions:") db) db in
      if not (answered listed)
      then (db, false)
      else if length old == 0
      then (db, true)
      else (if applied r then delete_fields old db else db, answered r)

  -- The pipeline of `addToGamesViwersList`.
  unfoldable add_viewers : List (ObjectId × List ObjectId) → Db → Db
  add_viewers [] db = db
  add_viewers ((g, us) ∷ l) db = add_viewers l (sadd (viewers_key g) us db)

  -- `addToGamesViwersList`: is there no error?
  unfoldable pub add_to_games_viewers_list :
      Reply → List (ObjectId × List ObjectId) → Db → Db × Bool
  unfolding add_viewers
  add_to_games_viewers_list r [] db = (db, true)
  add_to_games_viewers_list r (x ∷ l) db =
      (if applied r then add_viewers (x ∷ l) db else db, answered r)

  -- The pipeline of `removeFromGameViewersList`.
  unfoldable pub remove_viewer : ObjectId → List ObjectId → Db → Db
  remove_viewer user [] db = db
  remove_viewer user (g ∷ gs) db = remove_viewer user gs (srem (viewers_key g) user db)

  -- `removeFromGameViewersList`: is there no error?
  unfoldable pub remove_from_game_viewers_list : Reply → ObjectId → List ObjectId → Db → Db × Bool
  unfolding remove_viewer
  remove_from_game_viewers_list r user gs db =
      (if applied r then remove_viewer user gs db else db, answered r)

  -- `removeGamesViewersLists`: is there no error?
  unfoldable pub remove_games_viewers_lists : Reply → List ObjectId → Db → Db × Bool
  remove_games_viewers_lists r gs db =
      (if applied r then del (map viewers_key gs) db else db, answered r)

  -- The loop of `getAllGamesViewersList`; keys that cannot be read or are no game's are passed over.
  unfoldable all_viewers : (Bytes → Bool) → List Bytes → Db → List (ObjectId × List ObjectId)
  unfolding parse_users
  all_viewers readable [] db = []
  all_viewers readable (k ∷ ks) db =
      let rest = all_viewers readable ks db in
      if not (readable k)
      then rest
      else elim (game_of_key k) [ none ↦ rest | some g ↦ (g, parse_users (smembers k db)) ∷ rest ]

  -- `getAllGamesViewersList`; `none` is its error.
  unfoldable pub get_all_games_viewers_list :
      Reply → (Bytes → Bool) → Db → Option (List (ObjectId × List ObjectId))
  unfolding all_viewers
  get_all_games_viewers_list r readable db =
      if answered r then some (all_viewers readable (keys (bytes "game_viewers:") db) db) else none

  -- The loop of `countAllGamesViewers`.
  unfoldable viewer_counts : (Bytes → Bool) → List Bytes → Db → List (ObjectId × ℕ)
  viewer_counts readable [] db = []
  viewer_counts readable (k ∷ ks) db =
      let rest = viewer_counts readable ks db in
      if not (readable k)
      then rest
      else elim (game_of_key k) [ none ↦ rest | some g ↦ (g, length (smembers k db)) ∷ rest ]

  -- `countAllGamesViewers`; `none` is its error.
  unfoldable count_all_games_viewers : Reply → (Bytes → Bool) → Db → Option (List (ObjectId × ℕ))
  unfolding viewer_counts
  count_all_games_viewers r readable db =
      if answered r
      then some (viewer_counts readable (keys (bytes "game_viewers:") db) db)
      else none
