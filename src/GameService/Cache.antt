-- ===== src/GameService/Cache.antt =====
-- gameservice/service/cache.go: the writes of the game cache, and the reads of the players' keys.
-- What JSON makes of the two fields of a cached game is kept as the two fields.
use shahboard.Base.{
  ℕ, Bool, true, false, not, List, [], ◌∷◌, ◌++◌, Option, none, some, if◌then◌else◌, ltb,
}
use shahboard.Types.{Bytes, bytes, ObjectId, object_zero, same_id}
use shahboard.ObjectIds.{parse_object_id}
use shahboard.Chess.{ChessLib}
use shahboard.Redis.{RedisLib}
use shahboard.Event.Publisher.{Reply, applied, answered}
use shahboard.Game.{Game, GameStatus, encode}

-- The values of the cache: a game (`inCacheGame`) or the identifier of one.
pub data CacheValue : Type 0 where
  game_value : GameStatus → Bytes → CacheValue
  id_value : ObjectId → CacheValue

unfoldable pub player_game_key : ObjectId → Bytes
player_game_key p = bytes "player_game:" ++ p

unfoldable pub game_key : ObjectId → Bytes
game_key g = bytes "game:" ++ g

-- `15*time.Minute` of `NewGameService`, in nanoseconds.
abbrev pub deactived_ttl : ℕ
deactived_ttl = 900000000000

module _ (chess : ChessLib) (redis : RedisLib CacheValue) where
  open redis use {Db, get, set, del, set_nx, expire}

  -- The `inCacheGame` of a game.
  unfoldable pub cached : Game chess.Board → CacheValue
  cached g = game_value g.status (encode chess g)

  -- The script of `addGame`, whose expiration is 0: was the game added?
  unfoldable pub add_game_script : Game chess.Board → ℕ → Db → Db × Bool
  unfolding cached
  add_game_script g expiration db =
      let (db1, success) = set_nx (game_key g.id) (cached g) db in
      if not success
      then (db1, false)
      else let db2 = if ltb 0 expiration then expire (game_key g.id) expiration db1 else db1 in
        (
          set (player_game_key g.player2.id) (id_value g.id) 0
              (set (player_game_key g.player1.id) (id_value g.id) 0 db2),
          true,
        )

  -- `addGame`; `none` is its error.
  unfoldable pub add_game : Reply → Game chess.Board → Db → Db × Option Bool
  unfolding add_game_script
  add_game r g db =
      let (db', added) = add_game_script g 0 db in
      (if applied r then db' else db, if answered r then some added else none)

  -- `playerHasGame`; `none` is its error.
  unfoldable player_has_game : Reply → ObjectId → Db → Option Bool
  player_has_game r p db = if not (answered r) then none else elim (get (player_game_key p) db) [
    | none ↦ some false
    | some (game_value s t) ↦ some true
    | some (id_value id) ↦ some (not (same_id id (bytes "")))
  ]

  -- `updateGameMove`: is there no error?
  unfoldable pub update_game_move : Reply → Game chess.Board → Db → Db × Bool
  unfolding cached
  update_game_move r g db =
      (if applied r then set (game_key g.id) (cached g) 0 db else db, answered r)

  -- The transaction of `updateAndDeactivateGame`.
  unfoldable pub deactivate_all : List (Game chess.Board) → Db → Db
  unfolding cached
  deactivate_all [] db = db
  deactivate_all (g ∷ gs) db = deactivate_all gs (
      set (game_key g.id) (cached g) deactived_ttl
        (del (player_game_key g.player2.id) (del (player_game_key g.player1.id) db)))

  -- `updateAndDeactivateGame`: is there no error?
  unfoldable pub update_and_deactivate_game : Reply → List (Game chess.Board) → Db → Db × Bool
  unfolding deactivate_all
  update_and_deactivate_game r gs db = (if applied r then deactivate_all gs db else db, answered r)

  -- `getGameIdByUserID`; `none` is its error. A game's own value is no identifier.
  unfoldable pub get_game_id_by_user_id : Reply → ObjectId → Db → Option ObjectId
  get_game_id_by_user_id r user db =
      if not (answered r) then none else elim (get (player_game_key user) db) [
        | none ↦ some object_zero
        | some (game_value s t) ↦ none
        | some (id_value id) ↦ parse_object_id id
      ]
