-- ===== src/Delivery.antt =====
-- pkg/middleware/user.go and token.go, and gameservice/delivery/http: who a request comes from, and
-- what the game service answers to it. A header that is absent is "". A handler that panics has its
-- connection closed without an answer.
pub mod Grpc
pub mod Resigning
pub mod LiveGame
use shahboard.Base.{
  ℕ, suc, zero, Bool, true, false, not, List, [], ◌∷◌, Option, none, some, ltb, length,
  if◌then◌else◌,
}
use shahboard.Types.{Bytes, bytes, ObjectId, same_id, User}
use shahboard.Chess.{ChessLib}
use shahboard.Redis.{RedisLib}
use shahboard.Event.Publisher.{Reply}
use shahboard.ObjectIds.{parse_object_id}
use shahboard.Game.{Game, GameSettings}
use shahboard.GameService.Cache.{CacheValue, get_game_id_by_user_id}
use shahboard.GameService.{Env, State}
use shahboard.GameService.Queries.{
  GamePgnResponse, get_game_pgn, get_live_game_pgn_by_user_id, resing_by_player,
}
use shahboard.Auth.{JwtLib, Result, ok, err, failed, panics, validate_jwt}

pub data HttpAnswer (A : Type 0) : Type 0 where
  answered_with : A → HttpAnswer A
  code : ℕ → HttpAnswer A
  dropped : HttpAnswer A

-- `s[7:]`; `none` is the panic of a shorter string.
unfoldable pub without_bearer : Bytes → Option Bytes
without_bearer (b0 ∷ b1 ∷ b2 ∷ b3 ∷ b4 ∷ b5 ∷ b6 ∷ rest) = some rest
without_bearer s = none

-- A token of a request: the user whom it names, or the status of the refusal.
unfoldable pub with_token : JwtLib → ℕ → Bytes → HttpAnswer User
unfolding validate_jwt
with_token lib now token = elim (validate_jwt lib now token) [
  | ok u ↦ answered_with u
  | err t ↦ code 401
  | failed ↦ code 401
  | panics ↦ dropped
]

-- `ParsUserHeader`, on the header `Authorization`. Its first seven bytes are cut off unseen.
unfoldable pub parse_user_header : JwtLib → ℕ → Bytes → HttpAnswer User
unfolding without_bearer with_token
parse_user_header lib now header =
    if same_id header (bytes "") then code 401 else elim (without_bearer header) [
      | none ↦ dropped
      | some token ↦ if same_id token (bytes "") then code 401 else with_token lib now token
    ]

-- `ParseQueryToken`
unfoldable parse_query_token : JwtLib → ℕ → Bytes → HttpAnswer User
unfolding with_token
parse_query_token lib now token =
    if same_id token (bytes "") then code 400 else with_token lib now token

-- An answer of the service, or its error.
abbrev answer_of : {A : Type 0} → Option A → HttpAnswer A
answer_of none = code 500
answer_of (some a) = answered_with a

module _ (chess : ChessLib) (pgn_of fen_of : chess.Board → Bytes) (redis : RedisLib CacheValue)
    (settings : GameSettings) where
  open chess use {Board}
  open redis use {Db}

  -- `getLiveGames`; `r` and `r'` are what becomes of the requests to Redis.
  unfoldable get_live_games :
      Reply → Reply → State Board Db → Bytes → Bytes → HttpAnswer GamePgnResponse
  unfolding get_live_game_pgn_by_user_id get_game_pgn
  get_live_games r r' s user game =
      if not (same_id user (bytes ""))
      then elim (parse_object_id user) [
        | none ↦ code 400
        | some id ↦
            answer_of (get_live_game_pgn_by_user_id chess pgn_of fen_of redis settings r r' s id)
      ]
      else if not (same_id game (bytes ""))
      then elim (parse_object_id game) [
        | none ↦ code 400
        | some id ↦ answer_of (get_game_pgn chess pgn_of fen_of redis settings r s id)
      ]
      else code 400

  -- `getLiveGameByUserId`
  unfoldable get_live_game_by_user_id : Reply → State Board Db → Bytes → HttpAnswer ObjectId
  unfolding get_game_id_by_user_id
  get_live_game_by_user_id r s user = elim (parse_object_id user) [
    | none ↦ code 400
    | some id ↦ answer_of (get_game_id_by_user_id chess redis r id s.db)
  ]

  -- `resignByPlayer`, for the user whom the middleware has set.
  unfoldable pub resign_by_player :
      Env → Reply → State Board Db → Bytes → User → State Board Db × HttpAnswer Bytes
  resign_by_player env read s game u = elim (parse_object_id game) [
    | none ↦ (s, code 400)
    | some id ↦
        let (s', done) = resing_by_player chess pgn_of fen_of redis settings env read s id u.id in
        (s', if done then answered_with (bytes "ok") else code 500)
  ]

  -- The route of `resignByPlayer`: the middleware, then the handler.
  unfoldable pub resign_request :
      JwtLib → ℕ → Env → Reply → State Board Db → Bytes → Bytes → State Board Db × HttpAnswer Bytes
  unfolding parse_user_header
  resign_request lib now env read s header game = elim (parse_user_header lib now header) [
    | answered_with u ↦ resign_by_player env read s game u
    | code n ↦ (s, code n)
    | dropped ↦ (s, dropped)
  ]
