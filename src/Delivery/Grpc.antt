-- ===== src/Delivery/Grpc.antt =====
-- gameservice/delivery/grpc/server.go and wsgateway/services/game: the game service over gRPC, and
-- the gateway's client of it. The transport hands over what it is given, or fails.
use shahboard.Base.{◌||◌, List, [], Option, none, some, map, if◌then◌else◌}
use shahboard.Types.{Bytes, bytes, ObjectId, object_zero, same_id, is_zero}
use shahboard.Chess.{ChessLib}
use shahboard.Redis.{RedisLib}
use shahboard.Event.Publisher.{Reply}
use shahboard.ObjectIds.{parse_object_id}
use shahboard.Game.{GameSettings}
use shahboard.GameService.Cache.{CacheValue, get_game_id_by_user_id}
use shahboard.GameService.{State}
use shahboard.GameService.Queries.{
  PlayerDisconnection, GamePgnResponse, get_game_pgn, get_live_game_pgn_by_user_id,
}
use shahboard.Gateway
use shahboard.Gateway.{GamePgn}

-- `GetLiveGamePGNResponse`
pub record PgnMessage : Type 0 where
  pub game_id : Bytes
  pub pgn : Bytes
  pub players_disconnection : List PlayerDisconnection

-- The message that a found game is sent as; no game is the zero identifier alone.
unfoldable pub pgn_message : GamePgnResponse → PgnMessage
pgn_message res =
    if is_zero res.id
    then record { game_id = object_zero; pgn = bytes ""; players_disconnection = [] }
    else record {
      game_id = res.id;
      pgn = res.pgn;
      players_disconnection = res.players_disconnection;
    }

abbrev sent_as : Option GamePgnResponse → Option PgnMessage
sent_as none = none
sent_as (some res) = some (pgn_message res)

module _ (chess : ChessLib) (pgn_of fen_of : chess.Board → Bytes) (redis : RedisLib CacheValue)
    (settings : GameSettings) where
  open chess use {Board}
  open redis use {Db}

  -- `GetUserLiveGameID`
  unfoldable get_user_live_game_id : Reply → State Board Db → Bytes → Option Bytes
  unfolding get_game_id_by_user_id
  get_user_live_game_id r s user = elim (parse_object_id user) [
    | none ↦ none
    | some id ↦ elim (get_game_id_by_user_id chess redis r id s.db) [
      | none ↦ none
      | some game ↦ some (if is_zero game then object_zero else game)
    ]
  ]

  -- `GetUserLiveGamePGN`; `none` is its error.
  unfoldable pub get_user_live_game_pgn : Reply → Reply → State Board Db → Bytes → Option PgnMessage
  get_user_live_game_pgn r r' s user = elim (parse_object_id user) [
    | none ↦ none
    | some id ↦ sent_as (get_live_game_pgn_by_user_id chess pgn_of fen_of redis settings r r' s id)
  ]

  -- `GetLiveGamePGN`; `none` is its error.
  unfoldable get_live_game_pgn : Reply → State Board Db → Bytes → Option PgnMessage
  get_live_game_pgn r s game = elim (parse_object_id game) [
    | none ↦ none
    | some id ↦ sent_as (get_game_pgn chess pgn_of fen_of redis settings r s id)
  ]

-- A disconnection, as the gateway keeps it.
abbrev pub kept_disconnection : PlayerDisconnection → Gateway.PlayerDisconnection
kept_disconnection d = record { player_id = d.player_id; disconnected_at = d.disconnected_at }

abbrev pgn_of_message : ObjectId → PgnMessage → GamePgn
pgn_of_message id m = record {
  game_id = id;
  pgn = m.pgn;
  disconnections = map kept_disconnection m.players_disconnection;
}

-- The gateway's `GetUserLiveGamePGN`: the outer `none` is its error, the inner one no game. An
-- identifier that cannot be parsed is no game either.
unfoldable pub user_game : Option PgnMessage → Option (Option GamePgn)
user_game none = none
user_game (some m) =
    if same_id m.game_id object_zero || same_id m.game_id (bytes "")
    then some none
    else elim (parse_object_id m.game_id) [
      | none ↦ some none
      | some id ↦ some (some (pgn_of_message id m))
    ]

-- The gateway's `GetLiveGamePGN`, of the game that it has asked for
unfoldable pub live_game : ObjectId → Option PgnMessage → Option (Option GamePgn)
live_game id none = none
live_game id (some m) =
    if same_id m.game_id object_zero || same_id m.game_id (bytes "")
    then some none
    else some (some (pgn_of_message id m))
