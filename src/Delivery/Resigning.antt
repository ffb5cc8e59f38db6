-- ===== src/Delivery/Resigning.antt =====
-- A request to resign, from the token to the game.
use shahboard.Base.{ℕ, ◌+◌, ◌*◌, ◌/◌, ◌≤◌, ◌≡◌, ◌≢◌, ◌++◌, ap, ◌∙◌, sym, some, pos, arith}
use shahboard.Types.{Bytes, bytes, dec_id, ObjectId, User}
use shahboard.Chess.{ChessLib}
use shahboard.Redis.{RedisLib}
use shahboard.Event.{PlayerEvent}
use shahboard.Event.Publisher.{Reply}
use shahboard.ObjectIds.{parse_object_id}
use shahboard.Game.{Game, GameSettings}
use shahboard.GameService.Cache.{CacheValue}
use shahboard.GameService.{Env, State, active_game, handle_player_resigned}
use shahboard.GameService.Queries.{resing_by_player}
use shahboard.GameService.Answers.{resing_by_player-handle_player_resigned}
use shahboard.Auth.{JwtLib, JwtLaws, user_claims, generate_jwt}
use shahboard.Auth.Tokens.{validate_jwt-generate_jwt}
use shahboard.Delivery.{
  parse_user_header, without_bearer, with_token, answered_with, resign_by_player, resign_request,
}

-- A token that the service made passes the middleware until it expires, as the user it was made for.
parse_user_header-generate_jwt :
    (lib : JwtLib) (expiration now later : ℕ) (u : User)
    → JwtLaws lib (user_claims expiration now u)
    → now / 1000000000 ≤ later
    → later ≤ (now + expiration * 1000000000) / 1000000000
    → generate_jwt lib expiration now u ≢ bytes ""
    → parse_user_header lib later (bytes "Bearer " ++ generate_jwt lib expiration now u)
      ≡ answered_with (record u { score = pos 0 })
unfolding parse_user_header without_bearer with_token dec_id
parse_user_header-generate_jwt lib expiration now later u laws a b full =
    ground (arith, validate_jwt-generate_jwt lib expiration now later u laws a b, full)

-- A user who asks to resign a game that the instance manages, active, with a token that the service
-- made for him and that has not expired, changes the state exactly as the event of his resignation
-- does. The token is not empty, and names him whatever else it says of him.
pub resign_request-handle_player_resigned :
    (chess : ChessLib) (pgn_of fen_of : chess.Board → Bytes) (redis : RedisLib CacheValue)
    (settings : GameSettings) (lib : JwtLib) (expiration now later : ℕ) (u : User) (env : Env)
    (read : Reply) (s : State chess.Board redis.Db) (param : Bytes) (d : PlayerEvent)
    (g : Game chess.Board)
    → JwtLaws lib (user_claims expiration now u)
    → now / 1000000000 ≤ later
    → later ≤ (now + expiration * 1000000000) / 1000000000
    → generate_jwt lib expiration now u ≢ bytes ""
    → parse_object_id param ≡ some d.game_id
    → d.player_id ≡ u.id
    → active_game chess redis settings s d.game_id ≡ some g
    → (resign_request chess pgn_of fen_of redis settings lib later env read s
        (bytes "Bearer " ++ generate_jwt lib expiration now u)
        param).0
      ≡ handle_player_resigned chess redis settings env s d
unfolding resign_request resign_by_player
resign_request-handle_player_resigned chess pgn_of fen_of redis settings lib expiration now later u
      env read s param d g laws a b full parsed mine managed =
    rw (parse_user_header-generate_jwt lib expiration now later u laws a b full, resign_request)
      (rw (parsed, resign_by_player)
        (ap
            (λ (p : ObjectId).
              (resing_by_player chess pgn_of fen_of redis settings env read s d.game_id p).0)
            (sym mine)
          ∙ resing_by_player-handle_player_resigned chess pgn_of fen_of redis settings env read s d
              g managed))
