-- ===== src/Delivery/LiveGame.antt =====
-- The live game of a player, from the cache of the game service to the gateway.
use shahboard.Base.{◌≡◌, ◌≢◌, ◌⊎◌, false, none, some, map, arith}
use shahboard.Types.{Bytes, ObjectId, is_zero}
use shahboard.Chess.{ChessLib}
use shahboard.Redis.{RedisLib, RedisLaws}
use shahboard.Event.Publisher.{done}
use shahboard.Tracker
use shahboard.Game.{Game, GameSettings, status_deactive}
use shahboard.Game.Encoding.{IsCanonical}
use shahboard.GameService.Cache.{CacheValue, game_key, add_game}
use shahboard.GameService.{State}
use shahboard.GameService.Queries.{GamePgnResponse, disconnections}
use shahboard.GameService.Answers.{IsReadable, get_live_game_pgn_by_user_id-add_game}
use shahboard.Delivery.Grpc.{pgn_message, get_user_live_game_pgn, user_game, kept_disconnection}

-- A game that is found arrives as it is.
user_game-pgn_message :
    (res : GamePgnResponse)
    → IsCanonical res.id
    → is_zero res.id ≡ false
    → user_game (some (pgn_message res))
      ≡ some (
          some (record {
            game_id = res.id;
            pgn = res.pgn;
            disconnections = map kept_disconnection res.players_disconnection;
          }))
unfolding user_game pgn_message is_zero
user_game-pgn_message res canonical real = ground arith

module _ (chess : ChessLib) (pgn_of fen_of : chess.Board → Bytes) (redis : RedisLib CacheValue)
    (settings : GameSettings) where
  open chess use {Board}
  open redis use {get}

  -- Once a game is added to the cache, the gateway that asks for the live game of one of its players
  -- gets its identifier and its moves, with the players who are absent. The conditions are that
  -- Redis and the connection between the services answer, that the identifiers are numbers as the
  -- services make them, that the game's is new to the cache and not zero, that the game is not
  -- deactivated, and that its text can be read back.
  pub user_game-add_game :
      RedisLaws redis
      → (s : State Board redis.Db) (g : Game Board) (b : Board) (p : ObjectId)
      → get (game_key g.id) s.db ≡ none
      → (p ≡ g.player1.id) ⊎ (p ≡ g.player2.id)
      → IsReadable chess pgn_of fen_of redis settings g b
      → IsCanonical p
      → is_zero g.id ≡ false
      → g.status ≢ status_deactive
      → user_game (
          get_user_live_game_pgn chess pgn_of fen_of redis settings done done
            (record s { db = (add_game chess redis done g s.db).0 })
            p)
        ≡ some (
            some (record {
              game_id = g.id;
              pgn = pgn_of b;
              disconnections = map kept_disconnection (disconnections (Tracker.get s.tracker g.id));
            }))
  unfolding get_user_live_game_pgn
  user_game-add_game laws s g b p free who readable canonical real active =
      rw (canonical, get_user_live_game_pgn)
        (rw
          (get_live_game_pgn_by_user_id-add_game chess pgn_of fen_of redis settings laws s g b p
            free who readable real active)
          (user_game-pgn_message
            (record {
              id = g.id;
              pgn = pgn_of b;
              players_disconnection = disconnections (Tracker.get s.tracker g.id);
            })
            readable.0 real))
