-- ===== src/GameService/Queries.antt =====
-- gameservice/service/methods.go, and the reads of cache.go: what the game service answers.
use shahboard.Base.{
  ℕ, ◌/◌, pos, Bool, true, false, not, List, [], ◌∷◌, map, Option, none, some, ◌==◌, lookup,
  if◌then◌else◌,
}
use shahboard.Types.{Bytes, bytes, ObjectId, object_zero, dec_id, is_zero}
use shahboard.Chess.{ChessLib}
use shahboard.Redis.{RedisLib}
use shahboard.Event.Publisher.{Reply, answered}
use shahboard.Tracker
use shahboard.Tracker.{Players}
use shahboard.LiveGames
use shahboard.LiveGames.{LiveGame}
use shahboard.Game
use shahboard.Game.{Game, GameSettings, status_deactive, player_resigned}
use shahboard.Game.Encoding.{decode}
use shahboard.GameService.Cache.{
  CacheValue, game_value, id_value, game_key, get_game_id_by_user_id, update_and_deactivate_game,
}
use shahboard.GameService.Manager
use shahboard.GameService.{Env, State, ended_event, publish_events}

pub record PlayerDisconnection : Type 0 where
  pub player_id : ObjectId
  pub disconnected_at : ℕ

pub record GamePgnResponse : Type 0 where
  pub id : ObjectId
  pub pgn : Bytes
  pub players_disconnection : List PlayerDisconnection

pub record LiveGameData : Type 0 where
  pub live_game : LiveGame
  pub players_disconnection : List PlayerDisconnection

-- The players of a game that are absent, with Unix times.
unfoldable pub disconnections : Players → List PlayerDisconnection
disconnections [] = []
disconnections ((p, t) ∷ l) =
    record { player_id = p; disconnected_at = t / 1000000000 } ∷ disconnections l

abbrev no_game : GamePgnResponse
no_game = record { id = object_zero; pgn = bytes ""; players_disconnection = [] }

-- `pgn_of` is `String` of the chess library, and `fen_of` its `FEN`.
module _ (chess : ChessLib) (pgn_of fen_of : chess.Board → Bytes) (redis : RedisLib CacheValue)
    (settings : GameSettings) where
  open chess use {Board, new_game}
  open redis use {Db, get}

  -- `&entity.Game{}`: its times are the zero time, written 0, and its board stands for a nil pointer.
  abbrev pub blank : Game Board
  blank = record {
    id = bytes "";
    status = 0;
    player1 = record { id = bytes ""; score = pos 0; color = 0 };
    player2 = record { id = bytes ""; score = pos 0; color = 0 };
    setting = record { time = 0 };
    board = new_game;
    offer = none;
    created_at = 0;
    updated_at = 0;
  }

  -- `getGameByID` of the cache: the outer `none` is its error, the inner one no game.
  unfoldable pub cached_game : Reply → ObjectId → Db → Option (Option (Game Board))
  unfolding decode
  cached_game r id db = if not (answered r) then none else elim (get (game_key id) db) [
    | none ↦ some none
    | some (id_value v) ↦ none
    | some (game_value s t) ↦ elim (decode chess blank t) [ none ↦ none | some g ↦ some (some g) ]
  ]

  -- The loop of `getGamesByID` over what `MGET` gives; what does not decode is passed over.
  unfoldable readable_games : List ObjectId → Db → List (Game Board)
  unfolding decode
  readable_games [] db = []
  readable_games (id ∷ ids) db =
      let rest = readable_games ids db in
      elim (get (game_key id) db) [
        | none ↦ rest
        | some (id_value v) ↦ rest
        | some (game_value s t) ↦ elim (decode chess blank t) [ none ↦ rest | some g ↦ g ∷ rest ]
      ]

  -- `GetGamesFEN`; `none` is its error. A map, as its entries.
  unfoldable get_games_fen : Reply → List ObjectId → Db → Option (List (ObjectId × Bytes))
  unfolding readable_games
  get_games_fen r ids db =
      if answered r
      then some (map (λ (g : Game Board). (g.id, fen_of g.board)) (readable_games ids db))
      else none

  unfoldable pub get_game_pgn : Reply → State Board Db → ObjectId → Option GamePgnResponse
  unfolding cached_game Tracker.get disconnections
  get_game_pgn r s id = elim (cached_game r id s.db) [
    | none ↦ none
    | some none ↦ some no_game
    | some (some g) ↦
        if g.status == status_deactive
        then some no_game
        else some (record {
          id = g.id;
          pgn = pgn_of g.board;
          players_disconnection = disconnections (Tracker.get s.tracker g.id);
        })
  ]

  -- `GetLiveGamePgnByUserID`: `r` and `r'` are what becomes of its two requests to Redis.
  unfoldable pub get_live_game_pgn_by_user_id :
      Reply → Reply → State Board Db → ObjectId → Option GamePgnResponse
  unfolding get_game_id_by_user_id get_game_pgn
  get_live_game_pgn_by_user_id r r' s user = elim (get_game_id_by_user_id chess redis r user s.db) [
    | none ↦ none
    | some id ↦ if is_zero id then some no_game else get_game_pgn r' s id
  ]

  -- `GetLiveGamesData`: the list and the total.
  unfoldable get_live_games_data : State Board Db → List LiveGameData × ℕ
  unfolding LiveGames.get_live_games_sorted Tracker.get_all disconnections
  get_live_games_data s =
      let (list, total) = LiveGames.get_live_games_sorted s.live in
      let connections = Tracker.get_all s.tracker in
      let data_of : LiveGame → LiveGameData = λ l. record {
        live_game = l;
        players_disconnection = elim (lookup dec_id l.game_id connections) [
          | none ↦ []
          | some c ↦ disconnections c
        ];
      } in
      (map data_of list, total)

  -- `getGameByID` of the service; a game of the cache is not managed here.
  unfoldable pub get_game_by_id : Reply → State Board Db → ObjectId → Option (Option (Game Board))
  unfolding Manager.get_game cached_game
  get_game_by_id r s id = elim (Manager.get_game s.games id) [
    | some g ↦ some (some g)
    | none ↦ cached_game r id s.db
  ]

  -- A change of a game through its pointer, which reaches the managed game if there is one.
  abbrev changed : State Board Db → ObjectId → Game Board → State Board Db
  changed s id g = elim (Manager.get_game s.games id) [
    | none ↦ s
    | some old ↦ record s { games = Manager.store s.games id g }
  ]

  -- `ResingByPlayer`: is there no error? `read` is what becomes of its read of the cache.
  unfoldable pub resing_by_player :
      Env → Reply → State Board Db → ObjectId → ObjectId → State Board Db × Bool
  unfolding get_game_by_id Game.resign_player update_and_deactivate_game Manager.remove_game
      publish_events ended_event Manager.get_game Manager.store
  resing_by_player env read s id player = elim (get_game_by_id read s id) [
    | none ↦ (s, false)
    | some none ↦ (s, false)
    | some (some g) ↦
        let (g1, resigned) = Game.resign_player chess g player env.now in
        let s1 = changed s id g1 in
        let (db, written) = update_and_deactivate_game chess redis env.redis (g1 ∷ []) s.db in
        let s2 = record s1 { db = db } in
        let s3 = record s2 { games = Manager.remove_game s2.games (id ∷ []) } in
        if g.status == status_deactive
        then (s, false)
        else if not resigned
        then (s1, false)
        else if not written
        then (s2, false)
        else (
          (publish_events chess redis settings env s3
              (ended_event chess redis settings env (env.fresh 0) g1 player_resigned id ∷ [])).0,
          true,
        )
  ]
