-- ===== src/GameService.antt =====
-- gameservice/service/event.go and the periodic check of manager.go: the event handlers of the game
-- service over the state of one instance. A handler is one step: the events of a subscription are
-- handled one after another, and what other goroutines do between two statements of a handler is
-- left out. What the handler asks of the clock, the random numbers, Redis and Kafka is in `Env`.
pub mod Cache
pub mod Manager
pub mod Creation
pub mod Endings
pub mod Moving
pub mod Blocked
pub mod Invariant
pub mod Queries
pub mod Matched
pub mod Answers
use shahboard.Base.{
  ℕ, ◌+◌, ◌/◌, ℤ, pos, Bool, true, false, not, ◌||◌, List, [], ◌∷◌, ◌++◌, map, Option, none, some,
  lookup, if◌then◌else◌, ◌==◌, holds, length,
}
use shahboard.Types.{
  Bytes, bytes, ObjectId, object_zero, dec_id, User, Player, GameOutcome, no_outcome,
  GameOutcome-discrete,
}
use shahboard.Chess.{
  ChessLib, Method, draw_offer, threefold_repetition, fifty_move_rule, other_method,
}
use shahboard.Redis.{RedisLib}
use shahboard.Tracker
use shahboard.Tracker.{Tracker}
use shahboard.LiveGames
use shahboard.LiveGames.{LiveGames}
use shahboard.Event.{
  Event, game_created, player_moved, move_approved, player_joined, player_resigned, player_left,
  game_ended, claim_draw, draw_response, claim_approved, users_matched, GameCreated, MoveEvent,
  PlayerEvent, GameEnded, ClaimDraw, DrawResponse, UsersMatchCreated,
}
use shahboard.Event.Publisher.{Reply, publish}
use shahboard.Game
use shahboard.Game.{
  Game, GameSettings, EndDescription, empty, player_resigned as by_resignation,
  player_left as by_leaving, description_string, status_deactive, game_outcome,
}
use Cache.{CacheValue}
use Cache
use Manager.{Managed}
use Manager

-- What one run of a handler meets: the time in nanoseconds, the identifiers that `NewObjectId` makes
-- in turn, the random number, what becomes of the request to Redis, and of each message.
pub record Env : Type 0 where
  pub now : ℕ
  pub fresh : ℕ → ObjectId
  pub coin : ℕ
  pub fmt_time : ℕ → Bytes
  pub redis : Reply
  pub send : Event → Reply

abbrev pub unix : Env → ℕ
unix env = env.now / 1000000000

-- `Service`, with the log of what it has published.
pub record State (Board Db : Type 0) : Type 0 where
  pub games : Managed Board
  pub tracker : Tracker
  pub live : LiveGames
  pub db : Db
  pub log : List Event

module _ (chess : ChessLib) (redis : RedisLib CacheValue) (settings : GameSettings) where
  open chess use {Board}
  open redis use {Db}

  -- The event that ends a game.
  unfoldable pub ended_event : Env → ObjectId → Game Board → EndDescription → ObjectId → Event
  unfolding description_string
  ended_event env id g desc game_id = game_ended (record {
    id = id;
    game_id = game_id;
    player1 = g.player1;
    player2 = g.player2;
    outcome = game_outcome chess g;
    desc = description_string desc;
    timestamp = unix env;
  })

  -- Publishes; did all messages get through?
  unfoldable pub publish_events : Env → State Board Db → List Event → State Board Db × Bool
  publish_events env s es =
      let (log, ok) = publish env.send s.log es in (record s { log = log }, ok)

  -- `updateAndDeactivateGame`, `Publish` and `removeGame`, in the order of the handlers that end a
  -- game after publishing; an error ends the handler.
  unfoldable pub finish : Env → State Board Db → Game Board → List Event → State Board Db
  unfolding Cache.update_and_deactivate_game Manager.remove_game publish_events
  finish env s g es =
      let (db, written) = Cache.update_and_deactivate_game chess redis env.redis (g ∷ []) s.db in
      let s1 = record s { db = db } in
      if not written
      then s1
      else let (s2, published) = publish_events env s1 es in
        if not published then s2 else record s2 { games = Manager.remove_game s2.games (g.id ∷ []) }

  unfoldable pub handle_users_matched : Env → State Board Db → UsersMatchCreated → State Board Db
  unfolding Manager.check_by_player Cache.add_game Manager.add_game publish_events
  handle_users_matched env s d =
      if Manager.check_by_player s.games d.user1.id || Manager.check_by_player s.games d.user2.id
      then s
      else let g =
          Game.new_game_of chess env.fmt_time d.user1 d.user2 settings (env.fresh 0) env.coin
            env.now in
        let (db, added) = Cache.add_game chess redis env.redis g s.db in
        let s1 = record s { db = db } in
        elim added [
          | none ↦ s1
          | some false ↦ s1
          | some true ↦
              let (games, new) = Manager.add_game s1.games g in
              if not new
              then s1
              else (publish_events env (record s1 { games = games })
                  (game_created (record {
                    id = object_zero;
                    game_id = g.id;
                    match_id = d.id;
                    player1 = g.player1;
                    player2 = g.player2;
                    timestamp = unix env;
                  })
                    ∷ [])).0
        ]

  -- The game of an event, unless it is not managed here or is deactivated.
  unfoldable pub active_game : State Board Db → ObjectId → Option (Game Board)
  unfolding Manager.get_game
  active_game s id = elim (Manager.get_game s.games id) [
    | none ↦ none
    | some g ↦ if g.status == status_deactive then none else some g
  ]

  abbrev pub has_outcome : Game Board → Bool
  has_outcome g = not (holds (GameOutcome-discrete (game_outcome chess g) no_outcome))

  abbrev pub approved : Env → MoveEvent → Event
  approved env d = move_approved (record {
    id = env.fresh 0;
    game_id = d.game_id;
    player_id = d.player_id;
    move = d.move;
    index = d.index;
    timestamp = unix env;
  })

  -- The move decided the game.
  unfoldable pub decided_move : Env → State Board Db → MoveEvent → Game Board → State Board Db
  unfolding Manager.store Game.end_game finish ended_event
  decided_move env s d g1 =
      let (g2, ended) = Game.end_game chess g1 env.now in
      let s1 = record s { games = Manager.store s.games d.game_id g2 } in
      if not ended
      then s1
      else finish env s1 g2 (approved env d ∷ ended_event env (env.fresh 1) g2 empty g2.id ∷ [])

  -- The game goes on.
  unfoldable pub ongoing_move : Env → State Board Db → MoveEvent → Game Board → State Board Db
  unfolding Manager.store Cache.update_game_move publish_events
  ongoing_move env s d g1 =
      let s1 = record s { games = Manager.store s.games d.game_id g1 } in
      let (db, written) = Cache.update_game_move chess redis env.redis g1 s1.db in
      let s2 = record s1 { db = db } in
      if not written then s2 else (publish_events env s2 (approved env d ∷ [])).0

  unfoldable pub handle_player_moved : Env → State Board Db → MoveEvent → State Board Db
  unfolding active_game Game.move decided_move ongoing_move
  handle_player_moved env s d = elim (active_game s d.game_id) [
    | none ↦ s
    | some g ↦
        let (g1, err) = Game.move chess g d.player_id d.move d.index env.now in
        elim err [
          | some e ↦ s
          | none ↦ if has_outcome g1 then decided_move env s d g1 else ongoing_move env s d g1
        ]
  ]

  abbrev claim_approval : Env → ClaimDraw → Event
  claim_approval env d = claim_approved (record {
    id = env.fresh 0;
    claim_id = d.id;
    game_id = d.game_id;
    player_id = d.player_id;
    method = d.method;
    timestamp = unix env;
  })

  -- The case `DrawOffer`.
  unfoldable handle_offer : Env → State Board Db → ClaimDraw → Game Board → State Board Db
  unfolding Manager.store Game.offer_draw publish_events
  handle_offer env s d g =
      let (g1, offered) = Game.offer_draw chess g d.player_id env.now in
      let s1 = record s { games = Manager.store s.games d.game_id g1 } in
      if not offered then s1 else (publish_events env s1 (claim_approval env d ∷ [])).0

  -- The cases `ThreefoldRepetition` and `FiftyMoveRule`.
  unfoldable pub handle_claim : Env → State Board Db → ClaimDraw → Game Board → State Board Db
  unfolding Manager.store Game.claim_draw finish ended_event
  handle_claim env s d g =
      let (g1, granted) = Game.claim_draw chess g d.player_id d.method in
      let s1 = record s { games = Manager.store s.games d.game_id g1 } in
      if not granted
      then s1
      else finish env s1 g1
          (claim_approval env d ∷ ended_event env (env.fresh 1) g1 empty g1.id ∷ [])

  unfoldable pub claim_by_method :
      Method → Env → State Board Db → ClaimDraw → Game Board → State Board Db
  unfolding handle_offer handle_claim
  claim_by_method draw_offer env s d g = handle_offer env s d g
  claim_by_method threefold_repetition env s d g = handle_claim env s d g
  claim_by_method fifty_move_rule env s d g = handle_claim env s d g
  claim_by_method other_method env s d g = s

  unfoldable pub handle_claim_draw : Env → State Board Db → ClaimDraw → State Board Db
  unfolding active_game claim_by_method
  handle_claim_draw env s d = elim (active_game s d.game_id) [
    | none ↦ s
    | some g ↦ claim_by_method d.method env s d g
  ]

  unfoldable pub accept_offer : Env → State Board Db → DrawResponse → Game Board → State Board Db
  unfolding Manager.store Game.accept_draw finish ended_event
  accept_offer env s d g =
      let (g1, agreed) = Game.accept_draw chess g d.player_id in
      let s1 = record s { games = Manager.store s.games d.game_id g1 } in
      if not agreed
      then s1
      else finish env s1 g1 (ended_event env (env.fresh 0) g1 empty g1.id ∷ [])

  unfoldable pub handle_draw_response : Env → State Board Db → DrawResponse → State Board Db
  unfolding active_game Manager.store Game.reject_draw accept_offer
  handle_draw_response env s d = elim (active_game s d.game_id) [
    | none ↦ s
    | some g ↦
        if not d.accept
        then record s {
          games = Manager.store s.games d.game_id (Game.reject_draw chess g d.player_id).0;
        }
        else accept_offer env s d g
  ]

  -- Unlike the other handlers this one takes the game off before it publishes, and an error of the
  -- publisher does not end it.
  unfoldable pub resign_game : Env → State Board Db → PlayerEvent → Game Board → State Board Db
  unfolding Manager.store Manager.remove_game Cache.update_and_deactivate_game publish_events
  resign_game env s d g =
      let (g1, resigned) = Game.resign_player chess g d.player_id env.now in
      let s1 = record s { games = Manager.store s.games d.game_id g1 } in
      let (db, written) = Cache.update_and_deactivate_game chess redis env.redis (g1 ∷ []) s1.db in
      if not resigned
      then s1
      else if not written
      then record s1 { db = db }
      else (publish_events env
          (record s1 { games = Manager.remove_game s1.games (d.game_id ∷ []); db = db })
          (ended_event env (env.fresh 0) g1 by_resignation d.game_id ∷ [])).0

  unfoldable pub handle_player_resigned : Env → State Board Db → PlayerEvent → State Board Db
  unfolding active_game resign_game
  handle_player_resigned env s d = elim (active_game s d.game_id) [
    | none ↦ s
    | some g ↦ resign_game env s d g
  ]

  unfoldable handle_player_left : Env → State Board Db → PlayerEvent → State Board Db
  unfolding Tracker.add
  handle_player_left env s d = record s {
    tracker = Tracker.add s.tracker d.game_id d.player_id env.now;
  }

  unfoldable handle_player_joined : Env → State Board Db → PlayerEvent → State Board Db
  unfolding Tracker.remove
  handle_player_joined env s d = record s {
    tracker = Tracker.remove s.tracker d.game_id d.player_id;
  }

  -- live.go
  unfoldable handle_game_created : State Board Db → GameCreated → State Board Db
  unfolding LiveGames.add
  handle_game_created s d = record s {
    live = LiveGames.add s.live (record {
      game_id = d.game_id;
      player1 = d.player1;
      player2 = d.player2;
      started_at = d.timestamp;
      viewers_number = pos 0;
      priority_score = pos 0;
    });
  }

  -- live.go
  unfoldable pub handle_game_ended : State Board Db → GameEnded → State Board Db
  unfolding LiveGames.remove Tracker.remove_game
  handle_game_ended s d = record s {
    live = LiveGames.remove s.live d.game_id;
    tracker = Tracker.remove_game s.tracker d.game_id;
  }

  -- `handleEvents`: the topic of each event selects its handler; other events are ignored.
  unfoldable pub handle_event : Env → State Board Db → Event → State Board Db
  unfolding handle_users_matched handle_player_moved handle_claim_draw handle_draw_response
      handle_player_resigned handle_player_left handle_player_joined handle_game_created
      handle_game_ended
  handle_event env s (game_created d) = handle_game_created s d
  handle_event env s (player_moved d) = handle_player_moved env s d
  handle_event env s (claim_draw d) = handle_claim_draw env s d
  handle_event env s (draw_response d) = handle_draw_response env s d
  handle_event env s (player_resigned d) = handle_player_resigned env s d
  handle_event env s (player_left d) = handle_player_left env s d
  handle_event env s (player_joined d) = handle_player_joined env s d
  handle_event env s (game_ended d) = handle_game_ended s d
  handle_event env s (users_matched d) = handle_users_matched env s d
  handle_event env s e = s

  -- The loop of `checkPlayersConnection` over the managed games: the games with those that were
  -- ended in them, and the ended games.
  unfoldable pub end_left_games :
      Env → List (ObjectId × ObjectId) → Managed Board → Managed Board × List (Game Board)
  unfolding Game.leave
  end_left_games env need [] = ([], [])
  end_left_games env need ((k, g) ∷ m) =
      let (m', ended) = end_left_games env need m in
      elim (lookup dec_id g.id need) [
        | none ↦ ((k, g) ∷ m', ended)
        | some p ↦
            let (g1, left) = Game.leave chess g p env.now in
            if g.status == status_deactive
            then ((k, g) ∷ m', ended)
            else if not left
            then ((k, g1) ∷ m', ended)
            else ((k, g1) ∷ m', g1 ∷ ended)
      ]

  -- `checkPlayersConnection`. Errors of the cache and of the publisher are only logged.
  unfoldable pub check_players_connection : Env → State Board Db → State Board Db
  unfolding Tracker.games_needs_to_remove end_left_games Cache.update_and_deactivate_game
      publish_events ended_event Manager.remove_game
  check_players_connection env s =
      let (tracker, need) = Tracker.games_needs_to_remove s.tracker env.now in
      let (games, ended) = end_left_games env need s.games in
      let s1 = record s { tracker = tracker; games = games } in
      let db =
        if length ended == 0
        then s1.db
        else (Cache.update_and_deactivate_game chess redis env.redis ended s1.db).0 in
      let ended_events = map (λ g. ended_event env object_zero g by_leaving g.id) ended in
      let (s2, ok) = publish_events env (record s1 { db = db }) ended_events in
      record s2 { games = Manager.remove_game s2.games (map (λ g. g.id) ended) }
