-- ===== src/GameService/Moving.antt =====
-- `handleEventGamePlayerMoved`: what a move event does to the service.
use shahboard.Base.{
  ◌/◌, ◌≡◌, ◌≢◌, refl, true, false, [], ◌∷◌, ◌++◌, none, some, lookup-insert, arith, if◌then◌else◌,
  ap,
}
use shahboard.Types.{bytes, dec_id, no_outcome}
use shahboard.Chess.{ChessLib}
use shahboard.Redis.{RedisLib, RedisLaws}
use shahboard.Event.{Event, MoveEvent, move_approved, game_ended}
use shahboard.Event.Publisher.{done, answered, publish, publish_sent}
use shahboard.Game.{
  Game, GameSettings, status_deactive, move, end_game, empty, description_string, encode,
}
use shahboard.GameService.Cache.{CacheValue, game_value, cached, game_key, update_game_move}
use shahboard.GameService.Manager.{get_game, store}
use shahboard.GameService.Endings.{IsCleared, finish_lem, get_game-remove_game}
use shahboard.GameService.{
  Env, State, publish_events, active_game, handle_player_moved, decided_move, ongoing_move,
  ended_event, approved, has_outcome,
}

module _ (chess : ChessLib) (redis : RedisLib CacheValue) (settings : GameSettings) (env : Env)
    (s : State chess.Board redis.Db) (d : MoveEvent) where
  module _ (g : Game chess.Board) (managed : active_game chess redis settings s d.game_id ≡ some g)
      (taken : (move chess g d.player_id d.move d.index env.now).1 ≡ none) where
    abbrev pub g1 : Game chess.Board
    g1 = (move chess g d.player_id d.move d.index env.now).0

    pub taken-eq : handle_player_moved chess redis settings env s d ≡ (
        if has_outcome chess redis settings g1
        then decided_move chess redis settings env s d g1
        else ongoing_move chess redis settings env s d g1)
    unfolding handle_player_moved
    taken-eq = rw (managed, handle_player_moved) (rw taken)

    -- In a game that is managed here and active, a move that is taken and leaves the game in
    -- progress, with Redis and Kafka answering, is written to the managed game and to the
    -- cache, and approved by one event.
    pub handle_player_moved_ongoing :
        RedisLaws redis
        → chess.outcome g1.board ≡ no_outcome
        → env.redis ≡ done
        → ((e : Event) → env.send e ≡ done)
        → let s' = handle_player_moved chess redis settings env s d in
          (get_game s'.games d.game_id ≡ some g1)
          × (redis.get (game_key g1.id) s'.db ≡ some (game_value g1.status (encode chess g1)))
          × (s'.log
              ≡ s.log
                ++ move_approved (record {
                  id = env.fresh 0;
                  game_id = d.game_id;
                  player_id = d.player_id;
                  move = d.move;
                  index = d.index;
                  timestamp = env.now / 1000000000;
                })
                  ∷ [])
    unfolding ongoing_move get_game update_game_move publish_events cached
    handle_player_moved_ongoing rlaws still up sent =
        rw (taken-eq, is_open)
          (
            ground (arith, lookup-insert dec_id d.game_id d.game_id g1 s.games),
            ground (
              arith,
              rlaws.get-set (game_key g1.id) (game_key g1.id) (cached chess redis g1) 0 s.db,
            ),
            ground (
              arith,
              publish_sent env.send s.log (approved chess redis settings env d ∷ []) sent,
            ),
          )
      where
        is_open : has_outcome chess redis settings g1 ≡ false
        is_open = ground arith

    -- In a game that is managed here and active, a move that is taken and decides the game,
    -- with Redis and Kafka answering, ends it: the instance no longer manages it, the cache
    -- holds it as deactivated and frees its players, and the approval of the move goes out
    -- first and the end of the game second, with the outcome on its board and no description.
    pub handle_player_moved_decided :
        (rlaws : RedisLaws redis)
        → chess.outcome g1.board ≢ no_outcome
        → env.redis ≡ done
        → ((e : Event) → env.send e ≡ done)
        → let s' = handle_player_moved chess redis settings env s d in
          let g2 = (end_game chess g1 env.now).0 in
          (get_game s'.games g2.id ≡ none)
          × IsCleared chess redis rlaws settings g2 s'.db
          × (g2.status ≡ status_deactive)
          × (s'.log
              ≡ s.log
                ++ move_approved (record {
                  id = env.fresh 0;
                  game_id = d.game_id;
                  player_id = d.player_id;
                  move = d.move;
                  index = d.index;
                  timestamp = env.now / 1000000000;
                })
                  ∷ game_ended (record {
                    id = env.fresh 1;
                    game_id = g2.id;
                    player1 = g2.player1;
                    player2 = g2.player2;
                    outcome = chess.outcome g2.board;
                    desc = bytes "";
                    timestamp = env.now / 1000000000;
                  })
                  ∷ [])
    unfolding decided_move end_game ended_event description_string
    handle_player_moved_decided rlaws over up sent =
        let g2 = (end_game chess g1 env.now).0 in
        let es =
          approved chess redis settings env d
          ∷ ended_event chess redis settings env (env.fresh 1) g2 empty g2.id
          ∷ [] in
        let s1 = record s { games = store s.games d.game_id g2 } in
        let spec = finish_lem chess redis rlaws settings env s1 g2 es in
        let answers : answered env.redis ≡ true = ground arith in
        let sent_all : (publish env.send s.log es).1 ≡ true =
          ap (λ x. x.1) (publish_sent env.send s.log es sent) in
        let ended = spec.2 answers sent_all in
        rw (taken-eq, is_over)
          (
            rw ended.1 (get_game-remove_game (store s.games d.game_id g2) g2.id),
            (spec.0 answers).0,
            refl,
            ended.0,
          )
      where
        is_over : has_outcome chess redis settings g1 ≡ true
        is_over = ground arith
