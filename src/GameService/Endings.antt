-- ===== src/GameService/Endings.antt =====
-- How games end: what the cache, the managed games and the published events are afterwards.
use shahboard.Base.{
  ℕ, ◌/◌, ◌≡◌, ◌≢◌, true, false, List, [], ◌∷◌, ◌++◌, none, some, lookup-delete_all, arith,
  if◌then◌else◌, ◌∙◌, ap,
}
use shahboard.Types.{
  Bytes, ObjectId, dec_id, same_id, draw, no_outcome, white_won, black_won, bytes, GameOutcome,
}
use shahboard.Chess.{ChessLib, ChessLaws, draw_offer}
use shahboard.Redis.{RedisLib, RedisLaws}
use shahboard.Event.{Event, game_ended, DrawResponse, PlayerEvent}
use shahboard.Event.Publisher.{
  done, answered, publish, delivered, publish-log, publish_ok, publish_sent, answered-applied,
}
use shahboard.Game.{
  Game, GameSettings, status_active, status_deactive, is_player, white_player, accept_draw,
  resign_player, resign_with, deactivate, description_string, player_resigned, empty, encode,
}
use shahboard.Game.Creation.{IsValid}
use shahboard.Game.Draws.{accept_draw_agreed, draws_keep_status}
use shahboard.Game.Ending.{resign_loses}
use shahboard.GameService.Cache.{
  CacheValue, game_value, cached, deactived_ttl, game_key, player_game_key, deactivate_all,
  update_and_deactivate_game,
}
use shahboard.GameService.Manager.{Managed, get_game, store, remove_game}
use shahboard.GameService.{
  Env, State, publish_events, finish, active_game, accept_offer, handle_draw_response, resign_game,
  handle_player_resigned, ended_event,
}

abbrev first_byte : Bytes → ℕ
first_byte [] = 0
first_byte (c ∷ cs) = c

-- A game's key is no player's key.
pub keys-ne : (g p : ObjectId) → game_key g ≢ player_game_key p
unfolding game_key player_game_key
keys-ne g p e = omega (arith, ap first_byte e)

pub get_game-remove_game :
    {B : Type 0} (m : Managed B) (id : ObjectId) → get_game (remove_game m (id ∷ [])) id ≡ none
unfolding get_game remove_game
get_game-remove_game m id = ground (arith, lookup-delete_all dec_id (id ∷ []) id m)

module _ (chess : ChessLib) (redis : RedisLib CacheValue) (rlaws : RedisLaws redis)
    (settings : GameSettings) where
  -- The cache after a game has ended: it holds the game, and frees its players.
  abbrev pub IsCleared : Game chess.Board → redis.Db → Type 0
  IsCleared g db =
      (redis.get (game_key g.id) db ≡ some (game_value g.status (encode chess g)))
      × (redis.get (player_game_key g.player1.id) db ≡ none)
      × (redis.get (player_game_key g.player2.id) db ≡ none)

  deactivate-IsCleared :
      (g : Game chess.Board) (db : redis.Db) → IsCleared g (deactivate_all chess redis (g ∷ []) db)
  unfolding deactivate_all cached
  deactivate-IsCleared g db =
      let gk = game_key g.id in
      let k1 = player_game_key g.player1.id in
      let k2 = player_game_key g.player2.id in
      let db1 = redis.del k1 db in
      let db2 = redis.del k2 db1 in
      let v = cached chess redis g in
      (
        ground (arith, rlaws.get-set gk gk v deactived_ttl db2),
        ground (
          arith,
          rlaws.get-set gk k1 v deactived_ttl db2,
          rlaws.get-del k2 k1 db1,
          rlaws.get-del k1 k1 db,
          keys-ne g.id g.player1.id,
        ),
        ground (
          arith,
          rlaws.get-set gk k2 v deactived_ttl db2,
          rlaws.get-del k2 k2 db1,
          keys-ne g.id g.player2.id,
        ),
      )

  -- `finish`, which ends a game after a deciding move, a claimed draw or an agreed one. If Redis and
  -- Kafka answer, the game is off the instance, the cache is cleared and all events are out. If Redis
  -- reports an error, nothing is published and the game stays managed. If Kafka does, the cache is
  -- cleared but the game stays managed.
  pub finish_lem :
      (env : Env) (s : State chess.Board redis.Db) (g : Game chess.Board) (es : List Event)
      → let s' = finish chess redis settings env s g es in
        (answered env.redis ≡ true → IsCleared g s'.db × (s'.log ≡ s.log ++ delivered env.send es))
        × (answered env.redis ≡ false → (s'.log ≡ s.log) × (s'.games ≡ s.games))
        × (answered env.redis ≡ true
            → (publish env.send s.log es).1 ≡ true
            → (s'.log ≡ s.log ++ es) × (s'.games ≡ remove_game s.games (g.id ∷ [])))
        × ((publish env.send s.log es).1 ≡ false → s'.games ≡ s.games)
  unfolding finish update_and_deactivate_game publish_events
  finish_lem env s g es = (
    ground (
      arith,
      deactivate-IsCleared g s.db,
      answered-applied env.redis,
      publish-log env.send s.log es,
    ),
    ground arith,
    ground (arith, publish_ok env.send s.log es),
    ground arith,
  )

  resign_game_lem :
      (env : Env) (s : State chess.Board redis.Db) (d : PlayerEvent) (g : Game chess.Board)
      → (resign_player chess g d.player_id env.now).1 ≡ true
      → env.redis ≡ done
      → ((e : Event) → env.send e ≡ done)
      → let s' = resign_game chess redis settings env s d g in
        let g' = (resign_player chess g d.player_id env.now).0 in
        (get_game s'.games d.game_id ≡ none)
        × IsCleared g' s'.db
        × (s'.log
            ≡ s.log
              ++ ended_event chess redis settings env (env.fresh 0) g' player_resigned d.game_id
                ∷ [])
  unfolding resign_game update_and_deactivate_game publish_events get_game
  resign_game_lem env s d g resigned up sent =
      let g' = (resign_player chess g d.player_id env.now).0 in
      let e = ended_event chess redis settings env (env.fresh 0) g' player_resigned d.game_id in
      (
        ground (
          arith,
          lookup-delete_all dec_id (d.game_id ∷ []) d.game_id (store s.games d.game_id g'),
        ),
        ground (arith, deactivate-IsCleared g' s.db),
        ground (arith, publish_sent env.send s.log (e ∷ []) sent),
      )

  handle_player_resigned-eq :
      (env : Env) (s : State chess.Board redis.Db) (d : PlayerEvent) (g : Game chess.Board)
      → active_game chess redis settings s d.game_id ≡ some g
      → handle_player_resigned chess redis settings env s d
        ≡ resign_game chess redis settings env s d g
  unfolding handle_player_resigned
  handle_player_resigned-eq env s d g e = rw (e, handle_player_resigned)

  -- The event of a resignation, written out.
  resignation-event :
      (env : Env) (d : PlayerEvent) (g : Game chess.Board) {o : GameOutcome}
      → let g' = (resign_player chess g d.player_id env.now).0 in
        chess.outcome g'.board ≡ o
        → ended_event chess redis settings env (env.fresh 0) g' player_resigned d.game_id
          ≡ game_ended (record {
            id = env.fresh 0;
            game_id = d.game_id;
            player1 = g.player1;
            player2 = g.player2;
            outcome = o;
            desc = bytes "player_resigned";
            timestamp = env.now / 1000000000;
          })
  unfolding ended_event description_string resign_player resign_with deactivate
  resignation-event env d g e = ground (arith, e)

  -- In a valid game in progress that is managed here, a player's resignation, with Redis and Kafka
  -- answering, ends the game everywhere: the instance no longer manages it, both players are free in
  -- the cache, which holds the game as deactivated, and the one event that goes out names the
  -- opponent as the winner and resignation as the reason.
  pub handle_player_resigned_lem :
      (laws : ChessLaws chess) (env : Env) (s : State chess.Board redis.Db) (d : PlayerEvent)
      (g : Game chess.Board)
      → active_game chess redis settings s d.game_id ≡ some g
      → IsValid g
      → is_player chess g d.player_id ≡ true
      → chess.outcome g.board ≡ no_outcome
      → env.redis ≡ done
      → ((e : Event) → env.send e ≡ done)
      → let s' = handle_player_resigned chess redis settings env s d in
        let g' = (resign_player chess g d.player_id env.now).0 in
        (get_game s'.games d.game_id ≡ none)
        × IsCleared g' s'.db
        × (g'.status ≡ status_deactive)
        × (chess.outcome g'.board
            ≡ (if same_id (white_player chess g).id d.player_id then black_won else white_won))
        × (s'.log
            ≡ s.log
              ++ game_ended (record {
                id = env.fresh 0;
                game_id = d.game_id;
                player1 = g.player1;
                player2 = g.player2;
                outcome =
                    if same_id (white_player chess g).id d.player_id then black_won else white_won;
                desc = bytes "player_resigned";
                timestamp = env.now / 1000000000;
              })
                ∷ [])
  unfolding resign_player
  handle_player_resigned_lem laws env s d g managed v pl open_game up sent =
      let (resigned, status, _, outcome) =
        resign_loses chess laws g d.player_id player_resigned env.now v open_game pl in
      let (off, cleared, out) = resign_game_lem env s d g resigned up sent in
      let event = resignation-event env d g outcome in
      rw (handle_player_resigned-eq env s d g managed)
        (off, cleared, status, outcome, out ∙ ap (λ e. s.log ++ e ∷ []) event)

  handle_draw_response-eq :
      (env : Env) (s : State chess.Board redis.Db) (d : DrawResponse) (g : Game chess.Board)
      → active_game chess redis settings s d.game_id ≡ some g
      → d.accept ≡ true
      → handle_draw_response chess redis settings env s d
        ≡ accept_offer chess redis settings env s d g
  unfolding handle_draw_response
  handle_draw_response-eq env s d g e a = rw (e, handle_draw_response) (rw a)

  accept_offer-eq :
      (env : Env) (s : State chess.Board redis.Db) (d : DrawResponse) (g : Game chess.Board)
      → (accept_draw chess g d.player_id).1 ≡ true
      → let g' = (accept_draw chess g d.player_id).0 in
        accept_offer chess redis settings env s d g
        ≡ finish chess redis settings env
            (record s { games = store s.games d.game_id g' })
            g'
            (ended_event chess redis settings env (env.fresh 0) g' empty g'.id ∷ [])
  unfolding accept_offer
  accept_offer-eq env s d g agreed = rw agreed

  -- The event that ends a game with this outcome and no description.
  abbrev ended_with : Env → Game chess.Board → GameOutcome → Event
  ended_with env g o = game_ended (record {
    id = env.fresh 0;
    game_id = g.id;
    player1 = g.player1;
    player2 = g.player2;
    outcome = o;
    desc = bytes "";
    timestamp = env.now / 1000000000;
  })

  -- When a player accepts the opponent's offer in a valid game that is active, and Redis and Kafka
  -- answer, the game is off the instance, its players are free in the cache, and one event goes out
  -- that ends it with a draw. But the cache holds the game as active: nothing on this way
  -- deactivates it, as a resignation and a deciding move do.
  pub agreed_draw_cached_active :
      (laws : ChessLaws chess) (env : Env) (s : State chess.Board redis.Db) (d : DrawResponse)
      (g : Game chess.Board)
      → active_game chess redis settings s d.game_id ≡ some g
      → IsValid g
      → g.status ≡ status_active
      → d.accept ≡ true
      → (accept_draw chess g d.player_id).1 ≡ true
      → env.redis ≡ done
      → ((e : Event) → env.send e ≡ done)
      → let s' = handle_draw_response chess redis settings env s d in
        let g' = (accept_draw chess g d.player_id).0 in
        (get_game s'.games g'.id ≡ none)
        × IsCleared g' s'.db
        × (chess.outcome g'.board ≡ draw)
        × (s'.log
            ≡ s.log
              ++ game_ended (record {
                id = env.fresh 0;
                game_id = g'.id;
                player1 = g'.player1;
                player2 = g'.player2;
                outcome = draw;
                desc = bytes "";
                timestamp = env.now / 1000000000;
              })
                ∷ [])
        × (redis.get (game_key g'.id) s'.db ≡ some (game_value status_active (encode chess g')))
  unfolding cached ended_event description_string
  agreed_draw_cached_active laws env s d g managed v active accepts agreed up sent =
      let g' = (accept_draw chess g d.player_id).0 in
      let es = ended_event chess redis settings env (env.fresh 0) g' empty g'.id ∷ [] in
      let s1 = record s { games = store s.games d.game_id g' } in
      let answers : answered env.redis ≡ true = ground arith in
      let sent_all : (publish env.send s.log es).1 ≡ true =
        ap (λ x. x.1) (publish_sent env.send s.log es sent) in
      let spec = finish_lem env s1 g' es in
      let cleared = (spec.0 answers).0 in
      let ended = spec.2 answers sent_all in
      let (_, _, _, drawn, _) = accept_draw_agreed chess g laws d.player_id v agreed in
      let kept = (draws_keep_status chess g d.player_id draw_offer).0 ∙ active in
      rw (handle_draw_response-eq env s d g managed accepts, accept_offer-eq env s d g agreed)
        (
          rw ended.1 (get_game-remove_game (store s.games d.game_id g') g'.id),
          cleared,
          drawn,
          ended.0 ∙ ap (λ o. s.log ++ ended_with env g' o ∷ []) drawn,
          cleared.0 ∙ ground (arith, kept),
        )
