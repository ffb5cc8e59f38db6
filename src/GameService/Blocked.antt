-- ===== src/GameService/Blocked.antt =====
-- What is left of a game whose end cannot be published.
use shahboard.Base.{
  ◌≡◌, ◌≢◌, true, false, [], ◌∷◌, none, some, lookup, lookup-insert, arith, subst, ◌∙◌,
}
use shahboard.Types.{dec_id, no_outcome}
use shahboard.Chess.{ChessLib}
use shahboard.Redis.{RedisLib, RedisLaws}
use shahboard.Event.{Event, MoveEvent, UsersMatchCreated}
use shahboard.Event.Publisher.{answered, publish}
use shahboard.Game.{Game, GameSettings, is_player, move, end_game, empty}
use shahboard.Game.Histories.{call, call-same, moves, ends}
use shahboard.GameService.Cache.{CacheValue, player_game_key}
use shahboard.GameService.Manager.{get_game, store}
use shahboard.GameService.Endings.{finish_lem}
use shahboard.GameService.Moving.{g1, taken-eq}
use shahboard.GameService.Creation.{check_by_player-lookup, handle_users_matched_busy}
use shahboard.GameService.{
  Env, State, active_game, handle_player_moved, handle_users_matched, decided_move, ended_event,
  approved, has_outcome, finish,
}

module _ (chess : ChessLib) (redis : RedisLib CacheValue) (rlaws : RedisLaws redis)
    (settings : GameSettings) (env later : Env) (s : State chess.Board redis.Db) (d : MoveEvent)
    (g : Game chess.Board) (managed : active_game chess redis settings s d.game_id ≡ some g)
    (taken : (move chess g d.player_id d.move d.index env.now).1 ≡ none) where
  -- The game after the move, ended.
  abbrev pub over : Game chess.Board
  over = (end_game chess (g1 chess redis settings env s d g managed taken) env.now).0

  over-same : (over.player1 ≡ g.player1) × (over.player2 ≡ g.player2)
  unfolding call
  over-same =
      let (p, q, _) = call-same chess g (moves d.player_id d.move d.index env.now) in
      let h = g1 chess redis settings env s d g managed taken in
      let (p', q', _) = call-same chess h (ends env.now) in (p' ∙ p, q' ∙ q)

  -- When a move decides a game that is managed here and active, and Redis answers but Kafka does
  -- not, the cache frees the players of the game but the instance keeps it: a match event that
  -- follows, whose first user is one of its players, makes no game.
  pub unpublished_end_blocks :
      chess.outcome (move chess g d.player_id d.move d.index env.now).0.board ≢ no_outcome
      → answered env.redis ≡ true
      → ((e : Event) → answered (env.send e) ≡ false)
      → (m : UsersMatchCreated) → is_player chess g m.user1.id ≡ true
      → let s' = handle_player_moved chess redis settings env s d in
        (get_game s'.games d.game_id ≡ some over)
        × (handle_users_matched chess redis settings later s' m ≡ s')
        × (redis.get (player_game_key g.player1.id) s'.db ≡ none)
        × (redis.get (player_game_key g.player2.id) s'.db ≡ none)
  unfolding decided_move get_game store is_player end_game publish
  unpublished_end_blocks decided answers mute m pl =
      let h = g1 chess redis settings env s d g managed taken in
      let es =
        approved chess redis settings env d
        ∷ ended_event chess redis settings env (env.fresh 1) over empty over.id
        ∷ [] in
      let s1 = record s { games = store s.games d.game_id over } in
      let spec = finish_lem chess redis rlaws settings env s1 over es in
      let after = finish chess redis settings env s1 over es in
      let failed : (publish env.send s.log es).1 ≡ false =
        ground (arith, mute (approved chess redis settings env d)) in
      let kept = spec.3 failed in
      let cleared = (spec.0 answers).0 in
      let there : lookup dec_id d.game_id s1.games ≡ some over =
        ground (arith, lookup-insert dec_id d.game_id d.game_id over s.games) in
      let busy =
        check_by_player-lookup s1.games d.game_id m.user1.id over there
          (ground (arith, over-same)) in
      rw (taken-eq chess redis settings env s d g managed taken, is_over decided)
        (
          rw kept there,
          handle_users_matched_busy chess redis settings later after m (rw kept (rw busy)),
          subst (λ p. redis.get (player_game_key p.id) after.db ≡ none) over-same.0 cleared.1,
          subst (λ p. redis.get (player_game_key p.id) after.db ≡ none) over-same.1 cleared.2,
        )
    where
      is_over :
          chess.outcome (move chess g d.player_id d.move d.index env.now).0.board ≢ no_outcome
          → has_outcome chess redis settings (g1 chess redis settings env s d g managed taken)
            ≡ true
      is_over decided = ground arith
