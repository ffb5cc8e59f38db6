-- ===== src/GameService/Creation.antt =====
-- `handleEventUsersMatched`: when a game is made, and what stands afterwards.
use shahboard.Base.{
  ◌≡◌, ◌≢◌, refl, true, false, ◌||◌, [], ◌∷◌, ◌++◌, none, some, lookup, insert, lookup-insert,
  arith,
}
use shahboard.Types.{ObjectId, dec_id, same_id, object_zero}
use shahboard.Chess.{ChessLib, ChessLaws}
use shahboard.Redis.{RedisLib, RedisLaws}
use shahboard.Event.{Event, UsersMatchCreated, game_created}
use shahboard.Event.Publisher.{done, publish_sent}
use shahboard.Game.{Game, GameSettings, new_game_of, is_player}
use shahboard.Game.Creation.{new_game_players}
use shahboard.GameService.Cache.{CacheValue, id_value, cached, game_key, player_game_key}
use shahboard.GameService.Manager.{Managed, check_by_player, get_game}
use shahboard.GameService.Endings.{keys-ne}
use shahboard.GameService.{Env, State, unix, handle_users_matched}

-- The player has a game among those managed here.
check_by_player-insert :
    {B : Type 0} (m : Managed B) (k p : ObjectId) (g : Game B)
    → same_id g.player1.id p || same_id g.player2.id p ≡ true
    → check_by_player (insert dec_id k g m) p ≡ true
unfolding check_by_player insert
check_by_player-insert [] k p g h = ground arith
check_by_player-insert ((j, x) ∷ m) k p g h = ground (arith, check_by_player-insert m k p g h)

module _ (chess : ChessLib) (redis : RedisLib CacheValue) (settings : GameSettings) (env : Env)
    (s : State chess.Board redis.Db) (d : UsersMatchCreated) where
  abbrev pub made : Game chess.Board
  made = new_game_of chess env.fmt_time d.user1 d.user2 settings (env.fresh 0) env.coin env.now

  -- The event that announces the game.
  abbrev pub announced : Event
  announced = game_created (record {
    id = object_zero;
    game_id = made.id;
    match_id = d.id;
    player1 = made.player1;
    player2 = made.player2;
    timestamp = unix env;
  })

  -- If one of the two users already plays a game that is managed here, nothing happens.
  pub handle_users_matched_busy :
      check_by_player s.games d.user1.id || check_by_player s.games d.user2.id ≡ true
      → handle_users_matched chess redis settings env s d ≡ s
  unfolding handle_users_matched
  handle_users_matched_busy busy = rw busy

  -- The service after it has made the game.
  abbrev served : State chess.Board redis.Db
  served = record s {
    games = insert dec_id made.id made s.games;
    db = redis.set (player_game_key made.player2.id) (id_value made.id) 0 (
        redis.set (player_game_key made.player1.id) (id_value made.id) 0
          (redis.set (game_key made.id) (cached chess redis made) 0 s.db));
    log = s.log ++ announced ∷ [];
  }

  made-id : made.id ≡ env.fresh 0
  unfolding new_game_of
  made-id = refl

  served-eq :
      RedisLaws redis
      → check_by_player s.games d.user1.id || check_by_player s.games d.user2.id ≡ false
      → lookup dec_id made.id s.games ≡ none
      → redis.get (game_key made.id) s.db ≡ none
      → env.redis ≡ done
      → ((e : Event) → env.send e ≡ done)
      → handle_users_matched chess redis settings env s d ≡ served
  unfolding handle_users_matched
  served-eq rlaws free fresh_here fresh_there up sent = ground (
    arith,
    rlaws.set_nx_new (game_key made.id) (cached chess redis made) s.db fresh_there,
    publish_sent env.send s.log (announced ∷ []) sent,
  )

  -- For two different free users, a fresh identifier, and Redis and Kafka answering, the game is
  -- made: it is managed under its identifier, the cache leads from both users to it, and one event
  -- announces it with the identifier of the match. Both users are then busy.
  pub handle_users_matched_free :
      ChessLaws chess
      → RedisLaws redis
      → d.user1.id ≢ d.user2.id
      → check_by_player s.games d.user1.id || check_by_player s.games d.user2.id ≡ false
      → lookup dec_id made.id s.games ≡ none
      → redis.get (game_key made.id) s.db ≡ none
      → env.redis ≡ done
      → ((e : Event) → env.send e ≡ done)
      → let s' = handle_users_matched chess redis settings env s d in
        (made.id ≡ env.fresh 0)
        × (get_game s'.games made.id ≡ some made)
        × (redis.get (player_game_key made.player1.id) s'.db ≡ some (id_value made.id))
        × (redis.get (player_game_key made.player2.id) s'.db ≡ some (id_value made.id))
        × (redis.get (game_key made.id) s'.db ≡ some (cached chess redis made))
        × (s'.log ≡ s.log ++ announced ∷ [])
        × (check_by_player s'.games d.user1.id ≡ true)
        × (check_by_player s'.games d.user2.id ≡ true)
  unfolding get_game
  handle_users_matched_free laws rlaws differ free fresh_here fresh_there up sent =
      let (_, p1, p2, _) =
        new_game_players chess laws env.fmt_time d.user1 d.user2 settings (env.fresh 0) env.coin
          env.now differ in
      let k1 = player_game_key made.player1.id in
      let k2 = player_game_key made.player2.id in
      let gk = game_key made.id in
      let v = id_value made.id in
      let db1 = redis.set gk (cached chess redis made) 0 s.db in
      let db2 = redis.set k1 v 0 db1 in
      rw (served-eq rlaws free fresh_here fresh_there up sent) (
        made-id,
        ground (arith, lookup-insert dec_id made.id made.id made s.games),
        ground (arith, rlaws.get-set k2 k1 v 0 db2, rlaws.get-set k1 k1 v 0 db1),
        ground (arith, rlaws.get-set k2 k2 v 0 db2),
        ground (
          arith,
          rlaws.get-set k2 gk v 0 db2,
          rlaws.get-set k1 gk v 0 db1,
          rlaws.get-set gk gk (cached chess redis made) 0 s.db,
          keys-ne made.id made.player1.id,
          keys-ne made.id made.player2.id,
        ),
        refl,
        check_by_player-insert s.games made.id d.user1.id made (unfold is_player in p1),
        check_by_player-insert s.games made.id d.user2.id made (unfold is_player in p2),
      )

pub check_by_player-lookup :
    {B : Type 0} (m : Managed B) (k p : ObjectId) (g : Game B)
    → lookup dec_id k m ≡ some g
    → same_id g.player1.id p || same_id g.player2.id p ≡ true
    → check_by_player m p ≡ true
unfolding check_by_player lookup
check_by_player-lookup [] k p g e h = cc
check_by_player-lookup ((j, x) ∷ m) k p g e h = ground (arith, check_by_player-lookup m k p g)
