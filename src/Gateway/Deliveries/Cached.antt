-- ===== src/Gateway/Deliveries/Cached.antt =====
-- wsgateway/ws/session.go and cache.go: the game that the cache has for a session, after an event.
use shahboard.Base.{Option, some, ◌≡◌, arith, lookup, lookup-insert, if◌then◌else◌}
use shahboard.Types.{ObjectId, object_zero, dec_id, same_id}
use shahboard.Event.{GameCreated, GameEnded, game_created, game_ended}
use shahboard.Event.Publisher.{done}
use shahboard.RedisHashes.{HashLib, HashLaws}
use shahboard.Gateway.{Session, GatewayEnv, remove_view_games}
use shahboard.Gateway.SessionCache.{
  SessionInCache, user_key, in_cache, add_game_id_to_user_sessions,
  remove_game_id_from_user_sessions,
}
use shahboard.Gateway.Requests.{World}
use shahboard.Gateway.Deliveries.{session_event, session_game_created, session_game_ended}

module _ (redis : HashLib SessionInCache) (laws : HashLaws redis) (env : GatewayEnv) (s : Session)
    (w : World redis.Db) (up : env.redis ≡ done) where
  open redis use {Db, hgetall}

  -- The session's entry in the cache.
  abbrev pub entry : Db → Option SessionInCache
  entry db = lookup dec_id s.id (hgetall (user_key s.user_id) db)

  -- When Redis answers, the news of a game makes the session and its entry in the cache agree on
  -- that game. The end of any game clears the game of the entry; the session gives up its own game
  -- only if it is that one, and otherwise goes on to play without having a game in the cache.
  pub session_event-entry :
      ((d : GameCreated)
        → ((session_event redis env s w (game_created d)).0.play_game_id ≡ d.game_id)
          × (entry (session_event redis env s w (game_created d)).1.db
              ≡ some (in_cache s.user_id s.id d.game_id env.now)))
      × ((d : GameEnded)
          → ((session_event redis env s w (game_ended d)).0.play_game_id
              ≡ (if same_id d.game_id s.play_game_id then object_zero else s.play_game_id))
            × (entry (session_event redis env s w (game_ended d)).1.db
                ≡ some (in_cache s.user_id s.id object_zero env.now)))
  unfolding session_event session_game_created session_game_ended remove_view_games
      add_game_id_to_user_sessions remove_game_id_from_user_sessions
  session_event-entry =
      let key = user_key s.user_id in
      let value = λ (game : ObjectId). in_cache s.user_id s.id game env.now in
      let hset = λ (game : ObjectId). laws.hgetall-hset key key s.id (value game) w.db in
      let found =
        λ (game : ObjectId). lookup-insert dec_id s.id s.id (value game) (hgetall key w.db) in
      (
        λ d. (ground arith, ground (arith, hset d.game_id, found d.game_id)),
        λ d. (ground arith, ground (arith, hset object_zero, found object_zero)),
      )
