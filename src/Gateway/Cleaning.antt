-- ===== src/Gateway/Cleaning.antt =====
-- wsgateway/ws/cleaner.go, manage.go and `Stop` of session.go: how sessions end, and the two
-- periodic tasks. Batches, which only bundle removals, are left out.
pub mod Leaving
pub mod Stopping
use shahboard.Base.{
  ℕ, ◌+◌, ◌-◌, Bool, true, false, not, List, [], ◌∷◌, ◌++◌, map, Option, none, some, lookup, insert,
  length, ltb, ◌==◌, keep_if, if◌then◌else◌,
}
use shahboard.Types.{Bytes, bytes, ObjectId, object_zero, dec_id, same_id, is_zero}
use shahboard.Event.{Event, player_left}
use shahboard.Event.Publisher.{Reply}
use shahboard.RedisHashes.{HashLib}
use shahboard.Gateway.{Session, Msg, GatewayEnv, viewers_list, viewers}
use shahboard.Gateway.Subscriptions.{
  Subscriptions, unsubscribe_basic, unsubscribe_match, unsubscribe_games, delete_game_subscribers,
}
use shahboard.Gateway.Registry
use shahboard.Gateway.Registry.{Registry, remove_ended}
use shahboard.Gateway.SessionCache.{
  SessionInCache, delete_user_session, delete_user_game_session, remove_from_game_viewers_list,
  add_to_games_viewers_list, get_all_games_viewers_list, remove_games_viewers_lists,
  update_sessions_timestamp, delete_expired_sessions,
}
use shahboard.Gateway.Requests.{World, publish_one}

-- The games that `Stop` unsubscribes from.
abbrev pub games_of : Session → List ObjectId
games_of s = if is_zero s.play_game_id then s.view_games else s.play_game_id ∷ s.view_games

-- `Stop`, up to the clean-up.
unfoldable pub stop : Subscriptions → Session → Subscriptions
unfolding unsubscribe_basic unsubscribe_match unsubscribe_games
stop h s =
    let h1 = unsubscribe_basic h s in
    let h2 = if is_zero s.match_id then h1 else unsubscribe_match h1 s in
    unsubscribe_games h2 s (games_of s)

unfoldable stop_all : Subscriptions → List Session → Subscriptions
unfolding stop
stop_all h [] = h
stop_all h (s ∷ ss) = stop_all (stop h s) ss

-- The sessions without a heart beat for ten seconds.
unfoldable pub disconnected : ℕ → List Session → List Session
disconnected now ss = keep_if (λ s. ltb s.last_heart_beat (now - 10000000000)) ss

-- The inner loop of `manageSessionsState` that collects the users who view games.
unfoldable add_user :
    ObjectId → List ObjectId → List (ObjectId × List ObjectId) → List (ObjectId × List ObjectId)
add_user user [] m = m
add_user user (g ∷ gs) m =
    let old : List ObjectId = elim (lookup dec_id g m) [ none ↦ [] | some us ↦ us ] in
    add_user user gs (insert dec_id g (old ++ (user ∷ [])) m)

unfoldable view_games_users :
    List Session → List (ObjectId × List ObjectId) → List (ObjectId × List ObjectId)
unfolding add_user
view_games_users [] m = m
view_games_users (s ∷ ss) m = view_games_users ss (add_user s.user_id s.view_games m)

-- `sendMsg` of a game's viewers to its subscribers.
abbrev viewers_msgs : GatewayEnv → ObjectId → List ObjectId → List ObjectId → List (ObjectId × Msg)
viewers_msgs env game us [] = []
viewers_msgs env game us (id ∷ ids) =
    (
      id,
      record {
        id = env.fresh 0;
        kind = viewers_list;
        timestamp = env.unix;
        payload = viewers game us;
      },
    )
    ∷ viewers_msgs env game us ids

unfoldable publish_games_viewers_list :
    GatewayEnv → Subscriptions → List (ObjectId × List ObjectId) → List (ObjectId × Msg)
publish_games_viewers_list env h [] = []
publish_games_viewers_list env h ((g, us) ∷ l) =
    let rest = publish_games_viewers_list env h l in
    elim (lookup dec_id g h.games) [ none ↦ rest | some ids ↦ viewers_msgs env g us ids ++ rest ]

module _ (redis : HashLib SessionInCache) where
  open redis use {Db}

  -- The part of `removeSession` on the game that the session plays.
  unfoldable pub leave_game : GatewayEnv → World Db → Session → World Db
  unfolding delete_user_game_session publish_one
  leave_game env w s =
      let (db, left) = delete_user_game_session redis env.redis s.user_id s.id w.db in
      let w1 = record w { db = db } in
      elim left [
        | none ↦ w1
        | some n ↦
            if n == 0
            then publish_one env w1 (
                player_left (record {
                  id = object_zero;
                  game_id = s.play_game_id;
                  player_id = s.user_id;
                  timestamp = env.unix;
                }))
            else w1
      ]

  -- `removeSession`
  unfoldable pub remove_session :
      GatewayEnv → Registry ObjectId → World Db → Session → Registry ObjectId × World Db
  unfolding Registry.remove remove_from_game_viewers_list leave_game delete_user_session
  remove_session env m w s =
      let db =
        if length s.view_games == 0
        then w.db
        else (remove_from_game_viewers_list redis env.redis s.user_id s.view_games w.db).0 in
      let w1 = record w { db = db } in
      (
        Registry.remove m s.user_id s.id,
        if is_zero s.play_game_id
            then record w1 { db = (delete_user_session redis env.redis s.user_id s.id db).0 }
            else leave_game env w1 s,
      )

  -- One tick of `pingTicker`; `readable` tells which keys of Redis can be read.
  unfoldable pub ping_tick : GatewayEnv → (Bytes → Bool) → World Db → List Session → World Db
  unfolding disconnected stop_all view_games_users add_to_games_viewers_list
      get_all_games_viewers_list publish_games_viewers_list
  ping_tick env readable w ss =
      let w1 = record w { subs = stop_all w.subs (disconnected env.now ss) } in
      let (db, added) = add_to_games_viewers_list redis env.redis (view_games_users ss []) w1.db in
      let w2 = record w1 { db = db } in
      if not added then w2 else elim (get_all_games_viewers_list redis env.redis readable db) [
        | none ↦ w2
        | some l ↦ record w2 { out = w2.out ++ publish_games_viewers_list env w2.subs l }
      ]

  -- The part of `cleanCachTicker` on the games that have ended.
  unfoldable clean_ended : GatewayEnv → World Db → World Db
  unfolding delete_game_subscribers remove_games_viewers_lists
  clean_ended env w =
      let ids = w.subs.ended in
      let h = delete_game_subscribers w.subs ids in
      let (db, done) = remove_games_viewers_lists redis env.redis ids w.db in
      if length ids == 0 then w else record w {
        db = db;
        subs = if done then record h { ended = remove_ended h.ended ids } else h;
      }

  -- One tick of `cleanCachTicker`; a session may be a minute old in the cache.
  unfoldable pub clean_tick : GatewayEnv → (Bytes → Bool) → World Db → List Session → World Db
  unfolding clean_ended update_sessions_timestamp delete_expired_sessions
  clean_tick env readable w ss =
      let w1 = clean_ended env w in
      let (db, updated) = update_sessions_timestamp redis env.redis ss env.now w1.db in
      let (db', done) =
        delete_expired_sessions redis env.redis env.redis readable env.now 60000000000 db in
      if length ss == 0
      then w1
      else if not updated
      then record w1 { db = db }
      else record w1 { db = db' }
