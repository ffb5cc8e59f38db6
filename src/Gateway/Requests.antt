-- ===== src/Gateway/Requests.antt =====
-- wsgateway/ws/session.go and msg.go: what a session does with the requests of its client.
pub mod Published
pub mod Views
use shahboard.Base.{
  ℕ, Bool, true, false, not, ◌&&◌, ◌||◌, List, [], ◌∷◌, ◌++◌, Option, none, some, if◌then◌else◌,
}
use shahboard.Types.{Bytes, bytes, ObjectId, object_zero, same_id, is_zero}
use shahboard.Event.{
  Event, UsersMatchCreated, MoveEvent, PlayerEvent, ChatMsg, player_joined, player_moved,
  player_resigned, msg_sent,
}
use shahboard.Event.Publisher.{Reply, publish}
use shahboard.RedisHashes.{HashLib}
use shahboard.Gateway.{
  Session, Msg, MsgType, Payload, Request, GatewayEnv, GamePgn, add_view_game, remove_view_games,
  find_match, resume, view, move, resign, chat, invalid, other, welcome, error, resume_game,
  view_game, text, game_view,
}
use shahboard.Gateway.Subscriptions.{Subscriptions, subscribe_match, subscribe_game}
use shahboard.Gateway.SessionCache.{SessionInCache, add_game_id_to_user_sessions}

-- What the handlers of a session share with the rest of the gateway: the subscriptions, Redis, the
-- log of the published events, and the messages sent to clients, by session.
pub record World (Db : Type 0) : Type 0 where
  pub subs : Subscriptions
  pub db : Db
  pub log : List Event
  pub out : List (ObjectId × Msg)

-- What the client gets of a game that it resumes or views.
abbrev game_msg : GatewayEnv → ObjectId → MsgType → ObjectId → GamePgn → Msg
game_msg env id kind game g = record {
  id = id;
  kind = kind;
  timestamp = env.unix;
  payload = game_view (record g { game_id = game });
}

-- The game that was asked for, if the game service knows it.
abbrev asked_game : ObjectId → Option GamePgn → Option GamePgn
asked_game game none = none
asked_game game (some g) = if same_id g.game_id game then some g else none

module _ {Db : Type 0} where
  -- `send`
  unfoldable pub send_msg : World Db → Session → Msg → World Db
  send_msg w s m = record w { out = w.out ++ ((s.id, m) ∷ []) }

  -- `sendErr`
  unfoldable pub send_err : GatewayEnv → World Db → Session → ObjectId → Bytes → World Db
  unfolding send_msg
  send_err env w s id e =
      send_msg w s (record { id = id; kind = error; timestamp = env.unix; payload = text e })

  -- `sendWelcome`
  unfoldable pub send_welcome : GatewayEnv → World Db → Session → World Db
  unfolding send_msg
  send_welcome env w s = send_msg w s (record {
    id = env.fresh 0;
    kind = welcome;
    timestamp = env.unix;
    payload = text (bytes "welcome");
  })

  -- `Publish` of one event; its error is only logged.
  unfoldable pub publish_one : GatewayEnv → World Db → Event → World Db
  publish_one env w e = record w { log = (publish env.send w.log (e ∷ [])).0 }

  unfoldable pub handle_find_match :
      GatewayEnv → Session → World Db → ObjectId → UsersMatchCreated → Session × World Db
  unfolding send_err
  handle_find_match env s w id d =
      let s1 = record s { match_id = d.id } in
      if is_zero s.play_game_id
        && (is_zero s.match_id && (same_id s.user_id d.user1.id || same_id s.user_id d.user2.id))
      then (s1, record w { subs = subscribe_match w.subs s1 env.now })
      else (s, send_err env w s id (bytes "already subscribed to a game"))

  -- The test and the publishing that moving, resigning and chatting share: the request names the
  -- session's user and game.
  unfoldable pub forward :
      GatewayEnv → Session → World Db → ObjectId → ObjectId → ObjectId → Event → Bytes → World Db
  unfolding send_err publish_one
  forward env s w id player game e refusal =
      if same_id s.user_id player && same_id s.play_game_id game
      then publish_one env w e
      else send_err env w s id refusal

  unfoldable pub handle_move_request :
      GatewayEnv → Session → World Db → ObjectId → MoveEvent → World Db
  unfolding forward
  handle_move_request env s w id d =
      forward env s w id d.player_id d.game_id (player_moved d) (bytes "not allowed to move")

  unfoldable pub handle_resign_request :
      GatewayEnv → Session → World Db → ObjectId → PlayerEvent → World Db
  unfolding forward
  handle_resign_request env s w id d =
      forward env s w id d.player_id d.game_id (player_resigned d) (bytes "not allowed to resign")

  unfoldable pub handle_send_msg : GatewayEnv → Session → World Db → ObjectId → ChatMsg → World Db
  unfolding forward
  handle_send_msg env s w id d =
      forward env s w id d.sender_id d.game_id (msg_sent d) (bytes "not allowed to send message")

  unfoldable pub handle_view_game_request :
      GatewayEnv → Session → World Db → ObjectId → ObjectId → Session × World Db
  unfolding add_view_game remove_view_games send_err send_msg subscribe_game
  handle_view_game_request env s w id game =
      let (s1, refusal) = add_view_game s game in
      if not (same_id refusal (bytes ""))
      then (s1, send_err env w s1 id refusal)
      else elim (env.live_game game) [
        | none ↦ (remove_view_games s1 game, send_err env w s1 id (bytes "internal error"))
        | some answer ↦ elim (asked_game game answer) [
          | none ↦ (remove_view_games s1 game, send_err env w s1 id (bytes "not found"))
          | some g ↦ (
            s1,
            record (send_msg w s1 (game_msg env id view_game game g)) {
              subs = subscribe_game w.subs s1 game;
            },
          )
        ]
      ]

module _ (redis : HashLib SessionInCache) where
  open redis use {Db}

  -- `handleResumeGameRequest`, once the game service has confirmed the game.
  unfoldable pub resume_confirmed :
      GatewayEnv → Session → World Db → ObjectId → ObjectId → GamePgn → Session × World Db
  unfolding add_game_id_to_user_sessions send_err send_msg publish_one subscribe_game
  resume_confirmed env s w id game g =
      let (db, saved) =
        add_game_id_to_user_sessions redis env.redis s.user_id s.id game env.now w.db in
      if not saved
      then (
        record s { play_game_id = object_zero },
        send_err env (record w { db = db }) s id (bytes "internal error"),
      )
      else let s1 = record s { play_game_id = game } in
        let joined = player_joined (record {
          id = object_zero;
          game_id = game;
          player_id = s.user_id;
          timestamp = env.unix;
        }) in
        let w1 = record w { db = db; subs = subscribe_game w.subs s1 game } in
        (s1, send_msg (publish_one env w1 joined) s1 (game_msg env id resume_game game g))

  unfoldable pub handle_resume_game_request :
      GatewayEnv → Session → World Db → ObjectId → ObjectId → Session × World Db
  unfolding resume_confirmed send_err
  handle_resume_game_request env s w id game =
      if not (is_zero s.match_id && is_zero s.play_game_id)
      then (s, send_err env w s id (bytes "already subscribed to a game"))
      else elim (env.user_game s.user_id) [
        | none ↦ (s, send_err env w s id (bytes "internal error"))
        | some answer ↦ elim (asked_game game answer) [
          | none ↦ (s, send_err env w s id (bytes "not found"))
          | some g ↦ resume_confirmed env s w id game g
        ]
      ]

  -- `handleMsg`, of a message with the identifier `id`.
  unfoldable pub handle_msg :
      GatewayEnv → Session → World Db → ObjectId → Request → Session × World Db
  unfolding handle_find_match handle_resume_game_request handle_view_game_request
      handle_move_request handle_resign_request handle_send_msg send_err
  handle_msg env s w id (find_match d) = handle_find_match env s w id d
  handle_msg env s w id (resume game) = handle_resume_game_request env s w id game
  handle_msg env s w id (view game) = handle_view_game_request env s w id game
  handle_msg env s w id (move d) = (s, handle_move_request env s w id d)
  handle_msg env s w id (resign d) = (s, handle_resign_request env s w id d)
  handle_msg env s w id (chat d) = (s, handle_send_msg env s w id d)
  handle_msg env s w id invalid = (s, send_err env w s id (bytes "invalid data"))
  handle_msg env s w id other = (s, w)
