-- ===== src/Gateway/Deliveries.antt =====
-- wsgateway/ws/session.go: what a session does with the events that it gets.
pub mod Kept
pub mod Lives
pub mod Cached
use shahboard.Base.{
  ℕ, Bool, true, false, not, List, [], ◌∷◌, ◌++◌, Option, none, some, if◌then◌else◌,
}
use shahboard.Types.{Bytes, bytes, ObjectId, object_zero, same_id}
use shahboard.Event.{
  Event, GameCreated, GameEnded, game_created, game_ended, move_approved as approved_event,
  player_joined as joined_event, player_left as left_event, chat_created as chat_event,
  msg_approved as message_event,
}
use shahboard.RedisHashes.{HashLib}
use shahboard.Gateway.{
  Session, Msg, MsgType, Payload, GatewayEnv, remove_view_games, error, game_create, game_end,
  move_approved, player_joined, player_left, chat_created, chat_msg_approved, text, event_text,
}
use shahboard.Gateway.Subscriptions.{Subscriptions, subscribe_game, unsubscribe_game}
use shahboard.Gateway.SessionCache.{
  SessionInCache, add_game_id_to_user_sessions, remove_game_id_from_user_sessions,
}
use shahboard.Gateway.Requests.{World, send_msg}

-- A message without an identifier that carries the event.
abbrev event_msg : GatewayEnv → MsgType → Event → Msg
event_msg env kind e = record {
  id = bytes "";
  kind = kind;
  timestamp = env.unix;
  payload = event_text e;
}

-- The types of `handleGameEvent`'s default case and of `handleGameChatEvent`.
unfoldable pub type_of_event : Event → Option MsgType
type_of_event (approved_event d) = some move_approved
type_of_event (joined_event d) = some player_joined
type_of_event (left_event d) = some player_left
type_of_event (chat_event d) = some chat_created
type_of_event (message_event d) = some chat_msg_approved
type_of_event e = none

module _ (redis : HashLib SessionInCache) where
  open redis use {Db}

  -- The case `ActionCreated` of `handleGameEvent`.
  unfoldable pub session_game_created :
      GatewayEnv → Session → World Db → GameCreated → Session × World Db
  unfolding add_game_id_to_user_sessions send_msg subscribe_game
  session_game_created env s w d =
      let (db, saved) =
        add_game_id_to_user_sessions redis env.redis s.user_id s.id d.game_id env.now w.db in
      let w1 = record w { db = db } in
      if not saved
      then (
        record s { play_game_id = object_zero },
        send_msg w1 s (record {
          id = bytes "";
          kind = error;
          timestamp = env.unix;
          payload = text (bytes "internal error");
        }),
      )
      else let s1 = record s { play_game_id = d.game_id } in
        (
          s1,
          send_msg (record w1 { subs = subscribe_game w1.subs s1 d.game_id }) s1
              (event_msg env game_create (game_created d)),
        )

  -- The case `ActionEnded`; an error of Redis is only logged.
  unfoldable pub session_game_ended :
      GatewayEnv → Session → World Db → GameEnded → Session × World Db
  unfolding remove_game_id_from_user_sessions send_msg unsubscribe_game remove_view_games
  session_game_ended env s w d =
      let s1 =
        if same_id d.game_id s.play_game_id then record s { play_game_id = object_zero } else s in
      let db = (remove_game_id_from_user_sessions redis env.redis s.user_id s.id env.now w.db).0 in
      let s2 = remove_view_games s1 d.game_id in
      (
        s2,
        send_msg (record w { db = db; subs = unsubscribe_game w.subs s2 d.game_id }) s2
            (event_msg env game_end (game_ended d)),
      )

  -- `handleEvent`
  unfoldable pub session_event : GatewayEnv → Session → World Db → Event → Session × World Db
  unfolding session_game_created session_game_ended send_msg type_of_event
  session_event env s w (game_created d) = session_game_created env s w d
  session_event env s w (game_ended d) = session_game_ended env s w d
  session_event env s w e = elim (type_of_event e) [
    | none ↦ (s, w)
    | some kind ↦ (s, send_msg w s (event_msg env kind e))
  ]
