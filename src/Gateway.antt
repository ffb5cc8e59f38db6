-- ===== src/Gateway.antt =====
-- wsgateway/ws: the gateway between the users' WebSocket connections and the services: its types
-- (session.go, msg.go, msg_data.go, game.go). The JSON text of a message is left out: a client is
-- sent the message itself, and what it asks is a request.
pub mod Registry
pub mod Subscriptions
pub mod SessionCache
pub mod Requests
pub mod Deliveries
pub mod Cleaning
pub mod Instance
use shahboard.Base.{
  ℕ, Bool, true, false, not, List, [], ◌∷◌, ◌++◌, Option, length, leb, has, keep_if, if◌then◌else◌,
}
use shahboard.Types.{Bytes, bytes, ObjectId, object_zero, dec_id, same_id}
use shahboard.Event.{Event, UsersMatchCreated, MoveEvent, PlayerEvent, ChatMsg}
use shahboard.Event.Publisher.{Reply}

-- `session`: what its handlers read and write. Its channels are the lists of `World`.
pub record Session : Type 0 where
  pub id : ObjectId
  pub user_id : ObjectId
  pub match_id : ObjectId
  pub play_game_id : ObjectId
  pub view_games : List ObjectId
  pub view_caps : ℕ
  pub last_heart_beat : ℕ

abbrev default_view_games_cap : ℕ
default_view_games_cap = 5

unfoldable pub new_session : ObjectId → ObjectId → ObjectId → ℕ → Session
new_session id user game now = record {
  id = id;
  user_id = user;
  match_id = object_zero;
  play_game_id = game;
  view_games = [];
  view_caps = default_view_games_cap;
  last_heart_beat = now;
}

-- `addViewGame`: the session and the error's text, "" for none.
unfoldable pub add_view_game : Session → ObjectId → Session × Bytes
add_view_game s game =
    if has dec_id game s.view_games
    then (s, bytes "already subscribed to this game")
    else if leb s.view_caps (length s.view_games)
    then (s, bytes "view cap reached")
    else (record s { view_games = s.view_games ++ (game ∷ []) }, bytes "")

unfoldable pub remove_view_games : Session → ObjectId → Session
remove_view_games s game = record s {
  view_games = keep_if (λ g. not (same_id g game)) s.view_games;
}

pub record PlayerDisconnection : Type 0 where
  pub player_id : ObjectId
  pub disconnected_at : ℕ

pub record GamePgn : Type 0 where
  pub game_id : ObjectId
  pub pgn : Bytes
  pub disconnections : List PlayerDisconnection

-- `MsgType`, for the messages that are sent to clients.
pub data MsgType : Type 0 where
  welcome error game_create resume_game view_game move_approved player_joined : MsgType
  player_left game_end chat_created chat_msg_approved viewers_list : MsgType

pub data Payload : Type 0 where
  text : Bytes → Payload
  event_text : Event → Payload
  game_view : GamePgn → Payload
  viewers : ObjectId → List ObjectId → Payload

pub record Msg : Type 0 where
  pub id : ObjectId
  pub kind : MsgType
  pub timestamp : ℕ
  pub payload : Payload

-- What a client sends, decoded; `invalid` is a known type with data that does not decode.
pub data Request : Type 0 where
  find_match : UsersMatchCreated → Request
  resume : ObjectId → Request
  view : ObjectId → Request
  move : MoveEvent → Request
  resign : PlayerEvent → Request
  chat : ChatMsg → Request
  invalid other : Request

-- What one run of a handler meets: the clock in nanoseconds and in seconds, the identifiers that
-- `NewObjectId` makes, Redis, Kafka, and the game service (`none` is its error).
pub record GatewayEnv : Type 0 where
  pub now : ℕ
  pub unix : ℕ
  pub fresh : ℕ → ObjectId
  pub redis : Reply
  pub send : Event → Reply
  pub user_game : ObjectId → Option (Option GamePgn)
  pub live_game : ObjectId → Option (Option GamePgn)
