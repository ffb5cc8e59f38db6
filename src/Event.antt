-- ===== src/Event.antt =====
-- event/game.go, chat.go, match.go and user.go: the events and their topics. Events whose structs
-- have the same fields share a record. Timestamps are `time.Time.Unix()`.
pub mod Topics
pub mod Kinds
pub mod Publisher
pub mod Subscribers
pub mod Manager
pub mod Consumers
use shahboard.Base.{ℕ, ℤ, Bool}
use shahboard.Types.{Bytes, bytes, ObjectId, Player, User, GameOutcome}
use shahboard.Chess.{Method}
use Topics.{
  Topic, new_topic, set_resource, domain_user, domain_game, domain_match, domain_game_chat,
}

pub record GameCreated : Type 0 where
  pub id : ObjectId
  pub game_id : ObjectId
  pub match_id : ObjectId
  pub player1 : Player
  pub player2 : Player
  pub timestamp : ℕ

-- `EventGamePlayerMoved` and `EventGameMoveApproved`
pub record MoveEvent : Type 0 where
  pub id : ObjectId
  pub game_id : ObjectId
  pub player_id : ObjectId
  pub move : Bytes
  pub index : ℤ
  pub timestamp : ℕ

-- `EventGamePlayerJoined`, `EventGamePlayerResigned` and `EventGamePlayerLeft`
pub record PlayerEvent : Type 0 where
  pub id : ObjectId
  pub game_id : ObjectId
  pub player_id : ObjectId
  pub timestamp : ℕ

pub record GameEnded : Type 0 where
  pub id : ObjectId
  pub game_id : ObjectId
  pub player1 : Player
  pub player2 : Player
  pub outcome : GameOutcome
  pub desc : Bytes
  pub timestamp : ℕ

pub record ClaimDraw : Type 0 where
  pub id : ObjectId
  pub game_id : ObjectId
  pub player_id : ObjectId
  pub method : Method
  pub timestamp : ℕ

pub record DrawResponse : Type 0 where
  pub id : ObjectId
  pub claim_id : ObjectId
  pub game_id : ObjectId
  pub player_id : ObjectId
  pub accept : Bool
  pub timestamp : ℕ

pub record ClaimApproved : Type 0 where
  pub id : ObjectId
  pub claim_id : ObjectId
  pub game_id : ObjectId
  pub player_id : ObjectId
  pub method : Method
  pub timestamp : ℕ

pub record SquareSelected : Type 0 where
  pub id : ObjectId
  pub game_id : ObjectId
  pub player_id : ObjectId
  pub piece : Bytes
  pub square : Bytes
  pub timestamp : ℕ

-- `EventGameChatMsgeSent` and `EventGameChatMsgApproved`
pub record ChatMsg : Type 0 where
  pub id : ObjectId
  pub sender_id : ObjectId
  pub game_id : ObjectId
  pub content : Bytes
  pub timestamp : ℕ

pub record ChatEnded : Type 0 where
  pub id : ObjectId
  pub game_id : ObjectId
  pub player1 : Player
  pub player2 : Player
  pub timestamp : ℕ

pub record UsersMatchCreated : Type 0 where
  pub id : ObjectId
  pub user1 : User
  pub user2 : User
  pub timestamp : ℕ

pub record UserCreated : Type 0 where
  pub id : ObjectId
  pub user_id : ObjectId
  pub is_guest : Bool
  pub email : Bytes
  pub name : Bytes
  pub picture : Bytes
  pub timestamp : ℕ

-- `EventUserLoggedIn` and `EventUserLoggedOut`
pub record UserLogged : Type 0 where
  pub id : ObjectId
  pub user_id : ObjectId
  pub email : Bytes
  pub timestamp : ℕ

pub data Event : Type 0 where
  game_created : GameCreated → Event
  player_moved move_approved : MoveEvent → Event
  player_joined player_resigned player_left : PlayerEvent → Event
  game_ended : GameEnded → Event
  claim_draw : ClaimDraw → Event
  draw_response : DrawResponse → Event
  claim_approved : ClaimApproved → Event
  square_selected : SquareSelected → Event
  chat_created : GameCreated → Event
  msg_sent msg_approved : ChatMsg → Event
  chat_ended : ChatEnded → Event
  users_matched : UsersMatchCreated → Event
  user_created : UserCreated → Event
  user_logged_in user_logged_out : UserLogged → Event

-- `GetTopic`: the topic of the event's type, with its `GetResource`.
unfoldable pub topic_of : Event → Topic
unfolding new_topic set_resource
topic_of (game_created e) = set_resource (new_topic domain_game (bytes "created")) e.game_id
topic_of (player_moved e) = set_resource (new_topic domain_game (bytes "playerMoved")) e.game_id
topic_of (move_approved e) = set_resource (new_topic domain_game (bytes "moveApproved")) e.game_id
topic_of (player_joined e) = set_resource (new_topic domain_game (bytes "playerJoined")) e.game_id
topic_of (player_resigned e) =
    set_resource (new_topic domain_game (bytes "playerResigned")) e.game_id
topic_of (player_left e) = set_resource (new_topic domain_game (bytes "playerLeft")) e.game_id
topic_of (game_ended e) = set_resource (new_topic domain_game (bytes "ended")) e.game_id
topic_of (claim_draw e) = set_resource (new_topic domain_game (bytes "claimDraw")) e.game_id
topic_of (draw_response e) =
    set_resource (new_topic domain_game (bytes "playerResponsedDrawOffer")) e.game_id
topic_of (claim_approved e) =
    set_resource (new_topic domain_game (bytes "claimDrawApproved")) e.game_id
topic_of (square_selected e) = set_resource (new_topic domain_game (bytes "selectSquare")) e.game_id
topic_of (chat_created e) = set_resource (new_topic domain_game_chat (bytes "created")) e.game_id
topic_of (msg_sent e) = set_resource (new_topic domain_game_chat (bytes "msg_sent")) e.game_id
topic_of (msg_approved e) =
    set_resource (new_topic domain_game_chat (bytes "msg_approved")) e.game_id
topic_of (chat_ended e) = set_resource (new_topic domain_game_chat (bytes "ended")) e.game_id
topic_of (users_matched e) = new_topic domain_match (bytes "created")
topic_of (user_created e) = set_resource (new_topic domain_user (bytes "created")) e.user_id
topic_of (user_logged_in e) = set_resource (new_topic domain_user (bytes "loggedIn")) e.user_id
topic_of (user_logged_out e) = set_resource (new_topic domain_user (bytes "loggedOut")) e.user_id
