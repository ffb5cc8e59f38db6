-- ===== src/Chat.antt =====
-- chatservice/entity/chat.go and chatservice/service.go/*.go: the chat of each game's two players.
-- The JSON text that the cache holds is a record of what it is made of. A handler is one step, and
-- what it meets of the clock, the random numbers, Redis and Kafka is in `ChatEnv`.
pub mod Messages
use shahboard.Base.{
  ℕ, suc, Bool, true, false, not, ◌||◌, List, [], ◌∷◌, ◌++◌, Option, none, some, ℕ_discrete, lookup,
  insert, delete, length, if◌then◌else◌, is_some,
}
use shahboard.Types.{Bytes, bytes, ObjectId, dec_id, same_id, is_zero, Player}
use shahboard.Redis.{RedisLib}
use shahboard.Event.{
  Event, GameCreated, ChatMsg, GameEnded, game_created, game_ended, msg_sent, chat_created,
  msg_approved, chat_ended,
}
use shahboard.Event.Publisher.{Reply, applied, answered, publish}

pub data ChatStatus : Type 0 where
  active deactive : ChatStatus

pub record Message : Type 0 where
  pub id : ℕ
  pub sender_id : ObjectId
  pub content : Bytes
  pub timestamp : ℕ

-- `map[int]Message`
abbrev pub Messages : Type 0
Messages = List (ℕ × Message)

pub record Chat : Type 0 where
  pub id : ObjectId
  pub status : ChatStatus
  pub player1 : Player
  pub player2 : Player
  pub messages : Messages
  pub created_at : ℕ
  pub updated_at : ℕ

-- `fresh` is the identifier that `NewObjectId` would make.
unfoldable pub new_chat : ObjectId → ObjectId → Player → Player → ℕ → Chat
new_chat fresh id p1 p2 now = record {
  id = if is_zero id then fresh else id;
  status = active;
  player1 = p1;
  player2 = p2;
  messages = [];
  created_at = now;
  updated_at = 0;
}

abbrev pub is_owner : Chat → ObjectId → Bool
is_owner c id = same_id c.player1.id id || same_id c.player2.id id

unfoldable pub add_message : Chat → Message → ℕ → Chat
add_message c msg now =
    let index = suc (length c.messages) in
    record c {
      messages = insert ℕ_discrete index (record msg { id = index }) c.messages;
      updated_at = now;
    }

-- `inCacheChatGame`, with the chat's fields that `Encode` writes.
pub record CachedChat : Type 0 where
  pub status : ChatStatus
  pub id : ObjectId
  pub player1 : Player
  pub player2 : Player
  pub messages : Messages
  pub created_at : ℕ
  pub updated_at : ℕ

unfoldable encode_chat : Chat → CachedChat
encode_chat c = record {
  status = c.status;
  id = c.id;
  player1 = c.player1;
  player2 = c.player2;
  messages = c.messages;
  created_at = c.created_at;
  updated_at = c.updated_at;
}

abbrev chat_key : ObjectId → Bytes
chat_key id = bytes "game_chat:" ++ id

pub record ChatEnv : Type 0 where
  pub now : ℕ
  pub unix : ℕ
  pub fresh : ℕ → ObjectId
  pub redis : Reply
  pub send : Event → Reply

-- `Service`, with the map of `chatsManager` and the log of what was published.
pub record ChatState (Db : Type 0) : Type 0 where
  pub chats : List (ObjectId × Chat)
  pub db : Db
  pub log : List Event

module _ (redis : RedisLib CachedChat) where
  open redis use {Db, set_nx, del}

  -- `addGameChat`; `none` is its error.
  unfoldable add_game_chat : Reply → Chat → Db → Db × Option Bool
  unfolding encode_chat
  add_game_chat r c db =
      let (db', set) = set_nx (chat_key c.id) (encode_chat c) db in
      (if applied r then db' else db, if answered r then some set else none)

  -- `createChat`
  unfoldable pub create_chat :
      ObjectId
      → ObjectId
      → Player
      → Player
      → ℕ
      → List (ObjectId × Chat)
      → Option (Chat × List (ObjectId × Chat))
  unfolding new_chat
  create_chat fresh game_id p1 p2 now chats =
      if is_some (lookup dec_id game_id chats)
      then none
      else let c = new_chat fresh game_id p1 p2 now in some (c, insert dec_id game_id c chats)

  -- `CreateGameChat`; the option is `none` for its error.
  unfoldable pub create_game_chat :
      ChatEnv → ChatState Db → ObjectId → Player → Player → ChatState Db × Option Bool
  unfolding create_chat add_game_chat
  create_game_chat env s game_id p1 p2 =
      elim (create_chat (env.fresh 0) game_id p1 p2 env.now s.chats) [
        | none ↦ (s, some false)
        | some (c, chats) ↦
            let (db, added) = add_game_chat env.redis c s.db in
            (record s { chats = chats; db = db }, added)
      ]

  unfoldable pub publish_event : ChatEnv → ChatState Db → Event → ChatState Db
  publish_event env s e = record s { log = (publish env.send s.log (e ∷ [])).0 }

  unfoldable pub chat_game_created : ChatEnv → ChatState Db → GameCreated → ChatState Db
  unfolding create_game_chat publish_event
  chat_game_created env s e =
      let (s1, ok) = create_game_chat env s e.game_id e.player1 e.player2 in
      elim ok [
        | none ↦ s1
        | some false ↦ s1
        | some true ↦ publish_event env s1 (chat_created (record e { id = env.fresh 1 }))
      ]

  -- The message of an event is put into the chat, and approved.
  unfoldable pub take_message : ChatEnv → ChatState Db → ChatMsg → Chat → ChatState Db
  unfolding add_message publish_event
  take_message env s e c =
      let msg : Message = record {
        id = 0;
        sender_id = e.sender_id;
        content = e.content;
        timestamp = env.now;
      } in
      let c1 = add_message c msg env.now in
      publish_event env (record s { chats = insert dec_id e.game_id c1 s.chats })
        (msg_approved (record e { id = env.fresh 0; timestamp = env.unix }))

  unfoldable pub handle_msg_sent : ChatEnv → ChatState Db → ChatMsg → ChatState Db
  unfolding take_message
  handle_msg_sent env s e = elim (lookup dec_id e.game_id s.chats) [
    | none ↦ s
    | some c ↦
        if not (is_owner c e.sender_id)
        then s
        else if same_id e.content (bytes "")
        then s
        else take_message env s e c
  ]

  unfoldable pub chat_game_ended : ChatEnv → ChatState Db → GameEnded → ChatState Db
  unfolding publish_event
  chat_game_ended env s e = elim (lookup dec_id e.game_id s.chats) [
    | none ↦ s
    | some c ↦
        publish_event env
          (record s {
            chats = delete dec_id e.game_id s.chats;
            db = if applied env.redis then del (chat_key e.game_id) s.db else s.db;
          })
          (chat_ended (record {
            id = env.fresh 0;
            game_id = e.game_id;
            player1 = c.player1;
            player2 = c.player2;
            timestamp = e.timestamp;
          }))
  ]

  -- `handleEvents`
  unfoldable pub handle_chat_event : ChatEnv → ChatState Db → Event → ChatState Db
  unfolding chat_game_created handle_msg_sent chat_game_ended
  handle_chat_event env s (game_created e) = chat_game_created env s e
  handle_chat_event env s (game_ended e) = chat_game_ended env s e
  handle_chat_event env s (msg_sent e) = handle_msg_sent env s e
  handle_chat_event env s e = s
