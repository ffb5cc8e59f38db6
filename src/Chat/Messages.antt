-- ===== src/Chat/Messages.antt =====
-- chatservice/entity/chat.go and chatservice/service.go/event.go: the messages of the chats.
use shahboard.Base.{
  ℕ, suc, ◌≤◌, ◌<◌, ◌≡◌, refl, true, false, [], ◌∷◌, none, some, ℕ_discrete, lookup, insert, delete,
  length, arith, All, All-insert, All-delete, All-lookup, ◌⊎◌, Bool-cases, Option-cases, inl, inr,
  lookup-insert, length-insert_new,
}
use shahboard.Types.{bytes, ObjectId, dec_id, same_id, Player}
use shahboard.Redis.{RedisLib}
use shahboard.Event.{Event, GameCreated, ChatMsg, GameEnded, game_created, game_ended, msg_sent}
use shahboard.Chat.{
  Chat, Message, Messages, ChatEnv, ChatState, CachedChat, is_owner, add_message, handle_msg_sent,
  handle_chat_event, take_message, chat_game_created, chat_game_ended, create_game_chat,
  create_chat, new_chat, publish_event,
}

-- A message of the chat: under its own number, at most `n`, not empty, and from one of the players.
abbrev IsMessage : Chat → ℕ → ℕ × Message → Type 0
IsMessage c n (k, m) =
    (m.id ≡ k)
    × (1 ≤ k)
    × (k ≤ n)
    × (is_owner c m.sender_id ≡ true)
    × (same_id m.content (bytes "") ≡ false)

-- All messages of the chat are numbered from 1 to their number.
abbrev pub IsSound : Chat → Type 0
IsSound c = All (IsMessage c (length c.messages)) c.messages

no_number_above :
    (c : Chat) (n k : ℕ) (ms : Messages)
    → All (IsMessage c n) ms
    → n < k
    → lookup ℕ_discrete k ms ≡ none
unfolding lookup ℕ_discrete
no_number_above c n k [] h l = refl
no_number_above c n k ((j, m) ∷ ms) h l = ground (arith, h.0, no_number_above c n k ms h.1 l)

raised :
    (c : Chat) (n k : ℕ) (ms : Messages) → n ≤ k → All (IsMessage c n) ms → All (IsMessage c k) ms
raised c n k [] l h = tt
raised c n k (m ∷ ms) l (h, hs) =
    ((h.0, h.1, omega (arith, h.2, l), h.3, h.4), raised c n k ms l hs)

-- Where the messages of a chat are numbered from 1 to their number, not empty, and from one of the
-- two players, `AddMessage` of a message that is not empty and from one of them keeps that, makes
-- them one more, and replaces none that is there.
add_message_lem :
    (c : Chat) (m : Message) (now : ℕ)
    → IsSound c
    → is_owner c m.sender_id ≡ true
    → same_id m.content (bytes "") ≡ false
    → IsSound (add_message c m now)
      × (length (add_message c m now).messages ≡ suc (length c.messages))
      × ((k : ℕ)
          → k ≤ length c.messages
          → lookup ℕ_discrete k (add_message c m now).messages ≡ lookup ℕ_discrete k c.messages)
unfolding add_message
add_message_lem c m now h own full =
    let n = length c.messages in
    let new : Message = record m { id = suc n } in
    let free : lookup ℕ_discrete (suc n) c.messages ≡ none =
      no_number_above c n (suc n) c.messages h (omega arith) in
    let grows : length (insert ℕ_discrete (suc n) new c.messages) ≡ suc n =
      length-insert_new ℕ_discrete (suc n) new c.messages free in
    (
      rw grows (
          All-insert ℕ_discrete (IsMessage c (suc n)) (suc n) new c.messages
            (refl, omega arith, omega arith, own, full)
            (raised c n (suc n) c.messages (omega arith) h)),
      grows,
      λ k l. ground (arith, lookup-insert ℕ_discrete (suc n) k new c.messages),
    )

abbrev pub AreSound : {Db : Type 0} → ChatState Db → Type 0
AreSound s = All (λ e. IsSound e.1) s.chats

-- The message that an event becomes, before it has a number.
abbrev message_of : ChatEnv → ChatMsg → Message
message_of env e = record {
  id = 0;
  sender_id = e.sender_id;
  content = e.content;
  timestamp = env.now;
}

module _ (redis : RedisLib CachedChat) (env : ChatEnv) (s : ChatState redis.Db) where
  create_game_chat-chats :
      (id : ObjectId) (p1 p2 : Player)
      → ((create_game_chat redis env s id p1 p2).0.chats ≡ s.chats)
        ⊎ ((create_game_chat redis env s id p1 p2).0.chats
            ≡ insert dec_id id (new_chat (env.fresh 0) id p1 p2 env.now) s.chats)
  unfolding create_game_chat create_chat
  create_game_chat-chats id p1 p2 = ground arith

  chat_game_created-chats :
      (e : GameCreated)
      → (chat_game_created redis env s e).chats
        ≡ (create_game_chat redis env s e.game_id e.player1 e.player2).0.chats
  unfolding chat_game_created publish_event
  chat_game_created-chats e = ground arith

  chat_game_created-AreSound :
      (e : GameCreated) → AreSound s → AreSound (chat_game_created redis env s e)
  unfolding new_chat
  chat_game_created-AreSound e h =
      rw (chat_game_created-chats e) (elim (create_game_chat-chats e.game_id e.player1 e.player2) [
        | inl k ↦ rw k h
        | inr k ↦ rw k (
            All-insert dec_id (λ x. IsSound x.1) e.game_id
              (new_chat (env.fresh 0) e.game_id e.player1 e.player2 env.now) s.chats tt h)
      ])

  chat_game_ended-chats :
      (e : GameEnded)
      → ((chat_game_ended redis env s e).chats ≡ s.chats)
        ⊎ ((chat_game_ended redis env s e).chats ≡ delete dec_id e.game_id s.chats)
  unfolding chat_game_ended publish_event
  chat_game_ended-chats e = ground arith

  handle_msg_sent-chats :
      (e : ChatMsg)
      → ((handle_msg_sent redis env s e).chats ≡ s.chats)
        ⊎ ((c : Chat) × (lookup dec_id e.game_id s.chats ≡ some c)
            × (is_owner c e.sender_id ≡ true)
            × (same_id e.content (bytes "") ≡ false)
            × ((handle_msg_sent redis env s e).chats
                ≡ insert dec_id e.game_id (add_message c (message_of env e) env.now) s.chats))
  unfolding handle_msg_sent take_message publish_event
  handle_msg_sent-chats e = elim (Option-cases (lookup dec_id e.game_id s.chats)) [
    | inl k ↦ inl (ground arith)
    | inr (c, k) ↦ elim (Bool-cases (is_owner c e.sender_id)) [
      | inr o ↦ inl (ground arith)
      | inl o ↦ elim (Bool-cases (same_id e.content (bytes ""))) [
        | inl f ↦ inl (ground arith)
        | inr f ↦ inr (c, k, o, f, ground arith)
      ]
    ]
  ]

  handle_msg_sent-AreSound : (e : ChatMsg) → AreSound s → AreSound (handle_msg_sent redis env s e)
  handle_msg_sent-AreSound e h = elim (handle_msg_sent-chats e) [
    | inl k ↦ rw k h
    | inr (c, l, o, f, k) ↦
        let sound : IsSound c = All-lookup dec_id (λ x. IsSound x.1) e.game_id c s.chats h l in
        rw k (
          All-insert dec_id (λ x. IsSound x.1) e.game_id (add_message c (message_of env e) env.now)
            s.chats (add_message_lem c (message_of env e) env.now sound o f).0 h)
  ]

  -- If the messages of every chat are numbered from 1 to their number, not empty, and from one of
  -- the chat's two players, that stays so whatever event the chat service handles, and whatever
  -- becomes of its requests to Redis and Kafka.
  pub handle_chat_event-AreSound :
      (e : Event) → AreSound s → AreSound (handle_chat_event redis env s e)
  unfolding handle_chat_event
  handle_chat_event-AreSound (game_created e) h = chat_game_created-AreSound e h
  handle_chat_event-AreSound (game_ended e) h = elim (chat_game_ended-chats e) [
    | inl k ↦ rw k h
    | inr k ↦ rw k (All-delete dec_id (λ x. IsSound x.1) e.game_id s.chats h)
  ]
  handle_chat_event-AreSound (msg_sent e) h = handle_msg_sent-AreSound e h
  handle_chat_event-AreSound e h = h
