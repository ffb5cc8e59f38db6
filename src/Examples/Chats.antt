-- ===== src/Examples/Chats.antt =====
-- A chat of two players on the small cache, and the theorems on chats applied to it.
use shahboard.Base.{pos, [], ◌∷◌, refl, arith}
use shahboard.Types.{bytes, dec_id, color_white, color_black}
use shahboard.Event.{Event, msg_sent}
use shahboard.Event.Publisher.{lost}
use shahboard.Chat.{Chat, Message, ChatEnv, ChatState, CachedChat, active, handle_chat_event}
use shahboard.Chat.Messages.{IsSound, AreSound, handle_chat_event-AreSound}
use shahboard.Examples.Caches.{redis_of}

abbrev hello : Message
hello = record { id = 1; sender_id = bytes "1"; content = bytes "hello"; timestamp = 5 }

abbrev answer : Message
answer = record { id = 0; sender_id = bytes "2"; content = bytes "hi"; timestamp = 6 }

abbrev chat : Chat
chat = record {
  id = bytes "77";
  status = active;
  player1 = record { id = bytes "1"; score = pos 1500; color = color_white };
  player2 = record { id = bytes "2"; score = pos 1000; color = color_black };
  messages = (1, hello) ∷ [];
  created_at = 4;
  updated_at = 5;
}

chat-IsSound : IsSound chat
unfolding dec_id
chat-IsSound = ((refl, omega arith, omega arith, refl, refl), tt)

abbrev chats : ChatState (redis_of CachedChat).Db
chats = record { chats = (chat.id, chat) ∷ []; db = []; log = [] }

-- Redis and Kafka lose their answers.
abbrev chat_env : ChatEnv
chat_env = record { now = 7; unix = 7; fresh = λ n. bytes "88"; redis = lost; send = λ e. lost }

abbrev says : Event
says = msg_sent (record {
  id = bytes "9";
  sender_id = bytes "2";
  game_id = bytes "77";
  content = bytes "hi";
  timestamp = 6;
})

handle_chat_event-AreSound_example :
    AreSound (handle_chat_event (redis_of CachedChat) chat_env chats says)
handle_chat_event-AreSound_example =
    handle_chat_event-AreSound (redis_of CachedChat) chat_env chats says (chat-IsSound, tt)
