-- ===== src/Examples/Bots.antt =====
-- A small bot that always plays "a", and the theorems on bots applied to it.
use shahboard.Base.{
  ℕ, ◌≡◌, ◌≢◌, ◌⊎◌, inr, refl, pos, true, List, [], ◌∷◌, none, some, if◌then◌else◌, arith, suc,
  zero, is_some, ℤ-discrete,
}
use shahboard.Types.{Bytes, bytes, dec_id, color_black, no_outcome, GameOutcome-discrete}
use shahboard.Event.{MoveEvent, ChatMsg}
use shahboard.Game.{Game, new_game_of, move}
use shahboard.Bot.{at, Client, BotGame, BotEnv, handle_move_approved}
use shahboard.Bot.Choosing.{ClientLaws, IsReady}
use shahboard.Bot.Lockstep.{Lockstep, Answered, handle_move_approved-answers}
use shahboard.Bot.Talk.{chat_reply, white_text, black_text}
use shahboard.Examples.Boards.{Board, chess, laws, is_open}
use shahboard.Examples.Games.{fmt, ann, bob, settings, game, game-IsValid}

abbrev only_moves : Board → List Bytes
only_moves b = if is_open b then bytes "a" ∷ [] else []

abbrev client : Client chess
client = record {
  Move = Bytes;
  valid_moves = only_moves;
  notation = λ b m. m;
  parse_uci = λ b s. some s;
  get_tag_pair = λ k b. none;
  pgn = λ s. none;
}

taken :
    (b : Board) (i : ℕ) (m : Bytes)
    → at (only_moves b) i ≡ some m
    → is_some (chess.move_str m b) ≡ true
unfolding at dec_id
taken b zero m h = ground arith
taken b (suc i) m h = ground arith

client_laws : ClientLaws chess client
client_laws = record {
  tag_move = λ k v m b. ground arith;
  valid_taken = taken;
  open_has_move = λ b h. ground arith;
}

abbrev bot_env : BotEnv
bot_env = record { rand = λ n. 0; has_room = λ k. true }

ready : IsReady bot_env
ready = record { in_range = λ n h. h; attempt = 0; in_time = omega arith; has_room = refl }

-- Bob's bot plays the game of the examples.
abbrev bobs : BotGame Board
bobs = record {
  player_id = bob.id;
  id = game.id;
  color = color_black;
  opponent_id = ann.id;
  board = chess.new_game;
}

in_step : Lockstep chess game bobs
in_step = record { same_game = refl; same_players = inr (refl, refl); tags = []; same_board = refl }

abbrev anns_move : MoveEvent
anns_move = record {
  id = bytes "50";
  game_id = game.id;
  player_id = ann.id;
  move = bytes "e4";
  index = pos 1;
  timestamp = 6;
}

anns_move_taken : (move chess game ann.id (bytes "e4") (pos 1) 6).1 ≡ none
unfolding move dec_id ℤ-discrete GameOutcome-discrete
anns_move_taken = refl

handle_move_approved-answers_example :
    let g1 = (move chess game ann.id (bytes "e4") (pos 1) 6).0 in
    let reply = handle_move_approved chess client bot_env bobs anns_move in
    ((chess.outcome g1.board ≢ no_outcome)
      × (bg' : BotGame Board) × (reply ≡ some (bg', none))
      × Lockstep chess g1 bg')
    ⊎ ((chess.outcome g1.board ≡ no_outcome)
        × (bg' : BotGame Board) × (m : MoveEvent) × (reply ≡ some (bg', some m))
        × (m.game_id ≡ game.id)
        × (m.player_id ≡ bobs.player_id)
        × Answered chess client laws client_laws game game-IsValid bobs in_step g1 bg' m)
handle_move_approved-answers_example =
    handle_move_approved-answers chess client laws client_laws game game-IsValid bobs in_step
      bot_env ready anns_move 6 refl refl anns_move_taken

abbrev new_game : Game Board
new_game = new_game_of chess fmt ann bob settings (bytes "77") 0 5

abbrev chat : ChatMsg
chat = record {
  id = bytes "";
  sender_id = ann.id;
  game_id = game.id;
  content = white_text (bytes "ABCDE");
  timestamp = 8;
}

abbrev answer : ChatMsg
answer = record {
  id = bytes "";
  sender_id = bob.id;
  game_id = game.id;
  content = black_text (bytes "ABCDE") (bytes "FGHIJ");
  timestamp = 9;
}

answers_chat : chat_reply bobs chat (bytes "FGHIJ") 9 ≡ some answer
unfolding chat_reply dec_id
answers_chat = refl
