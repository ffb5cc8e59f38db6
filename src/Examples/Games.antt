-- ===== src/Examples/Games.antt =====
-- A game of two players on the small board, and the theorems on games applied to it.
use shahboard.Base.{
  ℕ, suc, ℤ, pos, true, false, none, some, ◌≡◌, ◌≢◌, ◌↔◌, ◌%◌, List, [], ◌∷◌, inl, refl, arith,
  ℤ-discrete, ◌-ℤ◌,
}
use shahboard.Types.{
  Bytes, bytes, ObjectId, dec_id, GameOutcome-discrete, User, color_white, color_black,
}
use shahboard.Chess.{draw_offer, white}
use shahboard.Game.{
  Game, GameSettings, new_game_of, status_active, is_player, turn_player, white_player, move,
  accept_draw, not_your_turn,
}
use shahboard.Game.Creation.{IsValid}
use shahboard.Game.Moves.{move_alternates}
use shahboard.Game.Histories.{Call, moves, offers, accepts, calls}
use shahboard.Game.Lifecycle.{view}
use shahboard.Game.Lifecycle.Runs.{reacts, opening, acts, new_game-reacts}
use shahboard.Examples.Boards.{Board, chess, laws}

abbrev pub fmt : ℕ → Bytes
fmt n = bytes "now"

abbrev pub ann : User
ann = record { id = bytes "1"; email = bytes "a@x"; is_guest = false; score = pos 1500 }

abbrev pub bob : User
bob = record { id = bytes "2"; email = bytes ""; is_guest = true; score = pos 1000 }

pub ann-bob : ann.id ≢ bob.id
ann-bob = ground arith

abbrev pub settings : GameSettings
settings = record { time = 600 }

abbrev pub game : Game Board
game = record {
  id = bytes "77";
  status = status_active;
  player1 = record { id = ann.id; score = ann.score; color = color_white };
  player2 = record { id = bob.id; score = bob.score; color = color_black };
  setting = settings;
  board = chess.new_game;
  offer = none;
  created_at = 5;
  updated_at = 5;
}

pub game-IsValid : IsValid game
game-IsValid = record { colors = inl (refl, refl); distinct = ann-bob; offered = tt }

abbrev pub offered_game : Game Board
offered_game = record game {
  offer = some (record { offerer = ann.id; method = draw_offer; accepted = false; timestamp = 6 });
}

pub offered_game-IsValid : IsValid offered_game
offered_game-IsValid = record { colors = inl (refl, refl); distinct = ann-bob; offered = inl refl }

first-taken : (move chess game ann.id (bytes "e4") (pos 1) 9).1 ≡ none
unfolding move turn_player white_player dec_id ℤ-discrete ◌-ℤ◌ GameOutcome-discrete
first-taken = refl

pub bob-accepts : (accept_draw chess offered_game bob.id).1 ≡ true
unfolding accept_draw is_player dec_id
bob-accepts = refl

pub bob-plays : is_player chess game bob.id ≡ true
unfolding is_player dec_id
bob-plays = refl

move_alternates_example :
    let h = (move chess game ann.id (bytes "e4") (pos 1) 9).0 in
    (chess.moves_count h.board ≡ suc (chess.moves_count game.board))
    × ((m' : Bytes) (j : ℤ) (t : ℕ) → move chess h ann.id m' j t ≡ (h, some not_your_turn))
    × ((q : ObjectId) (m' : Bytes) (t : ℕ) → (move chess h q m' (pos 1) t).1 ≢ none)
move_alternates_example =
    move_alternates chess laws game game-IsValid ann.id (bytes "e4") (pos 1) 9 first-taken

-- White moves and offers a draw, which is not his turn, and black offers one and white agrees.
abbrev peaceful : List Call
peaceful =
    moves ann.id (bytes "e4") (pos 1) 6
    ∷ (offers ann.id 7 ∷ (offers bob.id 8 ∷ (accepts ann.id ∷ [])))

new_game-reacts_example :
    let made = new_game_of chess fmt ann bob settings (bytes "77") 0 5 in
    let h = calls chess made peaceful in
    (view chess h ≡ reacts opening (acts chess made peaceful))
    × ((chess.turn h.board ≡ white) ↔ (chess.moves_count h.board % 2 ≡ 0))
new_game-reacts_example =
    new_game-reacts chess laws fmt ann bob settings (bytes "77") 0 5 ann-bob peaceful
