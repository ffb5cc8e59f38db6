-- ===== src/Chess.antt =====
-- What the services use of the chess library github.com/notnil/chess, which is not part of the
-- repository: an abstract board with its operations, and the documented behaviour that is relied on.
use shahboard.Base.{ℕ, suc, ◌≡◌, ◌≢◌, Option, some}
use shahboard.Types.{Bytes, GameOutcome, no_outcome, white_won, black_won, draw}

-- `chess.Color`
pub data ChessColor : Type 0 where
  white black : ChessColor

-- `chess.Method`; `other_method` stands for the methods that no client may claim.
pub data Method : Type 0 where
  draw_offer threefold_repetition fifty_move_rule other_method : Method

abbrev pub opposite : ChessColor → ChessColor
opposite white = black
opposite black = white

-- The outcome of a resignation.
abbrev pub won_against : ChessColor → GameOutcome
won_against white = black_won
won_against black = white_won

pub record ChessLib : Type 1 where
  -- `*chess.Game`
  pub Board : Type 0
  -- `NewGame(UseNotation(AlgebraicNotation{}))`
  pub new_game : Board
  pub add_tag_pair : Bytes → Bytes → Board → Board
  -- `MoveStr`; `none` is its error, after which the game is as before.
  pub move_str : Bytes → Board → Option Board
  -- `len(Moves())`
  pub moves_count : Board → ℕ
  -- `Position().Turn()`
  pub turn : Board → ChessColor
  -- `Draw`; `none` is its error.
  pub draw_by : Method → Board → Option Board
  pub resign : ChessColor → Board → Board
  pub outcome : Board → GameOutcome
  pub marshal_text : Board → Bytes
  -- `UnmarshalText` on a new game; `none` is its error.
  pub unmarshal_text : Bytes → Option Board

-- Documented behaviour of the library.
pub record ChessLaws (c : ChessLib) : Type 0 where
  pub new_turn : c.turn c.new_game ≡ white
  pub new_moves : c.moves_count c.new_game ≡ 0
  pub new_outcome : c.outcome c.new_game ≡ no_outcome
  pub tag_turn : (k v : Bytes) (b : c.Board) → c.turn (c.add_tag_pair k v b) ≡ c.turn b
  pub tag_moves :
      (k v : Bytes) (b : c.Board) → c.moves_count (c.add_tag_pair k v b) ≡ c.moves_count b
  pub tag_outcome : (k v : Bytes) (b : c.Board) → c.outcome (c.add_tag_pair k v b) ≡ c.outcome b
  -- a move is recorded and passes the turn
  pub move_moves :
      (m : Bytes) (b b' : c.Board)
      → c.move_str m b ≡ some b'
      → c.moves_count b' ≡ suc (c.moves_count b)
  pub move_turn :
      (m : Bytes) (b b' : c.Board) → c.move_str m b ≡ some b' → c.turn b' ≡ opposite (c.turn b)
  -- a draw by a valid method sets the outcome
  pub draw_outcome : (m : Method) (b b' : c.Board) → c.draw_by m b ≡ some b' → c.outcome b' ≡ draw
  -- a draw and a resignation make no move
  pub draw_turn : (m : Method) (b b' : c.Board) → c.draw_by m b ≡ some b' → c.turn b' ≡ c.turn b
  pub draw_moves :
      (m : Method) (b b' : c.Board) → c.draw_by m b ≡ some b' → c.moves_count b' ≡ c.moves_count b
  pub resign_turn : (k : ChessColor) (b : c.Board) → c.turn (c.resign k b) ≡ c.turn b
  pub resign_moves : (k : ChessColor) (b : c.Board) → c.moves_count (c.resign k b) ≡ c.moves_count b
  -- resigning decides a game in progress, and leaves a completed one alone
  pub resign_open :
      (k : ChessColor) (b : c.Board)
      → c.outcome b ≡ no_outcome
      → c.outcome (c.resign k b) ≡ won_against k
  pub resign_done : (k : ChessColor) (b : c.Board) → c.outcome b ≢ no_outcome → c.resign k b ≡ b
