-- ===== src/Examples/Boards.antt =====
-- A small chess library: a board is its list of moves and its outcome. The move "#" mates.
use shahboard.Base.{
  Bool, true, false, not, ◌||◌, List, [], ◌∷◌, ◌++◌, Option, none, some, holds, if◌then◌else◌,
  length, refl, arith,
}
use shahboard.Types.{Bytes, bytes, same_id, GameOutcome, GameOutcome-discrete, no_outcome, draw}
use shahboard.Chess.{
  ChessLib, ChessLaws, ChessColor, white, opposite, won_against, Method, draw_offer,
  threefold_repetition, fifty_move_rule, other_method,
}

pub record Board : Type 0 where
  pub tags : List (Bytes × Bytes)
  pub moves : List Bytes
  pub outcome : GameOutcome

abbrev pub is_open : Board → Bool
is_open b = holds (GameOutcome-discrete b.outcome no_outcome)

abbrev turn_after : List Bytes → ChessColor
turn_after [] = white
turn_after (m ∷ ms) = opposite (turn_after ms)

abbrev outcome_after : Bytes → ChessColor → GameOutcome
outcome_after m c = if same_id m (bytes "#") then won_against (opposite c) else no_outcome

abbrev move_on : Bytes → Board → Option Board
move_on m b =
    if same_id m (bytes "") || not (is_open b)
    then none
    else some (record b { moves = m ∷ b.moves; outcome = outcome_after m (turn_after b.moves) })

-- The rule methods want moves that can repeat.
abbrev allows : Method → List Bytes → Bool
allows draw_offer ms = true
allows other_method ms = false
allows threefold_repetition [] = false
allows threefold_repetition (m ∷ ms) = true
allows fifty_move_rule [] = false
allows fifty_move_rule (m ∷ ms) = true

abbrev draw_on : Method → Board → Option Board
draw_on m b = if allows m b.moves then some (record b { outcome = draw }) else none

abbrev resign_on : ChessColor → Board → Board
resign_on c b = if is_open b then record b { outcome = won_against c } else b

abbrev text_of : List Bytes → Bytes
text_of [] = []
text_of (m ∷ ms) = text_of ms ++ (bytes " " ++ m)

abbrev pub chess : ChessLib
chess = record {
  Board = Board;
  new_game = record { tags = []; moves = []; outcome = no_outcome };
  add_tag_pair = λ k v b. record b { tags = (k, v) ∷ b.tags };
  move_str = move_on;
  moves_count = λ b. length b.moves;
  turn = λ b. turn_after b.moves;
  draw_by = draw_on;
  resign = resign_on;
  outcome = λ b. b.outcome;
  marshal_text = λ b. text_of b.moves;
  unmarshal_text = λ t. some (record { tags = []; moves = t ∷ []; outcome = no_outcome });
}

pub laws : ChessLaws chess
laws = record {
  new_turn = refl;
  new_moves = refl;
  new_outcome = refl;
  tag_turn = λ k v b. refl;
  tag_moves = λ k v b. refl;
  tag_outcome = λ k v b. refl;
  move_moves = λ m b b' e. ground arith;
  move_turn = λ m b b' e. ground arith;
  draw_outcome = λ m b b' e. ground arith;
  draw_turn = λ m b b' e. ground arith;
  draw_moves = λ m b b' e. ground arith;
  resign_turn = λ k b. ground arith;
  resign_moves = λ k b. ground arith;
  resign_open = λ k b e. ground arith;
  resign_done = λ k b e. ground arith;
}
