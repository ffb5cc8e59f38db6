-- ===== src/Game/Lifecycle.antt =====
-- The life of a game as its two players see it: an abstract game, with rules of its own, that the
-- methods of gameservice/entity/entity.go implement. Calls has the proofs for the methods, and Runs
-- those for histories.
pub mod Calls
pub mod Runs
use shahboard.Base.{
  suc, ℤ, pos, ℤ-discrete, ◌&&◌, not, is_some, holds, Bool, true, false, ◌==◌, Option, none, some,
  map, if◌then◌else◌, ℕ,
}
use shahboard.Types.{ObjectId, same_id, GameOutcome, GameOutcome-discrete, no_outcome, draw}
use shahboard.Chess.{ChessLib, ChessColor, white, black, opposite, won_against, draw_offer}
use shahboard.Game.{Game, DrawOffer, status_deactive, white_player, black_player, is_claimable}
use shahboard.Game.Histories.{Call, moves, offers, accepts, rejects, claims, gives_up, ends}

-- What the players see: whose turn it is, how many moves were made, who has offered a draw, the
-- outcome, and whether the game was ended.
pub record View : Type 0 where
  pub mover : ChessColor
  pub count : ℕ
  pub offered : Option ChessColor
  pub result : GameOutcome
  pub ended : Bool

-- What is asked for: a move with its index and the outcome after it, none if the move is illegal;
-- an offer of a draw, or an answer to one; a claim of a draw. An agreement and a claim can be
-- granted or not.
pub data Act : Type 0 where
  moving : ℤ → Option GameOutcome → Act
  offering rejecting giving_up ending : Act
  accepting claiming : Bool → Act

-- Does this side act?
abbrev pub is_side : Option ChessColor → ChessColor → Bool
is_side none c = false
is_side (some white) white = true
is_side (some white) black = false
is_side (some black) white = false
is_side (some black) black = true

-- Does the side act to which a draw is offered?
abbrev pub is_offered : Option ChessColor → Option ChessColor → Bool
is_offered s none = false
is_offered s (some c) = is_side s (opposite c)

-- The result when a side gives up: a game that was decided keeps its result.
abbrev pub given_up_by : ChessColor → GameOutcome → GameOutcome
given_up_by c r = if holds (GameOutcome-discrete r no_outcome) then won_against c else r

-- The rules: the view after an act of a side, or of nobody.
abbrev pub react : View → Option ChessColor → Act → View
react v s (moving i none) = v
react v s (moving i (some r)) =
    if is_side s v.mover && holds (ℤ-discrete i (pos (suc v.count)))
    then record v { mover = opposite v.mover; count = suc v.count; result = r }
    else v
react v s offering =
    if is_side s v.mover && not (is_some v.offered) then record v { offered = some v.mover } else v
react v s (accepting granted) =
    if is_offered s v.offered && granted then record v { result = draw } else v
react v s rejecting = if is_offered s v.offered then record v { offered = none } else v
react v s (claiming granted) = if is_some s && granted then record v { result = draw } else v
react v none giving_up = v
react v (some c) giving_up = record v { result = given_up_by c v.result; ended = true }
react v s ending = record v { ended = true }

module _ (chess : ChessLib) where
  -- The side of a player.
  abbrev pub side_of : Game chess.Board → ObjectId → Option ChessColor
  side_of g p =
      if same_id (white_player chess g).id p
      then some white
      else if same_id (black_player chess g).id p
      then some black
      else none

  -- The side of whoever offered.
  abbrev pub offer_of : Game chess.Board → Option DrawOffer → Option ChessColor
  offer_of g none = none
  offer_of g (some o) = side_of g o.offerer

  abbrev pub view : Game chess.Board → View
  view g = record {
    mover = chess.turn g.board;
    count = chess.moves_count g.board;
    offered = offer_of g g.offer;
    result = chess.outcome g.board;
    ended = g.status == status_deactive;
  }

  -- The side that a call is made by.
  abbrev pub caller : Game chess.Board → Call → Option ChessColor
  caller g (moves p m i now) = side_of g p
  caller g (offers p now) = side_of g p
  caller g (accepts p) = side_of g p
  caller g (rejects p) = side_of g p
  caller g (claims p m) = side_of g p
  caller g (gives_up p d now) = side_of g p
  caller g (ends now) = none

  -- What a call asks for, with what the library says to it.
  abbrev pub act_of : Game chess.Board → Call → Act
  act_of g (moves p m i now) =
      moving i (elim (chess.move_str m g.board) [ none ↦ none | some b ↦ some (chess.outcome b) ])
  act_of g (offers p now) = offering
  act_of g (accepts p) = accepting (is_some (chess.draw_by draw_offer g.board))
  act_of g (rejects p) = rejecting
  act_of g (claims p m) = claiming (is_claimable chess m && is_some (chess.draw_by m g.board))
  act_of g (gives_up p d now) = giving_up
  act_of g (ends now) = ending
