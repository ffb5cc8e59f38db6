-- ===== src/Game.antt =====
-- gameservice/entity/entity.go and desc.go: the game of two players over a chess board.
-- A method that changes its receiver returns the new game. Each call is one step: `Move` and the
-- methods on draws hold the game's lock, while `Resign`, `PlayerLeft` and `EndGame` take none, so that
-- what a call beside them could interleave is left out.
-- `time.Now()`, `types.NewObjectId()` and `rand.Intn(2)` are arguments.
pub mod Creation
pub mod Moves
pub mod Draws
pub mod Ending
pub mod Histories
pub mod Lifecycle
pub mod Encoding
use shahboard.Base.{
  ℕ, suc, ◌+◌, ◌%◌, ℤ, pos, ◌-ℤ◌, ℤ-discrete, Bool, true, false, not, ◌&&◌, ◌||◌, List, ◌++◌,
  Option, none, some, ◌==◌, holds, if◌then◌else◌,
}
use shahboard.Types.{
  Bytes, bytes, ObjectId, same_id, dec_id, lt_bytes, Color, color_white, color_black, Player, User,
  GameOutcome,
}
use shahboard.Decimal.{decimal}
use shahboard.Chess.{
  ChessLib, ChessColor, Method, white, black, draw_offer, threefold_repetition, fifty_move_rule,
  other_method,
}

-- `GameStatus` is a uint8.
abbrev pub GameStatus : Type 0
GameStatus = ℕ

abbrev pub status_active : GameStatus
status_active = 1

abbrev pub status_deactive : GameStatus
status_deactive = 2

-- desc.go
pub data EndDescription : Type 0 where
  empty player_resigned player_left player_timeout game_timeout : EndDescription

unfoldable pub description_string : EndDescription → Bytes
description_string empty = bytes ""
description_string player_resigned = bytes "player_resigned"
description_string player_left = bytes "player_left"
description_string player_timeout = bytes "player_timeout"
description_string game_timeout = bytes "game_timeout"

pub record DrawOffer : Type 0 where
  pub offerer : ObjectId
  pub method : Method
  pub accepted : Bool
  pub timestamp : ℕ

-- `GameSettings.Time`, in nanoseconds.
pub record GameSettings : Type 0 where
  pub time : ℕ

pub record Game (Board : Type 0) : Type 0 where
  pub id : ObjectId
  pub status : GameStatus
  pub player1 : Player
  pub player2 : Player
  pub setting : GameSettings
  pub board : Board
  pub offer : Option DrawOffer
  pub created_at : ℕ
  pub updated_at : ℕ

-- The lower identifier comes first.
unfoldable set_players_id : User → User → Player × Player
unfolding lt_bytes
set_players_id u1 u2 = if lt_bytes u1.id u2.id then (p1, p2) else (p2, p1)
  where
    p1 : Player
    p1 = record { id = u1.id; score = u1.score; color = 0 }

    p2 : Player
    p2 = record { id = u2.id; score = u2.score; color = 0 }

-- `coin` is what `rand.Intn(2)` returns.
unfoldable set_colors : ℕ → Color × Color
set_colors coin =
    if coin + 1 == color_white then (color_white, color_black) else (color_black, color_white)

unfoldable pub color_to_chess_color : Color → ChessColor
color_to_chess_color c = if c == color_white then white else black

-- The reasons for which a move is refused.
pub data MoveError : Type 0 where
  not_your_turn invalid_move_index illegal_move : MoveError

module _ (chess : ChessLib) where
  open chess use {
    Board, new_game, add_tag_pair, move_str, moves_count, turn, draw_by, resign, outcome,
    marshal_text,
  }

  unfoldable pub white_player : Game Board → Player
  white_player g = if g.player1.color == color_white then g.player1 else g.player2

  unfoldable pub black_player : Game Board → Player
  black_player g = if g.player1.color == color_black then g.player1 else g.player2

  -- The tags of a new game; `fmt_time` is `t.Format(time.RFC3339)`.
  unfoldable pub tagged : (ℕ → Bytes) → Game Board → ℕ → Board
  unfolding white_player black_player
  tagged fmt_time g now = add_tag_pair (bytes "updated_at") (fmt_time now) (
      add_tag_pair (bytes "created_at") (fmt_time now) (
        add_tag_pair (bytes "b") (black_player g).id
          (add_tag_pair (bytes "w") (white_player g).id (add_tag_pair (bytes "id") g.id g.board))))

  -- The literal of `NewGame`, before its tags.
  unfoldable pub untagged : User → User → GameSettings → ObjectId → ℕ → ℕ → Game Board
  unfolding set_players_id set_colors
  untagged u1 u2 s id coin now =
      let (p1, p2) = set_players_id u1 u2 in
      let (c1, c2) = set_colors coin in
      record {
        id = id;
        status = status_active;
        player1 = record p1 { color = c1 };
        player2 = record p2 { color = c2 };
        setting = s;
        board = new_game;
        offer = none;
        created_at = now;
        updated_at = now;
      }

  -- `NewGame`
  unfoldable pub new_game_of :
      (ℕ → Bytes) → User → User → GameSettings → ObjectId → ℕ → ℕ → Game Board
  unfolding untagged
  new_game_of fmt_time u1 u2 s id coin now =
      let g = untagged u1 u2 s id coin now in record g { board = tagged fmt_time g now }

  unfoldable pub is_player : Game Board → ObjectId → Bool
  is_player g p = same_id g.player1.id p || same_id g.player2.id p

  unfoldable pub turn_player : Game Board → Player
  unfolding white_player black_player
  turn_player g = elim (turn g.board) [ white ↦ white_player g | black ↦ black_player g ]

  -- `Game.Move`; the option is its error.
  unfoldable pub move : Game Board → ObjectId → Bytes → ℤ → ℕ → Game Board × Option MoveError
  unfolding turn_player ℤ-discrete ◌-ℤ◌
  move g player m index now =
      if not (same_id (turn_player g).id player)
      then (g, some not_your_turn)
      else if not (holds (ℤ-discrete (index -ℤ pos 1) (pos (moves_count g.board))))
      then (g, some invalid_move_index)
      else elim (move_str m g.board) [
        | none ↦ (g, some illegal_move)
        | some b ↦ (record g { board = b; updated_at = now }, none)
      ]

  -- `Game.OfferDraw`
  unfoldable pub offer_draw : Game Board → ObjectId → ℕ → Game Board × Bool
  unfolding is_player turn_player
  offer_draw g offerer now =
      if not (is_player g offerer)
      then (g, false)
      else if not (same_id (turn_player g).id offerer)
      then (g, false)
      else elim g.offer [
        | some o ↦ (g, false)
        | none ↦ (
          record g {
            offer = some (record {
              offerer = offerer;
              method = draw_offer;
              accepted = false;
              timestamp = now;
            });
          },
          true,
        )
      ]

  -- `Game.AcceptDraw`
  unfoldable pub accept_draw : Game Board → ObjectId → Game Board × Bool
  unfolding is_player
  accept_draw g acceptor = if not (is_player g acceptor) then (g, false) else elim g.offer [
    | none ↦ (g, false)
    | some o ↦
        if same_id acceptor o.offerer then (g, false) else elim (draw_by draw_offer g.board) [
          | none ↦ (g, false)
          | some b ↦ (record g { board = b; offer = some (record o { accepted = true }) }, true)
        ]
  ]

  -- `Game.RejectDraw`
  unfoldable pub reject_draw : Game Board → ObjectId → Game Board × Bool
  unfolding is_player
  reject_draw g rejector = if not (is_player g rejector) then (g, false) else elim g.offer [
    | none ↦ (g, false)
    | some o ↦ if same_id rejector o.offerer then (g, false) else (record g { offer = none }, true)
  ]

  abbrev is_claimable : Method → Bool
  is_claimable threefold_repetition = true
  is_claimable fifty_move_rule = true
  is_claimable draw_offer = false
  is_claimable other_method = false

  -- `Game.ClaimDraw`
  unfoldable pub claim_draw : Game Board → ObjectId → Method → Game Board × Bool
  unfolding is_player
  claim_draw g player m =
      if not (is_claimable m)
      then (g, false)
      else if not (is_player g player)
      then (g, false)
      else elim (draw_by m g.board) [ none ↦ (g, false) | some b ↦ (record g { board = b }, true) ]

  unfoldable pub deactivate : Game Board → EndDescription → ℕ → Game Board × Bool
  unfolding description_string
  deactivate g desc now = (
    record g {
      status = status_deactive;
      board = add_tag_pair (bytes "end_description") (description_string desc) g.board;
      updated_at = now;
    },
    true,
  )

  unfoldable pub resign_with : Game Board → ObjectId → EndDescription → ℕ → Game Board × Bool
  unfolding deactivate color_to_chess_color
  resign_with g player desc now =
      if same_id g.player1.id player
      then deactivate (record g { board = resign (color_to_chess_color g.player1.color) g.board })
          desc now
      else if same_id g.player2.id player
      then deactivate (record g { board = resign (color_to_chess_color g.player2.color) g.board })
          desc now
      else (g, false)

  -- `Game.Resign`
  unfoldable pub resign_player : Game Board → ObjectId → ℕ → Game Board × Bool
  unfolding resign_with
  resign_player g player now = resign_with g player player_resigned now

  -- `Game.PlayerLeft`
  unfoldable pub leave : Game Board → ObjectId → ℕ → Game Board × Bool
  unfolding resign_with
  leave g player now = resign_with g player player_left now

  -- `Game.EndGame`
  unfoldable pub end_game : Game Board → ℕ → Game Board × Bool
  unfolding deactivate
  end_game g now = deactivate g empty now

  -- `Game.Outcome`
  abbrev pub game_outcome : Game Board → GameOutcome
  game_outcome g = outcome g.board

  abbrev pub colon : Bytes
  colon = bytes ":"

  -- `Game.Encode`: a header line of six fields, and the text of the board.
  unfoldable pub encode : Game Board → Bytes
  unfolding decimal
  encode g =
      g.id
      ++ (colon
          ++ (decimal g.status
              ++ (colon
                  ++ (g.player1.id
                      ++ (colon
                          ++ (decimal g.player1.color
                              ++ (colon
                                  ++ (g.player2.id
                                      ++ (colon
                                          ++ (decimal g.player2.color
                                              ++ (bytes "\n" ++ marshal_text g.board)))))))))))
