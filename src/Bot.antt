-- ===== src/Bot.antt =====
-- client-go/bot/game.go: the bot that plays a game over the gateway. Random choices, the room in the
-- queue to the gateway, and what the chess library offers to clients are parameters; waiting is left
-- out. A message to the gateway is the request that it carries.
pub mod Choosing
pub mod Lockstep
pub mod PubSub
pub mod Talk
use shahboard.Base.{
  ℕ, zero, suc, ◌≡◌, ◌≢◌, ℤ, pos, ◌-ℤ◌, ℤ-discrete, Bool, true, false, not, ◌||◌, List, [], ◌∷◌,
  Option, none, some, ◌>>=◌, length, holds, ◌==◌, if◌then◌else◌, is_some,
}
use shahboard.Types.{
  Bytes, bytes, ObjectId, same_id, Color, color_white, color_black, GameOutcome,
  GameOutcome-discrete, no_outcome,
}
use shahboard.Chess.{ChessLib, white, black}
use shahboard.Event.{MoveEvent, GameCreated, GameEnded}

-- What a client uses of the chess library besides.
pub record Client (chess : ChessLib) : Type 1 where
  -- `*chess.Move`
  pub Move : Type 0
  pub valid_moves : chess.Board → List Move
  -- `AlgebraicNotation{}.Encode`
  pub notation : chess.Board → Move → Bytes
  -- `UCINotation{}.Decode`; `none` is its error.
  pub parse_uci : chess.Board → Bytes → Option Move
  -- `GetTagPair`, with the value of the tag
  pub get_tag_pair : Bytes → chess.Board → Option Bytes
  -- `NewGame(f)` for the option `f` that `PGN` makes; `none` is the error of `PGN`.
  pub pgn : Bytes → Option chess.Board

-- `game`, with the identifier of its bot.
pub record BotGame (Board : Type 0) : Type 0 where
  pub player_id : ObjectId
  pub id : ObjectId
  pub color : Color
  pub opponent_id : ObjectId
  pub board : Board

-- What one run of a handler meets: `rand.Intn`, and whether the queue to the gateway has room at
-- each attempt.
pub record BotEnv : Type 0 where
  pub rand : ℕ → ℕ
  pub has_room : ℕ → Bool

-- `strings.Contains(s, "x")`
unfoldable pub contains_x : Bytes → Bool
contains_x [] = false
contains_x (c ∷ cs) = c == b'x' || contains_x cs

-- `xs[i]`
unfoldable pub at {ℓ} : {A : Type ℓ} → List A → ℕ → Option A
at [] i = none
at (x ∷ xs) zero = some x
at (x ∷ xs) (suc i) = at xs i

-- A loop that gives up at the third failure: `attempt` counts the failures so far.
unfoldable pub try_from {ℓ} : {A : Type ℓ} → (ℕ → Option A) → ℕ → ℕ → Option A
try_from f zero count = none
try_from f (suc left) count = elim (f count) [
  | none ↦ try_from f left (suc count)
  | some a ↦ some a
]

module _ (chess : ChessLib) (client : Client chess) where
  open chess use {Board, move_str, moves_count, turn, outcome, new_game}
  open client use {Move, valid_moves, notation, parse_uci, get_tag_pair, pgn}

  -- `bestMove`: at each attempt the engine answers with a text or an error.
  unfoldable best_move : Board → (ℕ → Option Bytes) → Option Move
  unfolding try_from
  best_move b engine = try_from (λ k. engine k >>= parse_uci b) 3 0

  -- The loop of `randMove` over the valid moves: the first one that takes a piece.
  unfoldable pub first_capture : Board → List Move → Option Bytes
  unfolding contains_x
  first_capture b [] = none
  first_capture b (m ∷ ms) =
      if contains_x (notation b m) then some (notation b m) else first_capture b ms

  -- `randMove`; `none` is the panic that no valid move leads to.
  unfoldable pub rand_move : BotEnv → Board → Option Bytes
  unfolding first_capture at
  rand_move env b = elim (first_capture b (valid_moves b)) [
    | some s ↦ some s
    | none ↦ at (valid_moves b) (env.rand (length (valid_moves b))) >>= λ m. some (notation b m)
  ]

  -- `sendMove`: what reaches the queue, if one of three attempts finds room.
  unfoldable pub send_move : BotEnv → BotGame Board → Bytes → Option MoveEvent
  unfolding try_from
  send_move env g m =
      try_from
        (λ k.
          if env.has_room k
          then some (record {
            id = bytes "";
            game_id = g.id;
            player_id = g.player_id;
            move = m;
            index = pos (moves_count g.board);
            timestamp = 0;
          })
          else none)
        3 0

  unfoldable pub is_over : Board → Bool
  unfolding GameOutcome-discrete
  is_over b = not (holds (GameOutcome-discrete (outcome b) no_outcome))

  -- The bot's own move: chosen, played on its board, and sent.
  unfoldable pub play_own : BotEnv → BotGame Board → Option (BotGame Board × Option MoveEvent)
  unfolding rand_move send_move
  play_own env g = rand_move env g.board >>= λ m. elim (move_str m g.board) [
    | none ↦ some (g, none)
    | some b ↦ let g' = record g { board = b } in some (g', send_move env g' m)
  ]

  -- `handleMoveApproved`: the game afterwards and what is sent. `none` is a panic.
  unfoldable pub handle_move_approved :
      BotEnv → BotGame Board → MoveEvent → Option (BotGame Board × Option MoveEvent)
  unfolding play_own is_over ◌-ℤ◌ ℤ-discrete
  handle_move_approved env g e =
      if not (same_id e.game_id g.id)
        || (not (same_id e.player_id g.opponent_id)
            || not (holds (ℤ-discrete (e.index -ℤ pos 1) (pos (moves_count g.board)))))
      then some (g, none)
      else elim (move_str e.move g.board) [
        | none ↦ some (g, none)
        | some b ↦
            let g' = record g { board = b } in
            if is_over b then some (g', none) else play_own env g'
      ]

  -- The first move of `run`, when it is the bot's turn. `types.Color(Turn())` counts white as 1 too.
  abbrev turn_color : Board → Color
  turn_color b = elim (turn b) [ white ↦ color_white | black ↦ color_black ]

  unfoldable first_move : BotEnv → BotGame Board → Option (BotGame Board × Option MoveEvent)
  unfolding play_own
  first_move env g = if turn_color g.board == g.color then play_own env g else some (g, none)

  -- `handleGameEnd`: does the game stop?
  unfoldable handle_game_end : BotGame Board → GameEnded → Option (BotGame Board)
  handle_game_end g e = if same_id e.game_id g.id then none else some g

  -- The game that `Create` makes from the news of its creation.
  unfoldable pub created_game : ObjectId → GameCreated → BotGame Board
  created_game me e =
      if same_id me e.player1.id
      then record {
        player_id = me;
        id = e.game_id;
        color = e.player1.color;
        opponent_id = e.player2.id;
        board = new_game;
      }
      else record {
        player_id = me;
        id = e.game_id;
        color = e.player2.color;
        opponent_id = e.player1.id;
        board = new_game;
      }

  -- The game that `Resume` makes from the text of the moves; `none` is its error.
  unfoldable resumed_game : ObjectId → ObjectId → Bytes → Option (BotGame Board)
  unfolding is_over
  resumed_game me game text = pgn text >>= λ b.
      if is_over b
      then none
      else get_tag_pair (bytes "w") b >>= λ w. get_tag_pair (bytes "b") b >>= λ k. some (
          if same_id w me
          then record { player_id = me; id = game; color = color_white; opponent_id = k; board = b }
          else record {
            player_id = me;
            id = game;
            color = color_black;
            opponent_id = w;
            board = b;
          })
