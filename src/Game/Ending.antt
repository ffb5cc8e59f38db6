-- ===== src/Game/Ending.antt =====
-- Resignation, leaving and the end of a game.
use shahboard.Base.{ℕ, ◌≡◌, ◌≢◌, true, arith, if◌then◌else◌}
use shahboard.Types.{bytes, ObjectId, same_id, no_outcome, white_won, black_won}
use shahboard.Chess.{ChessLib, ChessLaws, white, black}
use shahboard.Game.{
  Game, EndDescription, status_deactive, description_string, is_player, white_player, resign_with,
  color_to_chess_color,
}
use shahboard.Game.Creation.{IsValid}

-- A deactivated game has an outcome.
module _ (chess : ChessLib) (laws : ChessLaws chess) (g : Game chess.Board) (p : ObjectId)
    (desc : EndDescription) (now : ℕ) where
  -- In a valid game in progress the one who gives up loses: the game is deactivated, and won by
  -- black if white gave up and by white if black did.
  pub resign_loses :
      IsValid g
      → chess.outcome g.board ≡ no_outcome
      → is_player chess g p ≡ true
      → let (h, done) = resign_with chess g p desc now in
        (done ≡ true)
        × (h.status ≡ status_deactive)
        × (h.updated_at ≡ now)
        × (chess.outcome h.board
            ≡ (if same_id (white_player chess g).id p then black_won else white_won))
  unfolding resign_with is_player white_player color_to_chess_color
  resign_loses v open_game pl = ground (
    arith,
    v.colors,
    v.distinct,
    laws.resign_open white g.board,
    laws.resign_open black g.board,
    laws.tag_outcome (bytes "end_description") (description_string desc)
        (chess.resign white g.board),
    laws.tag_outcome (bytes "end_description") (description_string desc)
        (chess.resign black g.board),
  )

  -- A completed game keeps its outcome when someone resigns it.
  resign_completed :
      chess.outcome g.board ≢ no_outcome
      → chess.outcome (resign_with chess g p desc now).0.board ≡ chess.outcome g.board
  unfolding resign_with
  resign_completed over = ground (
    arith,
    laws.resign_done white g.board over,
    laws.resign_done black g.board over,
    laws.tag_outcome (bytes "end_description") (description_string desc) g.board,
  )
