-- ===== src/Game/Creation.antt =====
-- What a game looks like when it is made, and the well-formedness that every method keeps.
use shahboard.Base.{ℕ, ◌≡◌, ◌≢◌, ◌⊎◌, true, false, Option, none, some, arith}
use shahboard.Types.{
  Bytes, ObjectId, lt_bytes, lt_bytes_asymm, lt_bytes_total, Color, color_white, color_black, User,
  no_outcome,
}
use shahboard.Chess.{ChessLib, ChessLaws}
use shahboard.Game.{
  Game, GameSettings, DrawOffer, status_active, tagged, untagged, new_game_of, white_player,
  turn_player, is_player,
}

-- One player is white and the other black.
abbrev HasColors : Color → Color → Type 0
HasColors c d = ((c ≡ color_white) × (d ≡ color_black)) ⊎ ((c ≡ color_black) × (d ≡ color_white))

-- An offer, if there is one, was made by one of the two.
abbrev IsFrom : ObjectId → ObjectId → Option DrawOffer → Type 0
IsFrom p q none = Unit
IsFrom p q (some o) = (o.offerer ≡ p) ⊎ (o.offerer ≡ q)

-- The players are two, of both colours, and a pending draw offer was made by one of them.
pub record IsValid {B : Type 0} (g : Game B) : Type 0 where
  pub colors : HasColors g.player1.color g.player2.color
  pub distinct : g.player1.id ≢ g.player2.id
  pub offered : IsFrom g.player1.id g.player2.id g.offer

module _ (chess : ChessLib) (laws : ChessLaws chess) (fmt : ℕ → Bytes) (now : ℕ) where
  -- Tags do not touch the play.
  pub tagged-same :
      (g : Game chess.Board)
      → let b = tagged chess fmt g now in
        (chess.turn b ≡ chess.turn g.board)
        × (chess.moves_count b ≡ chess.moves_count g.board)
        × (chess.outcome b ≡ chess.outcome g.board)
  unfolding tagged
  tagged-same g = (simp (laws.tag_turn), simp (laws.tag_moves), simp (laws.tag_outcome))

module _ (chess : ChessLib) (laws : ChessLaws chess) (fmt : ℕ → Bytes) (u1 u2 : User)
    (s : GameSettings) (id : ObjectId) (coin now : ℕ) where
  -- Of two users with different identifiers, `NewGame` makes a valid active game with no moves, no
  -- outcome and no draw offer, in which white is to move.
  pub new_game-IsValid :
      u1.id ≢ u2.id
      → let g = new_game_of chess fmt u1 u2 s id coin now in
        IsValid g
        × (g.status ≡ status_active)
        × (chess.moves_count g.board ≡ 0)
        × (chess.outcome g.board ≡ no_outcome)
        × (g.offer ≡ none)
        × (turn_player chess g ≡ white_player chess g)
  unfolding new_game_of turn_player
  new_game-IsValid h = ground (
    arith,
    tagged-same chess laws fmt now (untagged chess u1 u2 s id coin now),
    laws.new_turn,
    laws.new_moves,
    laws.new_outcome,
  )

  -- Two users with different identifiers are both players of their game, the one with the lower
  -- identifier first, and the order in which the two are given does not matter.
  pub new_game_players :
      u1.id ≢ u2.id
      → let g = new_game_of chess fmt u1 u2 s id coin now in
        let h = new_game_of chess fmt u2 u1 s id coin now in
        (lt_bytes g.player2.id g.player1.id ≡ false)
        × (is_player chess g u1.id ≡ true)
        × (is_player chess g u2.id ≡ true)
        × (g ≡ h)
  unfolding new_game_of is_player
  new_game_players h =
      ground
        (arith, lt_bytes_asymm u1.id u2.id, lt_bytes_asymm u2.id u1.id, lt_bytes_total u1.id u2.id)
