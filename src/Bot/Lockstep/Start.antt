-- ===== src/Bot/Lockstep/Start.antt =====
-- A bot that learns of its new game, and a bot that resumes, against the game service's game.
use shahboard.Base.{ℕ, ◌≡◌, List, [], ◌∷◌, refl, arith, true}
use shahboard.Types.{Bytes, bytes, ObjectId, User}
use shahboard.Chess.{ChessLib}
use shahboard.Event.{GameCreated}
use shahboard.Game.{
  Game, GameSettings, new_game_of, tagged, untagged, white_player, black_player, is_player,
}
use shahboard.Bot.{Client, created_game}
use shahboard.Bot.Lockstep.{Lockstep, tag_all}

-- A bot is told of a game that is made, and is one of its two players.
told-Lockstep :
    (chess : ChessLib) (client : Client chess) (g : Game chess.Board) (ts : List (Bytes × Bytes))
    (e : GameCreated) (me : ObjectId)
    → (e.game_id ≡ g.id) × (e.player1 ≡ g.player1) × (e.player2 ≡ g.player2)
    → is_player chess g me ≡ true
    → g.board ≡ tag_all chess ts chess.new_game
    → Lockstep chess g (created_game chess client me e)
unfolding created_game is_player
told-Lockstep chess client g ts e me (same, one, two) mine made = record {
  same_game = ground arith;
  same_players = ground arith;
  tags = ts;
  same_board =
      let start : (created_game chess client me e).board ≡ chess.new_game = ground arith in
      rw start made;
}

module _ (chess : ChessLib) (client : Client chess) (fmt : ℕ → Bytes) (u1 u2 : User)
    (s : GameSettings) (id : ObjectId) (coin now : ℕ) where
  -- The news that the service publishes of a new game, as far as a bot reads it.
  abbrev Announces : GameCreated → Type 0
  Announces e =
      let g = new_game_of chess fmt u1 u2 s id coin now in
      (e.game_id ≡ g.id) × (e.player1 ≡ g.player1) × (e.player2 ≡ g.player2)

  -- A bot that is a player of a new game and is told of it starts in step with the service.
  pub created_game-Lockstep :
      (e : GameCreated) (me : ObjectId)
      → Announces e
      → is_player chess (new_game_of chess fmt u1 u2 s id coin now) me ≡ true
      → Lockstep chess (new_game_of chess fmt u1 u2 s id coin now) (created_game chess client me e)
  unfolding new_game_of
  created_game-Lockstep e me told mine =
      told-Lockstep chess client (new_game_of chess fmt u1 u2 s id coin now) tags e me told mine
        made
    where
      first : Game chess.Board
      first = untagged chess u1 u2 s id coin now

      tags : List (Bytes × Bytes)
      tags =
          (bytes "updated_at", fmt now)
          ∷ (bytes "created_at", fmt now)
          ∷ (bytes "b", (black_player chess first).id)
          ∷ (bytes "w", (white_player chess first).id)
          ∷ (bytes "id", first.id)
          ∷ []

      made : tagged chess fmt first now ≡ tag_all chess tags chess.new_game
      made = unfold tagged untagged in refl
