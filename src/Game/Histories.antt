-- ===== src/Game/Histories.antt =====
-- Every sequence of method calls on a game.
use shahboard.Base.{ℕ, ℤ, ◌≡◌, ◌∙◌, refl, arith, List, [], ◌∷◌}
use shahboard.Types.{Bytes, ObjectId}
use shahboard.Chess.{ChessLib, Method}
use shahboard.Game.{
  Game, EndDescription, move, offer_draw, accept_draw, reject_draw, claim_draw, resign_with,
  end_game,
}
use shahboard.Game.Creation.{IsValid}

-- A call of a method that may change the game, with the time of the call.
pub data Call : Type 0 where
  moves : ObjectId → Bytes → ℤ → ℕ → Call
  offers : ObjectId → ℕ → Call
  accepts rejects : ObjectId → Call
  claims : ObjectId → Method → Call
  gives_up : ObjectId → EndDescription → ℕ → Call
  ends : ℕ → Call

module _ (chess : ChessLib) where
  unfoldable pub call : Game chess.Board → Call → Game chess.Board
  call g (moves p m i now) = (move chess g p m i now).0
  call g (offers p now) = (offer_draw chess g p now).0
  call g (accepts p) = (accept_draw chess g p).0
  call g (rejects p) = (reject_draw chess g p).0
  call g (claims p m) = (claim_draw chess g p m).0
  call g (gives_up p d now) = (resign_with chess g p d now).0
  call g (ends now) = (end_game chess g now).0

  unfoldable pub calls : Game chess.Board → List Call → Game chess.Board
  calls g [] = g
  calls g (c ∷ cs) = calls (call g c) cs

  pub call-same :
      (g : Game chess.Board) (c : Call)
      → ((call g c).player1 ≡ g.player1) × ((call g c).player2 ≡ g.player2) × ((call g c).id ≡ g.id)
  unfolding call move offer_draw accept_draw reject_draw claim_draw resign_with end_game
  call-same g (moves p m i now) = ground arith
  call-same g c = ground arith

  pub call-IsValid : (g : Game chess.Board) (c : Call) → IsValid g → IsValid (call g c)
  unfolding call move offer_draw accept_draw reject_draw claim_draw resign_with end_game
  call-IsValid g (moves p m i now) v = ground (arith, v.offered)
  call-IsValid g c v = ground (arith, v.offered)

  -- Whatever is called on a valid game, in whatever order, the game stays valid: the two players and
  -- their colours never change, and a pending draw offer always comes from one of the two.
  pub calls-IsValid :
      (g : Game chess.Board) (cs : List Call)
      → IsValid g
      → IsValid (calls g cs)
        × ((calls g cs).player1 ≡ g.player1)
        × ((calls g cs).player2 ≡ g.player2)
        × ((calls g cs).id ≡ g.id)
  unfolding calls
  calls-IsValid g [] v = (v, refl, refl, refl)
  calls-IsValid g (c ∷ cs) v =
      let (w, p, q, i) = calls-IsValid (call g c) cs (call-IsValid g c v) in
      let (p', q', i') = call-same g c in (w, p ∙ p', q ∙ q', i ∙ i')
