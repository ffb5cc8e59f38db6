-- ===== src/Game/Draws.antt =====
-- Draw offers and claims: `OfferDraw`, `AcceptDraw`, `RejectDraw`, `ClaimDraw`.
use shahboard.Base.{ℕ, ◌≡◌, ◌⊎◌, ◌↔◌, true, false, none, some, arith, Option-cases, inl, inr}
use shahboard.Types.{ObjectId, draw}
use shahboard.Chess.{ChessLib, ChessLaws, Method, draw_offer, threefold_repetition, fifty_move_rule}
use shahboard.Game.{
  Game, DrawOffer, turn_player, is_player, offer_draw, accept_draw, reject_draw, claim_draw,
}
use shahboard.Game.Creation.{IsValid}

-- The two players of a game, in either order.
abbrev ArePlayers : {B : Type 0} → Game B → ObjectId → ObjectId → Type 0
ArePlayers g p q =
    ((p ≡ g.player1.id) × (q ≡ g.player2.id)) ⊎ ((p ≡ g.player2.id) × (q ≡ g.player1.id))

module _ (chess : ChessLib) (g : Game chess.Board) where
  -- In a valid game an offer stands exactly when the player to move makes it while none is
  -- pending; nothing but the offer changes, and a refused offer changes nothing.
  offer_draw_lem :
      (p : ObjectId) (now : ℕ)
      → IsValid g
      → (((offer_draw chess g p now).1 ≡ true)
          ↔ (((turn_player chess g).id ≡ p) × (g.offer ≡ none)))
        × ((offer_draw chess g p now).1 ≡ false → (offer_draw chess g p now).0 ≡ g)
        × ((offer_draw chess g p now).1 ≡ true
            → (offer_draw chess g p now).0 ≡ (record g {
              offer =
                  some (record {
                    offerer = p;
                    method = draw_offer;
                    accepted = false;
                    timestamp = now;
                  });
            }))
  unfolding offer_draw is_player turn_player
  offer_draw_lem p now v = (ground arith, ground arith, ground arith)

  -- An offer that a player of a valid game has just made: its offerer can neither accept nor
  -- reject it, no second offer is taken, and the opponent's rejection restores the game.
  offer_draw-then :
      (p q : ObjectId) (now later : ℕ)
      → IsValid g
      → ArePlayers g p q
      → (offer_draw chess g p now).1 ≡ true
      → let h = (offer_draw chess g p now).0 in
        (accept_draw chess h p ≡ (h, false))
        × (reject_draw chess h p ≡ (h, false))
        × ((r : ObjectId) → offer_draw chess h r later ≡ (h, false))
        × (reject_draw chess h q ≡ (g, true))
  unfolding offer_draw accept_draw reject_draw is_player
  offer_draw-then p q now later v pl made =
      (ground arith, ground arith, λ r. ground arith, ground arith)

  -- In a valid game a draw by agreement takes both players: whoever accepts, the other one has
  -- offered. The outcome is then a draw, and the offer is marked as accepted.
  pub accept_draw_agreed :
      (laws : ChessLaws chess) (a : ObjectId)
      → IsValid g
      → (accept_draw chess g a).1 ≡ true
      → (o : DrawOffer) × (g.offer ≡ some o)
        × ArePlayers g a o.offerer
        × (chess.outcome (accept_draw chess g a).0.board ≡ draw)
        × ((accept_draw chess g a).0.offer ≡ some (record o { accepted = true }))
  unfolding accept_draw is_player
  accept_draw_agreed laws a v done = elim (Option-cases g.offer) [
    | inl e ↦ ground arith
    | inr (o, e) ↦ elim (Option-cases (chess.draw_by draw_offer g.board)) [
      | inl f ↦ ground arith
      | inr (b, f) ↦ (
        o,
        e,
        ground (arith, v.offered),
        ground (arith, laws.draw_outcome draw_offer g.board b),
        ground arith,
      )
    ]
  ]

  -- A claim that succeeds is a player's, by one of the two methods that may be claimed, and
  -- makes the outcome a draw. A player's claim by such a method succeeds where the library
  -- grants it. A claim that fails changes nothing.
  claim_draw_lem :
      (laws : ChessLaws chess) (p : ObjectId) (m : Method)
      → ((claim_draw chess g p m).1 ≡ true
          → (is_player chess g p ≡ true)
            × ((m ≡ threefold_repetition) ⊎ (m ≡ fifty_move_rule))
            × (chess.outcome (claim_draw chess g p m).0.board ≡ draw))
        × ((claim_draw chess g p m).1 ≡ false → (claim_draw chess g p m).0 ≡ g)
        × ((b : chess.Board)
            → is_player chess g p ≡ true
            → (m ≡ threefold_repetition) ⊎ (m ≡ fifty_move_rule)
            → chess.draw_by m g.board ≡ some b
            → claim_draw chess g p m ≡ (record g { board = b }, true))
  unfolding claim_draw
  claim_draw_lem laws p m = elim (Option-cases (chess.draw_by m g.board)) [
    | inl e ↦ (ground arith, ground arith, ground arith)
    | inr (b, e) ↦ (ground (arith, laws.draw_outcome m g.board b), ground arith, ground arith)
  ]

  -- The two ways to a draw leave the status as it was: neither deactivates the game, as the ends by
  -- resignation and by a decided move do.
  pub draws_keep_status :
      (p : ObjectId) (m : Method)
      → ((accept_draw chess g p).0.status ≡ g.status)
        × ((claim_draw chess g p m).0.status ≡ g.status)
  unfolding accept_draw claim_draw
  draws_keep_status p m = (ground arith, ground arith)
