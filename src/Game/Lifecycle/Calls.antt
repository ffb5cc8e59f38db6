-- ===== src/Game/Lifecycle/Calls.antt =====
-- Each method of a game does what the rules say.
use shahboard.Base.{
  ℕ, ℤ, ◌&&◌, not, is_some, ◌≡◌, ◌∙◌, refl, arith, none, some, Option-cases, inl, inr,
}
use shahboard.Types.{Bytes, bytes, GameOutcome-discrete, ObjectId, same_id, no_outcome}
use shahboard.Chess.{ChessLib, ChessLaws, ChessColor, Method, draw_offer}
use shahboard.Game.{
  Game, DrawOffer, status_deactive, EndDescription, empty, description_string, white_player,
  black_player, turn_player, is_player, move, offer_draw, accept_draw, reject_draw, claim_draw,
  resign_with, end_game, deactivate, color_to_chess_color,
}
use shahboard.Game.Creation.{IsValid}
use shahboard.Game.Moves.{index-is-next}
use shahboard.Game.Histories.{Call, moves, offers, accepts, rejects, claims, gives_up, ends, call}
use shahboard.Game.Lifecycle.{
  offering, rejecting, giving_up, ending, is_side, is_offered, given_up_by, react, side_of, view,
  caller, act_of,
}

module _ (chess : ChessLib) (g : Game chess.Board) (v : IsValid g) where
  -- The player to move is the one on the side to move.
  is_side-turn :
      (p : ObjectId)
      → is_side (side_of chess g p) (chess.turn g.board) ≡ same_id (turn_player chess g).id p
  unfolding turn_player white_player black_player
  is_side-turn p = ground (arith, v.colors, v.distinct)

  -- The players are those who have a side.
  is_some-side : (p : ObjectId) → is_some (side_of chess g p) ≡ is_player chess g p
  unfolding is_player white_player black_player
  is_some-side p = ground (arith, v.colors, v.distinct)

  -- Whoever has not offered is the one to whom a draw is offered.
  is_offered-offer :
      (p : ObjectId) (o : DrawOffer)
      → g.offer ≡ some o
      → is_offered (side_of chess g p) (side_of chess g o.offerer)
        ≡ (is_player chess g p && not (same_id p o.offerer))
  unfolding is_player white_player black_player
  is_offered-offer p o e = ground (arith, v.colors, v.distinct, v.offered)

module _ (chess : ChessLib) (laws : ChessLaws chess) (g : Game chess.Board) (v : IsValid g) where
  moves-react :
      (p : ObjectId) (m : Bytes) (i : ℤ) (now : ℕ)
      → view chess (move chess g p m i now).0
        ≡ react (view chess g) (side_of chess g p) (act_of chess g (moves p m i now))
  unfolding move white_player black_player
  moves-react p m i now = elim (Option-cases (chess.move_str m g.board)) [
    | inl e ↦ ground arith
    | inr (b, e) ↦ ground (
      arith,
      is_side-turn chess g v p,
      index-is-next i (chess.moves_count g.board),
      laws.move_moves m g.board b e,
      laws.move_turn m g.board b e,
    )
  ]

  offers-react :
      (p : ObjectId) (now : ℕ)
      → view chess (offer_draw chess g p now).0 ≡ react (view chess g) (side_of chess g p) offering
  unfolding offer_draw white_player black_player
  offers-react p now = ground (arith, is_side-turn chess g v p, is_some-side chess g v p)

  accepts-react :
      (p : ObjectId)
      → view chess (accept_draw chess g p).0
        ≡ react (view chess g) (side_of chess g p) (act_of chess g (accepts p))
  unfolding accept_draw white_player black_player
  accepts-react p = elim (Option-cases g.offer) [
    | inl f ↦ ground arith
    | inr (o, f) ↦ elim (Option-cases (chess.draw_by draw_offer g.board)) [
      | inl e ↦ ground arith
      | inr (b, e) ↦ ground (
        arith,
        is_offered-offer chess g v p o f,
        laws.draw_outcome draw_offer g.board b e,
        laws.draw_turn draw_offer g.board b e,
        laws.draw_moves draw_offer g.board b e,
      )
    ]
  ]

  rejects-react :
      (p : ObjectId)
      → view chess (reject_draw chess g p).0 ≡ react (view chess g) (side_of chess g p) rejecting
  unfolding reject_draw white_player black_player
  rejects-react p = elim (Option-cases g.offer) [
    | inl f ↦ ground arith
    | inr (o, f) ↦ ground (arith, is_offered-offer chess g v p o f)
  ]

  claims-react :
      (p : ObjectId) (m : Method)
      → view chess (claim_draw chess g p m).0
        ≡ react (view chess g) (side_of chess g p) (act_of chess g (claims p m))
  unfolding claim_draw white_player black_player
  claims-react p m = elim (Option-cases (chess.draw_by m g.board)) [
    | inl e ↦ ground (arith, is_some-side chess g v p)
    | inr (b, e) ↦ ground (
      arith,
      is_some-side chess g v p,
      laws.draw_outcome m g.board b e,
      laws.draw_turn m g.board b e,
      laws.draw_moves m g.board b e,
    )
  ]

  -- The board after the resignation of a side.
  abbrev resigned_board : ChessColor → EndDescription → chess.Board
  resigned_board c d =
      chess.add_tag_pair (bytes "end_description") (description_string d) (chess.resign c g.board)

  resigned_board_same :
      (c : ChessColor) (d : EndDescription)
      → (chess.turn (resigned_board c d) ≡ chess.turn g.board)
        × (chess.moves_count (resigned_board c d) ≡ chess.moves_count g.board)
        × (chess.outcome (resigned_board c d) ≡ given_up_by c (chess.outcome g.board))
  resigned_board_same c d =
      let text = description_string d in
      let b = chess.resign c g.board in
      let k = bytes "end_description" in
      (
        laws.tag_turn k text b ∙ laws.resign_turn c g.board,
        laws.tag_moves k text b ∙ laws.resign_moves c g.board,
        laws.tag_outcome k text b ∙ given_up,
      )
    where
      given_up : chess.outcome (chess.resign c g.board) ≡ given_up_by c (chess.outcome g.board)
      given_up = elim (GameOutcome-discrete (chess.outcome g.board) no_outcome) [
        | yes o ↦ ground (arith, laws.resign_open c g.board o)
        | no o ↦ ground (arith, laws.resign_done c g.board o)
      ]

  -- A player who gives up resigns for his side.
  resign_with-side :
      (p : ObjectId) (d : EndDescription) (now : ℕ)
      → (resign_with chess g p d now).0 ≡ elim (side_of chess g p) [
        | none ↦ g
        | some c ↦ record g {
          status = status_deactive;
          board = resigned_board c d;
          updated_at = now;
        }
      ]
  unfolding resign_with deactivate white_player black_player color_to_chess_color
  resign_with-side p d now = ground (arith, v.colors, v.distinct)

  gives_up-react :
      (p : ObjectId) (d : EndDescription) (now : ℕ)
      → view chess (resign_with chess g p d now).0
        ≡ react (view chess g) (side_of chess g p) giving_up
  gives_up-react p d now = rw (resign_with-side p d now) (elim (Option-cases (side_of chess g p)) [
    | inl e ↦ rw e refl
    | inr (c, e) ↦ rw e (resigned_view c)
  ])
    where
      resigned_view :
          (c : ChessColor)
          → view chess
              (record g { status = status_deactive; board = resigned_board c d; updated_at = now })
            ≡ react (view chess g) (some c) giving_up
      resigned_view c = unfold white_player black_player in ground (arith, resigned_board_same c d)

  ends-react : (now : ℕ) → view chess (end_game chess g now).0 ≡ react (view chess g) none ending
  unfolding end_game deactivate white_player black_player
  ends-react now = ground (
    arith,
    laws.tag_turn (bytes "end_description") (description_string empty) g.board,
    laws.tag_moves (bytes "end_description") (description_string empty) g.board,
    laws.tag_outcome (bytes "end_description") (description_string empty) g.board,
  )

  pub call-react :
      (c : Call)
      → view chess (call chess g c) ≡ react (view chess g) (caller chess g c) (act_of chess g c)
  unfolding call
  call-react (moves p m i now) = moves-react p m i now
  call-react (offers p now) = offers-react p now
  call-react (accepts p) = accepts-react p
  call-react (rejects p) = rejects-react p
  call-react (claims p m) = claims-react p m
  call-react (gives_up p d now) = gives_up-react p d now
  call-react (ends now) = ends-react now
