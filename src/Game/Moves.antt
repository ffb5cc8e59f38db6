-- ===== src/Game/Moves.antt =====
-- `Game.Move`: when a move is taken, and what it changes.
use shahboard.Base.{
  ℕ, suc, ℤ, ℤ-discrete, pos, negsuc, ◌-ℤ◌, ◌≡◌, ◌≢◌, ◌↔◌, none, some, arith, Option-cases, inl,
  inr,
}
use shahboard.Types.{Bytes, ObjectId, dec_id}
use shahboard.Chess.{ChessLib, ChessLaws, opposite}
use shahboard.Game.{
  Game, MoveError, not_your_turn, invalid_move_index, illegal_move, turn_player, move,
}
use shahboard.Game.Creation.{IsValid}

-- The index of an event is one more than the number of moves before it.
pub index-is-next : (i : ℤ) (n : ℕ) → (i -ℤ pos 1 ≡ pos n) ↔ (i ≡ pos (suc n))
unfolding ◌-ℤ◌
index-is-next (pos i) n = ground arith
index-is-next (negsuc i) n = ground arith

module _ (chess : ChessLib) (g : Game chess.Board) (p : ObjectId) (m : Bytes) (i : ℤ)
    (now : ℕ) where
  -- The three conditions under which `Move` takes a move.
  abbrev pub MayMove : chess.Board → Type 0
  MayMove b =
      ((turn_player chess g).id ≡ p)
      × (i ≡ pos (suc (chess.moves_count g.board)))
      × (chess.move_str m g.board ≡ some b)

  -- The game after a move that led to the board `b`.
  abbrev pub moved : chess.Board → Game chess.Board
  moved b = record g { board = b; updated_at = now }

  -- The condition that each error reports, the earlier ones having held.
  abbrev pub Refuses : MoveError → Type 0
  Refuses not_your_turn = (turn_player chess g).id ≢ p
  Refuses invalid_move_index =
      ((turn_player chess g).id ≡ p) × (i ≢ pos (suc (chess.moves_count g.board)))
  Refuses illegal_move =
      ((turn_player chess g).id ≡ p)
      × (i ≡ pos (suc (chess.moves_count g.board)))
      × (chess.move_str m g.board ≡ none)

  -- If the mover is the player to move, the index is the next one and the library finds the move
  -- legal, the move is taken, and the game differs by its board and its update time alone.
  pub move_accepts : (b : chess.Board) → MayMove b → move chess g p m i now ≡ (moved b, none)
  unfolding move
  move_accepts b (t, x, e) = ground (arith, index-is-next i (chess.moves_count g.board))

  -- If one of the conditions of a move fails, the game is unchanged and the error names the
  -- first condition that failed.
  pub move-Refuses :
      ((b : chess.Board) → ¬ MayMove b)
      → (e : MoveError) × (move chess g p m i now ≡ (g, some e)) × Refuses e
  unfolding move
  move-Refuses h = elim (dec_id (turn_player chess g).id p) [
    | no t ↦ (not_your_turn, ground arith, t)
    | yes t ↦ elim (ℤ-discrete (i -ℤ pos 1) (pos (chess.moves_count g.board))) [
      | no x ↦ (
        invalid_move_index,
        ground arith,
        (t, λ y. x ((index-is-next i (chess.moves_count g.board)).1 y)),
      )
      | yes x ↦
          let y = (index-is-next i (chess.moves_count g.board)).0 x in
          elim (Option-cases (chess.move_str m g.board)) [
            | inl e ↦ (illegal_move, ground arith, (t, y, e))
            | inr (b, e) ↦ absurd (h b (t, y, e))
          ]
    ]
  ]

  -- So a move that was taken met the conditions.
  pub move_taken :
      (move chess g p m i now).1 ≡ none
      → (b : chess.Board) × MayMove b × (move chess g p m i now ≡ (moved b, none))
  unfolding move
  move_taken h = elim (Option-cases (chess.move_str m g.board)) [
    | inl e ↦ ground arith
    | inr (b, e) ↦ (
      b,
      ground (arith, index-is-next i (chess.moves_count g.board)),
      ground (arith, index-is-next i (chess.moves_count g.board)),
    )
  ]

module _ (chess : ChessLib) (laws : ChessLaws chess) (g : Game chess.Board) (v : IsValid g) where
  pub turn_passes :
      (b : chess.Board)
      → chess.turn b ≡ opposite (chess.turn g.board)
      → (now : ℕ)
      → (turn_player chess (record g { board = b; updated_at = now })).id ≢ (turn_player chess g).id
  unfolding turn_player
  turn_passes b e now = ground (arith, v.colors, v.distinct)

  -- In a valid game nobody moves twice in a row, and no event is taken twice: after a move that was
  -- taken, one more move has been recorded, the mover is refused whatever he plays, and anybody who
  -- repeats the same index is refused.
  pub move_alternates :
      (p : ObjectId) (m : Bytes) (i : ℤ) (now : ℕ)
      → (move chess g p m i now).1 ≡ none
      → let h = (move chess g p m i now).0 in
        (chess.moves_count h.board ≡ suc (chess.moves_count g.board))
        × ((m' : Bytes) (j : ℤ) (t : ℕ) → move chess h p m' j t ≡ (h, some not_your_turn))
        × ((q : ObjectId) (m' : Bytes) (t : ℕ) → (move chess h q m' i t).1 ≢ none)
  move_alternates p m i now taken =
      let (b, may, r) = move_taken chess g p m i now taken in
      let count = laws.move_moves m g.board b may.2 in
      rw r (
        count,
        λ m' j t. out_of_turn b may m' j t,
        λ q m' t again.
            let (b', may', r') = move_taken chess (moved chess g p m i now b) q m' i t again in
            absurd (repeated b may count b' q m' t may'),
      )
    where
      out_of_turn :
          (b : chess.Board)
          → MayMove chess g p m i now b
          → (m' : Bytes) (j : ℤ) (t : ℕ)
          → move chess (moved chess g p m i now b) p m' j t
            ≡ (moved chess g p m i now b, some not_your_turn)
      out_of_turn b may m' j t =
          unfold move in ground (arith, turn_passes b (laws.move_turn m g.board b may.2) now)

      repeated :
          (b : chess.Board)
          → MayMove chess g p m i now b
          → chess.moves_count b ≡ suc (chess.moves_count g.board)
          → (b' : chess.Board) (q : ObjectId) (m' : Bytes) (t : ℕ)
          → MayMove chess (moved chess g p m i now b) q m' i t b'
          → ⊥
      repeated b may count b' q m' t may' = ground arith
