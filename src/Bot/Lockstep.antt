-- ===== src/Bot/Lockstep.antt =====
-- The bot's board against the game that the game service keeps of the same moves.
pub mod Start
use shahboard.Base.{
  ℕ, zero, suc, ◌+◌, ◌<◌, ◌≤◌, ◌≡◌, ◌≢◌, ◌⊎◌, inl, inr, ℤ, pos, ◌-ℤ◌, Bool, true, false, List, [],
  ◌∷◌, Option, none, some, ◌>>=◌, Option-cases, Bool-cases, >>=-eq-some, length, is_some, refl, sym,
  ap, subst, ◌∙◌, arith, if◌then◌else◌,
}
use shahboard.Types.{Bytes, bytes, ObjectId, GameOutcome-discrete, no_outcome}
use shahboard.Chess.{ChessLib, ChessLaws}
use shahboard.Event.{MoveEvent}
use shahboard.Game.{Game, turn_player, move}
use shahboard.Game.Creation.{IsValid}
use shahboard.Game.Moves.{index-is-next, MayMove, moved, move_accepts, move_taken, turn_passes}
use shahboard.Bot.{
  Client, BotGame, BotEnv, contains_x, at, try_from, first_capture, rand_move, send_move, is_over,
  play_own, handle_move_approved,
}
use shahboard.Bot.Choosing.{ClientLaws, IsReady, sent, play_own_sent}

module _ (chess : ChessLib) where
  -- Tags put on a board, the last one first.
  abbrev pub tag_all : List (Bytes × Bytes) → chess.Board → chess.Board
  tag_all [] b = b
  tag_all ((k, v) ∷ ts) b = chess.add_tag_pair k v (tag_all ts b)

  -- The bot plays the game that the service keeps: the same game, the two players, and the same
  -- board but for tags.
  pub record Lockstep (g : Game chess.Board) (bg : BotGame chess.Board) : Type 0 where
    pub same_game : bg.id ≡ g.id
    pub same_players :
        ((g.player1.id ≡ bg.player_id) × (g.player2.id ≡ bg.opponent_id))
        ⊎ ((g.player1.id ≡ bg.opponent_id) × (g.player2.id ≡ bg.player_id))
    pub tags : List (Bytes × Bytes)
    pub same_board : g.board ≡ tag_all tags bg.board

  module _ (laws : ChessLaws chess) where
    tag_all_same :
        (ts : List (Bytes × Bytes)) (b : chess.Board)
        → (chess.moves_count (tag_all ts b) ≡ chess.moves_count b)
          × (chess.outcome (tag_all ts b) ≡ chess.outcome b)
    tag_all_same [] b = (refl, refl)
    tag_all_same ((k, v) ∷ ts) b = (
      laws.tag_moves k v (tag_all ts b) ∙ (tag_all_same ts b).0,
      laws.tag_outcome k v (tag_all ts b) ∙ (tag_all_same ts b).1,
    )

  module _ (client : Client chess) (laws : ClientLaws chess client) where
    tag_all_move :
        (ts : List (Bytes × Bytes)) (m : Bytes) (b : chess.Board)
        → chess.move_str m (tag_all ts b) ≡ (chess.move_str m b >>= λ b'. some (tag_all ts b'))
    tag_all_move [] m b = elim (Option-cases (chess.move_str m b)) [
      | inl e ↦ rw e
      | inr (b', e) ↦ rw e
    ]
    tag_all_move ((k, v) ∷ ts) m b =
        ground (arith, laws.tag_move k v m (tag_all ts b), tag_all_move ts m b)

  module _ (client : Client chess) where
    -- The handler, on the approved move of the opponent.
    approved_move :
        (env : BotEnv) (bg : BotGame chess.Board) (e : MoveEvent) (b : chess.Board)
        → e.game_id ≡ bg.id
        → e.player_id ≡ bg.opponent_id
        → e.index ≡ pos (suc (chess.moves_count bg.board))
        → chess.move_str e.move bg.board ≡ some b
        → handle_move_approved chess client env bg e ≡ (
            if is_over chess client b
            then some (record bg { board = b }, none)
            else play_own chess client env (record bg { board = b }))
    unfolding handle_move_approved
    approved_move env bg e b same opp next took =
        ground (arith, index-is-next e.index (chess.moves_count bg.board))

    module _ (claws : ChessLaws chess) (laws : ClientLaws chess client) (g : Game chess.Board)
        (v : IsValid g) (bg : BotGame chess.Board) (lock : Lockstep g bg) where
      -- The move that the service took, on the bot's board.
      both_moved :
          (p m : Bytes) (i : ℤ) (now : ℕ) (b : chess.Board)
          → MayMove chess g p m i now b
          → (b' : chess.Board) × (chess.move_str m bg.board ≡ some b')
            × (b ≡ tag_all lock.tags b')
            × (i ≡ pos (suc (chess.moves_count bg.board)))
      both_moved p m i now b may =
          let here =
            subst (λ (x : chess.Board). chess.move_str m x ≡ some b) lock.same_board may.2 in
          let same = sym (tag_all_move client laws lock.tags m bg.board) ∙ here in
          let (b', took, tagged) = >>=-eq-some (chess.move_str m bg.board) _ same in
          let count =
            ap chess.moves_count lock.same_board ∙ (tag_all_same claws lock.tags bg.board).0 in
          (b', took, cc tagged, may.1 ∙ ap (λ (n : ℕ). pos (suc n)) count)

      -- After a move of the opponent it is the bot's turn.
      bot_turn :
          (m : Bytes) (i : ℤ) (now : ℕ) (b : chess.Board)
          → MayMove chess g bg.opponent_id m i now b
          → (turn_player chess (moved chess g bg.opponent_id m i now b)).id ≡ bg.player_id
      unfolding turn_player
      bot_turn m i now b may =
          ground (arith, claws.move_turn m g.board b may.2, v.colors, v.distinct, lock.same_players)

      -- The game after a move is in step with the bot's game after the same move.
      moved-Lockstep :
          (p m : Bytes) (i : ℤ) (now : ℕ) (b b' : chess.Board)
          → b ≡ tag_all lock.tags b'
          → Lockstep (moved chess g p m i now b) (record bg { board = b' })
      moved-Lockstep p m i now b b' e = record {
        same_game = lock.same_game;
        same_players = lock.same_players;
        tags = lock.tags;
        same_board = e;
      }

      -- What the service makes of the bot's answer, whenever it comes.
      abbrev pub Answered : Game chess.Board → BotGame chess.Board → MoveEvent → Type 0
      Answered g1 bg' m =
          (t : ℕ)
          → let r = move chess g1 m.player_id m.move m.index t in (r.1 ≡ none) × Lockstep r.0 bg'

      answer_taken :
          (p m : Bytes) (i : ℤ) (now : ℕ) (b b' b'' : chess.Board) (own : Bytes)
          → (turn_player chess (moved chess g p m i now b)).id ≡ bg.player_id
          → b ≡ tag_all lock.tags b'
          → chess.move_str own b' ≡ some b''
          → Answered
              (moved chess g p m i now b)
              (record bg { board = b'' })
              (sent chess client (record bg { board = b'' }) own)
      answer_taken p m i now b b' b'' own my_turn tagged took t =
          let g1 = moved chess g p m i now b in
          let played : chess.move_str own b ≡ some (tag_all lock.tags b'') =
            rw tagged (rw (tag_all_move client laws lock.tags own b') (rw took)) in
          let count : chess.moves_count b'' ≡ suc (chess.moves_count b) =
            claws.move_moves own b' b'' took
            ∙ ap suc (sym (ap chess.moves_count tagged ∙ (tag_all_same claws lock.tags b').0)) in
          let accepted =
            move_accepts chess g1 bg.player_id own (pos (chess.moves_count b'')) t
              (tag_all lock.tags b'') (my_turn, ap pos count, played) in
          rw accepted (
            refl,
            record {
              same_game = lock.same_game;
              same_players = lock.same_players;
              tags = lock.tags;
              same_board = refl;
            },
          )

      -- The bot in step with the game of the service hears that a move of its opponent was
      -- approved, and makes the move on its own board. If that decides the game, the bot sends
      -- nothing. Otherwise it sends one move of its own for that game, and the service takes that
      -- move whenever it comes next. Either way the two boards are in step again. The conditions
      -- are the library's documented behaviour and room for the message at one of three attempts.
      pub handle_move_approved-answers :
          (env : BotEnv) (ready : IsReady env) (e : MoveEvent) (now : ℕ)
          → e.game_id ≡ g.id
          → e.player_id ≡ bg.opponent_id
          → (move chess g e.player_id e.move e.index now).1 ≡ none
          → let g1 = (move chess g e.player_id e.move e.index now).0 in
            let reply = handle_move_approved chess client env bg e in
            ((chess.outcome g1.board ≢ no_outcome)
              × (bg' : BotGame chess.Board) × (reply ≡ some (bg', none))
              × Lockstep g1 bg')
            ⊎ ((chess.outcome g1.board ≡ no_outcome)
                × (bg' : BotGame chess.Board) × (m : MoveEvent) × (reply ≡ some (bg', some m))
                × (m.game_id ≡ g.id)
                × (m.player_id ≡ bg.player_id)
                × Answered g1 bg' m)
      unfolding is_over
      handle_move_approved-answers env ready e now same opp taken =
          let (b, may, r) = move_taken chess g e.player_id e.move e.index now taken in
          let (b', took, tagged, next) = both_moved e.player_id e.move e.index now b may in
          let handled = approved_move env bg e b' (same ∙ sym lock.same_game) opp next took in
          let outcomes = ap chess.outcome tagged ∙ (tag_all_same claws lock.tags b').1 in
          elim (GameOutcome-discrete (chess.outcome b') no_outcome) [
            | no over ↦
                let test : is_over chess client b' ≡ true = ground arith in
                rw r (
                  inl (
                    λ still. over (sym outcomes ∙ still),
                    record bg { board = b' },
                    handled ∙ rw test,
                    moved-Lockstep e.player_id e.move e.index now b b' tagged,
                  ))
            | yes still ↦
                let test : is_over chess client b' ≡ false = ground arith in
                let (own, b'', own_took, own_sent) =
                  play_own_sent chess client env ready laws (record bg { board = b' }) still in
                rw r (
                  inr (
                    outcomes ∙ still,
                    record bg { board = b'' },
                    sent chess client (record bg { board = b'' }) own,
                    handled ∙ rw test own_sent,
                    lock.same_game,
                    refl,
                    answer_taken e.player_id e.move e.index now b b' b'' own
                        (subst
                          (λ (q : ObjectId).
                            (turn_player chess (moved chess g q e.move e.index now b)).id
                            ≡ bg.player_id)
                          (sym opp)
                          (bot_turn e.move e.index now b (
                            subst (λ (q : ObjectId). MayMove chess g q e.move e.index now b) opp
                              may)))
                        tagged own_took,
                  ))
          ]
