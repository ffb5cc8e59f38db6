-- ===== src/Game/Lifecycle/Runs.antt =====
-- Every history of a game is a play by the rules.
use shahboard.Base.{
  ℕ, ◌%◌, ◌≡◌, ◌≢◌, ◌↔◌, ◌∙◌, refl, sym, subst, ap, arith, true, false, List, [], ◌∷◌, Option, none,
  some,
}
use shahboard.Types.{Bytes, ObjectId, User, no_outcome}
use shahboard.Chess.{ChessLib, ChessLaws, ChessColor, white}
use shahboard.Game.{Game, GameSettings, new_game_of, untagged, status_deactive}
use shahboard.Game.Creation.{IsValid, new_game-IsValid, tagged-same}
use shahboard.Game.Histories.{Call, call, calls, call-IsValid}
use shahboard.Game.Lifecycle.{
  View, Act, moving, offering, rejecting, giving_up, ending, accepting, claiming, react, view,
  caller, act_of,
}
use shahboard.Game.Lifecycle.Calls.{call-react}

-- The view after these acts, in this order.
abbrev pub reacts : View → List (Option ChessColor × Act) → View
reacts v [] = v
reacts v ((s, a) ∷ as') = reacts (react v s a) as'

-- The view of a new game.
abbrev pub opening : View
opening = record { mover = white; count = 0; offered = none; result = no_outcome; ended = false }

-- White moves after an even number of moves, and black after an odd one.
abbrev IsInTurn : View → Type 0
IsInTurn v = (v.mover ≡ white) ↔ (v.count % 2 ≡ 0)

react-IsInTurn : (v : View) (s : Option ChessColor) (a : Act) → IsInTurn v → IsInTurn (react v s a)
react-IsInTurn v s (moving i none) h = h
react-IsInTurn v s (moving i (some r)) h = ground arith
react-IsInTurn v s offering h = ground arith
react-IsInTurn v s (accepting b) h = ground arith
react-IsInTurn v s rejecting h = ground arith
react-IsInTurn v s (claiming b) h = ground arith
react-IsInTurn v none giving_up h = h
react-IsInTurn v (some c) giving_up h = h
react-IsInTurn v s ending h = h

-- An end is for good.
react-ended :
    (v : View) (s : Option ChessColor) (a : Act) → v.ended ≡ true → (react v s a).ended ≡ true
react-ended v s (moving i none) h = h
react-ended v s (moving i (some r)) h = ground arith
react-ended v s offering h = ground arith
react-ended v s (accepting b) h = ground arith
react-ended v s rejecting h = ground arith
react-ended v s (claiming b) h = ground arith
react-ended v none giving_up h = h
react-ended v (some c) giving_up h = refl
react-ended v s ending h = refl

reacts-IsInTurn :
    (v : View) (l : List (Option ChessColor × Act)) → IsInTurn v → IsInTurn (reacts v l)
reacts-IsInTurn v [] h = h
reacts-IsInTurn v ((s, a) ∷ l) h = reacts-IsInTurn (react v s a) l (react-IsInTurn v s a h)

reacts-ended :
    (v : View) (l : List (Option ChessColor × Act)) → v.ended ≡ true → (reacts v l).ended ≡ true
reacts-ended v [] h = h
reacts-ended v ((s, a) ∷ l) h = reacts-ended (react v s a) l (react-ended v s a h)

module _ (chess : ChessLib) where
  -- What a history asks for, and by which sides.
  abbrev pub acts : Game chess.Board → List Call → List (Option ChessColor × Act)
  acts g [] = []
  acts g (c ∷ cs) = (caller chess g c, act_of chess g c) ∷ acts (call chess g c) cs

  calls-reacts :
      ChessLaws chess
      → (g : Game chess.Board) (cs : List Call) → IsValid g
      → view chess (calls chess g cs) ≡ reacts (view chess g) (acts g cs)
  unfolding calls
  calls-reacts laws g [] v = refl
  calls-reacts laws g (c ∷ cs) v =
      calls-reacts laws (call chess g c) cs (call-IsValid chess g c v)
      ∙ ap (λ w. reacts w (acts (call chess g c) cs)) (call-react chess laws g v c)

  -- A valid game that has been deactivated stays so, whatever is called on it later.
  later_ended :
      ChessLaws chess
      → (g : Game chess.Board) (cs : List Call) → IsValid g
      → g.status ≡ status_deactive
      → (calls chess g cs).status ≡ status_deactive
  later_ended laws g cs v e =
      let same = calls-reacts laws g cs v in
      let over = reacts-ended (view chess g) (acts g cs) (ground arith) in
      let still : (view chess (calls chess g cs)).ended ≡ true = ap (λ w. w.ended) same ∙ over in
      ground arith

module _ (chess : ChessLib) (laws : ChessLaws chess) (fmt : ℕ → Bytes) (u1 u2 : User)
    (s : GameSettings) (id : ObjectId) (coin now : ℕ) (apart : u1.id ≢ u2.id) where
  abbrev made : Game chess.Board
  made = new_game_of chess fmt u1 u2 s id coin now

  view-made : view chess made ≡ opening
  unfolding new_game_of
  view-made = ground (
    arith,
    new_game-IsValid chess laws fmt u1 u2 s id coin now apart,
    tagged-same chess laws fmt now (untagged chess u1 u2 s id coin now),
    laws.new_turn,
  )

  -- Whatever methods are called on a new game of two users, in whatever order and by whomever, the
  -- players see at the end what the rules of the abstract game give from the opening: a legal move of
  -- the side to move with the next index is made and passes the turn, and no other; the side to move
  -- alone offers a draw, and one offer at a time; the other side alone agrees to it or declines
  -- it; a claim that is granted is a draw; who gives up an undecided game loses and ends it. White is
  -- to move exactly after an even number of moves.
  pub new_game-reacts :
      (cs : List Call)
      → let h = calls chess made cs in
        (view chess h ≡ reacts opening (acts chess made cs))
        × ((chess.turn h.board ≡ white) ↔ (chess.moves_count h.board % 2 ≡ 0))
  new_game-reacts cs =
      let v = (new_game-IsValid chess laws fmt u1 u2 s id coin now apart).0 in
      let same =
        calls-reacts chess laws made cs v ∙ ap (λ w. reacts w (acts chess made cs)) view-made in
      let turn = reacts-IsInTurn opening (acts chess made cs) (ground arith) in
      (same, subst IsInTurn (sym same) turn)
