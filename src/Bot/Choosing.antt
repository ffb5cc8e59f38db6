-- ===== src/Bot/Choosing.antt =====
-- How the bot chooses and sends a move: the library takes it, and it gets out.
use shahboard.Base.{
  ℕ, zero, suc, ◌+◌, ◌<◌, ◌≤◌, ◌≡◌, ◌≢◌, inl, inr, pos, Bool, true, false, List, [], ◌∷◌, Option,
  none, some, ◌>>=◌, Option-cases, Bool-cases, length, is_some, refl, sym, ap, subst, arith,
  if◌then◌else◌,
}
use shahboard.Types.{Bytes, bytes, no_outcome}
use shahboard.Chess.{ChessLib}
use shahboard.Event.{MoveEvent}
use shahboard.Bot.{
  Client, BotGame, BotEnv, contains_x, at, try_from, first_capture, rand_move, send_move, play_own,
}

-- Documented behaviour of the library: a tag does not touch the moves, the notation of a valid move
-- is taken, and a game in progress has a valid move.
pub record ClientLaws (chess : ChessLib) (client : Client chess) : Type 0 where
  pub tag_move :
      (k v m : Bytes) (b : chess.Board)
      → chess.move_str m (chess.add_tag_pair k v b)
        ≡ (chess.move_str m b >>= λ b'. some (chess.add_tag_pair k v b'))
  pub valid_taken :
      (b : chess.Board) (i : ℕ) (m : client.Move)
      → at (client.valid_moves b) i ≡ some m
      → is_some (chess.move_str (client.notation b m) b) ≡ true
  pub open_has_move :
      (b : chess.Board) → chess.outcome b ≡ no_outcome → 0 < length (client.valid_moves b)

-- `rand.Intn(n)` is below `n`, and one of the three attempts to send finds room.
pub record IsReady (env : BotEnv) : Type 0 where
  pub in_range : (n : ℕ) → 0 < n → env.rand n < n
  pub attempt : ℕ
  pub in_time : attempt < 3
  pub has_room : env.has_room attempt ≡ true

some_of {ℓ} : {A : Type ℓ} (o : Option A) → is_some o ≡ true → (a : A) × (o ≡ some a)
some_of none h = cc
some_of (some a) h = (a, refl)

at_below {ℓ} : {A : Type ℓ} (xs : List A) (i : ℕ) → i < length xs → (x : A) × (at xs i ≡ some x)
unfolding at
at_below [] i h = absurd (omega arith)
at_below (x ∷ xs) zero h = (x, refl)
at_below (x ∷ xs) (suc i) h = at_below xs i (omega arith)

-- A loop of attempts succeeds when one of them does.
try_from-some {ℓ} :
    {A : Type ℓ} (f : ℕ → Option A) (a : A) (left count k : ℕ)
    → ((i : ℕ) (x : A) → f i ≡ some x → x ≡ a)
    → count ≤ k
    → k < count + left
    → f k ≡ some a
    → try_from f left count ≡ some a
unfolding try_from
try_from-some f a zero count k same h h' e = absurd (omega arith)
try_from-some f a (suc left) count k same h h' e = elim (Option-cases (f count)) [
  | inl none_here ↦
      let later : suc count ≤ k = past (some_ne_none none_here e) h in
      rw (none_here, try_from) (try_from-some f a left (suc count) k same later (omega arith) e)
  | inr (x, here) ↦ rw (here, try_from) (ap some (same count x here))
]
  where
    some_ne_none : f count ≡ none → f k ≡ some a → count ≢ k
    some_ne_none p q r = cc (ap f r)

    past : count ≢ k → count ≤ k → suc count ≤ k
    past p q = ground arith

module _ (chess : ChessLib) (client : Client chess) (laws : ClientLaws chess client) where
  -- A valid move of the list is found, and the library takes it.
  first_capture_valid :
      (b : chess.Board) (ms : List client.Move) (s : Bytes)
      → first_capture chess client b ms ≡ some s
      → (i : ℕ) × (m : client.Move) × (at ms i ≡ some m) × (s ≡ client.notation b m)
  unfolding first_capture at
  first_capture_valid b [] s e = cc
  first_capture_valid b (m ∷ ms) s e = elim (Bool-cases (contains_x (client.notation b m))) [
    | inl takes ↦ (0, m, refl, cc (rw takes at e))
    | inr quiet ↦
        let (i, m', here, same) = first_capture_valid b ms s (rw quiet at e) in
        (suc i, m', here, same)
  ]

  rand_move_taken :
      (env : BotEnv) (ready : IsReady env) (b : chess.Board)
      → chess.outcome b ≡ no_outcome
      → (s : Bytes) × (b' : chess.Board) × (rand_move chess client env b ≡ some s)
        × (chess.move_str s b ≡ some b')
  unfolding rand_move
  rand_move_taken env ready b o =
      elim (Option-cases (first_capture chess client b (client.valid_moves b))) [
        | inr (s, e) ↦
            let (i, m, here, same) = first_capture_valid b (client.valid_moves b) s e in
            let (b', took) = some_of _ (laws.valid_taken b i m here) in
            (
              s,
              b',
              rw (e, rand_move),
              subst (λ (t : Bytes). chess.move_str t b ≡ some b') (sym same) took,
            )
        | inl e ↦
            let n = length (client.valid_moves b) in
            let (m, here) =
              at_below (client.valid_moves b) (env.rand n)
                (ready.in_range n (laws.open_has_move b o)) in
            let (b', took) = some_of _ (laws.valid_taken b (env.rand n) m here) in
            (client.notation b m, b', rw (e, rand_move) (rw here), took)
      ]

module _ (chess : ChessLib) (client : Client chess) where
  -- The event of a move that the bot has just played.
  abbrev pub sent : BotGame chess.Board → Bytes → MoveEvent
  sent bg m = record {
    id = bytes "";
    game_id = bg.id;
    player_id = bg.player_id;
    move = m;
    index = pos (chess.moves_count bg.board);
    timestamp = 0;
  }

  send_move_sent :
      (env : BotEnv) (ready : IsReady env) (bg : BotGame chess.Board) (m : Bytes)
      → send_move chess client env bg m ≡ some (sent bg m)
  unfolding send_move
  send_move_sent env ready bg m =
      try_from-some (λ k. if env.has_room k then some (sent bg m) else none) (sent bg m) 3 0
        ready.attempt (λ i x e. only (env.has_room i) x e) (omega arith) ready.in_time
        (rw ready.has_room)
    where
      only :
          (b : Bool) (x : MoveEvent)
          → (if b then some (sent bg m) else none) ≡ some x
          → x ≡ sent bg m
      only true x e = cc
      only false x e = cc

  pub play_own_sent :
      (env : BotEnv) (ready : IsReady env) (laws : ClientLaws chess client)
      (bg : BotGame chess.Board)
      → chess.outcome bg.board ≡ no_outcome
      → (m : Bytes) × (b : chess.Board) × (chess.move_str m bg.board ≡ some b)
        × (play_own chess client env bg
            ≡ some (record bg { board = b }, some (sent (record bg { board = b }) m)))
  unfolding play_own
  play_own_sent env ready laws bg o =
      let (m, b, chosen, took) = rand_move_taken chess client laws env ready bg.board o in
      (
        m,
        b,
        took,
        rw (chosen, play_own)
            (rw (took) (rw (send_move_sent env ready (record bg { board = b }) m))),
      )
