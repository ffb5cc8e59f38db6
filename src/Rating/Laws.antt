-- ===== src/Rating/Laws.antt =====
-- profileservice/service/rating/rating.go: the ratings stay sound, and the results mirror.
use shahboard.Base.{
  ℕ, ◌+◌, ◌<◌, ◌≤◌, ◌^◌, ℤ, pos, negsuc, ◌+ℤ◌, int64, ◌≤ℤ◌, pos_part, neg_part, true, false,
  if◌then◌else◌, ◌≡◌, refl, arith, All, All-insert, All-lookup, Bool-cases, Option-cases, inl, inr,
  lookup, ◌==◌,
}
use shahboard.Types.{
  ObjectId, dec_id, Color, GameOutcome, no_outcome, white_won, black_won, draw, color_white,
  color_black,
}
use shahboard.Elo.{Floats, Truncates, InRange, min_score, calculate_elo, calculate_elo-ge_min}
use shahboard.Event.{GameEnded}
use shahboard.Rating.{
  Rating, Tables, Env, GameResult, win, loss, drawn, get_user_rating, inc, update_game_stats,
  update, rescored, calc_score1, results, handle_game_ended, played, won, lost, drew,
}

inc_lem :
    (x : ℤ)
    → neg_part x ≡ 0
    → pos_part x + 1 < 2 ^ 63
    → (neg_part (inc x) ≡ 0) × (pos_part (inc x) ≡ pos_part x + 1)
unfolding int64 ◌+ℤ◌
inc_lem (pos n) h k = (ground arith, ground arith)
inc_lem (negsuc n) h k = (ground arith, ground arith)

-- The counters of a rating: none is negative, and no more games are decided than played.
abbrev Counts : Rating → Type 0
Counts r =
    (neg_part r.games_played ≡ 0)
    × (neg_part r.games_won ≡ 0)
    × (neg_part r.games_lost ≡ 0)
    × (neg_part r.games_draw ≡ 0)
    × (pos_part r.games_won + pos_part r.games_lost + pos_part r.games_draw
        ≤ pos_part r.games_played)

-- A sound rating: its counters are, and its score is between the least and its best.
abbrev pub IsSound : Rating → Type 0
IsSound r = Counts r × (min_score ≤ℤ r.current_score) × (r.current_score ≤ℤ r.best_score)

-- One more game does not overflow.
abbrev HasRoom : Rating → Type 0
HasRoom r = pos_part r.games_played + 1 < 2 ^ 63

won-Counts : (r : Rating) → Counts r → HasRoom r → Counts (won (played r))
won-Counts r (p, w, l, d, s) h =
    let k : pos_part r.games_won + 1 < 2 ^ 63 = omega (arith, s, h) in
    omega (arith, inc_lem r.games_played p h, inc_lem r.games_won w k, l, d, s)

lost-Counts : (r : Rating) → Counts r → HasRoom r → Counts (lost (played r))
lost-Counts r (p, w, l, d, s) h =
    let k : pos_part r.games_lost + 1 < 2 ^ 63 = omega (arith, s, h) in
    omega (arith, inc_lem r.games_played p h, inc_lem r.games_lost l k, w, d, s)

drew-Counts : (r : Rating) → Counts r → HasRoom r → Counts (drew (played r))
drew-Counts r (p, w, l, d, s) h =
    let k : pos_part r.games_draw + 1 < 2 ^ 63 = omega (arith, s, h) in
    omega (arith, inc_lem r.games_played p h, inc_lem r.games_draw d k, w, l, s)

played-Counts : (r : Rating) → Counts r → HasRoom r → Counts (played r)
played-Counts r (p, w, l, d, s) h = omega (arith, inc_lem r.games_played p h, w, l, d, s)

-- The same user and scores.
abbrev SameScores : Rating → Rating → Type 0
SameScores r r' =
    (r'.user_id ≡ r.user_id) × (r'.current_score ≡ r.current_score) × (r'.best_score ≡ r.best_score)

update_game_stats-Counts :
    (r1 r2 : Rating) (o : GameOutcome) (c : Color)
    → Counts r1 × HasRoom r1
    → Counts r2 × HasRoom r2
    → (Counts (update_game_stats r1 r2 o c).0 × SameScores r1 (update_game_stats r1 r2 o c).0)
      × (Counts (update_game_stats r1 r2 o c).1 × SameScores r2 (update_game_stats r1 r2 o c).1)
unfolding update_game_stats
update_game_stats-Counts r1 r2 white_won c (a, h) (b, k) = elim (Bool-cases (c == color_white)) [
  | inl t ↦ rw t ((won-Counts r1 a h, (refl, refl, refl)), (lost-Counts r2 b k, (refl, refl, refl)))
  | inr t ↦ rw t ((lost-Counts r1 a h, (refl, refl, refl)), (won-Counts r2 b k, (refl, refl, refl)))
]
update_game_stats-Counts r1 r2 black_won c (a, h) (b, k) = elim (Bool-cases (c == color_black)) [
  | inl t ↦ rw t ((won-Counts r1 a h, (refl, refl, refl)), (lost-Counts r2 b k, (refl, refl, refl)))
  | inr t ↦ rw t ((lost-Counts r1 a h, (refl, refl, refl)), (won-Counts r2 b k, (refl, refl, refl)))
]
update_game_stats-Counts r1 r2 draw c (a, h) (b, k) =
    ((drew-Counts r1 a h, (refl, refl, refl)), (drew-Counts r2 b k, (refl, refl, refl)))
update_game_stats-Counts r1 r2 no_outcome c (a, h) (b, k) =
    ((played-Counts r1 a h, (refl, refl, refl)), (played-Counts r2 b k, (refl, refl, refl)))

-- An entry of the table: it is under its user's identifier, and sound.
abbrev pub IsEntry : ObjectId × Rating → Type 0
IsEntry (id, r) = (r.user_id ≡ id) × IsSound r

abbrev pub HasRoomEntry : ObjectId × Rating → Type 0
HasRoomEntry (id, r) = HasRoom r

-- What `GetUserRating` gives is sound, up to the best score of a user who has not played.
get_user_rating-Counts :
    (db : Tables) (id : ObjectId)
    → All IsEntry db.ratings
    → All HasRoomEntry db.ratings
    → ((get_user_rating db id).user_id ≡ id)
      × Counts (get_user_rating db id)
      × HasRoom (get_user_rating db id)
unfolding get_user_rating
get_user_rating-Counts db id h k = elim (Option-cases (lookup dec_id id db.ratings)) [
  | inl e ↦ rw (get_user_rating, e) (refl, omega arith, omega arith)
  | inr (r, e) ↦
      let p : IsEntry (id, r) = All-lookup dec_id IsEntry id r db.ratings h e in
      let q : HasRoomEntry (id, r) = All-lookup dec_id HasRoomEntry id r db.ratings k e in
      rw (get_user_rating, e) (p.0, p.1.0, q)
]

rescored-best : (now : ℕ) (elo : ℤ) (r : Rating) → elo ≤ℤ (rescored now elo r).best_score
rescored-best now elo r = ground arith

-- A rating with sound counters and the scores of a sound one is an entry.
IsEntry-of_scores :
    (r r' : Rating)
    → Counts r' × SameScores r r'
    → min_score ≤ℤ r.current_score
    → r.current_score ≤ℤ r.best_score
    → IsEntry (r'.user_id, r')
IsEntry-of_scores r r' (c, (u, s, b)) l h = (refl, (c, rw s l, rw (s, b) h))

module _ (f : Floats) (trunc : Truncates f) where
  -- If every rating of the table stands under its user's identifier, with no negative counter,
  -- no more games decided than played and a score between the least one and its best, and no
  -- counter of games is at its limit, then a game that ends leaves all ratings so, whatever its
  -- outcome and the failures of the repository, provided that the formula gives both players a
  -- float64 below 2 ^ 63, and that a float64 from 1000 up to there is truncated to no less
  -- than 1000.
  pub handle_game_ended-IsSound :
      (env : Env) (db : Tables) (e : GameEnded)
      → All IsEntry db.ratings
      → All HasRoomEntry db.ratings
      → let a = (get_user_rating db e.player1.id).current_score in
        let b = (get_user_rating db e.player2.id).current_score in
        let score = calc_score1 f e.outcome e.player1.color in
        InRange f a b score
        → InRange f b a (f.sub (f.of_int (pos 1)) score)
        → All IsEntry (handle_game_ended f env db e).ratings
  unfolding handle_game_ended update
  handle_game_ended-IsSound env db e h k range1 range2 =
      let r1 = get_user_rating db e.player1.id in
      let r2 = get_user_rating db e.player2.id in
      let s1 = calc_score1 f e.outcome e.player1.color in
      let s2 = f.sub (f.of_int (pos 1)) s1 in
      let elo1 = calculate_elo f r1.current_score r2.current_score s1 in
      let elo2 = calculate_elo f r2.current_score r1.current_score s2 in
      let q1 = rescored env.now elo1 r1 in
      let q2 = rescored env.now elo2 r2 in
      let (u1, a1, b1) = get_user_rating-Counts db e.player1.id h k in
      let (u2, a2, b2) = get_user_rating-Counts db e.player2.id h k in
      let us = update_game_stats q1 q2 e.outcome e.player1.color in
      let stats = update_game_stats-Counts q1 q2 e.outcome e.player1.color (a1, b1) (a2, b2) in
      let entry1 =
        IsEntry-of_scores q1 us.0 stats.0
          (calculate_elo-ge_min f trunc r1.current_score r2.current_score s1 range1)
          (rescored-best env.now elo1 r1) in
      let entry2 =
        IsEntry-of_scores q2 us.1 stats.1
          (calculate_elo-ge_min f trunc r2.current_score r1.current_score s2 range2)
          (rescored-best env.now elo2 r2) in
      elim (Bool-cases env.get1_fails) [
        | inl t ↦ rw t h
        | inr t ↦ elim (Bool-cases env.get2_fails) [
          | inl u ↦ rw (t, u) h
          | inr u ↦ elim (Bool-cases env.update_fails) [
            | inl v ↦ rw (t, u, v) h
            | inr v ↦
                rw (t, u, v)
                  (All-insert dec_id IsEntry _ _ _ entry2
                    (All-insert dec_id IsEntry _ _ db.ratings entry1 h))
          ]
        ]
      ]

-- Comparison of float64 tells the three results of a game apart.
abbrev TellsResults : Floats → Type 0
TellsResults f =
    (f.eq (f.of_int (pos 1)) (f.of_int (pos 1)) ≡ true)
    × (f.eq (f.of_int (pos 0)) (f.of_int (pos 1)) ≡ false)
    × (f.eq (f.of_int (pos 0)) (f.of_int (pos 0)) ≡ true)
    × (f.eq f.half (f.of_int (pos 1)) ≡ false)
    × (f.eq f.half (f.of_int (pos 0)) ≡ false)

abbrev mirror : GameResult → GameResult
mirror loss = win
mirror drawn = drawn
mirror win = loss

-- The player with the colour of the winner.
abbrev result_of : GameOutcome → Color → GameResult
result_of white_won c = if c == color_white then win else loss
result_of black_won c = if c == color_black then win else loss
result_of o c = drawn

-- Where comparison tells the float64 values 0, 1/2 and 1 apart, the results recorded for the two
-- players mirror each other, and the first player's is a win exactly with the winner's colour; a
-- game without a winner is a draw for both.
results-mirror :
    (f : Floats)
    → TellsResults f
    → (o : GameOutcome) (c : Color)
    → results f (calc_score1 f o c) ≡ (result_of o c, mirror (result_of o c))
unfolding results calc_score1
results-mirror f (a, b, d, h, k) white_won c = elim (Bool-cases (c == color_white)) [
  | inl t ↦ rw (t, a) refl
  | inr t ↦ rw (t, b, d) refl
]
results-mirror f (a, b, d, h, k) black_won c = elim (Bool-cases (c == color_black)) [
  | inl t ↦ rw (t, a) refl
  | inr t ↦ rw (t, b, d) refl
]
results-mirror f (a, b, d, h, k) draw c = rw (h, k) refl
results-mirror f (a, b, d, h, k) no_outcome c = rw (h, k) refl
