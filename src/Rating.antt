-- ===== src/Rating.antt =====
-- profileservice/service/rating/rating.go and profileservice/entity/rating.go: the ratings after a
-- game. The repository is its two tables; that a call of it fails is in `Env`. float64 is `Floats`.
pub mod Laws
pub mod History
use shahboard.Base.{
  ℕ, ℤ, pos, ◌+ℤ◌, ◌-ℤ◌, int64, ltb_ℤ, Bool, true, false, Option, none, some, List, [], ◌∷◌, ◌++◌,
  if◌then◌else◌, ◌==◌, lookup, insert,
}
use shahboard.Types.{
  ObjectId, dec_id, Color, color_white, color_black, GameOutcome, no_outcome, white_won, black_won,
  draw,
}
use shahboard.Elo.{Floats, base_score, calculate_elo}
use shahboard.Event.{GameEnded}

pub record Rating : Type 0 where
  pub user_id : ObjectId
  pub current_score : ℤ
  pub best_score : ℤ
  pub games_played : ℤ
  pub games_won : ℤ
  pub games_lost : ℤ
  pub games_draw : ℤ
  pub last_updated : ℕ

pub data GameResult : Type 0 where
  loss drawn win : GameResult

pub record GameEloChange : Type 0 where
  pub user_id : ObjectId
  pub elo_change : ℤ
  pub game_id : ObjectId
  pub opponent_id : ObjectId
  pub result : GameResult
  pub updated_at : ℕ

-- The tables `ratings` and `game_elo_changes`.
pub record Tables : Type 0 where
  pub ratings : List (ObjectId × Rating)
  pub changes : List GameEloChange

-- The time, and which calls of the repository fail.
pub record Env : Type 0 where
  pub now : ℕ
  pub get1_fails : Bool
  pub get2_fails : Bool
  pub update_fails : Bool

-- A user who is not in the table starts with the base score.
abbrev new_rating_of : ObjectId → Rating
new_rating_of id = record {
  user_id = id;
  current_score = base_score;
  best_score = pos 0;
  games_played = pos 0;
  games_won = pos 0;
  games_lost = pos 0;
  games_draw = pos 0;
  last_updated = 0;
}

-- `GetUserRating`, where the repository answers.
unfoldable pub get_user_rating : Tables → ObjectId → Rating
get_user_rating db id = elim (lookup dec_id id db.ratings) [ none ↦ new_rating_of id | some r ↦ r ]

-- `x++` on an int64.
abbrev pub inc : ℤ → ℤ
inc x = int64 (x +ℤ pos 1)

abbrev pub played : Rating → Rating
played r = record r { games_played = inc r.games_played }

abbrev pub won : Rating → Rating
won r = record r { games_won = inc r.games_won }

abbrev pub lost : Rating → Rating
lost r = record r { games_lost = inc r.games_lost }

abbrev pub drew : Rating → Rating
drew r = record r { games_draw = inc r.games_draw }

unfoldable pub update_game_stats : Rating → Rating → GameOutcome → Color → Rating × Rating
update_game_stats r1 r2 white_won c =
    if c == color_white
    then (won (played r1), lost (played r2))
    else (lost (played r1), won (played r2))
update_game_stats r1 r2 black_won c =
    if c == color_black
    then (won (played r1), lost (played r2))
    else (lost (played r1), won (played r2))
update_game_stats r1 r2 draw c = (drew (played r1), drew (played r2))
update_game_stats r1 r2 no_outcome c = (played r1, played r2)

-- `repo.Update`: one transaction.
unfoldable pub update : Env → Tables → Rating → Rating → GameEloChange → GameEloChange → Tables
update env db r1 r2 c1 c2 = if env.update_fails then db else record db {
  ratings = insert dec_id r2.user_id r2 (insert dec_id r1.user_id r1 db.ratings);
  changes = db.changes ++ (c1 ∷ c2 ∷ []);
}

-- The new score, and the best one so far.
abbrev pub rescored : ℕ → ℤ → Rating → Rating
rescored now elo r = record r {
  current_score = elo;
  last_updated = now;
  best_score = if ltb_ℤ r.best_score elo then elo else r.best_score;
}

module _ (f : Floats) where
  open f use {Float, of_int, half, sub, eq}

  unfoldable pub calc_score1 : GameOutcome → Color → Float
  calc_score1 white_won c = if c == color_white then of_int (pos 1) else of_int (pos 0)
  calc_score1 black_won c = if c == color_black then of_int (pos 1) else of_int (pos 0)
  calc_score1 o c = half

  unfoldable pub results : Float → GameResult × GameResult
  results s1 =
      if eq s1 (of_int (pos 1))
      then (win, loss)
      else if eq s1 (of_int (pos 0))
      then (loss, win)
      else (drawn, drawn)

  unfoldable pub handle_game_ended : Env → Tables → GameEnded → Tables
  handle_game_ended env db e =
      let r1 = get_user_rating db e.player1.id in
      let r2 = get_user_rating db e.player2.id in
      let s1 = calc_score1 e.outcome e.player1.color in
      let elo1 = calculate_elo f r1.current_score r2.current_score s1 in
      let elo2 = calculate_elo f r2.current_score r1.current_score (sub (of_int (pos 1)) s1) in
      let (result1, result2) = results s1 in
      let c1 : GameEloChange = record {
        user_id = e.player1.id;
        elo_change = int64 (elo1 -ℤ r1.current_score);
        game_id = e.game_id;
        opponent_id = e.player2.id;
        result = result1;
        updated_at = env.now;
      } in
      let c2 : GameEloChange = record {
        user_id = e.player2.id;
        elo_change = int64 (elo2 -ℤ r2.current_score);
        game_id = e.game_id;
        opponent_id = e.player1.id;
        result = result2;
        updated_at = env.now;
      } in
      let (r1', r2') =
        update_game_stats (rescored env.now elo1 r1) (rescored env.now elo2 r2) e.outcome
          e.player1.color in
      if env.get1_fails then db else if env.get2_fails then db else update env db r1' r2' c1 c2
