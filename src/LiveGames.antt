-- ===== src/LiveGames.antt =====
-- gameservice/service/live.go: the list of live games that clients are shown. The pointers of the
-- source are values here: `updateLiveGames`, which alone writes through them, replaces both
-- lists. `sort.Slice` is a parameter.
pub mod Laws
use shahboard.Base.{
  ℕ, ℤ, pos, ◌+ℤ◌, int64, Bool, true, false, not, List, [], ◌∷◌, ◌++◌, map, Option, none, some,
  lookup, insert, delete, if◌then◌else◌, length, take, keep_if, ltb, leb,
}
use shahboard.Types.{ObjectId, dec_id, same_id, Player}

pub record LiveGame : Type 0 where
  pub game_id : ObjectId
  pub player1 : Player
  pub player2 : Player
  pub started_at : ℕ
  pub viewers_number : ℤ
  pub priority_score : ℤ

pub record LiveGames : Type 0 where
  -- by game identifier
  pub list : List (ObjectId × LiveGame)
  pub sorted_list : List LiveGame
  pub list_cap : ℕ

unfoldable pub new_live_games : LiveGames
new_live_games = record { list = []; sorted_list = []; list_cap = 1000 }

unfoldable pub add : LiveGames → LiveGame → LiveGames
add s g = record s {
  list = insert dec_id g.game_id g s.list;
  sorted_list =
      if ltb (length s.sorted_list) s.list_cap then s.sorted_list ++ g ∷ [] else s.sorted_list;
}

unfoldable pub remove : LiveGames → ObjectId → LiveGames
remove s id = record s {
  list = delete dec_id id s.list;
  sorted_list = keep_if (λ g. not (same_id g.game_id id)) s.sorted_list;
}

unfoldable pub get_all : LiveGames → List LiveGame
get_all s = map (λ e. e.1) s.list

-- The sums are int64.
unfoldable calc_priority_score : LiveGame → ℤ
calc_priority_score g = int64 (int64 (g.player1.score +ℤ g.player2.score) +ℤ g.viewers_number)

unfoldable with_score : LiveGame → LiveGame
unfolding calc_priority_score
with_score g = record g { priority_score = calc_priority_score g }

-- The score is written by the comparison of the sort, so a list of one game is left as it is.
unfoldable pub scored : List LiveGame → List LiveGame
unfolding with_score
scored gs = if leb (length gs) 1 then gs else map with_score gs

-- `viewersNumber[g.GameID]`, 0 for a game that is not in the map.
abbrev viewers_of : List (ObjectId × ℤ) → ObjectId → ℤ
viewers_of m id = elim (lookup dec_id id m) [ none ↦ pos 0 | some n ↦ n ]

abbrev pub with_viewers : List (ObjectId × ℤ) → LiveGame → LiveGame
with_viewers m g = record g { viewers_number = viewers_of m g.game_id }

-- The games as the map holds them after their scores and viewers are written.
abbrev write_back : List LiveGame → List (ObjectId × LiveGame) → List (ObjectId × LiveGame)
write_back [] m = m
write_back (g ∷ gs) m = write_back gs (insert dec_id g.game_id g m)

-- `updateLiveGames`; `viewers` is what the gateway answered, `none` for its error.
unfoldable pub update_live_games :
    (List LiveGame → List LiveGame) → LiveGames → Option (List (ObjectId × ℤ)) → LiveGames
unfolding get_all scored
update_live_games sort s none = s
update_live_games sort s (some viewers) =
    let all = scored (map (with_viewers viewers) (get_all s)) in
    let list = sort all in
    record s {
      list = write_back all s.list;
      sorted_list = if ltb s.list_cap (length list) then take s.list_cap list else list;
    }

unfoldable pub get_live_games_sorted : LiveGames → List LiveGame × ℕ
get_live_games_sorted s = (s.sorted_list, length s.list)
