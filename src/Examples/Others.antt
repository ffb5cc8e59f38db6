-- ===== src/Examples/Others.antt =====
-- The matching of users, the ratings, the lists of live games and of absent players, the event
-- subscribers and the identifiers: the theorems on them applied to small inputs.
use shahboard.Base.{
  int64, lookup, ℕ, ◌-◌, ◌≤◌, ◌<◌, ◌^◌, ◌*◌, ◌/◌, ◌+ℤ◌, ◌-ℤ◌, ℤ, pos, ltb_ℤ, pos_part, true, false,
  [], ◌∷◌, ◌++◌, ◌≡◌, refl, arith, if◌then◌else◌, lookup, insert, All, length, has, ℕ_discrete,
  delete,
}
use shahboard.Types.{bytes, ObjectId, dec_id, pawn, king, white_won, color_white, color_black}
use shahboard.Elo.{Floats, Truncates, InRange, new_rating, get_player_level}
use shahboard.MatchEngine.{MatchRequest, Queues, find_matches, set_queue, new_engine}
use shahboard.MatchEngine.Waiting.{WaitsOnce}
use shahboard.MatchEngine.Matches.{answered, waiting, IsPair, find_matches_lem}
use shahboard.Rating.{get_user_rating, calc_score1, Tables, Env, handle_game_ended}
use shahboard.Rating.Laws.{IsEntry, HasRoomEntry, handle_game_ended-IsSound}
use shahboard.Tracker.{Tracker, games_needs_to_remove, get, keys}
use shahboard.Tracker.Expiry.{
  AllTimed, IsEnded, IsTracked, IsLongestAway, Occurs, games_needs_to_remove_lem,
}
use shahboard.Tracker.{Players}
use shahboard.LiveGames.{LiveGame, LiveGames}
use shahboard.Event.{GameEnded}
use shahboard.Event.Subscribers.{
  FeedSub, Subs, subs_of, IsHeld, add_sub, remove_sub, add_sub_displaces,
}

abbrev early : MatchRequest
early = record { user_id = bytes "1"; score = pos 1000; level = pawn }

abbrev strong : MatchRequest
strong = record { user_id = bytes "2"; score = pos 2500; level = king }

-- A pawn and a king wait.
abbrev pub queues : Queues
queues = set_queue pawn (early ∷ []) (set_queue king (strong ∷ []) new_engine)

-- Whole numbers in place of float64. Negative factors count as 0, and 2 stands for a half.
abbrev whole : Floats
whole = record {
  Float = ℤ;
  of_int = λ n. n;
  half = pos 2;
  add = λ a b. a +ℤ b;
  sub = λ a b. a -ℤ b;
  mul = λ a b. pos (pos_part a * pos_part b);
  div = λ a b. pos (pos_part a / pos_part b);
  pow10 = λ a. pos (10 ^ pos_part a);
  lt = λ a b. ltb_ℤ a b;
  eq = λ a b. if ltb_ℤ a b then false else if ltb_ℤ b a then false else true;
  truncate = λ a. a;
}

whole-truncates : Truncates whole
whole-truncates x h k = ground arith

abbrev ended : GameEnded
ended = record {
  id = bytes "9";
  game_id = bytes "77";
  player1 = record { id = bytes "1"; score = pos 1500; color = color_white };
  player2 = record { id = bytes "2"; score = pos 1000; color = color_black };
  outcome = white_won;
  desc = bytes "";
  timestamp = 3;
}

abbrev rated : Tables
rated = record {
  ratings =
      (
        bytes "1",
        record {
          user_id = bytes "1";
          current_score = pos 1500;
          best_score = pos 1600;
          games_played = pos 3;
          games_won = pos 1;
          games_lost = pos 1;
          games_draw = pos 1;
          last_updated = 1;
        },
      )
      ∷ [];
  changes = [];
}

abbrev rating_env : Env
rating_env = record { now = 4; get1_fails = false; get2_fails = false; update_fails = false }

rated-IsEntry : All IsEntry rated.ratings
rated-IsEntry = ground arith

rated-HasRoom : All HasRoomEntry rated.ratings
rated-HasRoom = ground arith

abbrev tracker : Tracker
tracker = record {
  list = (bytes "77", (bytes "1", 5) ∷ (bytes "2", 90) ∷ []) ∷ [];
  disconnect_threshold = 60;
}

tracker-timed : AllTimed tracker.list
tracker-timed = ground arith

abbrev shown : LiveGame
shown = record {
  game_id = bytes "77";
  player1 = ended.player1;
  player2 = ended.player2;
  started_at = 3;
  viewers_number = pos 0;
  priority_score = pos 0;
}

abbrev live : LiveGames
live = record { list = (shown.game_id, shown) ∷ []; sorted_list = shown ∷ []; list_cap = 2 }

abbrev sub_of : ℕ → ℕ → FeedSub
sub_of i c = record {
  index = i;
  topic = record { domain = bytes "game"; action = bytes "*"; resource = bytes "*" };
  chan = c;
}

abbrev two_subs : Subs
two_subs = (bytes "game", (0, sub_of 0 7) ∷ (1, sub_of 1 8) ∷ []) ∷ []

two_subs-IsHeld : IsHeld (remove_sub two_subs (sub_of 0 7)) (sub_of 1 8)
unfolding remove_sub lookup insert delete dec_id ℕ_discrete
two_subs-IsHeld = refl

two_subs-length : length (subs_of (remove_sub two_subs (sub_of 0 7)) (bytes "game")) ≡ 1
unfolding remove_sub lookup insert delete dec_id ℕ_discrete
two_subs-length = refl

find_matches_lem_example :
    (answered (find_matches (λ n. bytes "50") 3 queues).sent
        ++ waiting (find_matches (λ n. bytes "50") 3 queues).queues
      ≡ waiting queues)
    × (length (waiting (find_matches (λ n. bytes "50") 3 queues).queues) ≤ 1)
    × (WaitsOnce queues → All IsPair (find_matches (λ n. bytes "50") 3 queues).matches)
    × (WaitsOnce queues → WaitsOnce (find_matches (λ n. bytes "50") 3 queues).queues)
find_matches_lem_example = find_matches_lem (λ n. bytes "50") 3 queues

first-InRange : InRange whole (pos 1500) (pos 1000) (pos 1)
unfolding new_rating get_player_level ◌+ℤ◌ ◌-ℤ◌ int64
first-InRange = refl

second-InRange : InRange whole (pos 1000) (pos 1500) (pos 0)
unfolding new_rating get_player_level ◌+ℤ◌ ◌-ℤ◌ int64
second-InRange = refl

handle_game_ended-IsSound_example :
    All IsEntry (handle_game_ended whole rating_env rated ended).ratings
unfolding get_user_rating calc_score1 lookup dec_id ◌-ℤ◌
handle_game_ended-IsSound_example =
    handle_game_ended-IsSound whole whole-truncates rating_env rated ended rated-IsEntry
      rated-HasRoom first-InRange second-InRange

games_needs_to_remove_lem_example :
    let limit = 100 - tracker.disconnect_threshold in
    let (t', ended) = games_needs_to_remove tracker 100 in
    ((g p : ObjectId)
      → IsEnded g p ended
      → (ps : Players) × IsTracked g ps tracker.list × IsLongestAway limit p ps)
    × ((g q : ObjectId) (at : ℕ) (ps : Players)
        → IsTracked g ps tracker.list
        → Occurs q at ps
        → at < limit
        → has dec_id g (keys ended) ≡ true)
    × ((g : ObjectId) → get t' g ≡ (if has dec_id g (keys ended) then [] else get tracker g))
games_needs_to_remove_lem_example = games_needs_to_remove_lem tracker 100 tracker-timed

add_sub_displaces_example :
    ¬ IsHeld (add_sub (remove_sub two_subs (sub_of 0 7)) (sub_of 0 9)).0 (sub_of 1 8)
add_sub_displaces_example =
    add_sub_displaces two_subs (sub_of 0 7) (sub_of 1 8) (sub_of 0 9) two_subs-IsHeld refl
      (omega arith) two_subs-length
