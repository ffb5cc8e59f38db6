-- ===== src/Tracker.antt =====
-- gameservice/service/connection.go: which players of which games are disconnected, and since when.
-- Times are nanoseconds; 0 is Go's zero time, at which no clock stands.
pub mod Laws
pub mod Expiry
use shahboard.Base.{
  ℕ, ◌-◌, Bool, true, false, ◌||◌, List, [], ◌∷◌, map, Option, none, some, ltb, ◌==◌, lookup,
  insert, delete, delete_all, if◌then◌else◌, length,
}
use shahboard.Types.{ObjectId, object_zero, dec_id}

-- playerId -> disconnectedAt
abbrev pub Players : Type 0
Players = List (ObjectId × ℕ)

-- gameId -> playerId -> disconnectedAt
abbrev pub Games : Type 0
Games = List (ObjectId × Players)

pub record Tracker : Type 0 where
  pub list : Games
  pub disconnect_threshold : ℕ

unfoldable pub new_tracker : ℕ → Tracker
new_tracker threshold = record { list = []; disconnect_threshold = threshold }

unfoldable pub remove : Tracker → ObjectId → ObjectId → Tracker
remove t game player = elim (lookup dec_id game t.list) [
  | none ↦ t
  | some players ↦
      let left = delete dec_id player players in
      if length left == 0
      then record t { list = delete dec_id game (insert dec_id game left t.list) }
      else record t { list = insert dec_id game left t.list }
]

unfoldable pub remove_game : Tracker → ObjectId → Tracker
remove_game t game = record t { list = delete dec_id game t.list }

-- `get`; a missing game gives the nil map.
unfoldable pub get : Tracker → ObjectId → Players
get t game = elim (lookup dec_id game t.list) [ none ↦ [] | some players ↦ players ]

-- `getAll` copies the map.
unfoldable pub get_all : Tracker → Games
get_all t = t.list

unfoldable pub add : Tracker → ObjectId → ObjectId → ℕ → Tracker
add t game player now = elim (lookup dec_id game t.list) [
  | none ↦ record t { list = insert dec_id game (insert dec_id player now []) t.list }
  | some players ↦ record t { list = insert dec_id game (insert dec_id player now players) t.list }
]

-- The inner loop of `getGamesNeedsToRemove`, from the earliest player and time so far. A time is
-- before `limit`, which is `now - threshold`, as it is there: times are not negative.
unfoldable pub earliest : ℕ → ObjectId × ℕ → Players → ObjectId × ℕ
earliest limit best [] = best
earliest limit best ((p, at) ∷ ps) =
    earliest limit
      (if ltb at limit then if best.1 == 0 || ltb at best.1 then (p, at) else best else best) ps

-- The outer loop: the games that have to end, each with its earliest player.
unfoldable pub expired : ℕ → Games → List (ObjectId × ObjectId)
unfolding earliest
expired limit [] = []
expired limit ((g, ps) ∷ gs) =
    let (player, at) = earliest limit (object_zero, 0) ps in
    if at == 0 then expired limit gs else (g, player) ∷ expired limit gs

abbrev pub keys : List (ObjectId × ObjectId) → List ObjectId
keys l = map (λ e. e.0) l

unfoldable pub games_needs_to_remove : Tracker → ℕ → Tracker × List (ObjectId × ObjectId)
unfolding expired
games_needs_to_remove t now =
    let ended = expired (now - t.disconnect_threshold) t.list in
    (record t { list = delete_all dec_id (keys ended) t.list }, ended)
