-- ===== src/MatchEngine.antt =====
-- matchservice/service/engine.go: the queues of the users who look for an opponent, one for each
-- level. The mutex makes each operation one step; the channels' buffers are the list `sent`.
pub mod Waiting
pub mod Matches
use shahboard.Base.{
  ℕ, ◌+◌, ℤ, Bool, true, false, ◌||◌, Option, none, some, List, [], ◌∷◌, ◌++◌, holds, if◌then◌else◌,
  ◌==◌,
}
use shahboard.Types.{ObjectId, User, Level, pawn, knight, bishop, rook, queen, king, same_id, bytes}
use shahboard.Event.{UsersMatchCreated}
use shahboard.Elo.{get_player_level, rank}

pub record MatchRequest : Type 0 where
  pub user_id : ObjectId
  pub score : ℤ
  pub level : Level

abbrev pub same_level : Level → Level → Bool
same_level a b = rank a == rank b

-- `engine.queue`: a level without an entry has no requests.
abbrev pub Queues : Type 0
Queues = Level → List MatchRequest

-- `e.queue[l] = rs`
abbrev pub set_queue : Level → List MatchRequest → Queues → Queues
set_queue l rs q j = if same_level l j then rs else q j

abbrev pub new_engine : Queues
new_engine l = []

abbrev pub has_request : ObjectId → List MatchRequest → Bool
has_request id [] = false
has_request id (r ∷ rs) = if same_id r.user_id id then true else has_request id rs

-- The search of `addToQueue` through all queues.
abbrev pub is_waiting : ObjectId → Queues → Bool
is_waiting id q =
    has_request id (q king)
    || (has_request id (q queen)
        || (has_request id (q rook)
            || (has_request id (q bishop)
                || (has_request id (q knight) || has_request id (q pawn)))))

-- `addToQueue`: the request and the new queues, or nothing for a user who waits already.
unfoldable pub add_to_queue : ObjectId → ℤ → Queues → Option (MatchRequest × Queues)
add_to_queue id s q =
    let l = get_player_level s in
    let r : MatchRequest = record { user_id = id; score = s; level = l } in
    if is_waiting id q then none else some (r, set_queue l (q l ++ (r ∷ [])) q)

-- `append(users[:i], users[i+1:]...)` at the first request of the user.
abbrev pub remove_request : ObjectId → List MatchRequest → List MatchRequest
remove_request id [] = []
remove_request id (r ∷ rs) = if same_id r.user_id id then rs else r ∷ remove_request id rs

unfoldable pub cancel_request : MatchRequest → Queues → Queues
cancel_request r q = set_queue r.level (remove_request r.user_id (q r.level)) q

-- One match of `findMatches`. `User.Email` and `User.IsGuest` are left at their zero values.
abbrev pub match_of : ObjectId → ℕ → MatchRequest → MatchRequest → UsersMatchCreated
match_of id t u1 u2 = record {
  id = id;
  user1 = record { id = u1.user_id; email = bytes ""; is_guest = false; score = u1.score };
  user2 = record { id = u2.user_id; email = bytes ""; is_guest = false; score = u2.score };
  timestamp = t;
}

-- The state of the loop of `findMatches`: what it appends to, the queues, and how many identifiers
-- `NewObjectId` has given.
pub record Round : Type 0 where
  pub leftover : List MatchRequest
  pub matches : List UsersMatchCreated
  pub sent : List (MatchRequest × UsersMatchCreated)
  pub queues : Queues
  pub ids : ℕ

-- `for _, r := range leftover`
abbrev pub requeue : List MatchRequest → Queues → Queues
requeue [] q = q
requeue (r ∷ rs) q = requeue rs (set_queue r.level (q r.level ++ (r ∷ [])) q)

-- `new_id n` is the n-th identifier that `NewObjectId` gives, and `t` the time of the call.
module _ (new_id : ℕ → ObjectId) (t : ℕ) where
  -- The match of the first two requests, and its answers to them.
  abbrev pub add_match : MatchRequest → MatchRequest → Round → Round
  add_match u1 u2 w =
      let m = match_of (new_id w.ids) t u1 u2 in
      record w {
        matches = w.matches ++ (m ∷ []);
        sent = w.sent ++ ((u1, m) ∷ (u2, m) ∷ []);
        ids = w.ids + 1;
      }

  -- `for len(currentQueue) > 1`, and what it leaves in `currentQueue` as the leftover.
  unfoldable pub pair_up : List MatchRequest → Round → Round
  pair_up [] w = record w { leftover = [] }
  pair_up (u ∷ []) w = record w { leftover = u ∷ [] }
  pair_up (u1 ∷ u2 ∷ us) w = pair_up us (add_match u1 u2 w)

  -- One turn of the loop on the levels.
  unfoldable pub match_level : Level → Round → Round
  match_level l w =
      let w' = pair_up (w.leftover ++ w.queues l) w in
      record w' { queues = set_queue l [] w'.queues }

  -- `findMatches`: the matches, the answers sent to the requests, and the new queues.
  unfoldable pub find_matches : Queues → Round
  find_matches q =
      let start : Round = record { leftover = []; matches = []; sent = []; queues = q; ids = 0 } in
      let w = match_level pawn (
        match_level knight
          (match_level bishop (match_level rook (match_level queen (match_level king start))))) in
      record w { queues = requeue w.leftover w.queues }
