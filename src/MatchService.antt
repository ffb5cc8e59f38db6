-- ===== src/MatchService.antt =====
-- matchservice/service/service.go: the requests for an opponent over the matching engine, and what
-- is published of its matches. A request that waits ends by its answer, which `findMatches` gives,
-- or by `gives_up`: its context is done, or its time is over.
pub mod Pairs
use shahboard.Base.{
  ℕ, ℤ, Bool, true, false, not, List, [], ◌∷◌, ◌++◌, map, Option, none, some, if◌then◌else◌,
}
use shahboard.Types.{Bytes, bytes, ObjectId, object_zero, same_id}
use shahboard.Elo.{base_score}
use shahboard.Event.{Event, UsersMatchCreated, users_matched}
use shahboard.Event.Publisher.{Reply, publish}
use shahboard.MatchEngine.{
  MatchRequest, Queues, Round, new_engine, add_to_queue, cancel_request, find_matches,
}

pub record MatchService : Type 0 where
  pub queues : Queues
  -- the answers that requests got
  pub answers : List (MatchRequest × UsersMatchCreated)
  pub log : List Event

abbrev pub new_service : MatchService
new_service = record { queues = new_engine; answers = []; log = [] }

pub data MatchInput : Type 0 where
  -- a user asks, with what the game service and the rating service answer (`none` is an error)
  asks : ObjectId → Option ObjectId → Option ℤ → MatchInput
  gives_up : MatchRequest → MatchInput
  -- the engine's ticker, with the identifiers of `NewObjectId`, the time, and Kafka
  ticks : (ℕ → ObjectId) → ℕ → (Event → Reply) → MatchInput

-- `NewMatchRequest` until it waits: the error's text, or the request and the queues.
pub data Asked : Type 0 where
  waits_for : MatchRequest → Queues → Asked
  refused_with : Bytes → Asked

unfoldable pub new_match_request : Option ObjectId → Option ℤ → ObjectId → Queues → Asked
unfolding add_to_queue
new_match_request none score user q = refused_with (bytes "internal error")
new_match_request (some game) score user q =
    let score' : ℤ = elim score [ none ↦ base_score | some n ↦ n ] in
    if not (same_id game object_zero)
    then refused_with (bytes "user is already in a game")
    else elim (add_to_queue user score' q) [
      | none ↦ refused_with (bytes "user '" ++ (user ++ bytes "' already has a match request"))
      | some (r, q') ↦ waits_for r q'
    ]

-- The loop of `run`, for one list of matches.
unfoldable pub publish_matches : (Event → Reply) → List Event → List UsersMatchCreated → List Event
publish_matches send log [] = log
publish_matches send log (m ∷ ms) = (publish send log (map users_matched (m ∷ ms))).0

unfoldable pub match_step : MatchService → MatchInput → MatchService
unfolding new_match_request cancel_request find_matches publish_matches
match_step s (asks user game score) = elim (new_match_request game score user s.queues) [
  | refused_with e ↦ s
  | waits_for r q ↦ record s { queues = q }
]
match_step s (gives_up r) = record s { queues = cancel_request r s.queues }
match_step s (ticks new_id t send) =
    let w = find_matches new_id t s.queues in
    record s {
      queues = w.queues;
      answers = s.answers ++ w.sent;
      log = publish_matches send s.log w.matches;
    }
