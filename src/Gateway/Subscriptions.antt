-- ===== src/Gateway/Subscriptions.antt =====
-- wsgateway/ws/events.go: which sessions get which events. A pointer to a session is its
-- identifier; the events that are handed to sessions are returned, in order.
pub mod Broadcast
pub mod Delivered
use shahboard.Base.{
  ℕ, ◌+◌, ◌*◌, Bool, true, false, not, List, [], ◌∷◌, ◌++◌, map, Option, none, some, lookup, insert,
  delete, delete_all, length, ◌==◌, ltb, has, keep_if, if◌then◌else◌,
}
use shahboard.Types.{Bytes, ObjectId, dec_id, same_id, is_zero}
use shahboard.ObjectIds.{parse_object_id}
use shahboard.Event.{
  Event, GameCreated, topic_of, game_created, game_ended, chat_created, msg_approved,
}
use shahboard.Gateway.{Session}
use shahboard.Gateway.Registry.{add_ended}

pub record MatchSub : Type 0 where
  pub session : ObjectId
  pub added_at : ℕ
  pub broadcasted : Bool

-- `sessionsEventsHandler`, with the list of ended games that it shares with the server.
pub record Subscriptions : Type 0 where
  -- userId -> session
  pub direct : List (ObjectId × ObjectId)
  -- matchId -> subscriptions
  pub matches : List (ObjectId × List MatchSub)
  -- gameId -> the sessions that get its events
  pub games : List (ObjectId × List ObjectId)
  -- matchId -> event
  pub created : List (ObjectId × GameCreated)
  pub ended : List ObjectId

-- `defaultfindMatchExpireTreshold`, one minute in nanoseconds.
abbrev pub expire_threshold : ℕ
expire_threshold = 60000000000

abbrev pub match_subs : Subscriptions → ObjectId → List MatchSub
match_subs h m = elim (lookup dec_id m h.matches) [ none ↦ [] | some l ↦ l ]

abbrev pub game_subs : Subscriptions → ObjectId → List ObjectId
game_subs h g = elim (lookup dec_id g h.games) [ none ↦ [] | some l ↦ l ]

unfoldable pub subscribe_basic : Subscriptions → Session → Subscriptions
subscribe_basic h s = record h { direct = insert dec_id s.user_id s.id h.direct }

unfoldable pub subscribe_match : Subscriptions → Session → ℕ → Subscriptions
subscribe_match h s now = record h {
  matches =
      insert dec_id s.match_id
        (match_subs h s.match_id
          ++ (record { session = s.id; added_at = now; broadcasted = false } ∷ []))
        h.matches;
}

-- `gameSubscribers.add` and `remove`, on a set of sessions.
unfoldable pub add_subscriber : List ObjectId → ObjectId → List ObjectId
add_subscriber l id = if has dec_id id l then l else l ++ (id ∷ [])

unfoldable pub remove_subscriber : List ObjectId → ObjectId → List ObjectId
remove_subscriber l id = keep_if (λ j. not (same_id j id)) l

unfoldable pub subscribe_game : Subscriptions → Session → ObjectId → Subscriptions
subscribe_game h s game = record h {
  games = insert dec_id game (add_subscriber (game_subs h game) s.id) h.games;
}

unfoldable pub unsubscribe_basic : Subscriptions → Session → Subscriptions
unsubscribe_basic h s = record h { direct = delete dec_id s.user_id h.direct }

unfoldable pub unsubscribe_match : Subscriptions → Session → Subscriptions
unsubscribe_match h s =
    let left = keep_if (λ m. not (same_id m.session s.id)) (match_subs h s.match_id) in
    if is_zero s.match_id
    then h
    else if length left == 0
    then record h { matches = delete dec_id s.match_id h.matches }
    else record h { matches = insert dec_id s.match_id left h.matches }

-- One of the games of `unsubscribeFromGameWithChat`.
unfoldable pub unsubscribe_game : Subscriptions → Session → ObjectId → Subscriptions
unsubscribe_game h s game = elim (lookup dec_id game h.games) [
  | none ↦ h
  | some l ↦ record h { games = insert dec_id game (remove_subscriber l s.id) h.games }
]

unfoldable pub unsubscribe_games : Subscriptions → Session → List ObjectId → Subscriptions
unsubscribe_games h s [] = h
unsubscribe_games h s (g ∷ gs) = unsubscribe_games (unsubscribe_game h s g) s gs

unfoldable pub delete_game_subscribers : Subscriptions → List ObjectId → Subscriptions
delete_game_subscribers h games = record h { games = delete_all dec_id games h.games }

abbrev pub to_all : List ObjectId → Event → List (ObjectId × Event)
to_all l e = map (λ id. (id, e)) l

-- The case `ActionCreated` of the listener.
unfoldable pub receive_created :
    Subscriptions → GameCreated → Subscriptions × List (ObjectId × Event)
receive_created h e = (
  record h { created = insert dec_id e.match_id e h.created },
  to_all (map (λ m. m.session) (match_subs h e.match_id)) (game_created e),
)

-- The event goes to the subscribers of the game that its topic names.
unfoldable receive_for_game : Bool → Subscriptions → Event → Subscriptions × List (ObjectId × Event)
receive_for_game ends h e = elim (parse_object_id (topic_of e).resource) [
  | none ↦ (h, [])
  | some g ↦
      let h1 = if ends then record h { ended = add_ended h.ended g } else h in
      (h1, to_all (game_subs h1 g) e)
]

-- One event of the subscriptions to the games and their chats, in `startEventListener`.
unfoldable pub receive : Subscriptions → Event → Subscriptions × List (ObjectId × Event)
unfolding receive_created receive_for_game
receive h (game_created e) = receive_created h e
receive h (game_ended e) = receive_for_game true h (game_ended e)
receive h e = receive_for_game false h e

-- The subscriptions of one match in `startBroadcastRoutine`: who gets the event, and what is marked.
unfoldable pub not_broadcasted : List MatchSub → List ObjectId
not_broadcasted [] = []
not_broadcasted (m ∷ ms) =
    if m.broadcasted then not_broadcasted ms else m.session ∷ not_broadcasted ms

unfoldable pub mark_broadcasted : List MatchSub → List MatchSub
mark_broadcasted [] = []
mark_broadcasted (m ∷ ms) = record m { broadcasted = true } ∷ mark_broadcasted ms

-- The loop over the created games.
unfoldable pub broadcast_all :
    List (ObjectId × GameCreated) → Subscriptions → Subscriptions × List (ObjectId × Event)
unfolding not_broadcasted mark_broadcasted
broadcast_all [] h = (h, [])
broadcast_all ((m, e) ∷ cs) h =
    let subs = match_subs h m in
    let h1 =
      if length subs == 0
      then h
      else record h { matches = insert dec_id m (mark_broadcasted subs) h.matches } in
    let (h2, sent) = broadcast_all cs h1 in
    (h2, to_all (not_broadcasted subs) (game_created e) ++ sent)

-- One tick of `startBroadcastRoutine`.
unfoldable pub broadcast : Subscriptions → Subscriptions × List (ObjectId × Event)
unfolding broadcast_all
broadcast h = broadcast_all h.created h

-- The loops of `removeExpiredGameCreatedEvents` and `removeExpiredMatchSubscriptions`.
unfoldable pub unexpired_events : ℕ → List (ObjectId × GameCreated) → List (ObjectId × GameCreated)
unexpired_events now l =
    keep_if (λ c. not (ltb (c.1.timestamp * 1000000000 + expire_threshold) now)) l

unfoldable pub unexpired_subs :
    ℕ → List (ObjectId × List MatchSub) → List (ObjectId × List MatchSub)
unexpired_subs now [] = []
unexpired_subs now ((m, subs) ∷ l) =
    let left = keep_if (λ x. ltb now (x.added_at + expire_threshold)) subs in
    if length left == 0 then unexpired_subs now l else (m, left) ∷ unexpired_subs now l

-- One tick of `startCleanupRoutine`.
unfoldable pub clean_up : Subscriptions → ℕ → Subscriptions
unfolding unexpired_events unexpired_subs
clean_up h now = record h {
  created = unexpired_events now h.created;
  matches = unexpired_subs now h.matches;
}
