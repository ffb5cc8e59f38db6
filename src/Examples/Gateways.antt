-- ===== src/Examples/Gateways.antt =====
-- A small gateway on the small Redis of hashes, and the theorems on sessions applied to it.
use mathlib.Core.List.{Memᴰ}
use shahboard.Base.{
  not, ◌||◌, ℕ, ◌≤◌, true, false, ◌&&◌, List, [], ◌∷◌, ◌++◌, none, some, ◌≡◌, refl, arith, lookup,
  delete, has, length, if◌then◌else◌, pos,
}
use shahboard.Types.{
  is_zero, same_id, Bytes, bytes, ObjectId, object_zero, dec_id, same_id, is_zero, color_white,
  color_black,
}
use shahboard.Event.{GameCreated, GameEnded, MoveEvent, UsersMatchCreated, game_created, game_ended}
use shahboard.Event.Publisher.{done}
use shahboard.Gateway.{Session, GatewayEnv, GamePgn, new_session, move, find_match, resume}
use shahboard.Gateway.Registry.{Change, get, changes, changes_flat, adds, removes}
use shahboard.Gateway.Registry.{get-changes}
use shahboard.Gateway.Subscriptions.{Subscriptions, subscribe_match, receive, broadcast, clean_up}
use shahboard.Gateway.Subscriptions.Delivered.{match_news-told, match_news-told_twice}
use shahboard.Gateway.SessionCache.{user_key, in_cache, add_user_session_id}
use shahboard.Gateway.SessionCache.Caps.{add_user_session_id-cap}
use shahboard.Gateway.Requests.{World, handle_msg, send_err}
use shahboard.Gateway.Requests.Published.{AddsOwn, handle_msg-AddsOwn}
use shahboard.Gateway.Deliveries.{session_event}
use shahboard.Gateway.Deliveries.Lives.{Life, Life-refused}
use shahboard.Gateway.Deliveries.Cached.{entry, session_event-entry}
use shahboard.Gateway.Cleaning.{stop, remove_session}
use shahboard.Gateway.Cleaning.Leaving.{NoOtherPlays, left_of, remove_session-left}
use shahboard.Gateway.Cleaning.Stopping.{gets, gets-stop}
use shahboard.Gateway.Instance.{Gateway, step, connects}
use shahboard.Gateway.Instance.Kept.{Reach, SessionsFit, Reach-SessionsFit}
use shahboard.Examples.Hashes.{Store, hashes, hlaws}

abbrev pgn : GamePgn
pgn = record { game_id = bytes "77"; pgn = bytes "e4"; disconnections = [] }

abbrev env : GatewayEnv
env = record {
  now = 100;
  unix = 1;
  fresh = λ n. bytes "99";
  redis = done;
  send = λ e. done;
  user_game = λ u. some (some pgn);
  live_game = λ g. some none;
}

-- A session that plays the game 77, and views the game 78.
abbrev playing : Session
playing = record {
  id = bytes "11";
  user_id = bytes "1";
  match_id = object_zero;
  play_game_id = bytes "77";
  view_games = bytes "78" ∷ [];
  view_caps = 5;
  last_heart_beat = 90;
}

-- A session that has asked for the match 5.
abbrev waits : Session
waits = record (new_session (bytes "12") (bytes "2") object_zero 90) { match_id = bytes "5" }

abbrev subs : Subscriptions
subs = record {
  direct = [];
  matches = [];
  games = (bytes "77", bytes "11" ∷ bytes "13" ∷ []) ∷ (bytes "78", bytes "11" ∷ []) ∷ [];
  created = [];
  ended = [];
}

abbrev db : Store
db = (
  ((bytes "user_sessions:1"), (bytes "11", in_cache (bytes "1") (bytes "11") (bytes "77") 90) ∷ [])
      ∷ [],
  [],
)

abbrev world : World Store
world = record { subs = subs; db = db; log = []; out = [] }

abbrev moves : MoveEvent
moves = record {
  id = bytes "7";
  game_id = bytes "77";
  player_id = bytes "1";
  move = bytes "e4";
  index = pos 1;
  timestamp = 1;
}

abbrev made : GameCreated
made = record {
  id = bytes "6";
  game_id = bytes "79";
  match_id = bytes "5";
  player1 = record { id = bytes "1"; score = pos 0; color = color_white };
  player2 = record { id = bytes "2"; score = pos 0; color = color_black };
  timestamp = 1;
}

abbrev gateway : Gateway Store
gateway = record {
  sessions = [];
  registry = [];
  world = world;
  pending = [];
  user_sessions_cap = 3;
}

gateway-SessionsFit : SessionsFit gateway
unfolding SessionsFit lookup
gateway-SessionsFit id s e = ground arith

abbrev connected : Gateway Store
connected = step hashes env (λ k. true) gateway (connects (bytes "1") (bytes "12"))

connected-Reach : Reach hashes gateway connected
connected-Reach = Reach.next env (λ k. true) (connects (bytes "1") (bytes "12")) gateway Reach.start

plays : is_zero playing.play_game_id ≡ false
unfolding is_zero dec_id
plays = refl

has_match : is_zero waits.match_id ≡ false
unfolding is_zero dec_id new_session
has_match = refl

same_match : waits.match_id ≡ made.match_id
same_match = refl

waits-Life : Life hashes waits (session_event hashes env waits world (game_created made)).0
waits-Life = Life.got env world (game_created made) waits Life.born

abbrev pair_changes : List (Change ℕ)
pair_changes = adds (bytes "1") (bytes "11") 7 ∷ removes (bytes "1") (bytes "11") ∷ []

handle_msg-AddsOwn_example :
    AddsOwn env playing world.log
      (handle_msg hashes env playing world (bytes "8") (move moves)).1.log
handle_msg-AddsOwn_example = handle_msg-AddsOwn hashes env playing world (bytes "8") (move moves)

remove_session-left_example :
    ((k : Bytes)
      → hashes.hgetall k (remove_session hashes env [] world playing).1.db ≡ (
          if same_id (user_key playing.user_id) k
          then delete dec_id playing.id (hashes.hgetall k world.db)
          else hashes.hgetall k world.db))
    × (NoOtherPlays playing.id (hashes.hgetall (user_key playing.user_id) world.db)
        → (remove_session hashes env [] world playing).1.log
          ≡ world.log ++ (left_of env playing ∷ []))
    × (¬ NoOtherPlays playing.id (hashes.hgetall (user_key playing.user_id) world.db)
        → (remove_session hashes env [] world playing).1.log ≡ world.log)
remove_session-left_example = remove_session-left hashes hlaws env [] world playing plays refl refl

Reach-SessionsFit_example : SessionsFit connected
Reach-SessionsFit_example =
    Reach-SessionsFit hashes gateway connected connected-Reach gateway-SessionsFit

match_news-told_example :
    Memᴰ
      (waits.id, game_created made)
      (receive (subscribe_match subs waits 90) (game_created made)).1
    × Memᴰ
        (waits.id, game_created made)
        (broadcast (clean_up (subscribe_match (receive subs (game_created made)).0 waits 90) 100)).1
match_news-told_example =
    match_news-told subs waits made 90 100 same_match (omega arith) (omega arith)

match_news-told_twice_example :
    Memᴰ
      (waits.id, game_created made)
      (receive (subscribe_match subs waits 90) (game_created made)).1
    × Memᴰ
        (waits.id, game_created made)
        (broadcast (receive (subscribe_match subs waits 90) (game_created made)).0).1
match_news-told_twice_example = match_news-told_twice subs waits made 90 same_match

gets-stop_example : gets (stop subs playing) (bytes "11") (bytes "77") ≡ (
    if same_id (bytes "11") playing.id
      && (not (is_zero playing.play_game_id) && same_id (bytes "77") playing.play_game_id
          || has dec_id (bytes "77") playing.view_games)
    then false
    else gets subs (bytes "11") (bytes "77"))
gets-stop_example = gets-stop subs playing (bytes "11") (bytes "77")

Life-refused_example :
    ((d : UsersMatchCreated)
      → handle_msg hashes env
          (session_event hashes env waits world (game_created made)).0
          world
          (bytes "8")
          (find_match d)
        ≡ (
          (session_event hashes env waits world (game_created made)).0,
          send_err env world
              (session_event hashes env waits world (game_created made)).0
              (bytes "8")
              (bytes "already subscribed to a game"),
        ))
    × ((game : ObjectId)
        → handle_msg hashes env
            (session_event hashes env waits world (game_created made)).0
            world
            (bytes "8")
            (resume game)
          ≡ (
            (session_event hashes env waits world (game_created made)).0,
            send_err env world
                (session_event hashes env waits world (game_created made)).0
                (bytes "8")
                (bytes "already subscribed to a game"),
          ))
Life-refused_example =
    Life-refused hashes waits has_match (session_event hashes env waits world (game_created made)).0
      env world (bytes "8") waits-Life

session_event-entry_example :
    ((d : GameCreated)
      → ((session_event hashes env playing world (game_created d)).0.play_game_id ≡ d.game_id)
        × (entry hashes hlaws env playing world refl
              (session_event hashes env playing world (game_created d)).1.db
            ≡ some (in_cache playing.user_id playing.id d.game_id env.now)))
    × ((d : GameEnded)
        → ((session_event hashes env playing world (game_ended d)).0.play_game_id ≡ (
            if same_id d.game_id playing.play_game_id then object_zero else playing.play_game_id))
          × (entry hashes hlaws env playing world refl
                (session_event hashes env playing world (game_ended d)).1.db
              ≡ some (in_cache playing.user_id playing.id object_zero env.now)))
session_event-entry_example = session_event-entry hashes hlaws env playing world refl

add_user_session_id-cap_example :
    ((k : Bytes)
      → length (hashes.hgetall k db) ≤ 3
      → length
          (hashes.hgetall k (add_user_session_id hashes done 3 (bytes "1") (bytes "14") 100 db).0)
        ≤ 3)
    × ((add_user_session_id hashes done 3 (bytes "1") (bytes "14") 100 db).1 ≡ some true
        → lookup dec_id (bytes "14") (
            hashes.hgetall
              (user_key (bytes "1"))
              (add_user_session_id hashes done 3 (bytes "1") (bytes "14") 100 db).0)
          ≡ some (in_cache (bytes "1") (bytes "14") object_zero 100))
    × ((add_user_session_id hashes done 3 (bytes "1") (bytes "14") 100 db).1 ≡ some false
        → (3 ≤ length (hashes.hgetall (user_key (bytes "1")) db))
          × ((add_user_session_id hashes done 3 (bytes "1") (bytes "14") 100 db).0 ≡ db))
add_user_session_id-cap_example =
    add_user_session_id-cap hashes hlaws done 3 (bytes "1") (bytes "14") 100 db

get-changes_example :
    get (changes [] pair_changes) (bytes "1") (bytes "11")
    ≡ changes_flat (get []) pair_changes (bytes "1") (bytes "11")
get-changes_example = get-changes [] pair_changes (bytes "1") (bytes "11")
