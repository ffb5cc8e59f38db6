-- ===== src/Gateway/Instance.antt =====
-- wsgateway/ws/server.go and the loops that call the handlers: one instance of the gateway. What
-- its goroutines do is a list of inputs in any order; each session takes its own events in order.
pub mod Kept
pub mod Queues
use shahboard.Base.{
  ℕ, Bool, true, false, List, [], ◌∷◌, ◌++◌, map, Option, none, some, lookup, insert, delete,
  if◌then◌else◌,
}
use shahboard.Types.{Bytes, ObjectId, object_zero, dec_id, same_id}
use shahboard.Event.{Event}
use shahboard.RedisHashes.{HashLib}
use shahboard.Gateway.{Session, GatewayEnv, Request, new_session}
use shahboard.Gateway.Registry
use shahboard.Gateway.Registry.{Registry}
use shahboard.Gateway.Subscriptions.{subscribe_basic, receive, broadcast, clean_up}
use shahboard.Gateway.SessionCache.{SessionInCache, add_user_session_id}
use shahboard.Gateway.Requests.{World, handle_msg, send_welcome}
use shahboard.Gateway.Deliveries.{session_event}
use shahboard.Gateway.Cleaning.{stop, remove_session, ping_tick, clean_tick}

-- `Server`: the session objects by identifier, the manager's pointers to them, and the events in
-- the sessions' channels.
pub record Gateway (Db : Type 0) : Type 0 where
  pub sessions : List (ObjectId × Session)
  pub registry : Registry ObjectId
  pub world : World Db
  pub pending : List (ObjectId × Event)
  pub user_sessions_cap : ℕ

pub data Input : Type 0 where
  -- a user opens a connection, for which `NewObjectId` gives the identifier
  connects : ObjectId → ObjectId → Input
  -- a session's client sends a message or a heart beat
  asks : ObjectId → ObjectId → Request → Input
  beats : ObjectId → Input
  -- the listener gets an event from Kafka; a session takes an event from its channel
  receives : Event → Input
  takes : ObjectId → Input
  -- the tickers
  broadcasts cleans_up pings cleans : Input
  -- a session stops, and is removed by the cleaner
  stops removes : ObjectId → Input

-- The first event of the session, and the others.
unfoldable pub take_event :
    ObjectId → List (ObjectId × Event) → Option (Event × List (ObjectId × Event))
take_event id [] = none
take_event id ((j, e) ∷ l) =
    if same_id j id
    then some (e, l)
    else elim (take_event id l) [ none ↦ none | some (e', l') ↦ some (e', (j, e) ∷ l') ]

abbrev all_sessions : List (ObjectId × Session) → List ObjectId → List Session
all_sessions m [] = []
all_sessions m (id ∷ ids) = elim (lookup dec_id id m) [
  | none ↦ all_sessions m ids
  | some s ↦ s ∷ all_sessions m ids
]

module _ (redis : HashLib SessionInCache) where
  open redis use {Db}

  -- The handler of `/ws`.
  unfoldable pub connect : GatewayEnv → Gateway Db → ObjectId → ObjectId → Gateway Db
  unfolding add_user_session_id new_session subscribe_basic send_welcome Registry.add
  connect env g user id =
      let (db, added) =
        add_user_session_id redis env.redis g.user_sessions_cap user id env.now g.world.db in
      let w = record (g.world) { db = db } in
      let g1 = record g { world = w } in
      elim added [
        | none ↦ g1
        | some false ↦ g1
        | some true ↦
            let s = new_session id user object_zero env.now in
            record g1 {
              sessions = insert dec_id id s g.sessions;
              registry = Registry.add g.registry user id id;
              world = send_welcome env (record w { subs = subscribe_basic w.subs s }) s;
            }
      ]

  -- What a handler makes of a session and of the world.
  abbrev pub updated : Gateway Db → ObjectId → Session × World Db → Gateway Db
  updated g id (s, w) = record g { sessions = insert dec_id id s g.sessions; world = w }

  unfoldable pub take : GatewayEnv → Gateway Db → ObjectId → Gateway Db
  unfolding take_event session_event
  take env g id = elim (lookup dec_id id g.sessions) [
    | none ↦ g
    | some s ↦ elim (take_event id g.pending) [
      | none ↦ g
      | some (e, rest) ↦
          updated (record g { pending = rest }) id (session_event redis env s g.world e)
    ]
  ]

  abbrev after_events : Gateway Db → World Db → List (ObjectId × Event) → Gateway Db
  after_events g w es = record g { world = w; pending = g.pending ++ es }

  unfoldable pub step : GatewayEnv → (Bytes → Bool) → Gateway Db → Input → Gateway Db
  unfolding connect take handle_msg receive broadcast clean_up stop remove_session ping_tick
      clean_tick
  step env readable g (connects user id) = connect env g user id
  step env readable g (asks id msg_id r) = elim (lookup dec_id id g.sessions) [
    | none ↦ g
    | some s ↦ updated g id (handle_msg redis env s g.world msg_id r)
  ]
  step env readable g (beats id) = elim (lookup dec_id id g.sessions) [
    | none ↦ g
    | some s ↦ updated g id (record s { last_heart_beat = env.now }, g.world)
  ]
  step env readable g (receives e) =
      let (h, es) = receive g.world.subs e in after_events g (record (g.world) { subs = h }) es
  step env readable g (takes id) = take env g id
  step env readable g broadcasts =
      let (h, es) = broadcast g.world.subs in after_events g (record (g.world) { subs = h }) es
  step env readable g cleans_up = record g {
    world = record (g.world) { subs = clean_up g.world.subs env.now };
  }
  step env readable g pings = record g {
    world =
        ping_tick redis env readable g.world
          (all_sessions g.sessions (Registry.get_all g.registry));
  }
  step env readable g cleans = record g {
    world =
        clean_tick redis env readable g.world
          (all_sessions g.sessions (Registry.get_all g.registry));
  }
  step env readable g (stops id) = elim (lookup dec_id id g.sessions) [
    | none ↦ g
    | some s ↦ record g { world = record (g.world) { subs = stop g.world.subs s } }
  ]
  step env readable g (removes id) = elim (lookup dec_id id g.sessions) [
    | none ↦ g
    | some s ↦
        let (m, w) = remove_session redis env g.registry g.world s in
        record g { sessions = delete dec_id id g.sessions; registry = m; world = w }
  ]
