-- ===== src/Examples/Messages.antt =====
-- Small managers of subscriptions, subscribers and messages, and the theorems applied to them.
use shahboard.Base.{
  ℕ, ◌<◌, ◌&&◌, ◌==◌, keep_if, ◌⊎◌, ◌≡◌, refl, true, false, [], ◌∷◌, Option, none, some, map,
  lookup, insert, ℕ_discrete, arith,
}
use shahboard.Types.{Bytes, bytes, dec_id, same_id}
use shahboard.Event.{Event, user_logged_in, topic_of}
use shahboard.Event.Topics.{domain_user, new_topic}
use shahboard.Event.Kinds.{Kind}
use shahboard.Event.Publisher.{done, delivered, publish}
use shahboard.Event.Subscribers.{Subs, FeedSub}
use shahboard.Event.Manager.{
  Manager, Sub, closing, new_manager, adding, receiving, stopping, listening, step, act, Reach,
  here, next,
}
use shahboard.Event.Manager.Stopping.{stop_waits, Reach-locked}
use shahboard.Event.Manager.Listening.{IsListened, Reach-IsListened}
use shahboard.Event.Consumers
use shahboard.Event.Consumers.{Message, message_of, consume_claim, Group, consume}
use shahboard.Event.Consumers.Covering.{
  sent_to, claim_of, IsFit, subscribed, stopped as call_stopped, Reach-IsFit, new_subscriber,
  consume_claim-publish, consume_after_error,
}
use shahboard.Event.Consumers.Covering as Covering

abbrev games : Sub
games = record { topic = bytes "game.*.*"; chan = 1 }

-- One subscription is offered, received, and the manager is stopped.
abbrev offering : Manager
offering = record new_manager { subs = (bytes "game.*.*", games) ∷ []; offered = some games }

abbrev listens : Manager
listens = record offering { offered = none; listeners = games ∷ []; wg = 2 }

abbrev stopped : Manager
stopped = record listens { stopped = true }

adds : step (adding games) new_manager ≡ some offering
unfolding step act lookup insert dec_id
adds = refl

abbrev login : Event
login =
    user_logged_in
      (record { id = bytes "3"; user_id = bytes "1"; email = bytes "a@x"; timestamp = 5 })

receives : step receiving offering ≡ some listens
unfolding step act
receives = refl

stops : step stopping listens ≡ some stopped
unfolding step act
stops = refl

listens-Reach : Reach new_manager listens
listens-Reach = next (next here (adding games) adds) receiving receives

stop_waits_example : (stopped.crashed ≡ true) ⊎ (0 < stopped.wg)
stop_waits_example = stop_waits listens-Reach (omega arith) (next here stopping stops)

abbrev chats : Sub
chats = record { topic = bytes "game_chat.*.*"; chan = 2 }

-- The stop is seen while the subscription is offered, and another one gets an event.
abbrev locked : Manager
locked = record offering { stopped = true; runner = closing; listeners = chats ∷ []; wg = 2 }

abbrev locked_on : Manager
locked_on = record locked { handled = (2, some login) ∷ [] }

hears : step (listening chats (some login)) locked ≡ some locked_on
unfolding step act ℕ_discrete
hears = refl

Reach-locked_example :
    (locked_on.runner ≡ closing)
    × (locked_on.offered ≡ some games)
    × (locked_on.subs ≡ locked.subs)
    × (locked_on.closed ≡ locked.closed)
Reach-locked_example =
    Reach-locked {m = locked} games refl refl (next here (listening chats (some login)) hears)

new_manager-IsListened : IsListened new_manager
unfolding lookup
new_manager-IsListened t s e = cc

Reach-IsListened_example : IsListened stopped
Reach-IsListened_example =
    Reach-IsListened (next listens-Reach stopping stops) new_manager-IsListened

abbrev encode : Event → Bytes
encode e = bytes "login"

abbrev unmarshal : Kind → Bytes → Option Event
unmarshal k t = some login

abbrev users : FeedSub
users = record { index = 0; topic = new_topic domain_user (bytes "*"); chan = 7 }

abbrev subs : Subs
subs = (domain_user, (0, users) ∷ []) ∷ []

-- One partition for all messages.
abbrev partition : Message → ℕ
partition m = 0

consume_claim-publish_example :
    consume_claim unmarshal subs (
      claim_of encode unmarshal partition domain_user 0
        (map (message_of encode) (publish (λ e. done) [] (login ∷ [])).0))
    ≡ sent_to subs (
        keep_if
          (λ e. same_id (topic_of e).domain domain_user && partition (message_of encode e) == 0)
          (delivered (λ e. done) (login ∷ [])))
consume_claim-publish_example =
    consume_claim-publish encode unmarshal partition domain_user 0 subs (λ e. done) (login ∷ [])
      (refl, tt)

abbrev subscriber : Consumers.KafkaSubscriber
subscriber = Consumers.subscribe false new_subscriber users

-- The call fails by itself, and another domain is subscribed to.
abbrev chat_users : FeedSub
chat_users = record { index = 0; topic = new_topic (bytes "chat") (bytes "*"); chan = 8 }

abbrev again : Consumers.KafkaSubscriber
again = Consumers.subscribe false (Covering.ended true subscriber) chat_users

again-Reach : Covering.Reach new_subscriber again
again-Reach =
    Covering.next
      (Covering.next (Covering.next Covering.here (subscribed users)) (call_stopped true))
      (subscribed chat_users)

Reach-IsFit_example : IsFit again
Reach-IsFit_example = Reach-IsFit again-Reach
