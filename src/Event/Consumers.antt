-- ===== src/Event/Consumers.antt =====
-- event/kafka/subscriber.go and publisher.go: the messages, how a consumer takes them, and the
-- consumer group that follows the domains subscribed to. JSON is a parameter, and so is whether a
-- call of `Consume` that is cancelled reports an error; making a group again, which is tried until it
-- succeeds, is one step.
pub mod Covering
use shahboard.Base.{
  ℕ, ◌≡◌, Bool, true, false, not, List, [], ◌∷◌, ◌++◌, Option, none, some, ◌>>=◌, map, has,
  if◌then◌else◌,
}
use shahboard.Types.{Bytes, bytes, same_id, dec_id}
use shahboard.Event.{Event, topic_of}
use shahboard.Event.Kinds.{Kind, decode_kind}
use shahboard.Event.Subscribers.{Subs, FeedSub, add_sub, remove_sub, send}

-- What is read of a message of the Kafka client.
pub record Message : Type 0 where
  pub topic : Bytes
  pub headers : List (Bytes × Bytes)
  pub value : Bytes

abbrev header_action : Bytes
header_action = bytes "action"

-- The message that `Publish` makes of an event.
unfoldable pub message_of : (Event → Bytes) → Event → Message
message_of encode e = record {
  topic = (topic_of e).domain;
  headers = (header_action, (topic_of e).action) ∷ [];
  value = encode e;
}

-- The loop over the headers: the last action counts.
unfoldable action_of : Bytes → List (Bytes × Bytes) → Bytes
action_of found [] = found
action_of found ((k, v) ∷ hs) = action_of (if same_id k header_action then v else found) hs

module _ (unmarshal : Kind → Bytes → Option Event) where
  -- `decodeEvent`: the struct is chosen, then filled from the text.
  unfoldable pub decode_event : Bytes → Bytes → Bytes → Option Event
  decode_event domain action value = decode_kind domain action >>= λ k. unmarshal k value

  -- One message of `ConsumeClaim`: the channels that get an event, with the event. A message with no
  -- action, and one that cannot be decoded, is skipped.
  unfoldable pub consume_message : Subs → Message → List (ℕ × Event)
  unfolding action_of decode_event
  consume_message subs m =
      if same_id (action_of (bytes "") m.headers) (bytes "")
      then []
      else elim (decode_event m.topic (action_of (bytes "") m.headers) m.value) [
        | none ↦ []
        | some e ↦ map (λ c. (c, e)) (send subs e)
      ]

  -- `ConsumeClaim`, on the messages of its claim: those of one partition of a topic.
  unfoldable pub consume_claim : Subs → List Message → List (ℕ × Event)
  consume_claim subs [] = []
  consume_claim subs (m ∷ ms) = consume_message subs m ++ consume_claim subs ms

-- `consumerGroup`: `calls` are the calls of `Consume` that run, by the domains that they were given.
pub record Group : Type 0 where
  pub is_running : Bool
  pub domains : List Bytes
  pub calls : List (List Bytes)

-- `newConsumerGroup`
abbrev pub new_group : Group
new_group = record { is_running = false; domains = []; calls = [] }

-- The call that was made last ends, with an error or without one.
unfoldable pub end_call : Bool → Group → Group
end_call err g = record g {
  is_running = if err then false else g.is_running;
  calls = elim g.calls [ [] ↦ [] | c ∷ cs ↦ cs ];
}

-- `reConsume`, after the wait for the call that ended
unfoldable re_consume : Group → List Bytes → Group
re_consume g new = record g { domains = g.domains ++ new; calls = (g.domains ++ new) ∷ g.calls }

-- `consume`; `err` is whether the call that it cancels reports an error.
unfoldable pub consume : Bool → Group → Bytes → Group
unfolding end_call re_consume
consume err g d =
    if has dec_id d g.domains
    then g
    else if not g.is_running
    then record {
      is_running = true;
      domains = g.domains ++ d ∷ [];
      calls = (g.domains ++ d ∷ []) ∷ g.calls;
    }
    else re_consume (end_call err g) (d ∷ [])

-- `kafkaSubscriber`
pub record KafkaSubscriber : Type 0 where
  pub subs : Subs
  pub group : Group

-- `Subscribe`
unfoldable pub subscribe : Bool → KafkaSubscriber → FeedSub → KafkaSubscriber
unfolding consume
subscribe err k s = record {
  subs = (add_sub k.subs s).0;
  group = consume err k.group s.topic.domain;
}

-- `Unsubscribe`, called for the first time
unfoldable pub unsubscribe : KafkaSubscriber → FeedSub → KafkaSubscriber
unsubscribe k s = record k { subs = remove_sub k.subs s }

-- `Cleanup` when no domain is being added: the call has ended by itself, and is made again.
unfoldable pub cleanup : Bool → KafkaSubscriber → KafkaSubscriber
unfolding end_call re_consume
cleanup err k = record k { group = re_consume (end_call err k.group) [] }
