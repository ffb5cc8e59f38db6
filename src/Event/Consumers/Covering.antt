-- ===== src/Event/Consumers/Covering.antt =====
-- What reaches the subscribers of what was published, and which domains are consumed.
use mathlib.Core.List.{append-nil}
use shahboard.Base.{
  ℕ, ◌==◌, ◌&&◌, ◌||◌, none, keep_if, ap, not, ◌≡◌, refl, Bool, true, false, List, [], ◌∷◌, ◌++◌,
  Option, some, map, All, has, arith, is_some, lookup, insert, delete, length, lookup-insert,
  lookup-nil, Option-cases, ℕ_discrete, ◌⊎◌, inl, inr, Bool-cases, if◌then◌else◌,
}
use shahboard.Types.{Bytes, bytes, same_id, dec_id}
use shahboard.Event.{Event, topic_of, game_created}
use shahboard.Event.Topics.{Topic, matches, any}
use shahboard.Event.Kinds.{Kind, kind_of, decode_kind-topic_of}
use shahboard.Event.Publisher.{Reply, publish, publish-log, delivered, applied}
use shahboard.Event.Subscribers.{Subs, FeedSub, send, receivers, subs_of, add_sub, remove_sub}
use shahboard.Event.Consumers.{
  Message, end_call, message_of, consume_message, consume_claim, decode_event, Group, new_group,
  consume, KafkaSubscriber, subscribe, unsubscribe, cleanup,
}

-- Does an event's topic meet a filter? The filter that is `*` throughout takes every topic; another
-- one wants its own domain, and its action and resource unless they are `*`.
abbrev pub meets : Topic → Topic → Bool
meets filter t =
    same_id filter.domain any && same_id filter.action any && same_id filter.resource any
    || same_id t.domain filter.domain
      && (same_id filter.action any || same_id t.action filter.action)
      && (same_id filter.resource any || same_id t.resource filter.resource)

-- Of a table of subscribers, those whose filter the topic meets.
abbrev pub hearing : List (ℕ × FeedSub) → Topic → List ℕ
hearing l t =
    map (λ (x : ℕ × FeedSub). x.1.chan) (keep_if (λ (x : ℕ × FeedSub). meets x.1.topic t) l)

-- Every subscriber of the event's domain whose filter it meets gets it, in the order of the events.
abbrev pub sent_to : Subs → List Event → List (ℕ × Event)
sent_to subs [] = []
sent_to subs (e ∷ es) =
    let table : List (ℕ × FeedSub) = elim (lookup dec_id (topic_of e).domain subs) [
      | none ↦ []
      | some l ↦ l
    ] in
    map (λ c. (c, e)) (hearing table (topic_of e)) ++ sent_to subs es

-- The tests of `Match`, one after the other.
tests_in_turn :
    (d a r same_d same_a same_r : Bool)
    → (if d && (a && r)
        then true
        else if not same_d
        then false
        else if not a && not same_a
        then false
        else if not r && not same_r
        then false
        else true)
      ≡ (d && a && r || same_d && (a || same_a) && (r || same_r))
tests_in_turn d a r same_d same_a same_r = ground arith

matches-meets : (t filter : Topic) → matches t filter ≡ meets filter t
unfolding matches
matches-meets t filter =
    tests_in_turn (same_id filter.domain any) (same_id filter.action any)
      (same_id filter.resource any) (same_id t.domain filter.domain)
      (same_id t.action filter.action) (same_id t.resource filter.resource)

receivers-hearing : (l : List (ℕ × FeedSub)) (t : Topic) → receivers l t ≡ hearing l t
unfolding receivers
receivers-hearing [] t = refl
receivers-hearing ((i, s) ∷ l) t =
    let ih = receivers-hearing l t in
    elim (Bool-cases (meets s.topic t)) [
      | inl h ↦ rw (matches-meets t s.topic, h) (ap (λ r. s.chan ∷ r) ih)
      | inr h ↦ rw (matches-meets t s.topic, h) ih
    ]

send-hearing :
    (subs : Subs) (e : Event)
    → send subs e
      ≡ hearing
          (elim (lookup dec_id (topic_of e).domain subs) [ none ↦ [] | some l ↦ l ])
          (topic_of e)
unfolding send
send-hearing subs e = receivers-hearing _ (topic_of e)

-- Every event has an action.
action-ne : (e : Event) → same_id (topic_of e).action (bytes "") ≡ false
unfolding topic_of dec_id
action-ne (game_created e) = refl
action-ne e = refl

module _ (encode : Event → Bytes) (unmarshal : Kind → Bytes → Option Event) where
  -- The text of the event is read back.
  abbrev pub IsReadable : Event → Type 0
  IsReadable e = unmarshal (kind_of e) (encode e) ≡ some e

  consume_message-message_of :
      (subs : Subs) (e : Event)
      → IsReadable e
      → consume_message unmarshal subs (message_of encode e) ≡ map (λ c. (c, e)) (send subs e)
  unfolding consume_message message_of dec_id
  consume_message-message_of subs e h =
      rw (action-ne e) (rw (decode_kind-topic_of e, decode_event) (rw h))

  consume_claim-message_of :
      (subs : Subs) (es : List Event)
      → All IsReadable es
      → consume_claim unmarshal subs (map (message_of encode) es) ≡ sent_to subs es
  unfolding consume_claim
  consume_claim-message_of subs [] h = refl
  consume_claim-message_of subs (e ∷ es) h =
      rw (consume_message-message_of subs e h.0, send-hearing subs e)
        (rw (consume_claim-message_of subs es h.1))

  delivered-IsReadable :
      (sent : Event → Reply) (es : List Event)
      → All IsReadable es
      → All IsReadable (delivered sent es)
  unfolding delivered
  delivered-IsReadable sent [] h = tt
  delivered-IsReadable sent (e ∷ es) h = elim (Bool-cases (applied (sent e))) [
    | inl p ↦ rw p (h.0, delivered-IsReadable sent es h.1)
    | inr p ↦ rw p (delivered-IsReadable sent es h.1)
  ]

  kept-IsReadable :
      (f : Event → Bool) (es : List Event) → All IsReadable es → All IsReadable (keep_if f es)
  kept-IsReadable f [] h = tt
  kept-IsReadable f (e ∷ es) (h, hs) = elim (Bool-cases (f e)) [
    | inl p ↦ rw p (h, kept-IsReadable f es hs)
    | inr p ↦ rw p (kept-IsReadable f es hs)
  ]

  -- What a claim gives of a log: the messages of one partition of one topic, in order. `partition`
  -- is the partition that Kafka puts a message in.
  abbrev pub claim_of : (Message → ℕ) → Bytes → ℕ → List Message → List Message
  claim_of partition t p ms = keep_if (λ m. same_id m.topic t && partition m == p) ms

  claimed-message_of :
      (partition : Message → ℕ) (t : Bytes) (p : ℕ) (es : List Event)
      → claim_of partition t p (map (message_of encode) es)
        ≡ map (message_of encode) (
            keep_if (λ e. same_id (topic_of e).domain t && partition (message_of encode e) == p) es)
  unfolding message_of
  claimed-message_of partition t p [] = refl
  claimed-message_of partition t p (e ∷ es) =
      let ih = claimed-message_of partition t p es in
      let mine = same_id (topic_of e).domain t && partition (message_of encode e) == p in
      elim (Bool-cases mine) [
        | inl h ↦ rw h (ap (λ l. message_of encode e ∷ l) ih)
        | inr h ↦ rw h ih
      ]

  -- Of what is published, the claim of a partition of a topic, from its beginning on, hands each event
  -- of this topic whose message got through and is in the partition to the subscribers of its
  -- domain whose filter it meets, in the order of publishing, and nothing else. The condition is that
  -- the JSON texts of the events are read back as the events.
  pub consume_claim-publish :
      (partition : Message → ℕ) (t : Bytes) (p : ℕ) (subs : Subs) (sent : Event → Reply)
      (es : List Event)
      → All IsReadable es
      → consume_claim unmarshal subs
          (claim_of partition t p (map (message_of encode) (publish sent [] es).0))
        ≡ sent_to subs (
            keep_if
              (λ e. same_id (topic_of e).domain t && partition (message_of encode e) == p)
              (delivered sent es))
  consume_claim-publish partition t p subs sent es h =
      rw (publish-log sent [] es, claimed-message_of partition t p (delivered sent es))
        (consume_claim-message_of subs _
          (kept-IsReadable _ (delivered sent es) (delivered-IsReadable sent es h)))

-- At most one call runs, for all the domains, and then the group counts as running. Every domain with
-- a table of subscribers is one of them.
pub record IsFit (k : KafkaSubscriber) : Type 0 where
  pub one_call :
      (k.group.calls ≡ []) ⊎ ((k.group.is_running ≡ true) × (k.group.calls ≡ k.group.domains ∷ []))
  pub covered :
      (d : Bytes) → is_some (lookup dec_id d k.subs) ≡ true → has dec_id d k.group.domains ≡ true

has-append :
    (d : Bytes) (xs ys : List Bytes)
    → has dec_id d (xs ++ ys) ≡ (if has dec_id d xs then true else has dec_id d ys)
has-append d [] ys = refl
has-append d (x ∷ xs) ys = ground (arith, has-append d xs ys)

has_self : (d : Bytes) → has dec_id d (d ∷ []) ≡ true
has_self d = ground arith

module _ (k : KafkaSubscriber) (fit : IsFit k) (s : FeedSub) where
  consume_call :
      let g = consume false k.group s.topic.domain in
      (g.calls ≡ []) ⊎ ((g.is_running ≡ true) × (g.calls ≡ g.domains ∷ []))
  unfolding consume
  consume_call = elim fit.one_call [ inl cs ↦ ground arith | inr (on, cs) ↦ ground arith ]

  consume_keeps :
      (d : Bytes)
      → has dec_id d (consume false k.group s.topic.domain).domains
        ≡ (if has dec_id d k.group.domains then true else same_id s.topic.domain d)
  unfolding consume
  consume_keeps d = ground (arith, has-append d k.group.domains (s.topic.domain ∷ []))

  subscribe-IsFit : IsFit (subscribe false k s)
  unfolding subscribe
  subscribe-IsFit = record {
    one_call = consume_call;
    covered = λ d h.
        unfold add_sub in
        ground (
          arith,
          consume_keeps d,
          fit.covered d,
          lookup-insert dec_id s.topic.domain d
              (insert ℕ_discrete (length (subs_of k.subs s.topic.domain))
                (record s { index = length (subs_of k.subs s.topic.domain) })
                (subs_of k.subs s.topic.domain))
              k.subs,
        );
  }

  unsubscribed_key :
      (d : Bytes)
      → is_some (lookup dec_id d (remove_sub k.subs s)) ≡ true
      → is_some (lookup dec_id d k.subs) ≡ true
  unfolding remove_sub
  unsubscribed_key d h = elim (Option-cases (lookup dec_id s.topic.domain k.subs)) [
    | inl e ↦ ground arith
    | inr (m, e) ↦
        ground (arith, lookup-insert dec_id s.topic.domain d (delete ℕ_discrete s.index m) k.subs)
  ]

  unsubscribe-IsFit : IsFit (unsubscribe k s)
  unfolding unsubscribe
  unsubscribe-IsFit = record {
    one_call = fit.one_call;
    covered = λ d h. fit.covered d (unsubscribed_key d h);
  }

cleanup-IsFit :
    (k : KafkaSubscriber) → IsFit k → k.group.is_running ≡ true → IsFit (cleanup false k)
unfolding cleanup
cleanup-IsFit k fit on = record {
  one_call = elim fit.one_call [
    | inl cs ↦ ground (arith, append-nil k.group.domains)
    | inr (on', cs) ↦ inr (on, rw (cs))
  ];
  covered = λ d h. rw (append-nil k.group.domains) (fit.covered d h);
}

-- The call that runs, if there is one, ends and is not made again.
abbrev pub ended : Bool → KafkaSubscriber → KafkaSubscriber
ended err k = record k { group = end_call err k.group }

ended-IsFit : (err : Bool) (k : KafkaSubscriber) → IsFit k → IsFit (ended err k)
unfolding end_call
ended-IsFit err k fit = record {
  one_call = elim fit.one_call [ inl cs ↦ ground arith | inr (on, cs) ↦ ground arith ];
  covered = fit.covered;
}

-- What becomes of a subscriber of Kafka: the services subscribe and unsubscribe, the group is
-- rebalanced while it counts as running, and a call ends without being made again, with an error or
-- without one, since it failed by itself or the group was closed. No call that is made again has
-- reported an error.
pub data Step (k : KafkaSubscriber) : KafkaSubscriber → Type 0 where
  subscribed : (s : FeedSub) → Step k (subscribe false k s)
  unsubscribed : (s : FeedSub) → Step k (unsubscribe k s)
  rebalanced : k.group.is_running ≡ true → Step k (cleanup false k)
  stopped : (err : Bool) → Step k (ended err k)

pub data Reach (k : KafkaSubscriber) : KafkaSubscriber → Type 0 where
  here : Reach k k
  next : {l m : KafkaSubscriber} → Reach k l → Step l m → Reach k m

Step-IsFit : {k l : KafkaSubscriber} → Step k l → IsFit k → IsFit l
Step-IsFit {k} (subscribed s) fit = subscribe-IsFit k fit s
Step-IsFit {k} (unsubscribed s) fit = unsubscribe-IsFit k fit s
Step-IsFit {k} (rebalanced on) fit = cleanup-IsFit k fit on
Step-IsFit {k} (stopped err) fit = ended-IsFit err k fit

abbrev pub new_subscriber : KafkaSubscriber
new_subscriber = record { subs = []; group = new_group }

-- However a new subscriber of Kafka is used, also when calls of `Consume` fail by themselves or the
-- group is closed, as long as no call that is made again has reported an error: at most one call
-- runs, it consumes all domains of the group, and the group then counts as running; and every domain
-- with a table of subscribers is one of them.
pub Reach-IsFit : {k : KafkaSubscriber} → Reach new_subscriber k → IsFit k
Reach-IsFit here = record {
  one_call = inl refl;
  covered = λ d h. ground (arith, lookup-nil {V = List (ℕ × FeedSub)} dec_id d);
}
Reach-IsFit (next r st) = Step-IsFit st (Reach-IsFit r)

-- If the call that a new domain cancels reports an error, the group counts as not running although
-- it is consumed again, so that the next new domain starts a second call beside the one that runs.
pub consume_after_error :
    (g : Group) (d e : Bytes) (err : Bool)
    → g.is_running ≡ true
    → g.calls ≡ g.domains ∷ []
    → has dec_id d g.domains ≡ false
    → has dec_id e (g.domains ++ d ∷ []) ≡ false
    → (consume err (consume true g d) e).calls
      ≡ ((g.domains ++ d ∷ []) ++ e ∷ []) ∷ (g.domains ++ d ∷ []) ∷ []
unfolding consume
consume_after_error g d e err on one new_d new_e = ground arith
