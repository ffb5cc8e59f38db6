-- ===== src/Bot/PubSub.antt =====
-- client-go/bot/pubsub.go: the subscriptions of a bot to the types of the gateway's messages. A
-- subscription is known by its channel, and a channel that is full makes its sender wait, so that
-- sending is one step.
use shahboard.Base.{
  ℕ, suc, ℕ_discrete, ◌≡◌, ◌≢◌, refl, sym, subst, ◌∙◌, List, [], ◌∷◌, Option, none, some, length,
  lookup, insert, delete, lookup-insert, lookup-delete, lookup-nil, Option-cases, inl, inr,
  if◌then◌else◌, holds, arith,
}
use shahboard.Types.{Bytes, dec_id}

-- `Subscription`; `once` is that it was closed.
pub record Subscription : Type 0 where
  pub id : ℕ
  pub topic : Bytes
  pub chan : ℕ

abbrev TopicSubs : Type 0
TopicSubs = List (ℕ × Subscription)

-- `PubSub`
abbrev pub PubSub : Type 0
PubSub = List (Bytes × TopicSubs)

abbrev topic_subs : PubSub → Bytes → TopicSubs
topic_subs ps t = elim (lookup dec_id t ps) [ none ↦ [] | some s ↦ s ]

-- `subscribe`, with the new channel
unfoldable pub subscribe : PubSub → Bytes → ℕ → PubSub × Subscription
subscribe ps t chan =
    let id = suc (length (topic_subs ps t)) in
    let s : Subscription = record { id = id; topic = t; chan = chan } in
    (insert dec_id t (insert ℕ_discrete id s (topic_subs ps t)) ps, s)

-- `remove`
unfoldable pub remove : PubSub → Bytes → ℕ → PubSub
remove ps t id = elim (lookup dec_id t ps) [
  | none ↦ ps
  | some m ↦ insert dec_id t (delete ℕ_discrete id m) ps
]

-- `Unsubscribe`, called for the first time
unfoldable pub unsubscribe : PubSub → Subscription → PubSub
unsubscribe ps s = remove ps s.topic s.id

chans : TopicSubs → List ℕ
chans [] = []
chans ((i, s) ∷ m) = s.chan ∷ chans m

-- The channels that `publish` sends an event of the topic to.
unfoldable publish : PubSub → Bytes → List ℕ
unfolding chans
publish ps t = chans (topic_subs ps t)

-- Who has the index `id`?
abbrev holder : PubSub → Bytes → ℕ → Option Subscription
holder ps t id = lookup ℕ_discrete id (topic_subs ps t)

holder-subscribe :
    (ps : PubSub) (t : Bytes) (chan id : ℕ)
    → holder (subscribe ps t chan).0 t id ≡ (
        if holds (ℕ_discrete (suc (length (topic_subs ps t))) id)
        then some (subscribe ps t chan).1
        else holder ps t id)
unfolding subscribe
holder-subscribe ps t chan id =
    let new = suc (length (topic_subs ps t)) in
    let s : Subscription = record { id = new; topic = t; chan = chan } in
    ground (
      arith,
      lookup-insert dec_id t t (insert ℕ_discrete new s (topic_subs ps t)) ps,
      lookup-insert ℕ_discrete new id s (topic_subs ps t),
    )

holder-remove : (ps : PubSub) (t : Bytes) (id : ℕ) → holder (remove ps t id) t id ≡ none
unfolding remove
holder-remove ps t id = elim (Option-cases (lookup dec_id t ps)) [
  | inl e ↦ ground (arith, lookup-nil {V = Subscription} ℕ_discrete id)
  | inr (m, e) ↦ ground (
    arith,
    lookup-insert dec_id t t (delete ℕ_discrete id m) ps,
    lookup-delete ℕ_discrete id id m,
  )
]

-- When the index that comes next, the number of the topic's subscriptions and one, is that of an
-- older subscription, the new subscription takes its place; and when the older one unsubscribes,
-- the new one is taken out, so that neither gets any more events.
subscribe-displaces :
    (ps : PubSub) (old : Subscription) (chan : ℕ)
    → holder ps old.topic old.id ≡ some old
    → old.id ≡ suc (length (topic_subs ps old.topic))
    → chan ≢ old.chan
    → let (ps', new) = subscribe ps old.topic chan in
      (holder ps' old.topic old.id ≡ some new)
      × (new.chan ≡ chan)
      × (new.id ≡ old.id)
      × (holder (unsubscribe ps' old) new.topic new.id ≡ none)
unfolding unsubscribe
subscribe-displaces ps old chan held same other =
    let next = suc (length (topic_subs ps old.topic)) in
    let new_id : (subscribe ps old.topic chan).1.id ≡ next = unfold subscribe in refl in
    (
      ground (arith, holder-subscribe ps old.topic chan old.id),
      unfold subscribe in refl,
      new_id ∙ sym same,
      unfold subscribe in
          subst
            (λ (k : ℕ).
              holder (remove (subscribe ps old.topic chan).0 old.topic old.id) old.topic k ≡ none)
            (sym (new_id ∙ sym same))
            (holder-remove (subscribe ps old.topic chan).0 old.topic old.id),
    )
