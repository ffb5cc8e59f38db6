-- ===== src/Event/Publisher.antt =====
-- event/kafka/publisher.go. `SendMessage` of the Kafka client is a parameter: it says, for each
-- event, what became of the message.
use mathlib.Core.List.{append-nil, append_assoc}
use shahboard.Base.{
  Bool, true, false, ◌&&◌, List, [], ◌∷◌, ◌++◌, ◌≡◌, ◌∙◌, sym, ap, refl, arith, if◌then◌else◌,
  Bool-cases, inl, inr,
}
use shahboard.Event.{Event}

-- What can become of a request to another process: it is done and its answer arrives, it is done
-- and the answer is lost, or it is not done. The last two are reported as errors.
pub data Reply : Type 0 where
  done lost refused : Reply

-- Is no error reported?
abbrev pub answered : Reply → Bool
answered done = true
answered lost = false
answered refused = false

-- Does the request take effect?
abbrev pub applied : Reply → Bool
applied done = true
applied lost = true
applied refused = false

-- The messages that a list of events leaves in the log.
unfoldable pub delivered : (Event → Reply) → List Event → List Event
delivered send [] = []
delivered send (e ∷ es) = if applied (send e) then e ∷ delivered send es else delivered send es

-- `Publish` tries every event, also after an error, and fails if any attempt did. The log holds the
-- messages in the order in which they were sent.
unfoldable pub publish : (Event → Reply) → List Event → List Event → List Event × Bool
publish send log [] = (log, true)
publish send log (e ∷ es) =
    let (log', ok) = publish send (if applied (send e) then log ++ e ∷ [] else log) es in
    (log', answered (send e) && ok)

-- `Publish` appends, in order, exactly the events whose message got through, whether or not it
-- reports an error.
pub publish-log :
    (send : Event → Reply) (log es : List Event)
    → (publish send log es).0 ≡ log ++ delivered send es
unfolding publish delivered
publish-log send log [] = sym (append-nil log)
publish-log send log (e ∷ es) = elim (Bool-cases (applied (send e))) [
  | inl h ↦
      rw h (publish-log send (log ++ e ∷ []) es ∙ append_assoc log (e ∷ []) (delivered send es))
  | inr h ↦ rw h (publish-log send log es)
]

-- An answer means that the request took effect.
pub answered-applied : (r : Reply) → answered r ≡ true → applied r ≡ true
answered-applied done h = refl
answered-applied lost h = refl
answered-applied refused h = h

delivered_ok :
    (send : Event → Reply) (log es : List Event)
    → (publish send log es).1 ≡ true
    → delivered send es ≡ es
unfolding publish delivered
delivered_ok send log [] h = refl
delivered_ok send log (e ∷ es) h = elim (Bool-cases (answered (send e))) [
  | inl a ↦
      let b = answered-applied (send e) a in
      rw b (ap (◌∷◌ e) (delivered_ok send (log ++ e ∷ []) es (rest_ok a b)))
  | inr a ↦ ground arith
]
  where
    rest_ok :
        answered (send e) ≡ true
        → applied (send e) ≡ true
        → (publish send (log ++ e ∷ []) es).1 ≡ true
    rest_ok a b = rw (a, b) at h

-- If it reports no error, every event got through.
pub publish_ok :
    (send : Event → Reply) (log es : List Event)
    → (publish send log es).1 ≡ true
    → (publish send log es).0 ≡ log ++ es
publish_ok send log es h = rw (publish-log send log es, delivered_ok send log es h)

-- If Kafka answers every time, it reports no error and all events are out, in order.
pub publish_sent :
    (send : Event → Reply) (log es : List Event)
    → ((e : Event) → send e ≡ done)
    → publish send log es ≡ (log ++ es, true)
unfolding publish
publish_sent send log [] sent = rw append-nil
publish_sent send log (e ∷ es) sent =
    ground (arith, sent e, publish_sent send (log ++ e ∷ []) es sent, append_assoc log (e ∷ []) es)
