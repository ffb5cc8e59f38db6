-- ===== src/Gateway/Instance/Queues.antt =====
-- wsgateway/ws/session.go: the channel of a session, among the channels of all.
use shahboard.Base.{List, [], ◌∷◌, ◌++◌, Option, none, some, ◌≡◌, refl, arith, holds, if◌then◌else◌}
use shahboard.Types.{ObjectId, dec_id, same_id}
use shahboard.Event.{Event}
use shahboard.Gateway.Instance.{take_event}

-- The events in a session's channel.
unfoldable pub channel : ObjectId → List (ObjectId × Event) → List Event
channel id [] = []
channel id ((j, e) ∷ l) = if same_id j id then e ∷ channel id l else channel id l

-- What is handed to sessions comes last in their channels, in order.
channel-append :
    (id : ObjectId) (l m : List (ObjectId × Event))
    → channel id (l ++ m) ≡ channel id l ++ channel id m
unfolding channel
channel-append id [] m = refl
channel-append id ((j, e) ∷ l) m = let ih = channel-append id l m in ground arith

-- First in, first out, for each session by itself.
abbrev Takes :
    ObjectId → List (ObjectId × Event) → Option (Event × List (ObjectId × Event)) → Type 0
Takes id l none = channel id l ≡ []
Takes id l (some (e, rest)) =
    (channel id l ≡ e ∷ channel id rest)
    × ((j : ObjectId) → ¬ (j ≡ id) → channel j rest ≡ channel j l)

Takes-next :
    (id j : ObjectId) (e : Event) (l : List (ObjectId × Event))
    (r : Option (Event × List (ObjectId × Event)))
    → ¬ (j ≡ id)
    → Takes id l r
    → Takes id ((j, e) ∷ l) (elim r [ none ↦ none | some (e', l') ↦ some (e', (j, e) ∷ l') ])
unfolding channel
Takes-next id j e l none n t = ground arith
Takes-next id j e l (some (e', l')) n (t, o) =
    (ground arith, λ k m. let other = o k m in ground arith)

-- A session takes the oldest event of its own channel, and leaves every other channel as it is; it
-- takes nothing only from an empty channel.
take_event-Takes : (id : ObjectId) (l : List (ObjectId × Event)) → Takes id l (take_event id l)
unfolding take_event channel
take_event-Takes id [] = refl
take_event-Takes id ((j, e) ∷ l) =
    elim (dec_id j id)
      as (λ d. Takes id ((j, e) ∷ l) (
        if holds d
        then some (e, l)
        else elim (take_event id l) [ none ↦ none | some (e', l') ↦ some (e', (j, e) ∷ l') ])) [
          | yes p ↦ (ground arith, λ k n. ground arith)
          | no n ↦ Takes-next id j e l (take_event id l) n (take_event-Takes id l)
        ]
