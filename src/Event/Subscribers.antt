-- ===== src/Event/Subscribers.antt =====
-- `subscriptionManager` of event/kafka/subscriber.go: the subscribers of each domain under an index.
-- A subscriber is known by an identity, and an event is sent by a channel that is never full, so
-- that sending is one step.
use shahboard.Base.{
  ℕ, ◌≤◌, ℕ_discrete, ◌≡◌, ◌≢◌, ap, List, [], ◌∷◌, Option, none, some, length, lookup, insert,
  delete, lookup-insert, length-insert_new, if◌then◌else◌, arith, holds,
}
use shahboard.Types.{Bytes, dec_id}
use shahboard.Event.Topics.{Topic, matches}
use shahboard.Event.{Event, topic_of}

-- `feedSub`: its index, its topic, and an identity in place of its channels.
pub record FeedSub : Type 0 where
  pub index : ℕ
  pub topic : Topic
  pub chan : ℕ

-- The subscribers of one domain, by index.
abbrev DomainSubs : Type 0
DomainSubs = List (ℕ × FeedSub)

abbrev pub Subs : Type 0
Subs = List (Bytes × DomainSubs)

abbrev pub subs_of : Subs → Bytes → DomainSubs
subs_of m d = elim (lookup dec_id d m) [ none ↦ [] | some s ↦ s ]

-- `addSub`: the new subscriber's index is the number of the domain's subscribers. It returns the
-- subscriber with its index.
unfoldable pub add_sub : Subs → FeedSub → Subs × FeedSub
add_sub m sub =
    let old = subs_of m sub.topic.domain in
    let new = record sub { index = length old } in
    (insert dec_id sub.topic.domain (insert ℕ_discrete new.index new old) m, new)

-- `removeSub`
unfoldable pub remove_sub : Subs → FeedSub → Subs
remove_sub m sub = elim (lookup dec_id sub.topic.domain m) [
  | none ↦ m
  | some s ↦ insert dec_id sub.topic.domain (delete ℕ_discrete sub.index s) m
]

-- The subscribers, by identity, that get an event: those of its domain whose topic it matches.
unfoldable pub receivers : DomainSubs → Topic → List ℕ
unfolding matches
receivers [] t = []
receivers ((i, s) ∷ m) t = if matches t s.topic then s.chan ∷ receivers m t else receivers m t

-- `send`, for one event.
unfoldable pub send : Subs → Event → List ℕ
unfolding receivers
send m e = receivers (subs_of m (topic_of e).domain) (topic_of e)

-- Is the subscriber's index its own? Then nobody can have taken its place.
abbrev pub IsHeld : Subs → FeedSub → Type 0
IsHeld m s = lookup ℕ_discrete s.index (subs_of m s.topic.domain) ≡ some s

subs_of-insert :
    (d e : Bytes) (v : DomainSubs) (m : Subs)
    → subs_of (insert dec_id d v m) e ≡ (if holds (dec_id d e) then v else subs_of m e)
subs_of-insert d e v m = ground (arith, lookup-insert dec_id d e v m)

-- Adding a subscriber gives it an index that it holds, and takes no index from another subscriber,
-- as long as the index is free: as long as no one holds the number of subscribers.
add_sub-IsHeld :
    (m : Subs) (s t : FeedSub)
    → IsHeld m t
    → lookup ℕ_discrete (length (subs_of m s.topic.domain)) (subs_of m s.topic.domain) ≡ none
    → IsHeld (add_sub m s).0 (add_sub m s).1 × IsHeld (add_sub m s).0 t
unfolding add_sub
add_sub-IsHeld m s t held free =
    let old = subs_of m s.topic.domain in
    let new : FeedSub = record s { index = length old } in
    let v = insert ℕ_discrete (length old) new old in
    (
      ground (
        arith,
        subs_of-insert s.topic.domain s.topic.domain v m,
        lookup-insert ℕ_discrete (length old) (length old) new old,
      ),
      ground (
        arith,
        subs_of-insert s.topic.domain t.topic.domain v m,
        lookup-insert ℕ_discrete (length old) t.index new old,
      ),
    )

-- After a removal the number of subscribers of a domain may be an index in use, and then the next
-- subscriber of the domain takes it from the subscriber that holds it.
pub add_sub_displaces :
    (m : Subs) (a b c : FeedSub)
    → IsHeld (remove_sub m a) b
    → c.topic.domain ≡ b.topic.domain
    → c.chan ≢ b.chan
    → length (subs_of (remove_sub m a) b.topic.domain) ≡ b.index
    → ¬ IsHeld (add_sub (remove_sub m a) c).0 b
unfolding add_sub
add_sub_displaces m a b c held same other full again =
    let r = remove_sub m a in
    let old = subs_of r c.topic.domain in
    let new : FeedSub = record c { index = length old } in
    let v = insert ℕ_discrete (length old) new old in
    other (
      ground (
        arith,
        subs_of-insert c.topic.domain b.topic.domain v r,
        lookup-insert ℕ_discrete (length old) b.index new old,
        ap subs_of_chan again,
      ))
  where
    subs_of_chan : Option FeedSub → ℕ
    subs_of_chan none = 0
    subs_of_chan (some s) = s.chan

-- No index at or above the number of subscribers is in use, in any domain.
abbrev IsDense : Subs → Type 0
IsDense m =
    (d : Bytes) (k : ℕ) → length (subs_of m d) ≤ k → lookup ℕ_discrete k (subs_of m d) ≡ none

-- Without removals that never happens: adding keeps the indices dense, so the next one is free.
add_sub-IsDense : (m : Subs) (s : FeedSub) → IsDense m → IsDense (add_sub m s).0
unfolding add_sub
add_sub-IsDense m s dense d k h =
    let old = subs_of m s.topic.domain in
    let new : FeedSub = record s { index = length old } in
    let v = insert ℕ_discrete (length old) new old in
    ground (
      arith,
      subs_of-insert s.topic.domain d v m,
      lookup-insert ℕ_discrete (length old) k new old,
      length-insert_new ℕ_discrete (length old) new old,
      dense d k,
      dense s.topic.domain k,
      dense s.topic.domain (length old),
      h,
    )

add_all : Subs → List FeedSub → Subs
add_all m [] = m
add_all m (s ∷ ss) = add_all (add_sub m s).0 ss

-- Where every index in use is below the number of subscribers of its domain, a subscriber that
-- holds its index keeps it, however many subscribers are added.
add_all-IsHeld :
    (m : Subs) (t : FeedSub) (ss : List FeedSub) → IsDense m → IsHeld m t → IsHeld (add_all m ss) t
unfolding add_all
add_all-IsHeld m t [] dense h = h
add_all-IsHeld m t (s ∷ ss) dense h =
    add_all-IsHeld (add_sub m s).0 t ss (add_sub-IsDense m s dense)
      (add_sub-IsHeld m s t h (dense s.topic.domain _ (omega arith))).1
