-- ===== src/Gateway/Subscriptions/Delivered.antt =====
-- wsgateway/ws/events.go: how the news of a created game reaches the sessions that wait for a match.
use mathlib.Core.List.{Memᴰ}
use mathlib.Core.List.Memᴰ
use shahboard.Base.{
  ℕ, ◌+◌, ◌*◌, ◌<◌, ◌≤◌, Bool, true, false, List, [], ◌∷◌, ◌++◌, Option, none, some, ◌≡◌, inl, inr,
  refl, arith, ap, ◌∙◌, lookup, lookup-insert, Bool-cases, keep_if, length, ◌==◌, ltb,
}
use shahboard.Gateway.Subscriptions.Broadcast.{broadcast_all-tells}
use shahboard.Types.{ObjectId, dec_id}
use shahboard.Event.{GameCreated, game_created}
use shahboard.Gateway.{Session}
use shahboard.Gateway.Subscriptions.{
  Subscriptions, MatchSub, match_subs, subscribe_match, receive_created, receive, not_broadcasted,
  broadcast, expire_threshold, unexpired_events, unexpired_subs, clean_up,
}

lookup-keep_if :
    {V : Type 0} (p : ObjectId × V → Bool) (m : ObjectId) (v : V) (l : List (ObjectId × V))
    → lookup dec_id m l ≡ some v
    → p (m, v) ≡ true
    → lookup dec_id m (keep_if p l) ≡ some v
unfolding lookup
lookup-keep_if p m v [] k t = ground arith
lookup-keep_if p m v ((n, w) ∷ l) k t = elim (dec_id n m) [
  | yes e ↦
      let found : w ≡ v = ground arith in
      let kept : p (n, w) ≡ true = ap (λ x. p (x, w)) e ∙ ap (λ x. p (m, x)) found ∙ t in
      ground arith
  | no q ↦ let ih = lookup-keep_if p m v l (ground arith) t in ground arith
]

-- A subscription that stands last and is not marked waits.
waiting_new :
    (x : MatchSub) (l : List MatchSub)
    → x.broadcasted ≡ false
    → Memᴰ x.session (not_broadcasted (l ++ (x ∷ [])))
unfolding not_broadcasted
waiting_new x [] u = rw u (Memᴰ.head refl)
waiting_new x (y ∷ l) u =
    let ih = waiting_new x l u in
    elim (Bool-cases y.broadcasted) [ inl b ↦ rw b ih | inr b ↦ rw b (Memᴰ.tail ih) ]

keep_if_last :
    (q : MatchSub → Bool) (x : MatchSub) (l : List MatchSub)
    → q x ≡ true
    → keep_if q (l ++ (x ∷ [])) ≡ keep_if q l ++ (x ∷ [])
keep_if_last q x [] t = rw t refl
keep_if_last q x (y ∷ l) t = let ih = keep_if_last q x l t in ground arith

-- The subscriptions to a match that are not too old.
abbrev young : ℕ → List MatchSub → List MatchSub
young now subs = keep_if (λ x. ltb now (x.added_at + expire_threshold)) subs

lookup-unexpired_subs :
    (t : ℕ) (m : ObjectId) (subs : List MatchSub) (l : List (ObjectId × List MatchSub))
    → lookup dec_id m l ≡ some subs
    → (length (young t subs) == 0) ≡ false
    → lookup dec_id m (unexpired_subs t l) ≡ some (young t subs)
unfolding lookup unexpired_subs
lookup-unexpired_subs t m subs [] k z = ground arith
lookup-unexpired_subs t m subs ((n, w) ∷ l) k z = elim (dec_id n m) [
  | yes e ↦
      let found : w ≡ subs = ground arith in
      let same : young t w ≡ young t subs = ap (young t) found in ground arith
  | no q ↦ let ih = lookup-unexpired_subs t m subs l (ground arith) z in ground arith
]

match_subs_of_lookup :
    (h : Subscriptions) (m : ObjectId) {l : List MatchSub}
    → lookup dec_id m h.matches ≡ some l
    → match_subs h m ≡ l
match_subs_of_lookup h m {l} k =
    ap (λ (o : Option (List MatchSub)). elim o [ none ↦ [] | some x ↦ x ]) k

length_of_waiting :
    (l : List MatchSub) (i : ObjectId) → Memᴰ i (not_broadcasted l) → (length l == 0) ≡ false
unfolding not_broadcasted
length_of_waiting [] i w = elim w [ ]
length_of_waiting (x ∷ l) i w = ground arith

created-receive :
    (h : Subscriptions) (e : GameCreated)
    → lookup dec_id e.match_id (receive h (game_created e)).0.created ≡ some e
unfolding receive receive_created
created-receive h e = ground (arith, lookup-insert dec_id e.match_id e.match_id e h.created)

module _ (h : Subscriptions) (s : Session) (e : GameCreated) (now : ℕ)
    (this : s.match_id ≡ e.match_id) where
  -- The new subscription.
  abbrev new_sub : MatchSub
  new_sub = record { session = s.id; added_at = now; broadcasted = false }

  subs-subscribe_match :
      match_subs (subscribe_match h s now) e.match_id ≡ match_subs h e.match_id ++ (new_sub ∷ [])
  unfolding subscribe_match
  subs-subscribe_match = rw this (
      ground (
        arith,
        lookup-insert dec_id e.match_id e.match_id (match_subs h e.match_id ++ (new_sub ∷ []))
            h.matches,
      ))

  lookup-subscribe_match :
      lookup dec_id e.match_id (subscribe_match h s now).matches
      ≡ some (match_subs h e.match_id ++ (new_sub ∷ []))
  unfolding subscribe_match
  lookup-subscribe_match = rw this (
      ground (
        arith,
        lookup-insert dec_id e.match_id e.match_id (match_subs h e.match_id ++ (new_sub ∷ []))
            h.matches,
      ))

  -- The listener sends the news to a session that waits for the match.
  receive-subscribe_match :
      Memᴰ (s.id, game_created e) (receive (subscribe_match h s now) (game_created e)).1
  unfolding receive receive_created
  receive-subscribe_match = rw subs-subscribe_match (
      Memᴰ.map (λ id. (id, game_created e))
        (Memᴰ.map (λ m. m.session) (Memᴰ.append_right (match_subs h e.match_id) (Memᴰ.head refl))))

  -- So does the broadcast routine, whenever it knows the game and the session is not marked.
  broadcast-subscribe_match :
      (t : ℕ)
      → lookup dec_id e.match_id h.created ≡ some e
      → t ≤ e.timestamp * 1000000000 + expire_threshold
      → t < now + expire_threshold
      → Memᴰ (s.id, game_created e) (broadcast (clean_up (subscribe_match h s now) t)).1
  unfolding broadcast clean_up unexpired_events subscribe_match
  broadcast-subscribe_match t known recent young_sub =
      let h2 = subscribe_match h s now in
      let subs = match_subs h e.match_id ++ (new_sub ∷ []) in
      let waits : Memᴰ s.id (not_broadcasted (young t subs)) =
        rw
          (keep_if_last (λ x. ltb t (x.added_at + expire_threshold)) new_sub
            (match_subs h e.match_id) (ground arith))
          (waiting_new new_sub (young t (match_subs h e.match_id)) refl) in
      let some_left = length_of_waiting (young t subs) s.id waits in
      let found =
        lookup-unexpired_subs t e.match_id subs h2.matches lookup-subscribe_match some_left in
      let subs3 : match_subs (clean_up h2 t) e.match_id ≡ young t subs =
        match_subs_of_lookup (clean_up h2 t) e.match_id found in
      broadcast_all-tells s.id e.match_id e (clean_up h2 t).created (clean_up h2 t)
        (lookup-keep_if _ e.match_id e h.created known (ground arith)) (rw subs3 waits)

-- A session that asks for its match before the game of the match is created gets the news from the
-- listener; one that asks afterwards gets it from the next tick of the broadcast routine, also if
-- the clean-up has run, as long as the news is at most a minute old, and the request less.
pub match_news-told :
    (h : Subscriptions) (s : Session) (e : GameCreated) (now t : ℕ)
    → s.match_id ≡ e.match_id
    → t ≤ e.timestamp * 1000000000 + expire_threshold
    → t < now + expire_threshold
    → Memᴰ (s.id, game_created e) (receive (subscribe_match h s now) (game_created e)).1
      × Memᴰ
          (s.id, game_created e)
          (broadcast (clean_up (subscribe_match (receive h (game_created e)).0 s now) t)).1
match_news-told h s e now t this recent young_sub = (
  receive-subscribe_match h s e now this,
  broadcast-subscribe_match (receive h (game_created e)).0 s e now this t (created-receive h e)
      recent young_sub,
)

-- A session that asks for its match before the game of the match is created gets the news twice:
-- from the listener, and again from the next tick of the broadcast routine.
pub match_news-told_twice :
    (h : Subscriptions) (s : Session) (e : GameCreated) (now : ℕ)
    → s.match_id ≡ e.match_id
    → Memᴰ (s.id, game_created e) (receive (subscribe_match h s now) (game_created e)).1
      × Memᴰ
          (s.id, game_created e)
          (broadcast (receive (subscribe_match h s now) (game_created e)).0).1
unfolding broadcast receive receive_created
match_news-told_twice h s e now this =
    let h2 = (receive (subscribe_match h s now) (game_created e)).0 in
    (
      receive-subscribe_match h s e now this,
      broadcast_all-tells s.id e.match_id e h2.created h2
          (created-receive (subscribe_match h s now) e)
          (rw (subs-subscribe_match h s e now this)
            (waiting_new (new_sub h s e now this) (match_subs h e.match_id) refl)),
    )
