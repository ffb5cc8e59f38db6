-- ===== src/Gateway/Subscriptions/Broadcast.antt =====
-- wsgateway/ws/events.go: what a tick of the broadcast routine sends, and to whom.
use mathlib.Core.List.{Memᴰ}
use mathlib.Core.List.Memᴰ
use shahboard.Base.{
  true, List, [], ◌∷◌, ◌++◌, some, ◌≡◌, inl, inr, refl, arith, ap, has, ◌∙◌, lookup, insert,
  lookup-insert, if◌then◌else◌, Bool-cases, length, ◌==◌,
}
use shahboard.Types.{ObjectId, dec_id, same_id}
use shahboard.Event.{Event, GameCreated, game_created}
use shahboard.Gateway.Subscriptions.{
  Subscriptions, MatchSub, match_subs, to_all, not_broadcasted, mark_broadcasted, broadcast_all,
  broadcast,
}

abbrev keys_of : List (ObjectId × GameCreated) → List ObjectId
keys_of [] = []
keys_of ((m, e) ∷ l) = m ∷ keys_of l

not_broadcasted-mark_broadcasted : (l : List MatchSub) → not_broadcasted (mark_broadcasted l) ≡ []
unfolding not_broadcasted mark_broadcasted
not_broadcasted-mark_broadcasted [] = refl
not_broadcasted-mark_broadcasted (x ∷ l) = not_broadcasted-mark_broadcasted l

waiting_of_length : (l : List MatchSub) → length l ≡ 0 → not_broadcasted l ≡ []
unfolding not_broadcasted
waiting_of_length [] z = refl
waiting_of_length (x ∷ l) z = ground arith

-- The subscriptions once the event of one match has been broadcast.
abbrev marked : Subscriptions → ObjectId → Subscriptions
marked h m =
    if length (match_subs h m) == 0
    then h
    else record h { matches = insert dec_id m (mark_broadcasted (match_subs h m)) h.matches }

waiting-marked :
    (h : Subscriptions) (m n : ObjectId)
    → not_broadcasted (match_subs (marked h m) n)
      ≡ (if same_id m n then [] else not_broadcasted (match_subs h n))
waiting-marked h m n =
    let same : m ≡ n → match_subs h m ≡ match_subs h n = (λ e. ap (match_subs h) e) in
    elim (Bool-cases (length (match_subs h m) == 0)) [
      | inl z ↦ elim (dec_id m n) [
        | yes e ↦ ground (arith, same e, waiting_of_length (match_subs h m))
        | no k ↦ ground arith
      ]
      | inr z ↦ ground (
        arith,
        lookup-insert dec_id m n (mark_broadcasted (match_subs h m)) h.matches,
        not_broadcasted-mark_broadcasted (match_subs h m),
      )
    ]

-- What one created game sends.
abbrev news : Subscriptions → ObjectId → GameCreated → List (ObjectId × Event)
news h m e = to_all (not_broadcasted (match_subs h m)) (game_created e)

broadcast_all-next :
    (m : ObjectId) (e : GameCreated) (cs : List (ObjectId × GameCreated)) (h : Subscriptions)
    → broadcast_all ((m, e) ∷ cs) h
      ≡ ((broadcast_all cs (marked h m)).0, news h m e ++ (broadcast_all cs (marked h m)).1)
unfolding broadcast_all
broadcast_all-next m e cs h = refl

-- A tick tells every session that waits for the match of a created game.
pub broadcast_all-tells :
    (i m : ObjectId) (e : GameCreated) (cs : List (ObjectId × GameCreated)) (h : Subscriptions)
    → lookup dec_id m cs ≡ some e
    → Memᴰ i (not_broadcasted (match_subs h m))
    → Memᴰ (i, game_created e) (broadcast_all cs h).1
unfolding lookup
broadcast_all-tells i m e [] h k w = ground arith
broadcast_all-tells i m e ((n, c) ∷ cs) h k w =
    rw (broadcast_all-next n c cs h) (elim (dec_id n m) [
      | yes p ↦
          let found : c ≡ e = ground arith in
          let same : news h n c ≡ news h m e = ap (λ x. news h x c) p ∙ ap (news h m) found in
          rw same (Memᴰ.append_left _ (Memᴰ.map (λ j. (j, game_created e)) w))
      | no q ↦
          let waits : not_broadcasted (match_subs (marked h n) m)
              ≡ not_broadcasted (match_subs h m) =
            ground (arith, waiting-marked h n m) in
          Memᴰ.append_right (news h n c)
            (broadcast_all-tells i m e cs (marked h n) (ground arith) (rw waits w))
    ])

-- A tick leaves nobody to be told about the same games.
waiting-broadcast_all :
    (cs : List (ObjectId × GameCreated)) (h : Subscriptions) (m : ObjectId)
    → not_broadcasted (match_subs (broadcast_all cs h).0 m)
      ≡ (if has dec_id m (keys_of cs) then [] else not_broadcasted (match_subs h m))
unfolding broadcast_all
waiting-broadcast_all [] h m = refl
waiting-broadcast_all ((n, c) ∷ cs) h m =
    ground (arith, waiting-broadcast_all cs (marked h n) m, waiting-marked h n m)

created-broadcast_all :
    (cs : List (ObjectId × GameCreated)) (h : Subscriptions)
    → (broadcast_all cs h).0.created ≡ h.created
unfolding broadcast_all
created-broadcast_all [] h = refl
created-broadcast_all ((n, c) ∷ cs) h = ground (arith, created-broadcast_all cs (marked h n))

quiet-broadcast_all :
    (cs : List (ObjectId × GameCreated)) (h : Subscriptions)
    → ((m : ObjectId) → has dec_id m (keys_of cs) ≡ true → not_broadcasted (match_subs h m) ≡ [])
    → (broadcast_all cs h).1 ≡ []
unfolding broadcast_all
quiet-broadcast_all [] h q = refl
quiet-broadcast_all ((n, c) ∷ cs) h q =
    let here = q n (ground arith) in
    let rest =
      quiet-broadcast_all cs (marked h n)
        (λ m k. let there = q m (ground arith) in ground (arith, waiting-marked h n m)) in
    rw (here, rest) refl

-- A tick of the broadcast routine leaves nothing for the next one: without a subscription or an
-- event in between, the next tick sends nothing to any session.
broadcast-once : (h : Subscriptions) → (broadcast (broadcast h).0).1 ≡ []
unfolding broadcast
broadcast-once h =
    let after = (broadcast_all h.created h).0 in
    quiet-broadcast_all after.created after (λ m k.
      ground (arith, waiting-broadcast_all h.created h m, created-broadcast_all h.created h))
