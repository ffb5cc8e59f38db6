-- ===== src/Gateway/Instance/Kept.antt =====
-- wsgateway/ws: what holds of the sessions of an instance after any inputs.
use shahboard.Base.{
  ℕ, Bool, true, false, some, ◌≡◌, refl, arith, lookup, insert, delete, lookup-insert,
  lookup-delete, Option-cases, inl, inr,
}
use shahboard.Types.{Bytes, ObjectId, object_zero, dec_id}
use shahboard.RedisHashes.{HashLib}
use shahboard.Gateway.{Session, GatewayEnv, new_session}
use shahboard.Gateway.SessionCache.{SessionInCache, add_user_session_id}
use shahboard.Gateway.Requests.{handle_msg}
use shahboard.Gateway.Requests.Views.{InCaps, Keeps, handle_msg-Keeps}
use shahboard.Gateway.Deliveries.{session_event}
use shahboard.Gateway.Deliveries.Kept.{session_event-Keeps}
use shahboard.Gateway.Instance.{
  Gateway, Input, take_event, connect, take, step, connects, asks, beats, receives, takes,
  broadcasts, cleans_up, pings, cleans, stops, removes,
}

-- The instance after some inputs, each of which meets its own environment.
pub data Reach (redis : HashLib SessionInCache) (g : Gateway redis.Db)
    : Gateway redis.Db → Type 0 where
  start : Reach redis g g
  next :
      (env : GatewayEnv) (readable : Bytes → Bool) (i : Input) (h : Gateway redis.Db)
      → Reach redis g h
      → Reach redis g (step redis env readable h i)

-- Every session object stands under its identifier, and views no more games than it may.
unfoldable pub SessionsFit : {Db : Type 0} → Gateway Db → Type 0
SessionsFit g =
    (id : ObjectId) (s : Session) → lookup dec_id id g.sessions ≡ some s → (s.id ≡ id) × InCaps s

Keeps-beat : (s : Session) (now : ℕ) → Keeps s (record s { last_heart_beat = now })
Keeps-beat s now = ((λ b. b), refl, refl, (λ z. refl))

module _ {Db : Type 0} (g : Gateway Db) where
  insert-SessionsFit :
      (id : ObjectId) (s : Session) (h : Gateway Db)
      → SessionsFit g
      → h.sessions ≡ insert dec_id id s g.sessions
      → s.id ≡ id
      → InCaps s
      → SessionsFit h
  unfolding SessionsFit
  insert-SessionsFit id s h f k e b j t p =
      let found = lookup-insert dec_id id j s g.sessions in
      elim (dec_id id j) [
        | yes y ↦ (ground (arith, found), ground (arith, found))
        | no n ↦ f j t (ground (arith, found))
      ]

  delete-SessionsFit :
      (id : ObjectId) (h : Gateway Db)
      → SessionsFit g
      → h.sessions ≡ delete dec_id id g.sessions
      → SessionsFit h
  unfolding SessionsFit
  delete-SessionsFit id h f k j t p = f j t (ground (arith, lookup-delete dec_id id j g.sessions))

  same-SessionsFit : (h : Gateway Db) → SessionsFit g → h.sessions ≡ g.sessions → SessionsFit h
  unfolding SessionsFit
  same-SessionsFit h f k j t p = f j t (ground arith)

  kept-SessionsFit :
      (id : ObjectId) (s t : Session) (h : Gateway Db)
      → SessionsFit g
      → lookup dec_id id g.sessions ≡ some s
      → Keeps s t
      → h.sessions ≡ insert dec_id id t g.sessions
      → SessionsFit h
  unfolding SessionsFit
  kept-SessionsFit id s t h f p (caps, same, user, match) k =
      let (a, b) = f id s p in insert-SessionsFit id t h f k (ground arith) (caps b)

module _ (redis : HashLib SessionInCache) (env : GatewayEnv) (readable : Bytes → Bool)
    (g : Gateway redis.Db) where
  connect-SessionsFit :
      (user id : ObjectId) → SessionsFit g → SessionsFit (connect redis env g user id)
  unfolding connect new_session
  connect-SessionsFit user id f =
      elim (Option-cases
        (add_user_session_id redis env.redis g.user_sessions_cap user id env.now g.world.db).1) [
          | inl e ↦ same-SessionsFit g _ f (ground arith)
          | inr (false, e) ↦ same-SessionsFit g _ f (ground arith)
          | inr (true, e) ↦
              insert-SessionsFit g id (new_session id user object_zero env.now) _ f (ground arith)
                refl (omega arith)
        ]

  take-SessionsFit : (id : ObjectId) → SessionsFit g → SessionsFit (take redis env g id)
  unfolding take
  take-SessionsFit id f = elim (Option-cases (lookup dec_id id g.sessions)) [
    | inl e ↦ same-SessionsFit g _ f (ground arith)
    | inr (s, e) ↦ elim (Option-cases (take_event id g.pending)) [
      | inl k ↦ same-SessionsFit g _ f (ground arith)
      | inr ((x, rest), k) ↦
          kept-SessionsFit g id s (session_event redis env s g.world x).0 _ f e
            (session_event-Keeps redis env s g.world x) (ground arith)
    ]
  ]

  step-SessionsFit : (i : Input) → SessionsFit g → SessionsFit (step redis env readable g i)
  unfolding step
  step-SessionsFit (connects user id) f = connect-SessionsFit user id f
  step-SessionsFit (asks id m r) f = elim (Option-cases (lookup dec_id id g.sessions)) [
    | inl e ↦ same-SessionsFit g _ f (ground arith)
    | inr (s, e) ↦
        kept-SessionsFit g id s (handle_msg redis env s g.world m r).0 _ f e
          (handle_msg-Keeps redis env s g.world m r) (ground arith)
  ]
  step-SessionsFit (beats id) f = elim (Option-cases (lookup dec_id id g.sessions)) [
    | inl e ↦ same-SessionsFit g _ f (ground arith)
    | inr (s, e) ↦
        let t = record s { last_heart_beat = env.now } in
        kept-SessionsFit g id s t _ f e (Keeps-beat s env.now) (ground arith)
  ]
  step-SessionsFit (receives e) f = same-SessionsFit g _ f refl
  step-SessionsFit (takes id) f = take-SessionsFit id f
  step-SessionsFit broadcasts f = same-SessionsFit g _ f refl
  step-SessionsFit cleans_up f = same-SessionsFit g _ f refl
  step-SessionsFit pings f = same-SessionsFit g _ f refl
  step-SessionsFit cleans f = same-SessionsFit g _ f refl
  step-SessionsFit (stops id) f = same-SessionsFit g _ f (ground arith)
  step-SessionsFit (removes id) f = elim (Option-cases (lookup dec_id id g.sessions)) [
    | inl e ↦ same-SessionsFit g _ f (ground arith)
    | inr (s, e) ↦ delete-SessionsFit g id _ f (ground arith)
  ]

-- After any inputs, in any order and under any answers of Redis, Kafka and the game service, an
-- instance that started with sessions of that kind has every session object under its own
-- identifier, with at most as many viewed games as the session may view.
pub Reach-SessionsFit :
    (redis : HashLib SessionInCache) (g h : Gateway redis.Db)
    → Reach redis g h
    → SessionsFit g
    → SessionsFit h
Reach-SessionsFit redis g _ start f = f
Reach-SessionsFit redis g _ (next env readable i h r) f =
    step-SessionsFit redis env readable h i (Reach-SessionsFit redis g h r f)
