-- ===== src/Gateway/Requests/Published.antt =====
-- wsgateway/ws/session.go: what the requests of a client let the gateway publish.
use shahboard.Base.{
  ◌&&◌, List, [], ◌∷◌, ◌++◌, none, some, ◌≡◌, ◌⊎◌, inl, inr, refl, sym, arith, Option-cases,
  Bool-cases,
}
use shahboard.Types.{Bytes, ObjectId, object_zero, dec_id, is_zero}
use shahboard.Event.{
  Event, UsersMatchCreated, player_joined, player_moved, player_resigned, msg_sent,
}
use shahboard.Event.Publisher.{publish, applied, answered}
use shahboard.RedisHashes.{HashLib}
use shahboard.Gateway.{
  Session, Request, GatewayEnv, GamePgn, find_match, resume, view, move, resign, chat, invalid,
  other,
}
use shahboard.Gateway.SessionCache.{SessionInCache, add_game_id_to_user_sessions}
use shahboard.Gateway.Requests.{
  World, forward, publish_one, send_err, send_msg, handle_msg, handle_find_match,
  handle_view_game_request, handle_resume_game_request, resume_confirmed, handle_move_request,
  handle_resign_request, handle_send_msg,
}

-- The session's user acts for himself, in the game that the session plays, or joins a game that the
-- game service has confirmed as his.
abbrev IsOwn : GatewayEnv → Session → Event → Type 0
IsOwn env s (player_moved d) = (d.player_id ≡ s.user_id) × (d.game_id ≡ s.play_game_id)
IsOwn env s (player_resigned d) = (d.player_id ≡ s.user_id) × (d.game_id ≡ s.play_game_id)
IsOwn env s (msg_sent d) = (d.sender_id ≡ s.user_id) × (d.game_id ≡ s.play_game_id)
IsOwn env s (player_joined d) =
    (d.player_id ≡ s.user_id)
    × ((g : GamePgn) × (env.user_game s.user_id ≡ some (some g)) × (g.game_id ≡ d.game_id))
IsOwn env s _ = ⊥

-- The log is as before, or holds one more event, which is the session's own.
abbrev pub AddsOwn : GatewayEnv → Session → List Event → List Event → Type 0
AddsOwn env s log log' = (log' ≡ log) ⊎ ((e : Event) × (log' ≡ log ++ (e ∷ [])) × IsOwn env s e)

module _ {Db : Type 0} (env : GatewayEnv) (s : Session) (w : World Db) where
  publish_one-log :
      (e : Event)
      → ((publish_one env w e).log ≡ w.log) ⊎ ((publish_one env w e).log ≡ w.log ++ (e ∷ []))
  unfolding publish_one publish
  publish_one-log e = ground arith

  forward-log :
      (id p g : ObjectId) (e : Event) (refusal : Bytes)
      → ((p ≡ s.user_id) → (g ≡ s.play_game_id) → IsOwn env s e)
      → AddsOwn env s w.log (forward env s w id p g e refusal).log
  unfolding forward send_err send_msg
  forward-log id p g e refusal own = elim (dec_id s.user_id p) [
    | no n ↦ inl (ground arith)
    | yes a ↦ elim (dec_id s.play_game_id g) [
      | no n ↦ inl (ground arith)
      | yes b ↦ elim (publish_one-log e) [
        | inl k ↦ inl (ground arith)
        | inr k ↦ inr (e, ground arith, own (sym a) (sym b))
      ]
    ]
  ]

module _ (redis : HashLib SessionInCache) (env : GatewayEnv) (s : Session) (w : World redis.Db)
    (id : ObjectId) where
  handle_find_match-log : (d : UsersMatchCreated) → (handle_find_match env s w id d).1.log ≡ w.log
  unfolding handle_find_match send_err send_msg
  handle_find_match-log d = ground arith

  handle_view_game_request-log :
      (game : ObjectId) → (handle_view_game_request env s w id game).1.log ≡ w.log
  unfolding handle_view_game_request send_err send_msg
  handle_view_game_request-log game = ground arith

  resume_confirmed-log :
      (game : ObjectId) (g : GamePgn)
      → env.user_game s.user_id ≡ some (some g)
      → g.game_id ≡ game
      → AddsOwn env s w.log (resume_confirmed redis env s w id game g).1.log
  unfolding resume_confirmed send_err send_msg publish_one publish add_game_id_to_user_sessions
  resume_confirmed-log game g k e =
      let joined = player_joined (record {
        id = object_zero;
        game_id = game;
        player_id = s.user_id;
        timestamp = env.unix;
      }) in
      elim (Bool-cases (answered env.redis)) [
        | inl p ↦ elim (Bool-cases (applied (env.send joined))) [
          | inl q ↦ inr (joined, ground arith, (refl, (g, k, e)))
          | inr q ↦ inl (ground arith)
        ]
        | inr p ↦ inl (ground arith)
      ]

  handle_resume_game_request-log :
      (game : ObjectId)
      → AddsOwn env s w.log (handle_resume_game_request redis env s w id game).1.log
  unfolding handle_resume_game_request send_err send_msg
  handle_resume_game_request-log game =
      elim (Bool-cases (is_zero s.match_id && is_zero s.play_game_id)) [
        | inr p ↦ inl (ground arith)
        | inl p ↦ elim (Option-cases (env.user_game s.user_id)) [
          | inl k ↦ inl (ground arith)
          | inr (none, k) ↦ inl (ground arith)
          | inr (some g, k) ↦ elim (dec_id g.game_id game) [
            | no n ↦ inl (ground arith)
            | yes e ↦ elim (resume_confirmed-log game g k e) [
              | inl q ↦ inl (ground arith)
              | inr (j, q, o) ↦ inr (j, ground arith, o)
            ]
          ]
        ]
      ]

  -- Whatever a client asks, the log of published events stays as it is or gains exactly one event,
  -- which is the session's own: a move, a resignation or a chat message of the session's user in
  -- the game that the session plays, which is the empty identifier while it plays none, or the arrival of the user in a game that the game service
  -- has just confirmed to be the user's game. This holds for every answer of Redis and of Kafka.
  pub handle_msg-AddsOwn : (r : Request) → AddsOwn env s w.log (handle_msg redis env s w id r).1.log
  unfolding handle_msg handle_move_request handle_resign_request handle_send_msg send_err send_msg
  handle_msg-AddsOwn (find_match d) = inl (handle_find_match-log d)
  handle_msg-AddsOwn (resume game) = handle_resume_game_request-log game
  handle_msg-AddsOwn (view game) = inl (handle_view_game_request-log game)
  handle_msg-AddsOwn (move d) = forward-log env s w id _ _ _ _ (λ a b. (a, b))
  handle_msg-AddsOwn (resign d) = forward-log env s w id _ _ _ _ (λ a b. (a, b))
  handle_msg-AddsOwn (chat d) = forward-log env s w id _ _ _ _ (λ a b. (a, b))
  handle_msg-AddsOwn invalid = inl refl
  handle_msg-AddsOwn other = inl refl
