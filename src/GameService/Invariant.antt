-- ===== src/GameService/Invariant.antt =====
-- What holds of the games of an instance between two events.
use shahboard.Base.{
  ℕ, ◌≡◌, ◌≢◌, inl, inr, refl, List, [], ◌∷◌, some, Option-cases, Bool-cases, lookup, All,
  All-insert, All-delete_all, All-lookup, arith, ◌∙◌, sym,
}
use shahboard.Types.{ObjectId, dec_id}
use shahboard.Chess.{
  ChessLib, ChessLaws, Method, draw_offer, threefold_repetition, fifty_move_rule, other_method,
}
use shahboard.Redis.{RedisLib}
use shahboard.Game.{
  Game, GameSettings, status_deactive, move, accept_draw, reject_draw, claim_draw,
  player_resigned as by_resignation, player_left as by_leaving, resign_player, leave, new_game_of,
}
use shahboard.Game.Creation.{IsValid, new_game-IsValid}
use shahboard.Game.Histories.{
  call, call-IsValid, call-same, Call, calls, calls-IsValid, moves, offers, accepts, rejects,
  claims, gives_up, ends,
}
use shahboard.Event.{
  Event, player_moved, claim_draw as draw_claimed, draw_response, player_resigned, users_matched,
  MoveEvent, ClaimDraw, DrawResponse, PlayerEvent, UsersMatchCreated,
}
use shahboard.GameService.Cache.{CacheValue}
use shahboard.GameService.Manager.{Managed, store, get_game}
use shahboard.GameService.{
  Env, State, publish_events, finish, active_game, handle_users_matched, decided_move, ongoing_move,
  handle_player_moved, handle_claim, claim_by_method, handle_claim_draw, accept_offer,
  handle_draw_response, resign_game, handle_player_resigned, handle_event, end_left_games,
  check_players_connection,
}

-- A managed game stands under its own identifier and is valid.
abbrev IsManaged : {B : Type 0} → ObjectId × Game B → Type 0
IsManaged e = (e.0 ≡ e.1.id) × IsValid e.1

abbrev pub Inv : {B Db : Type 0} → State B Db → Type 0
Inv s = All IsManaged s.games

-- No user is matched with himself.
abbrev pub NoSelfMatch : Event → Type 0
NoSelfMatch (users_matched d) = d.user1.id ≢ d.user2.id
NoSelfMatch _ = Unit

module _ (chess : ChessLib) (laws : ChessLaws chess) (redis : RedisLib CacheValue)
    (settings : GameSettings) where
  store-Inv :
      (m : Managed chess.Board) (id : ObjectId) (g : Game chess.Board)
      → id ≡ g.id
      → IsValid g
      → All IsManaged m
      → All IsManaged (store m id g)
  unfolding store
  store-Inv m id g e v h = All-insert dec_id IsManaged id g m (e, v) h

  finish-Inv :
      (env : Env) (s : State chess.Board redis.Db) (g : Game chess.Board) (es : List Event)
      → Inv s
      → Inv (finish chess redis settings env s g es)
  unfolding finish publish_events
  finish-Inv env s g es h = ground (arith, All-delete_all dec_id IsManaged (g.id ∷ []) s.games h)

  active_game-found :
      (s : State chess.Board redis.Db) (id : ObjectId) (g : Game chess.Board)
      → active_game chess redis settings s id ≡ some g
      → (lookup dec_id id s.games ≡ some g) × (g.status ≢ status_deactive)
  unfolding active_game get_game
  active_game-found s id g e = ground arith

  -- The game of an event is valid and has the identifier that the event names.
  active_game-Inv :
      (s : State chess.Board redis.Db) (id : ObjectId) (g : Game chess.Board)
      → Inv s
      → active_game chess redis settings s id ≡ some g
      → (id ≡ g.id) × IsValid g
  active_game-Inv s id g h e =
      All-lookup dec_id IsManaged id g s.games h (active_game-found s id g e).0

  -- After calls of its methods a managed game may be written back.
  store-calls :
      (s : State chess.Board redis.Db) (id : ObjectId) (g : Game chess.Board) (cs : List Call)
      → Inv s
      → active_game chess redis settings s id ≡ some g
      → All IsManaged (store s.games id (calls chess g cs))
  store-calls s id g cs h e =
      let (i, v) = active_game-Inv s id g h e in
      let (w, p, q, j) = calls-IsValid chess g cs v in
      store-Inv s.games id (calls chess g cs) (i ∙ sym j) w h

  -- The handler's game after the calls that it makes.
  module _ (env : Env) (s : State chess.Board redis.Db) (g : Game chess.Board) (h : Inv s) where
    decided_move-Inv :
        (d : MoveEvent)
        → active_game chess redis settings s d.game_id ≡ some g
        → Inv (
            decided_move chess redis settings env s d
              (move chess g d.player_id d.move d.index env.now).0)
    unfolding decided_move call calls
    decided_move-Inv d e = finish-Inv env _ _ _ (
        store-calls s d.game_id g (moves d.player_id d.move d.index env.now ∷ ends env.now ∷ []) h
          e)

    ongoing_move-Inv :
        (d : MoveEvent)
        → active_game chess redis settings s d.game_id ≡ some g
        → Inv (
            ongoing_move chess redis settings env s d
              (move chess g d.player_id d.move d.index env.now).0)
    unfolding ongoing_move publish_events call calls
    ongoing_move-Inv d e =
        ground
          (arith, store-calls s d.game_id g (moves d.player_id d.move d.index env.now ∷ []) h e)

    claimed-Inv :
        (d : ClaimDraw)
        → active_game chess redis settings s d.game_id ≡ some g
        → Inv (handle_claim chess redis settings env s d g)
    unfolding handle_claim call calls
    claimed-Inv d e =
        let k = store-calls s d.game_id g (claims d.player_id d.method ∷ []) h e in
        elim (Bool-cases (claim_draw chess g d.player_id d.method).1) [
          | inl t ↦ rw t (finish-Inv env _ _ _ k)
          | inr f ↦ rw f k
        ]

    claim_by_method-Inv :
        (d : ClaimDraw) (m : Method)
        → active_game chess redis settings s d.game_id ≡ some g
        → Inv (claim_by_method chess redis settings m env s d g)
    unfolding claim_by_method publish_events call calls
    claim_by_method-Inv d draw_offer e =
        ground (arith, store-calls s d.game_id g (offers d.player_id env.now ∷ []) h e)
    claim_by_method-Inv d threefold_repetition e = claimed-Inv d e
    claim_by_method-Inv d fifty_move_rule e = claimed-Inv d e
    claim_by_method-Inv d other_method e = h

    accept_offer-Inv :
        (d : DrawResponse)
        → active_game chess redis settings s d.game_id ≡ some g
        → Inv (accept_offer chess redis settings env s d g)
    unfolding accept_offer call calls
    accept_offer-Inv d e =
        let k = store-calls s d.game_id g (accepts d.player_id ∷ []) h e in
        elim (Bool-cases (accept_draw chess g d.player_id).1) [
          | inl t ↦ rw t (finish-Inv env _ _ _ k)
          | inr f ↦ rw f k
        ]

    rejected-Inv :
        (d : DrawResponse)
        → active_game chess redis settings s d.game_id ≡ some g
        → All IsManaged (store s.games d.game_id (reject_draw chess g d.player_id).0)
    unfolding call calls
    rejected-Inv d e = store-calls s d.game_id g (rejects d.player_id ∷ []) h e

    resign_game-Inv :
        (d : PlayerEvent)
        → active_game chess redis settings s d.game_id ≡ some g
        → Inv (resign_game chess redis settings env s d g)
    unfolding resign_game resign_player call calls
    resign_game-Inv d e =
        let k = store-calls s d.game_id g (gives_up d.player_id by_resignation env.now ∷ []) h e in
        ground (
          arith,
          k,
          All-delete_all dec_id IsManaged (d.game_id ∷ [])
              (store s.games d.game_id (resign_player chess g d.player_id env.now).0),
        )

  handle_player_moved-Inv :
      (env : Env) (s : State chess.Board redis.Db) (d : MoveEvent)
      → Inv s
      → Inv (handle_player_moved chess redis settings env s d)
  unfolding handle_player_moved
  handle_player_moved-Inv env s d h =
      elim (Option-cases (active_game chess redis settings s d.game_id)) [
        | inl e ↦ rw (e, handle_player_moved) h
        | inr (g, e) ↦ elim (Option-cases (move chess g d.player_id d.move d.index env.now).1) [
          | inl taken ↦
              ground (arith, decided_move-Inv env s g h d e, ongoing_move-Inv env s g h d e)
          | inr (x, refused) ↦ rw (e, handle_player_moved) (rw refused h)
        ]
      ]

  handle_users_matched-Inv :
      (env : Env) (s : State chess.Board redis.Db) (d : UsersMatchCreated)
      → d.user1.id ≢ d.user2.id
      → Inv s
      → Inv (handle_users_matched chess redis settings env s d)
  unfolding handle_users_matched publish_events
  handle_users_matched-Inv env s d distinct h =
      let g =
        new_game_of chess env.fmt_time d.user1 d.user2 settings (env.fresh 0) env.coin env.now in
      let v =
        (new_game-IsValid chess laws env.fmt_time d.user1 d.user2 settings (env.fresh 0) env.coin
          env.now distinct).0 in
      ground (arith, All-insert dec_id IsManaged g.id g s.games (refl, v) h)

  -- Games that are valid and stand under their own identifiers stay so, whatever event the
  -- service handles and whatever becomes of its requests to Redis and Kafka, provided that no
  -- match event names one user twice.
  pub handle_event-Inv :
      (env : Env) (s : State chess.Board redis.Db) (e : Event)
      → NoSelfMatch e
      → Inv s
      → Inv (handle_event chess redis settings env s e)
  unfolding handle_event
  handle_event-Inv env s (player_moved d) k h = handle_player_moved-Inv env s d h
  handle_event-Inv env s (draw_claimed d) k h =
      elim (Option-cases (active_game chess redis settings s d.game_id)) [
        | inl e ↦ rw (e, handle_claim_draw) h
        | inr (g, e) ↦ rw (e, handle_claim_draw) (claim_by_method-Inv env s g h d d.method e)
      ]
  handle_event-Inv env s (draw_response d) k h =
      elim (Option-cases (active_game chess redis settings s d.game_id)) [
        | inl e ↦ rw (e, handle_draw_response) h
        | inr (g, e) ↦ ground (arith, accept_offer-Inv env s g h d e, rejected-Inv env s g h d e)
      ]
  handle_event-Inv env s (player_resigned d) k h =
      elim (Option-cases (active_game chess redis settings s d.game_id)) [
        | inl e ↦ rw (e, handle_player_resigned) h
        | inr (g, e) ↦ rw (e, handle_player_resigned) (resign_game-Inv env s g h d e)
      ]
  handle_event-Inv env s (users_matched d) k h = handle_users_matched-Inv env s d k h
  handle_event-Inv env s e k h = h

  left-call :
      (g : Game chess.Board) (p : ObjectId) (now : ℕ)
      → (leave chess g p now).0 ≡ call chess g (gives_up p by_leaving now)
  unfolding call leave
  left-call g p now = refl

  end_left_games-Inv :
      (env : Env) (need : List (ObjectId × ObjectId)) (m : Managed chess.Board)
      → All IsManaged m
      → All IsManaged (end_left_games chess redis settings env need m).0
  unfolding end_left_games
  end_left_games-Inv env need [] h = tt
  end_left_games-Inv env need ((k, g) ∷ m) h = elim (Option-cases (lookup dec_id g.id need)) [
    | inl e ↦ rw (e, end_left_games) (h.0, end_left_games-Inv env need m h.1)
    | inr (p, e) ↦ ground (
      arith,
      end_left_games-Inv env need m h.1,
      call-IsValid chess g (gives_up p by_leaving env.now) h.0.1,
      call-same chess g (gives_up p by_leaving env.now),
      left-call g p env.now,
    )
  ]

  -- The periodic check for players who left keeps the managed games valid and under their own
  -- identifiers, whatever becomes of its requests to Redis and Kafka.
  pub check_players_connection-Inv :
      (env : Env) (s : State chess.Board redis.Db)
      → Inv s
      → Inv (check_players_connection chess redis settings env s)
  unfolding check_players_connection publish_events
  check_players_connection-Inv env s h =
      All-delete_all dec_id IsManaged _ _ (end_left_games-Inv env _ s.games h)
