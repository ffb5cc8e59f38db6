-- ===== src/GameService/Matched.antt =====
-- gameservice/service/event.go over matchservice/service: the events of the match service, as the
-- game service gets them.
use shahboard.Base.{ℕ, suc, List, [], ◌∷◌, All}
use shahboard.Chess.{ChessLib, ChessLaws}
use shahboard.Redis.{RedisLib}
use shahboard.Game.{GameSettings}
use shahboard.Event.{Event, users_matched}
use shahboard.MatchService.{MatchService}
use shahboard.MatchService.Pairs.{IsMatch, Served, Served-IsFit}
use shahboard.GameService.Cache.{CacheValue}
use shahboard.GameService.{Env, State, handle_event}
use shahboard.GameService.Invariant.{Inv, NoSelfMatch, handle_event-Inv}

NoSelfMatch-match : (e : Event) → IsMatch e → NoSelfMatch e
NoSelfMatch-match (users_matched d) h = h
NoSelfMatch-match _ h = absurd h

module _ (chess : ChessLib) (redis : RedisLib CacheValue) (settings : GameSettings) where
  -- The events, one after another, each with its own environment.
  unfoldable pub handle_events_of :
      (ℕ → Env) → State chess.Board redis.Db → List Event → State chess.Board redis.Db
  unfolding handle_event
  handle_events_of env s [] = s
  handle_events_of env s (e ∷ es) =
      handle_events_of (λ n. env (suc n)) (handle_event chess redis settings (env 0) s e) es

  handle_events_of-Inv :
      ChessLaws chess
      → (env : ℕ → Env) (s : State chess.Board redis.Db) (es : List Event) → All IsMatch es
      → Inv s
      → Inv (handle_events_of env s es)
  unfolding handle_events_of
  handle_events_of-Inv laws env s [] p h = h
  handle_events_of-Inv laws env s (e ∷ es) (p, ps) h =
      handle_events_of-Inv laws (λ n. env (suc n)) _ es ps
        (handle_event-Inv chess laws redis settings (env 0) s e (NoSelfMatch-match e p) h)

  -- Whatever users ask the match service, the game service that handles all events that this has
  -- published keeps its games valid and under their own identifiers, whatever Redis and Kafka do:
  -- the one service gives what the other relies on, that no user is matched with himself.
  pub Served-Inv :
      ChessLaws chess
      → (m : MatchService) → Served m
      → (env : ℕ → Env) (s : State chess.Board redis.Db) → Inv s
      → Inv (handle_events_of env s m.log)
  Served-Inv laws m served env s h =
      handle_events_of-Inv laws env s m.log (Served-IsFit m served).1 h
