-- ===== src/Gateway/Deliveries/Kept.antt =====
-- wsgateway/ws/session.go: what the events that a session gets leave as it is.
use shahboard.Base.{refl, arith}
use shahboard.Event.{Event, GameCreated, GameEnded, game_created, game_ended}
use shahboard.RedisHashes.{HashLib}
use shahboard.Gateway.{Session, GatewayEnv, remove_view_games}
use shahboard.Gateway.SessionCache.{SessionInCache}
use shahboard.Gateway.Requests.{World}
use shahboard.Gateway.Requests.Views.{Keeps, Keeps-same, remove_view_games-InCaps}
use shahboard.Gateway.Deliveries.{
  session_event, session_game_created, session_game_ended, type_of_event,
}

module _ (redis : HashLib SessionInCache) (env : GatewayEnv) (s : Session)
    (w : World redis.Db) where
  session_game_created-Keeps : (d : GameCreated) → Keeps s (session_game_created redis env s w d).0
  unfolding session_game_created
  session_game_created-Keeps d = (λ b. ground arith, ground arith, ground arith, λ z. ground arith)

  session_game_ended-Keeps : (d : GameEnded) → Keeps s (session_game_ended redis env s w d).0
  unfolding session_game_ended remove_view_games
  session_game_ended-Keeps d = (
    λ b. ground (arith, remove_view_games-InCaps s d.game_id b),
    ground arith,
    ground arith,
    λ z. ground arith,
  )

  pub session_event-Keeps : (e : Event) → Keeps s (session_event redis env s w e).0
  unfolding session_event type_of_event
  session_event-Keeps (game_created d) = session_game_created-Keeps d
  session_event-Keeps (game_ended d) = session_game_ended-Keeps d
  session_event-Keeps e = Keeps-same s s refl
