-- ===== src/Gateway/Deliveries/Lives.antt =====
-- wsgateway/ws/session.go: a session through the requests and events of its life.
use shahboard.Base.{false, ◌≡◌, ◌∙◌, refl, arith}
use shahboard.Types.{bytes, ObjectId, is_zero}
use shahboard.Event.{Event, UsersMatchCreated}
use shahboard.RedisHashes.{HashLib}
use shahboard.Gateway.{Session, GatewayEnv, Request, find_match, resume}
use shahboard.Gateway.SessionCache.{SessionInCache}
use shahboard.Gateway.Requests.{
  World, send_err, handle_msg, handle_find_match, handle_resume_game_request,
}
use shahboard.Gateway.Requests.Views.{handle_msg-Keeps}
use shahboard.Gateway.Deliveries.{session_event}
use shahboard.Gateway.Deliveries.Kept.{session_event-Keeps}

-- What a session becomes by requests and events, whatever the rest of the gateway does in between.
pub data Life (redis : HashLib SessionInCache) (s : Session) : Session → Type 0 where
  born : Life redis s s
  asked :
      (env : GatewayEnv) (w : World redis.Db) (id : ObjectId) (r : Request) (t : Session)
      → Life redis s t
      → Life redis s (handle_msg redis env t w id r).0
  got :
      (env : GatewayEnv) (w : World redis.Db) (e : Event) (t : Session)
      → Life redis s t
      → Life redis s (session_event redis env t w e).0

module _ (redis : HashLib SessionInCache) (s : Session) (waits : is_zero s.match_id ≡ false) where
  match_id-Life : (t : Session) → Life redis s t → t.match_id ≡ s.match_id
  match_id-Life _ born = refl
  match_id-Life _ (asked env w id r t l) =
      let ih = match_id-Life t l in (handle_msg-Keeps redis env t w id r).3 (ground arith) ∙ ih
  match_id-Life _ (got env w e t l) =
      let ih = match_id-Life t l in (session_event-Keeps redis env t w e).3 (ground arith) ∙ ih

  -- Once a session has asked for a match, whose identifier is not zero, every later request for a match, and every request to
  -- resume a game, is refused, after any requests and events, the end of the game of that match
  -- among them.
  pub Life-refused :
      (t : Session) (env : GatewayEnv) (w : World redis.Db) (id : ObjectId)
      → Life redis s t
      → ((d : UsersMatchCreated)
          → handle_msg redis env t w id (find_match d)
            ≡ (t, send_err env w t id (bytes "already subscribed to a game")))
        × ((game : ObjectId)
            → handle_msg redis env t w id (resume game)
              ≡ (t, send_err env w t id (bytes "already subscribed to a game")))
  unfolding handle_msg handle_find_match handle_resume_game_request
  Life-refused t env w id l =
      let kept = match_id-Life t l in (λ d. ground arith, λ game. ground arith)
