-- ===== src/Gateway/Requests/Views.antt =====
-- wsgateway/ws/session.go: the games that a session views and the match that it waits for.
use shahboard.Base.{
  ◌≤◌, Bool, false, not, List, [], ◌∷◌, ◌≡◌, refl, arith, length, length-append, keep_if,
}
use shahboard.Types.{ObjectId, same_id, is_zero}
use shahboard.Event.{UsersMatchCreated}
use shahboard.RedisHashes.{HashLib}
use shahboard.Gateway.{
  Session, Request, GatewayEnv, add_view_game, remove_view_games, find_match, resume, view, move,
  resign, chat, invalid, other,
}
use shahboard.Gateway.SessionCache.{SessionInCache}
use shahboard.Gateway.Requests.{
  World, handle_msg, handle_find_match, handle_view_game_request, handle_resume_game_request,
  resume_confirmed,
}

-- The session views no more games than it may.
abbrev pub InCaps : Session → Type 0
InCaps s = length s.view_games ≤ s.view_caps

length-keep_if : {A : Type 0} (t : A → Bool) (l : List A) → length (keep_if t l) ≤ length l
length-keep_if t [] = ground arith
length-keep_if t (x ∷ l) = let ih = length-keep_if t l in ground arith

add_view_game-InCaps : (s : Session) (g : ObjectId) → InCaps s → InCaps (add_view_game s g).0
unfolding add_view_game
add_view_game-InCaps s g b = ground (arith, length-append s.view_games (g ∷ []))

pub remove_view_games-InCaps :
    (s : Session) (g : ObjectId) → InCaps s → InCaps (remove_view_games s g)
unfolding remove_view_games
remove_view_games-InCaps s g b =
    let k = length-keep_if (λ i. not (same_id i g)) s.view_games in ground arith

-- What every handler keeps: the bound on the viewed games, whose session it is, and the match that
-- the session waits for, once there is one.
abbrev pub Keeps : Session → Session → Type 0
Keeps s s' =
    (InCaps s → InCaps s')
    × (s'.id ≡ s.id)
    × (s'.user_id ≡ s.user_id)
    × (is_zero s.match_id ≡ false → s'.match_id ≡ s.match_id)

pub Keeps-same : (s s' : Session) → s' ≡ s → Keeps s s'
Keeps-same s s' e = (λ b. ground arith, ground arith, ground arith, λ z. ground arith)

module _ {Db : Type 0} (env : GatewayEnv) (s : Session) (w : World Db) (id : ObjectId) where
  handle_find_match-Keeps : (d : UsersMatchCreated) → Keeps s (handle_find_match env s w id d).0
  unfolding handle_find_match
  handle_find_match-Keeps d = (λ b. ground arith, ground arith, ground arith, λ z. ground arith)

  handle_view_game_request-Keeps :
      (game : ObjectId) → Keeps s (handle_view_game_request env s w id game).0
  unfolding handle_view_game_request add_view_game remove_view_games
  handle_view_game_request-Keeps game = (
    λ b.
        let k = add_view_game-InCaps s game b in
        ground (arith, k, remove_view_games-InCaps (add_view_game s game).0 game k),
    ground arith,
    ground arith,
    λ z. ground arith,
  )

module _ (redis : HashLib SessionInCache) (env : GatewayEnv) (s : Session) (w : World redis.Db)
    (id : ObjectId) where
  handle_resume_game_request-Keeps :
      (game : ObjectId) → Keeps s (handle_resume_game_request redis env s w id game).0
  unfolding handle_resume_game_request resume_confirmed
  handle_resume_game_request-Keeps game =
      (λ b. ground arith, ground arith, ground arith, λ z. ground arith)

  pub handle_msg-Keeps : (r : Request) → Keeps s (handle_msg redis env s w id r).0
  unfolding handle_msg
  handle_msg-Keeps (find_match d) = handle_find_match-Keeps env s w id d
  handle_msg-Keeps (resume game) = handle_resume_game_request-Keeps game
  handle_msg-Keeps (view game) = handle_view_game_request-Keeps env s w id game
  handle_msg-Keeps (move d) = Keeps-same s s refl
  handle_msg-Keeps (resign d) = Keeps-same s s refl
  handle_msg-Keeps (chat d) = Keeps-same s s refl
  handle_msg-Keeps invalid = Keeps-same s s refl
  handle_msg-Keeps other = Keeps-same s s refl
