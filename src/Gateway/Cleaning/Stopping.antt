-- ===== src/Gateway/Cleaning/Stopping.antt =====
-- wsgateway/ws/session.go and events.go: what a session that stops takes out of the subscriptions.
use shahboard.Base.{
  Bool, false, not, ◌&&◌, ◌||◌, List, [], ◌∷◌, ◌≡◌, inl, inr, arith, lookup, has, lookup-insert,
  if◌then◌else◌, Option-cases,
}
use shahboard.Types.{ObjectId, dec_id, same_id, is_zero}
use shahboard.Gateway.{Session}
use shahboard.Gateway.Subscriptions.{
  Subscriptions, game_subs, remove_subscriber, unsubscribe_basic, unsubscribe_match,
  unsubscribe_game, unsubscribe_games,
}
use shahboard.Gateway.Cleaning.{games_of, stop}

-- Does the session get the events of the game?
abbrev pub gets : Subscriptions → ObjectId → ObjectId → Bool
gets h j g = has dec_id j (game_subs h g)

has-remove_subscriber :
    (l : List ObjectId) (i j : ObjectId)
    → has dec_id j (remove_subscriber l i) ≡ (if same_id j i then false else has dec_id j l)
unfolding remove_subscriber
has-remove_subscriber [] i j = ground arith
has-remove_subscriber (k ∷ l) i j = ground (arith, has-remove_subscriber l i j)

gets-unsubscribe_game :
    (h : Subscriptions) (s : Session) (game j g : ObjectId)
    → gets (unsubscribe_game h s game) j g
      ≡ (if same_id j s.id && same_id g game then false else gets h j g)
unfolding unsubscribe_game
gets-unsubscribe_game h s game j g = elim (Option-cases (lookup dec_id game h.games)) [
  | inl e ↦ ground arith
  | inr (l, e) ↦ ground (
    arith,
    lookup-insert dec_id game g (remove_subscriber l s.id) h.games,
    has-remove_subscriber l s.id j,
  )
]

gets-unsubscribe_games :
    (h : Subscriptions) (s : Session) (games : List ObjectId) (j g : ObjectId)
    → gets (unsubscribe_games h s games) j g
      ≡ (if same_id j s.id && has dec_id g games then false else gets h j g)
unfolding unsubscribe_games
gets-unsubscribe_games h s [] j g = ground arith
gets-unsubscribe_games h s (x ∷ xs) j g = ground (
  arith,
  gets-unsubscribe_games (unsubscribe_game h s x) s xs j g,
  gets-unsubscribe_game h s x j g,
)

games-unsubscribe_match :
    (h : Subscriptions) (s : Session) → (unsubscribe_match h s).games ≡ h.games
unfolding unsubscribe_match
games-unsubscribe_match h s = ground arith

-- When a session stops, it no longer gets the events of the game that it plays and of the games
-- that it views; which sessions get the events of which games is otherwise as before.
pub gets-stop :
    (h : Subscriptions) (s : Session) (j g : ObjectId)
    → gets (stop h s) j g ≡ (
        if same_id j s.id
          && (not (is_zero s.play_game_id) && same_id g s.play_game_id || has dec_id g s.view_games)
        then false
        else gets h j g)
unfolding stop unsubscribe_basic
gets-stop h s j g =
    let h1 = unsubscribe_basic h s in
    let h2 = if is_zero s.match_id then h1 else unsubscribe_match h1 s in
    ground (arith, gets-unsubscribe_games h2 s (games_of s) j g, games-unsubscribe_match h1 s)
