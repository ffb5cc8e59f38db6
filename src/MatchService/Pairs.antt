-- ===== src/MatchService/Pairs.antt =====
-- matchservice/service: what the service publishes, after any requests and ticks.
use shahboard.Base.{
  ℤ, subst, List, [], ◌∷◌, map, Option, none, some, ◌≡◌, refl, arith, All, All-append, inl, inr,
  Option-cases, Bool-cases,
}
use shahboard.Types.{ObjectId}
use shahboard.Elo.{base_score}
use shahboard.Event.{Event, UsersMatchCreated, users_matched}
use shahboard.Event.Publisher.{Reply, delivered, publish-log, applied}
use shahboard.MatchEngine.{MatchRequest, Queues, add_to_queue, find_matches}
use shahboard.MatchEngine.Waiting.{WaitsOnce, queues-WaitsOnce}
use shahboard.MatchEngine.Matches.{IsPair, find_matches_lem}
use shahboard.MatchService.{
  MatchService, new_service, MatchInput, asks, gives_up, ticks, Asked, waits_for, refused_with,
  new_match_request, publish_matches, match_step,
}

-- A match of two different users.
abbrev pub IsMatch : Event → Type 0
IsMatch (users_matched m) = IsPair m
IsMatch _ = ⊥

-- The service after some requests and ticks.
pub data Served : MatchService → Type 0 where
  opened : Served new_service
  next : (s : MatchService) (i : MatchInput) → Served s → Served (match_step s i)

-- No user waits twice, and only matches are published.
abbrev pub IsFit : MatchService → Type 0
IsFit s = WaitsOnce s.queues × All IsMatch s.log

All-matches : (ms : List UsersMatchCreated) → All IsPair ms → All IsMatch (map users_matched ms)
All-matches [] h = tt
All-matches (m ∷ ms) (h, hs) = (h, All-matches ms hs)

All-delivered :
    (send : Event → Reply) (es : List Event) → All IsMatch es → All IsMatch (delivered send es)
unfolding delivered
All-delivered send [] h = tt
All-delivered send (e ∷ es) (h, hs) =
    let ih = All-delivered send es hs in
    elim (Bool-cases (applied (send e))) [ inl a ↦ rw a (h, ih) | inr a ↦ rw a ih ]

publish_matches-IsMatch :
    (send : Event → Reply) (log : List Event) (ms : List UsersMatchCreated)
    → All IsMatch log
    → All IsPair ms
    → All IsMatch (publish_matches send log ms)
unfolding publish_matches
publish_matches-IsMatch send log [] h p = h
publish_matches-IsMatch send log (m ∷ ms) h p =
    let es = map users_matched (m ∷ ms) in
    rw (publish-log send log es) (
      All-append IsMatch log (delivered send es) h (All-delivered send es (All-matches (m ∷ ms) p)))

new_match_request-WaitsOnce :
    (game : Option ObjectId) (score : Option ℤ) (user : ObjectId) (q : Queues) (r : MatchRequest)
    (q' : Queues)
    → WaitsOnce q
    → new_match_request game score user q ≡ waits_for r q'
    → WaitsOnce q'
unfolding new_match_request
new_match_request-WaitsOnce none score user q r q' h e = ground arith
new_match_request-WaitsOnce (some g) score user q r q' h e =
    let added : Option (MatchRequest × Queues) =
      add_to_queue user (elim score [ none ↦ base_score | some n ↦ n ]) q in
    elim (Option-cases added) [
      | inl k ↦ ground arith
      | inr ((r1, q1), k) ↦
          let same : q1 ≡ q' = ground arith in
          subst WaitsOnce same ((queues-WaitsOnce q h).0 user _ r1 q1 k)
    ]

match_step-IsFit : (s : MatchService) (i : MatchInput) → IsFit s → IsFit (match_step s i)
unfolding match_step
match_step-IsFit s (asks user game score) (w, l) =
    asked (new_match_request game score user s.queues) refl
  where
    asked :
        (a : Asked)
        → new_match_request game score user s.queues ≡ a
        → IsFit (match_step s (asks user game score))
    asked (refused_with e) k = rw (k, match_step) (w, l)
    asked (waits_for r q) k =
        rw (k, match_step) (new_match_request-WaitsOnce game score user s.queues r q w k, l)
match_step-IsFit s (gives_up r) (w, l) = ((queues-WaitsOnce s.queues w).1 r, l)
match_step-IsFit s (ticks new_id t send) (w, l) =
    let (order, few, pairs, once) = find_matches_lem new_id t s.queues in
    (
      once w,
      publish_matches-IsMatch send s.log (find_matches new_id t s.queues).matches l (pairs w),
    )

-- Whatever users ask and give up, and whenever the engine matches, no user waits twice, and every
-- event that the service has published is a match of two different users, also when Kafka fails.
pub Served-IsFit : (s : MatchService) → Served s → IsFit s
Served-IsFit _ opened = (λ id. ground arith, tt)
Served-IsFit _ (next s i h) = match_step-IsFit s i (Served-IsFit s h)
