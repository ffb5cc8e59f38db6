-- ===== src/MatchEngine/Matches.antt =====
-- matchservice/service/engine.go: what `findMatches` does with the waiting requests.
use shahboard.Base.{
  ℕ, ◌+◌, ◌≤◌, List, [], ◌∷◌, ◌++◌, map, All, All-append, length, ◌≡◌, ◌≢◌, refl, sym, ap, ◌∙◌,
  arith, if◌then◌else◌,
}
use mathlib.Core.List.{append_assoc, map-append}
use shahboard.Types.{ObjectId, Level, pawn, knight, bishop, rook, queen, king}
use shahboard.Event.{UsersMatchCreated}
use shahboard.MatchEngine.{
  MatchRequest, Queues, Round, set_queue, same_level, pair_up, match_level, requeue, find_matches,
  match_of, add_match,
}
use shahboard.MatchEngine.Waiting.{
  count, count-append, requests_of, requests_of-set_queue, WaitsOnce,
}

-- All requests, from the highest level to the lowest.
abbrev pub waiting : Queues → List MatchRequest
waiting q = q king ++ q queen ++ q rook ++ q bishop ++ q knight ++ q pawn

-- The requests that got an answer.
abbrev pub answered : List (MatchRequest × UsersMatchCreated) → List MatchRequest
answered sent = map (λ x. x.0) sent

-- Two different users.
abbrev pub IsPair : UsersMatchCreated → Type 0
IsPair m = m.user1.id ≢ m.user2.id

count-waiting : (id : ObjectId) (q : Queues) → count id (waiting q) ≡ requests_of id q
count-waiting id q = simp (count-append)

module _ (new_id : ℕ → ObjectId) (t : ℕ) where
  pair_up-queues : (rs : List MatchRequest) (w : Round) → (pair_up new_id t rs w).queues ≡ w.queues
  unfolding pair_up
  pair_up-queues [] w = refl
  pair_up-queues (u ∷ []) w = refl
  pair_up-queues (u1 ∷ u2 ∷ us) w = pair_up-queues us (add_match new_id t u1 u2 w)

  pair_up-leftover :
      (rs : List MatchRequest) (w : Round) → length (pair_up new_id t rs w).leftover ≤ 1
  unfolding pair_up
  pair_up-leftover [] w = omega arith
  pair_up-leftover (u ∷ []) w = omega arith
  pair_up-leftover (u1 ∷ u2 ∷ us) w = pair_up-leftover us (add_match new_id t u1 u2 w)

  pair_up-order :
      (rs : List MatchRequest) (w : Round)
      → answered (pair_up new_id t rs w).sent ++ (pair_up new_id t rs w).leftover
        ≡ answered w.sent ++ rs
  unfolding pair_up
  pair_up-order [] w = refl
  pair_up-order (u ∷ []) w = refl
  pair_up-order (u1 ∷ u2 ∷ us) w =
      let m = match_of (new_id w.ids) t u1 u2 in
      pair_up-order us (add_match new_id t u1 u2 w)
      ∙ ap (λ x. x ++ us) (map-append (λ x. x.0) w.sent ((u1, m) ∷ (u2, m) ∷ []))
      ∙ append_assoc (answered w.sent) (u1 ∷ u2 ∷ []) us

  pair_up-count :
      (id : ObjectId) (rs : List MatchRequest) (w : Round)
      → count id (pair_up new_id t rs w).leftover ≤ count id rs
  unfolding pair_up
  pair_up-count id [] w = omega arith
  pair_up-count id (u ∷ []) w = ground arith
  pair_up-count id (u1 ∷ u2 ∷ us) w =
      ground (arith, pair_up-count id us (add_match new_id t u1 u2 w))

  pair_up-IsPair :
      (rs : List MatchRequest) (w : Round)
      → ((id : ObjectId) → count id rs ≤ 1)
      → All IsPair w.matches
      → All IsPair (pair_up new_id t rs w).matches
  unfolding pair_up
  pair_up-IsPair [] w h p = p
  pair_up-IsPair (u ∷ []) w h p = p
  pair_up-IsPair (u1 ∷ u2 ∷ us) w h p =
      pair_up-IsPair us (add_match new_id t u1 u2 w) (λ id. ground (arith, h id))
        (All-append IsPair w.matches _ p ((λ e. ground (arith, h u2.user_id)), tt))

  match_level-queues :
      (l j : Level) (w : Round)
      → (match_level new_id t l w).queues j ≡ (if same_level l j then [] else w.queues j)
  unfolding match_level
  match_level-queues l j w = rw (pair_up-queues (w.leftover ++ w.queues l) w) refl

  match_level-order :
      (l : Level) (w : Round) (rs : List MatchRequest)
      → answered w.sent ++ w.leftover ≡ rs
      → answered (match_level new_id t l w).sent ++ (match_level new_id t l w).leftover
        ≡ rs ++ w.queues l
  unfolding match_level
  match_level-order l w rs h =
      pair_up-order (w.leftover ++ w.queues l) w
      ∙ sym (append_assoc (answered w.sent) w.leftover (w.queues l))
      ∙ ap (λ x. x ++ w.queues l) h

  match_level-leftover : (l : Level) (w : Round) → length (match_level new_id t l w).leftover ≤ 1
  unfolding match_level
  match_level-leftover l w = pair_up-leftover (w.leftover ++ w.queues l) w

  -- No user has two requests, counting the leftover, and every match so far is a pair.
  abbrev IsFair : Round → Type 0
  IsFair w =
      ((id : ObjectId) → count id w.leftover + requests_of id w.queues ≤ 1) × All IsPair w.matches

  match_level-IsFair : (l : Level) (w : Round) → IsFair w → IsFair (match_level new_id t l w)
  unfolding match_level
  match_level-IsFair l w (h, p) =
      let rs = w.leftover ++ w.queues l in
      (
        λ id. rw (pair_up-queues rs w) (
            omega (
              arith,
              requests_of-set_queue id l [] w.queues,
              pair_up-count id rs w,
              count-append id w.leftover (w.queues l),
              h id,
            )),
        pair_up-IsPair rs w
            (λ id. omega (
              arith,
              requests_of-set_queue id l [] w.queues,
              count-append id w.leftover (w.queues l),
              h id,
            ))
            p,
      )

  -- Before the loop, and after it.
  abbrev start_of : Queues → Round
  start_of q = record { leftover = []; matches = []; sent = []; queues = q; ids = 0 }

  unfoldable last_round : Queues → Round
  last_round q = match_level new_id t pawn (
      match_level new_id t knight (
        match_level new_id t bishop (
          match_level new_id t rook
            (match_level new_id t queen (match_level new_id t king (start_of q))))))

  last_round-empty : (q : Queues) (l : Level) → (last_round q).queues l ≡ []
  unfolding last_round
  last_round-empty q pawn = simp (match_level-queues)
  last_round-empty q knight = simp (match_level-queues)
  last_round-empty q bishop = simp (match_level-queues)
  last_round-empty q rook = simp (match_level-queues)
  last_round-empty q queen = simp (match_level-queues)
  last_round-empty q king = simp (match_level-queues)

  last_round-order :
      (q : Queues) → answered (last_round q).sent ++ (last_round q).leftover ≡ waiting q
  unfolding last_round
  last_round-order q =
      let w0 = start_of q in
      let w1 = match_level new_id t king w0 in
      let w2 = match_level new_id t queen w1 in
      let w3 = match_level new_id t rook w2 in
      let w4 = match_level new_id t bishop w3 in
      let w5 = match_level new_id t knight w4 in
      let h1 : answered w1.sent ++ w1.leftover ≡ q king = match_level-order king w0 [] refl in
      let h2 : answered w2.sent ++ w2.leftover ≡ q king ++ w1.queues queen =
        match_level-order queen w1 _ h1 in
      let h3 : answered w3.sent ++ w3.leftover ≡ q king ++ w1.queues queen ++ w2.queues rook =
        match_level-order rook w2 _ h2 in
      let h4 : answered w4.sent ++ w4.leftover
          ≡ q king ++ w1.queues queen ++ w2.queues rook ++ w3.queues bishop =
        match_level-order bishop w3 _ h3 in
      let h5 : answered w5.sent ++ w5.leftover
          ≡ q king ++ w1.queues queen ++ w2.queues rook ++ w3.queues bishop ++ w4.queues knight =
        match_level-order knight w4 _ h4 in
      match_level-order pawn w5 _ h5 ∙ simp (match_level-queues)

  last_round-IsFair : (q : Queues) → WaitsOnce q → IsFair (last_round q)
  unfolding last_round
  last_round-IsFair q h = match_level-IsFair pawn _ (
      match_level-IsFair knight _ (
        match_level-IsFair bishop _ (
          match_level-IsFair rook _ (
            match_level-IsFair queen _
              (match_level-IsFair king (start_of q) ((λ id. omega (arith, h id)), tt))))))

  requeue-waiting :
      (rs : List MatchRequest) (q : Queues)
      → length rs ≤ 1
      → ((l : Level) → q l ≡ [])
      → waiting (requeue rs q) ≡ rs
  requeue-waiting [] q h e = rw (e king, e queen, e rook, e bishop, e knight, e pawn) refl
  requeue-waiting (r ∷ []) q h e = place r r.level
    where
      place : (r : MatchRequest) (l : Level) → waiting (set_queue l (q l ++ (r ∷ [])) q) ≡ r ∷ []
      place r pawn = rw (e king, e queen, e rook, e bishop, e knight, e pawn) refl
      place r knight = rw (e king, e queen, e rook, e bishop, e knight, e pawn) refl
      place r bishop = rw (e king, e queen, e rook, e bishop, e knight, e pawn) refl
      place r rook = rw (e king, e queen, e rook, e bishop, e knight, e pawn) refl
      place r queen = rw (e king, e queen, e rook, e bishop, e knight, e pawn) refl
      place r king = rw (e king, e queen, e rook, e bishop, e knight, e pawn) refl
  requeue-waiting (r ∷ s ∷ rs) q h e = ground arith

  -- `findMatches` answers the waiting requests in order, from the highest level down, and leaves at
  -- most the last of them; when no user waits twice, no match sets a user against himself, and
  -- again no user waits twice.
  pub find_matches_lem :
      (q : Queues)
      → (answered (find_matches new_id t q).sent ++ waiting (find_matches new_id t q).queues
          ≡ waiting q)
        × (length (waiting (find_matches new_id t q).queues) ≤ 1)
        × (WaitsOnce q → All IsPair (find_matches new_id t q).matches)
        × (WaitsOnce q → WaitsOnce (find_matches new_id t q).queues)
  unfolding find_matches last_round
  find_matches_lem q =
      let w = last_round q in
      let k : waiting (requeue w.leftover w.queues) ≡ w.leftover =
        requeue-waiting w.leftover w.queues (match_level-leftover pawn _) (last_round-empty q) in
      (
        ap (λ x. answered w.sent ++ x) k ∙ last_round-order q,
        rw k (match_level-leftover pawn _),
        (λ h. (last_round-IsFair q h).1),
        (λ h id. omega (
          arith,
          count-waiting id (requeue w.leftover w.queues),
          ap (count id) k,
          (last_round-IsFair q h).0 id,
        )),
      )
