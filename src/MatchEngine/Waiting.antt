-- ===== src/MatchEngine/Waiting.antt =====
-- matchservice/service/engine.go: what `addToQueue` and `cancelRequest` do to the waiting users.
use shahboard.Base.{
  ℕ, suc, ◌+◌, ◌≤◌, ℤ, true, false, none, some, List, [], ◌∷◌, ◌++◌, if◌then◌else◌, ◌==◌, ◌≡◌, refl,
  arith, inl, inr, Bool-cases, subst, sym, ap, ◌∙◌,
}
use shahboard.Types.{ObjectId, Level, pawn, knight, bishop, rook, queen, king, same_id, dec_id}
use shahboard.Elo.{get_player_level, rank}
use shahboard.MatchEngine.{
  MatchRequest, Queues, set_queue, same_level, has_request, is_waiting, add_to_queue,
  remove_request, cancel_request,
}

-- How many of the requests are the user's?
abbrev pub count : ObjectId → List MatchRequest → ℕ
count id [] = 0
count id (r ∷ rs) = if same_id r.user_id id then suc (count id rs) else count id rs

abbrev pub requests_of : ObjectId → Queues → ℕ
requests_of id q =
    count id (q king)
    + count id (q queen)
    + count id (q rook)
    + count id (q bishop)
    + count id (q knight)
    + count id (q pawn)

-- No user waits twice.
abbrev pub WaitsOnce : Queues → Type 0
WaitsOnce q = (id : ObjectId) → requests_of id q ≤ 1

pub count-append :
    (id : ObjectId) (xs ys : List MatchRequest) → count id (xs ++ ys) ≡ count id xs + count id ys
count-append id [] ys = omega arith
count-append id (x ∷ xs) ys = ground (arith, count-append id xs ys)

has_request-count :
    (id : ObjectId) (rs : List MatchRequest)
    → has_request id rs ≡ (if count id rs == 0 then false else true)
has_request-count id [] = refl
has_request-count id (r ∷ rs) = ground (arith, has_request-count id rs)

is_waiting-requests_of :
    (id : ObjectId) (q : Queues) → is_waiting id q ≡ (if requests_of id q == 0 then false else true)
is_waiting-requests_of id q =
    rw
      (
        has_request-count id (q king),
        has_request-count id (q queen),
        has_request-count id (q rook),
        has_request-count id (q bishop),
        has_request-count id (q knight),
        has_request-count id (q pawn),
      )
      (ground arith)

pub requests_of-set_queue :
    (id : ObjectId) (l : Level) (rs : List MatchRequest) (q : Queues)
    → requests_of id (set_queue l rs q) + count id (q l) ≡ requests_of id q + count id rs
requests_of-set_queue id pawn rs q = omega arith
requests_of-set_queue id knight rs q = omega arith
requests_of-set_queue id bishop rs q = omega arith
requests_of-set_queue id rook rs q = omega arith
requests_of-set_queue id queen rs q = omega arith
requests_of-set_queue id king rs q = omega arith

abbrev request_of : ObjectId → ℤ → MatchRequest
request_of id s = record { user_id = id; score = s; level = get_player_level s }

abbrev with_request : ObjectId → ℤ → Queues → Queues
with_request id s q =
    set_queue (get_player_level s) (q (get_player_level s) ++ (request_of id s ∷ [])) q

requests_of-with_request :
    (id j : ObjectId) (s : ℤ) (q : Queues)
    → requests_of j (with_request id s q) ≡ requests_of j q + (if same_id id j then 1 else 0)
requests_of-with_request id j s q =
    let l = get_player_level s in
    ground (
      arith,
      requests_of-set_queue j l (q l ++ (request_of id s ∷ [])) q,
      count-append j (q l) (request_of id s ∷ []),
    )

zero_of_test : (n : ℕ) → (n == 0) ≡ true → n ≡ 0
zero_of_test n t = ground arith

-- What an accepted request is, and what it does.
add_to_queue-some :
    (id : ObjectId) (s : ℤ) (q : Queues) (r : MatchRequest) (q' : Queues)
    → add_to_queue id s q ≡ some (r, q')
    → (requests_of id q ≡ 0) × (request_of id s ≡ r) × (with_request id s q ≡ q')
unfolding add_to_queue
add_to_queue-some id s q r q' e = elim (Bool-cases (requests_of id q == 0)) [
  | inl t ↦
      let k : some (request_of id s, with_request id s q) ≡ some (r, q') =
        rw (is_waiting-requests_of id q, t) at e in
      (zero_of_test (requests_of id q) t, cc k, cc k)
  | inr t ↦ cc (rw (is_waiting-requests_of id q, t) at e)
]

-- A user who has no request gets one, under the level of his score, and nobody else's requests
-- change; a user who has one is refused.
add_to_queue_lem :
    (id : ObjectId) (s : ℤ) (q : Queues)
    → (requests_of id q ≡ 0
        → (r : MatchRequest) × (q' : Queues) × (add_to_queue id s q ≡ some (r, q'))
          × (r.user_id ≡ id)
          × (r.level ≡ get_player_level s)
          × ((j : ObjectId) → requests_of j q' ≡ requests_of j q + (if same_id id j then 1 else 0)))
      × (1 ≤ requests_of id q → add_to_queue id s q ≡ none)
unfolding add_to_queue
add_to_queue_lem id s q = (
  λ e.
      rw (is_waiting-requests_of id q, e)
        (
          request_of id s,
          with_request id s q,
          refl,
          refl,
          refl,
          λ j. requests_of-with_request id j s q,
        ),
  λ h. rw (is_waiting-requests_of id q) (ground arith),
)

count-remove_request :
    (id j : ObjectId) (rs : List MatchRequest) → count j (remove_request id rs) ≤ count j rs
count-remove_request id j [] = omega arith
count-remove_request id j (r ∷ rs) = ground (arith, count-remove_request id j rs)

remove_request-append :
    (id : ObjectId) (r : MatchRequest) (rs : List MatchRequest)
    → same_id r.user_id id ≡ true
    → count id rs ≡ 0
    → remove_request id (rs ++ (r ∷ [])) ≡ rs
remove_request-append id r [] e h = ground arith
remove_request-append id r (x ∷ rs) e h = ground (arith, remove_request-append id r rs e)

-- Where no user waits twice, neither a new request nor a cancelled one makes a user wait twice.
pub queues-WaitsOnce :
    (q : Queues)
    → WaitsOnce q
    → ((id : ObjectId) (s : ℤ) (r : MatchRequest) (q' : Queues)
        → add_to_queue id s q ≡ some (r, q')
        → WaitsOnce q')
      × ((r : MatchRequest) → WaitsOnce (cancel_request r q))
unfolding cancel_request
queues-WaitsOnce q h = (added, cancelled)
  where
    added :
        (id : ObjectId) (s : ℤ) (r : MatchRequest) (q' : Queues)
        → add_to_queue id s q ≡ some (r, q')
        → WaitsOnce q'
    added id s r q' e j =
        let (z, a, b) = add_to_queue-some id s q r q' e in
        let k : requests_of j (with_request id s q) ≤ 1 = elim (dec_id id j) [
          | yes p ↦
              let z' : requests_of j q ≡ 0 = subst (λ x. requests_of x q ≡ 0) p z in
              ground (arith, z', requests_of-with_request id j s q)
          | no n ↦ ground (arith, h j, requests_of-with_request id j s q)
        ] in
        subst (λ x. requests_of j x ≤ 1) b k

    cancelled : (r : MatchRequest) → WaitsOnce (cancel_request r q)
    cancelled r j = omega (
      arith,
      requests_of-set_queue j r.level (remove_request r.user_id (q r.level)) q,
      count-remove_request r.user_id j (q r.level),
      h j,
    )

abbrev unrank : ℕ → Level
unrank n =
    if n == 1
    then pawn
    else if n == 2
    then knight
    else if n == 3
    then bishop
    else if n == 4
    then rook
    else if n == 5
    then queen
    else king

unrank-rank : (l : Level) → unrank (rank l) ≡ l
unrank-rank pawn = refl
unrank-rank knight = refl
unrank-rank bishop = refl
unrank-rank rook = refl
unrank-rank queen = refl
unrank-rank king = refl

same_level_sound : (a b : Level) → same_level a b ≡ true → a ≡ b
same_level_sound a b t =
    let e : rank a ≡ rank b = ground arith in sym (unrank-rank a) ∙ ap unrank e ∙ unrank-rank b

cancel_request-with_request :
    (id : ObjectId) (s : ℤ) (q : Queues) (l : Level)
    → requests_of id q ≡ 0
    → cancel_request (request_of id s) (with_request id s q) l ≡ q l
unfolding cancel_request
cancel_request-with_request id s q l z =
    let lv = get_player_level s in
    let r = request_of id s in
    let same : same_id id id ≡ true = ground arith in
    let here : remove_request id (q lv ++ (r ∷ [])) ≡ q lv =
      remove_request-append id r (q lv) same (omega (arith, z, requests_of-set_queue id lv [] q)) in
    let own : same_level lv lv ≡ true = ground arith in
    elim (Bool-cases (same_level lv l)) [
      | inl t ↦ rw (own, t, here) (ap q (same_level_sound lv l t))
      | inr f ↦ rw (f) refl
    ]

-- Cancelling a request that has just been added leaves the queues as they were.
cancel_request-add_to_queue :
    (id : ObjectId) (s : ℤ) (q : Queues) (r : MatchRequest) (q' : Queues)
    → add_to_queue id s q ≡ some (r, q')
    → (l : Level) → cancel_request r q' l ≡ q l
cancel_request-add_to_queue id s q r q' e l =
    let (z, a, b) = add_to_queue-some id s q r q' e in
    let k : cancel_request (request_of id s) (with_request id s q) l ≡ q l =
      cancel_request-with_request id s q l z in
    subst (λ x. cancel_request x q' l ≡ q l) a
      (subst (λ x. cancel_request (request_of id s) x l ≡ q l) b k)
