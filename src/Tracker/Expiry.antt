-- ===== src/Tracker/Expiry.antt =====
-- `getGamesNeedsToRemove`: which games are ended, and on whose account.
use shahboard.Base.{
  ℕ, ◌-◌, ◌<◌, ◌≤◌, ◌≡◌, ◌⊎◌, inl, inr, refl, sym, subst, true, false, ◌||◌, List, [], ◌∷◌,
  lookup-delete_all, if◌then◌else◌, has, arith, ltb, ◌==◌, Bool-cases,
}
use shahboard.Types.{ObjectId, dec_id, object_zero}
use shahboard.Tracker.{Tracker, Players, Games, keys, get, earliest, expired, games_needs_to_remove}

-- The player is recorded as disconnected at that time.
abbrev pub Occurs : ObjectId → ℕ → Players → Type 0
Occurs p at [] = ⊥
Occurs p at ((q, t) ∷ ps) = ((q ≡ p) × (t ≡ at)) ⊎ Occurs p at ps

-- Clocks never stand at the zero time.
abbrev IsTimed : Players → Type 0
IsTimed [] = Unit
IsTimed ((q, t) ∷ ps) = (0 < t) × IsTimed ps

-- No player has been away since before `limit` and since before `at`; with `at` zero, nobody has
-- been away since before `limit`.
abbrev NoneBefore : ℕ → ℕ → Players → Type 0
NoneBefore limit at [] = Unit
NoneBefore limit at ((q, t) ∷ ps) = (t < limit → (0 < at) × (at ≤ t)) × NoneBefore limit at ps

-- A best candidate is no candidate yet, or one whose time is before the limit.
abbrev IsCandidate : ℕ → ObjectId × ℕ → Type 0
IsCandidate limit best = (best.1 ≡ 0) ⊎ (best.1 < limit)

-- The next candidate of the loop.
abbrev better : ℕ → ObjectId × ℕ → ObjectId × ℕ → ObjectId × ℕ
better limit best e =
    if ltb e.1 limit then if best.1 == 0 || ltb e.1 best.1 then e else best else best

-- The loop keeps or lowers the time of its candidate, once it has one.
earliest-lowers :
    (limit : ℕ) (best : ObjectId × ℕ) (ps : Players)
    → IsTimed ps
    → 0 < best.1
    → (0 < (earliest limit best ps).1) × ((earliest limit best ps).1 ≤ best.1)
unfolding earliest
earliest-lowers limit best [] timed h = ground arith
earliest-lowers limit best ((p, at) ∷ ps) timed h =
    ground (arith, earliest-lowers limit (better limit best (p, at)) ps timed.1)

earliest-NoneBefore :
    (limit : ℕ) (best : ObjectId × ℕ) (ps : Players)
    → IsTimed ps
    → NoneBefore limit (earliest limit best ps).1 ps
unfolding earliest
earliest-NoneBefore limit best [] timed = tt
earliest-NoneBefore limit best ((p, at) ∷ ps) timed = (
  λ before. ground (arith, earliest-lowers limit (better limit best (p, at)) ps timed.1),
  earliest-NoneBefore limit (better limit best (p, at)) ps timed.1,
)

earliest-Occurs :
    (limit : ℕ) (best : ObjectId × ℕ) (ps : Players)
    → (earliest limit best ps ≡ best)
      ⊎ (Occurs (earliest limit best ps).0 (earliest limit best ps).1 ps
          × ((earliest limit best ps).1 < limit))
unfolding earliest
earliest-Occurs limit best [] = inl refl
earliest-Occurs limit best ((p, at) ∷ ps) =
    ground (arith, earliest-Occurs limit (better limit best (p, at)) ps)

-- Among the players of a game, the loop finds the one who has been away longest of those who have
-- been away since before the limit, and it finds none exactly when there is none.
earliest_lem :
    (limit : ℕ) (ps : Players)
    → IsTimed ps
    → let (player, at) = earliest limit (object_zero, 0) ps in
      ((at ≡ 0) ⊎ (Occurs player at ps × (at < limit))) × NoneBefore limit at ps
earliest_lem limit ps timed = (
  ground (arith, earliest-Occurs limit (object_zero, 0) ps),
  earliest-NoneBefore limit (object_zero, 0) ps timed,
)

-- The game is tracked with these players.
abbrev pub IsTracked : ObjectId → Players → Games → Type 0
IsTracked g ps [] = ⊥
IsTracked g ps ((h, qs) ∷ gs) = ((h ≡ g) × (qs ≡ ps)) ⊎ IsTracked g ps gs

abbrev pub AllTimed : Games → Type 0
AllTimed [] = Unit
AllTimed ((h, qs) ∷ gs) = IsTimed qs × AllTimed gs

-- The game is to be ended on account of the player.
abbrev pub IsEnded : ObjectId → ObjectId → List (ObjectId × ObjectId) → Type 0
IsEnded g p [] = ⊥
IsEnded g p ((h, q) ∷ es) = ((h ≡ g) × (q ≡ p)) ⊎ IsEnded g p es

-- The player has been away since before the limit, and no other player of the game for longer.
abbrev pub IsLongestAway : ℕ → ObjectId → Players → Type 0
IsLongestAway limit p ps = (at : ℕ) × Occurs p at ps × (at < limit) × NoneBefore limit at ps

found_longest :
    (limit : ℕ) (qs : Players) (p : ObjectId)
    → IsTimed qs
    → ((earliest limit (object_zero, 0) qs).1 == 0) ≡ false
    → (earliest limit (object_zero, 0) qs).0 ≡ p
    → IsLongestAway limit p qs
found_longest limit qs p timed away same =
    let (found, none_before) = earliest_lem limit qs timed in
    elim found [
      | inl z ↦ absurd (ground arith)
      | inr (o, lt) ↦ (
        (earliest limit (object_zero, 0) qs).1,
        subst (λ x. Occurs x (earliest limit (object_zero, 0) qs).1 qs) same o,
        lt,
        none_before,
      )
    ]

expired_sound :
    (limit : ℕ) (gs : Games) (g p : ObjectId)
    → AllTimed gs
    → IsEnded g p (expired limit gs)
    → (ps : Players) × IsTracked g ps gs × IsLongestAway limit p ps
unfolding expired
expired_sound limit [] g p timed e = absurd e
expired_sound limit ((h, qs) ∷ gs) g p timed e = elim (Bool-cases (found.1 == 0)) [
  | inl none_away ↦
      let (ps, i, a) = expired_sound limit gs g p timed.1 (skip none_away) in (ps, inr i, a)
  | inr away ↦ elim (take away) [
    | inl here ↦ (qs, inl (here.0, refl), found_longest limit qs p timed.0 away here.1)
    | inr later ↦ let (ps, i, a) = expired_sound limit gs g p timed.1 later in (ps, inr i, a)
  ]
]
  where
    found : ObjectId × ℕ
    found = earliest limit (object_zero, 0) qs

    skip : (found.1 == 0) ≡ true → IsEnded g p (expired limit gs)
    skip z = rw z at e

    take : (found.1 == 0) ≡ false → ((h ≡ g) × (found.0 ≡ p)) ⊎ IsEnded g p (expired limit gs)
    take z = rw z at e

-- A player who has been away since before the limit puts his game on the list.
Occurs-positive :
    (limit at best : ℕ) (p : ObjectId) (ps : Players)
    → Occurs p at ps
    → at < limit
    → NoneBefore limit best ps
    → 0 < best
Occurs-positive limit at best p [] o lt nb = absurd o
Occurs-positive limit at best p ((q, t) ∷ ps) (inl here) lt nb = (nb.0 (ground arith)).0
Occurs-positive limit at best p ((q, t) ∷ ps) (inr later) lt nb =
    Occurs-positive limit at best p ps later lt nb.1

expired_complete :
    (limit : ℕ) (gs : Games) (g q : ObjectId) (t : ℕ) (ps : Players)
    → AllTimed gs
    → IsTracked g ps gs
    → Occurs q t ps
    → t < limit
    → has dec_id g (keys (expired limit gs)) ≡ true
unfolding expired
expired_complete limit [] g q t ps timed i o lt = absurd i
expired_complete limit ((h, qs) ∷ gs) g q t ps timed (inl here) o lt = ground (
  arith,
  Occurs-positive limit t (earliest limit (object_zero, 0) qs).1 q qs
      (subst (Occurs q t) (sym here.1) o) lt (earliest_lem limit qs timed.0).1,
)
expired_complete limit ((h, qs) ∷ gs) g q t ps timed (inr later) o lt =
    ground (arith, expired_complete limit gs g q t ps timed.1 later o lt)

-- Where no clock stood at the zero time: a game is put on the list exactly when a player has been
-- away from it for longer than the threshold, and then on account of the one who has been away
-- longest; it is tracked no more, and the players of every other game stay as they are.
pub games_needs_to_remove_lem :
    (t : Tracker) (now : ℕ)
    → AllTimed t.list
    → let limit = now - t.disconnect_threshold in
      let (t', ended) = games_needs_to_remove t now in
      ((g p : ObjectId)
        → IsEnded g p ended
        → (ps : Players) × IsTracked g ps t.list × IsLongestAway limit p ps)
      × ((g q : ObjectId) (at : ℕ) (ps : Players)
          → IsTracked g ps t.list
          → Occurs q at ps
          → at < limit
          → has dec_id g (keys ended) ≡ true)
      × ((g : ObjectId) → get t' g ≡ (if has dec_id g (keys ended) then [] else get t g))
unfolding games_needs_to_remove get
games_needs_to_remove_lem t now timed =
    let limit = now - t.disconnect_threshold in
    (
      λ g p e. expired_sound limit t.list g p timed e,
      λ g q at ps i o lt. expired_complete limit t.list g q at ps timed i o lt,
      λ g. ground (arith, lookup-delete_all dec_id (keys (expired limit t.list)) g t.list),
    )
