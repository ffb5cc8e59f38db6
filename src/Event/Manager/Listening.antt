-- ===== src/Event/Manager/Listening.antt =====
-- Until it is stopped, the manager listens to what it is subscribed to.
use shahboard.Base.{
  ◌≡◌, ◌⊎◌, inl, inr, sym, subst, ◌∙◌, List, [], ◌∷◌, ◌++◌, some, lookup, lookup-insert,
  lookup-delete, Option-cases, arith,
}
use shahboard.Types.{Bytes, dec_id}
use shahboard.Event.Manager.{
  Manager, Sub, Action, adding, receiving, removing, stopping, seeing_stop, finishing, listening,
  step, act, Reach, here, next,
}

-- Is the subscription one of the list?
abbrev IsOneOf : Sub → List Sub → Type 0
IsOneOf s [] = ⊥
IsOneOf s (l ∷ ls) = (s ≡ l) ⊎ IsOneOf s ls

IsOneOf-append : (s : Sub) (xs ys : List Sub) → IsOneOf s xs ⊎ IsOneOf s ys → IsOneOf s (xs ++ ys)
IsOneOf-append s [] ys (inl h) = absurd h
IsOneOf-append s [] ys (inr h) = h
IsOneOf-append s (x ∷ xs) ys (inl (inl e)) = inl e
IsOneOf-append s (x ∷ xs) ys (inl (inr h)) = inr (IsOneOf-append s xs ys (inl h))
IsOneOf-append s (x ∷ xs) ys (inr h) = inr (IsOneOf-append s xs ys (inr h))

-- Every subscription stands under its own topic, and has a listener or is about to get one.
abbrev pub IsListened : Manager → Type 0
IsListened m =
    (t : Bytes) (s : Sub)
    → lookup dec_id t m.subs ≡ some s
    → (s.topic ≡ t) × (IsOneOf s m.listeners ⊎ (m.offered ≡ some s))

received :
    (m n : Manager)
    → step receiving m ≡ some n
    → (s : Sub) → m.offered ≡ some s
    → (t : Bytes) (u : Sub)
    → (lookup dec_id t m.subs ≡ some u
        → (u.topic ≡ t) × (IsOneOf u m.listeners ⊎ (m.offered ≡ some u)))
    → lookup dec_id t n.subs ≡ some u
    → (u.topic ≡ t) × (IsOneOf u n.listeners ⊎ (n.offered ≡ some u))
unfolding step act
received m n e s p t u h at =
    let subs : n.subs ≡ m.subs = ground arith in
    let more : n.listeners ≡ m.listeners ++ s ∷ [] = ground arith in
    let (topic, kept) =
      h (subst (λ (x : List (Bytes × Sub)). lookup dec_id t x ≡ some u) subs at) in
    (
      topic,
      inl (
          rw more (
            IsOneOf-append u m.listeners (s ∷ [])
              (elim kept [ inl old ↦ inl old | inr new ↦ inr (inl (cc (sym p ∙ new))) ]))),
    )

step-IsListened : (a : Action) (m n : Manager) → step a m ≡ some n → IsListened m → IsListened n
unfolding step act
step-IsListened (adding s) m n e h t u at =
    ground (arith, h t u, lookup-insert dec_id s.topic t s m.subs)
step-IsListened receiving m n e h t u at = elim (Option-cases m.offered) [
  | inl p ↦ ground arith
  | inr (s, p) ↦ received m n e s p t u (h t u) at
]
step-IsListened (removing t) m n e h u s at = ground (arith, h u s, lookup-delete dec_id t u m.subs)
step-IsListened stopping m n e h t s at = ground (arith, h t s)
step-IsListened seeing_stop m n e h t s at = ground (arith, h t s)
step-IsListened finishing m n e h t s at = ground (arith, h t s)
step-IsListened (listening l x) m n e h t s at = ground (arith, h t s)

-- Whatever is subscribed, unsubscribed and stopped, in any order, as long as the program runs: each subscription that the manager
-- holds stands under its own topic, and has a listener or is being handed to the runner.
pub Reach-IsListened : {m n : Manager} → Reach m n → IsListened m → IsListened n
Reach-IsListened here h = h
Reach-IsListened (next {n} {n'} r a e) h = step-IsListened a n n' e (Reach-IsListened r h)
