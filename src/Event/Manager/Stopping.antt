-- ===== src/Event/Manager/Stopping.antt =====
-- `Stop`: the wait group, and the call of `AddSubscription` that it can lock out.
use shahboard.Base.{
  ℕ, ◌+◌, ◌<◌, ◌≤◌, ◌≡◌, refl, ◌∷◌, [], some, length, length-append, arith, Option-cases, inl, inr,
  ◌∙◌, ◌⊎◌, true, false, Bool-cases,
}
use shahboard.Event.Manager.{
  Manager, Sub, Runner, selecting, closing, returned, Action, adding, receiving, removing, stopping,
  seeing_stop, finishing, listening, step, act, Reach, here, next, new_manager,
}

abbrev running : Runner → ℕ
running selecting = 1
running closing = 1
running returned = 0

-- Until the program ends, the wait group counts the runner and every listener.
abbrev IsCounted : Manager → Type 0
IsCounted m = m.crashed ≡ false → m.wg ≡ running m.runner + length m.listeners

-- No step ends a listener.
step-IsCounted :
    (a : Action) (m n : Manager)
    → step a m ≡ some n
    → IsCounted m
    → IsCounted n × (length m.listeners ≤ length n.listeners)
unfolding step act
step-IsCounted (adding s) m n e h = (λ c. ground (arith, h), ground arith)
step-IsCounted receiving m n e h = elim (Option-cases m.offered) [
  | inl p ↦ (λ c. ground (arith, h), ground arith)
  | inr (s, p) ↦
      let more = length-append m.listeners (s ∷ []) in
      (λ c. ground (arith, h, more), ground (arith, more))
]
step-IsCounted (removing t) m n e h = (λ c. ground (arith, h), ground arith)
step-IsCounted stopping m n e h = (λ c. ground (arith, h), ground arith)
step-IsCounted seeing_stop m n e h = (λ c. ground (arith, h), ground arith)
step-IsCounted finishing m n e h = (λ c. ground (arith, h), ground arith)
step-IsCounted (listening s x) m n e h = (λ c. ground (arith, h), ground arith)

Reach-IsCounted :
    {m n : Manager}
    → Reach m n
    → IsCounted m
    → IsCounted n × (length m.listeners ≤ length n.listeners)
Reach-IsCounted here h = (h, omega arith)
Reach-IsCounted (next {n} {n'} r a e) h =
    let (k, le) = Reach-IsCounted r h in
    let (k', le') = step-IsCounted a n n' e k in (k', omega arith)

-- `Stop` waits until the wait group is at zero. Once one subscription was received, that is never
-- again so while the program runs, whatever is called and whatever arrives: `Stop` does not return,
-- unless a handler has panicked on the nil event of a closed channel.
pub stop_waits :
    {m n : Manager}
    → Reach new_manager m
    → 0 < length m.listeners
    → Reach m n
    → (n.crashed ≡ true) ⊎ (0 < n.wg)
stop_waits {n} r some_listener r' =
    let (h, le) = Reach-IsCounted r (λ _. refl) in
    let (k, le') = Reach-IsCounted r' h in
    elim (Bool-cases n.crashed) [ inl c ↦ inl c | inr c ↦ inr (omega (arith, k c)) ]

step-locked :
    (a : Action) (m n : Manager) (s : Sub)
    → step a m ≡ some n
    → (m.runner ≡ closing) × (m.offered ≡ some s)
    → (n.runner ≡ closing) × (n.offered ≡ some s) × (n.subs ≡ m.subs) × (n.closed ≡ m.closed)
unfolding step act
step-locked (adding t) m n s e h = ground arith
step-locked receiving m n s e h = ground arith
step-locked (removing t) m n s e h = ground arith
step-locked stopping m n s e h = ground arith
step-locked seeing_stop m n s e h = ground arith
step-locked finishing m n s e h = ground arith
step-locked (listening t x) m n s e h = ground arith

-- When the runner sees the stop while a call of `AddSubscription` offers its subscription, that call
-- never returns and keeps the lock, so that the runner never unsubscribes anything and never
-- returns, and no later call changes what is subscribed.
pub Reach-locked :
    {m n : Manager} (s : Sub)
    → m.runner ≡ closing
    → m.offered ≡ some s
    → Reach m n
    → (n.runner ≡ closing) × (n.offered ≡ some s) × (n.subs ≡ m.subs) × (n.closed ≡ m.closed)
Reach-locked s c o here = (c, o, refl, refl)
Reach-locked s c o (next {n} {n'} r a e) =
    let (c', o', subs, closed) = Reach-locked s c o r in
    let (c'', o'', subs', closed') = step-locked a n n' s e (c', o') in
    (c'', o'', subs' ∙ subs, closed' ∙ closed)
