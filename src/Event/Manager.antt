-- ===== src/Event/Manager.antt =====
-- event/subscription.go: the manager that hands the events of its subscriptions to one handler. Its
-- goroutines are the runner and one listener for each subscription; a step is what one of them, or
-- a caller, does without waiting. A subscription is known by its channel. Every handler that the
-- services give to a manager begins by asking the event for its topic, so that it panics on nil;
-- nothing recovers there, and the program ends.
pub mod Stopping
pub mod Listening
use shahboard.Base.{
  ℕ, zero, suc, ◌-◌, ◌≡◌, Bool, true, false, not, ◌&&◌, List, [], ◌∷◌, ◌++◌, Option, none, some,
  map, length, lookup, insert, delete, has, is_some, ℕ_discrete, if◌then◌else◌, ◌>>=◌,
}
use shahboard.Types.{Bytes, dec_id}
use shahboard.Event.{Event}

-- `Subscription`, with the text of its topic
pub record Sub : Type 0 where
  pub topic : Bytes
  pub chan : ℕ

-- Where the goroutine of `run` stands: at its `select`, after `closeCh` and before the lock, or at
-- its end.
pub data Runner : Type 0 where
  selecting closing returned : Runner

-- `SubscriptionManager`. `offered` is the subscription that a call of `AddSubscription` offers to the
-- runner; that call holds the lock. `wg` is the counter of the wait group. `closed` are the
-- channels of the subscriptions that were unsubscribed, and `handled` what the handler was called
-- with, `none` for the nil event that a closed channel gives. `crashed`: has a handler panicked?
pub record Manager : Type 0 where
  pub subs : List (Bytes × Sub)
  pub offered : Option Sub
  pub stopped : Bool
  pub runner : Runner
  pub listeners : List Sub
  pub wg : ℕ
  pub closed : List ℕ
  pub handled : List (ℕ × Option Event)
  pub crashed : Bool

-- `NewManager`, its runner at the `select`
abbrev pub new_manager : Manager
new_manager = record {
  subs = [];
  offered = none;
  stopped = false;
  runner = selecting;
  listeners = [];
  wg = 1;
  closed = [];
  handled = [];
  crashed = false;
}

abbrev is_selecting : Runner → Bool
is_selecting selecting = true
is_selecting closing = false
is_selecting returned = false

abbrev is_closing : Runner → Bool
is_closing selecting = false
is_closing closing = true
is_closing returned = false

-- `AddSubscription` up to its send; `none` waits for the lock.
unfoldable add_subscription : Sub → Manager → Option Manager
add_subscription s m =
    if is_some m.offered
    then none
    else if is_some (lookup dec_id s.topic m.subs)
    then some m
    else some (record m { subs = insert dec_id s.topic s m.subs; offered = some s })

-- The runner takes what is offered, counts a listener and starts it; the caller returns.
unfoldable receive : Manager → Option Manager
receive m =
    if is_selecting m.runner
    then (m.offered >>= λ s.
        some (record m { offered = none; listeners = m.listeners ++ s ∷ []; wg = suc m.wg }))
    else none

-- `RemoveSubscription`; `none` waits for the lock.
unfoldable remove_subscription : Bytes → Manager → Option Manager
remove_subscription t m = if is_some m.offered then none else elim (lookup dec_id t m.subs) [
  | none ↦ some m
  | some s ↦ some (record m { subs = delete dec_id t m.subs; closed = s.chan ∷ m.closed })
]

-- `Stop` up to its wait; `none` is the panic of closing twice.
unfoldable stop : Manager → Option Manager
stop m = if m.stopped then none else some (record m { stopped = true })

-- The runner meets the closed `closeCh`.
unfoldable see_stop : Manager → Option Manager
see_stop m =
    if is_selecting m.runner && m.stopped then some (record m { runner = closing }) else none

chans_of : List (Bytes × Sub) → List ℕ
chans_of [] = []
chans_of ((t, s) ∷ m) = s.chan ∷ chans_of m

-- The runner, which needs the lock, unsubscribes all and returns.
unfoldable finish : Manager → Option Manager
unfolding chans_of
finish m =
    if is_closing m.runner && not (is_some m.offered)
    then some (record m { closed = chans_of m.subs ++ m.closed; runner = returned; wg = m.wg - 1 })
    else none

-- A listener takes an event from its channel and calls the handler; from a closed channel it takes
-- nil, on which the handler panics, and the deferred `Done` still runs.
unfoldable listen : Sub → Option Event → Manager → Option Manager
listen s e m =
    if has ℕ_discrete s.chan (map (λ (l : Sub). l.chan) m.listeners)
    then if has ℕ_discrete s.chan m.closed
      then some
          (record m { handled = m.handled ++ (s.chan, none) ∷ []; wg = m.wg - 1; crashed = true })
      else (e >>= λ x. some (record m { handled = m.handled ++ (s.chan, some x) ∷ [] }))
    else none

pub data Action : Type 0 where
  adding : Sub → Action
  receiving : Action
  removing : Bytes → Action
  stopping seeing_stop finishing : Action
  listening : Sub → Option Event → Action

unfoldable pub act : Action → Manager → Option Manager
unfolding add_subscription receive remove_subscription stop see_stop finish listen
act (adding s) m = add_subscription s m
act receiving m = receive m
act (removing t) m = remove_subscription t m
act stopping m = stop m
act seeing_stop m = see_stop m
act finishing m = finish m
act (listening s e) m = listen s e m

-- A program that has ended does nothing.
unfoldable pub step : Action → Manager → Option Manager
unfolding act
step a m = if m.crashed then none else act a m

-- What the goroutines and the callers can make of a manager, in any order.
pub data Reach (m : Manager) : Manager → Type 0 where
  here : Reach m m
  next : {n n' : Manager} → Reach m n → (a : Action) → step a n ≡ some n' → Reach m n'
