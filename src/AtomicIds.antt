-- ===== src/AtomicIds.antt =====
-- types/atomic_id.go: an identifier that goroutines share, as the pointer that sync/atomic keeps. Each
-- of its operations is one step.
use shahboard.Base.{◌≡◌, refl, Option, none, some, List, [], ◌∷◌, arith}
use shahboard.Types.{ObjectId, object_zero}

-- `AtomicObjectId`; `none` is the pointer of a value that was not made by `NewAtomicObjectId`.
abbrev AtomicObjectId : Type 0
AtomicObjectId = Option ObjectId

-- `NewAtomicObjectId`
unfoldable new_atomic_object_id : ObjectId → AtomicObjectId
new_atomic_object_id id = some id

-- `Load`
unfoldable load : AtomicObjectId → ObjectId
load none = object_zero
load (some id) = id

-- `Store`
unfoldable store_id : AtomicObjectId → ObjectId → AtomicObjectId
store_id a id = some id

-- `Swap`: the old identifier.
unfoldable swap : AtomicObjectId → ObjectId → AtomicObjectId × ObjectId
swap none new = (some new, object_zero)
swap (some old) new = (some new, old)

-- `SetZero`
unfoldable set_zero : AtomicObjectId → AtomicObjectId
set_zero a = some object_zero

data Op : Type 0 where
  loading zeroing : Op
  storing swapping : ObjectId → Op

-- The answers of a sequence of operations, by any goroutines, and what is left.
answers : AtomicObjectId → List Op → List ObjectId × ObjectId
unfolding load store_id swap set_zero
answers a [] = ([], load a)
answers a (loading ∷ ops) = let (as', b) = answers a ops in (load a ∷ as', b)
answers a (zeroing ∷ ops) = answers (set_zero a) ops
answers a (storing id ∷ ops) = answers (store_id a id) ops
answers a (swapping id ∷ ops) =
    let (a', old) = swap a id in let (as', b) = answers a' ops in (old ∷ as', b)

-- The same on a plain variable.
variable : ObjectId → List Op → List ObjectId × ObjectId
variable v [] = ([], v)
variable v (loading ∷ ops) = let (as', b) = variable v ops in (v ∷ as', b)
variable v (zeroing ∷ ops) = variable object_zero ops
variable v (storing id ∷ ops) = variable id ops
variable v (swapping id ∷ ops) = let (as', b) = variable id ops in (v ∷ as', b)

-- In whatever order they are called, the operations answer as those of a plain variable, which is
-- the zero identifier where nothing was stored.
answers-variable : (a : AtomicObjectId) (ops : List Op) → answers a ops ≡ variable (load a) ops
unfolding answers variable
answers-variable a [] = refl
answers-variable a (loading ∷ ops) = ground (arith, answers-variable a ops)
answers-variable a (zeroing ∷ ops) = answers-variable (set_zero a) ops
answers-variable a (storing id ∷ ops) = answers-variable (store_id a id) ops
answers-variable none (swapping id ∷ ops) = ground (arith, answers-variable (some id) ops)
answers-variable (some v) (swapping id ∷ ops) = ground (arith, answers-variable (some id) ops)
