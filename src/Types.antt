-- ===== src/Types.antt =====
-- types/*.go: identifiers, users, players, outcomes and levels.
use Prim.Native.Char.{code}
use Prim.Native.String.{String}
use shahboard.Base.{
  ℕ, ℤ, ◌≡◌, refl, Bool, true, false, ◌||◌, List, [], ◌∷◌, ltb, holds, if◌then◌else◌, ◌==◌,
  ℕ_discrete, arith,
}

-- A Go string, as the list of its bytes.
abbrev pub Bytes : Type 0
Bytes = List ℕ

-- The bytes of an ASCII text.
abbrev pub bytes : String → Bytes
bytes String.[] = []
bytes (String.◌∷◌ c s) = code c ∷ bytes s

abbrev pub ObjectId : Type 0
ObjectId = Bytes

-- `==` on identifiers and on other strings.
unfoldable pub dec_id : Discrete ObjectId
unfolding ℕ_discrete
dec_id = hlevel ℕ_discrete

abbrev pub same_id : ObjectId → ObjectId → Bool
same_id a b = holds (dec_id a b)

-- `<` on strings: the order of Go, byte by byte.
unfoldable pub lt_bytes : Bytes → Bytes → Bool
lt_bytes [] [] = false
lt_bytes [] (b ∷ bs) = true
lt_bytes (a ∷ as') [] = false
lt_bytes (a ∷ as') (b ∷ bs) = if ltb a b then true else if a == b then lt_bytes as' bs else false

abbrev pub object_zero : ObjectId
object_zero = bytes ""

unfoldable pub is_zero : ObjectId → Bool
is_zero id = same_id id (bytes "") || same_id id (bytes "0")

-- `Color` is a uint8; a Player made without a colour has 0.
abbrev pub Color : Type 0
Color = ℕ

abbrev pub color_white : Color
color_white = 1

abbrev pub color_black : Color
color_black = 2

pub record Player : Type 0 where
  pub id : ObjectId
  pub score : ℤ
  pub color : Color

pub record User : Type 0 where
  pub id : ObjectId
  pub email : Bytes
  pub is_guest : Bool
  pub score : ℤ

-- `GameOutcome` is a string that only takes the four values of the chess library.
pub data GameOutcome : Type 0 where
  no_outcome white_won black_won draw : GameOutcome

unfoldable pub GameOutcome-discrete : Discrete GameOutcome
GameOutcome-discrete = hlevel

-- `GameOutcome.String`
unfoldable outcome_string : GameOutcome → Bytes
outcome_string no_outcome = bytes "*"
outcome_string white_won = bytes "1-0"
outcome_string black_won = bytes "0-1"
outcome_string draw = bytes "1/2-1/2"

unfoldable parse_outcome : Bytes → GameOutcome
parse_outcome s =
    if same_id s (bytes "1-0")
    then white_won
    else if same_id s (bytes "0-1")
    then black_won
    else if same_id s (bytes "1/2-1/2")
    then draw
    else no_outcome

-- `Level` counts from 1 (pawn) to 6 (king).
pub data Level : Type 0 where
  pawn knight bishop rook queen king : Level

-- `Level.String`
unfoldable pub level_string : Level → Bytes
level_string pawn = bytes "pawn"
level_string knight = bytes "knight"
level_string bishop = bytes "bishop"
level_string rook = bytes "rook"
level_string queen = bytes "queen"
level_string king = bytes "king"

-- Parsing the text of an outcome gives the outcome back.
parse_outcome-outcome_string : (o : GameOutcome) → parse_outcome (outcome_string o) ≡ o
unfolding parse_outcome outcome_string dec_id
parse_outcome-outcome_string no_outcome = refl
parse_outcome-outcome_string white_won = refl
parse_outcome-outcome_string black_won = refl
parse_outcome-outcome_string draw = refl

-- `<` on strings is asymmetric and total.
pub lt_bytes_asymm : (a b : Bytes) → lt_bytes a b ≡ true → lt_bytes b a ≡ false
unfolding lt_bytes
lt_bytes_asymm [] [] h = refl
lt_bytes_asymm [] (b ∷ bs) h = refl
lt_bytes_asymm (a ∷ as') [] h = ground arith
lt_bytes_asymm (a ∷ as') (b ∷ bs) h = ground (arith, lt_bytes_asymm as' bs)

pub lt_bytes_total : (a b : Bytes) → lt_bytes a b ≡ false → lt_bytes b a ≡ false → a ≡ b
unfolding lt_bytes
lt_bytes_total [] [] h k = refl
lt_bytes_total [] (b ∷ bs) h k = ground arith
lt_bytes_total (a ∷ as') [] h k = ground arith
lt_bytes_total (a ∷ as') (b ∷ bs) h k = ground (arith, lt_bytes_total as' bs)
