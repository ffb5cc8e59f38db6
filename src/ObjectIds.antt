-- ===== src/ObjectIds.antt =====
-- types/id.go: identifiers made from the clock and a random number, and their numeric value.
use shahboard.Base.{
  ℕ, suc, ◌+◌, ◌-◌, ◌*◌, ◌%◌, ◌^◌, ◌<◌, ◌≡◌, refl, ℤ, pos, negsuc, int64, IsInt64, int64-IsInt64,
  Bool, true, false, [], ◌∷◌, Option, All, Option-cases, inl, inr, ◌∙◌, none, some, ltb, leb, ◌==◌,
  if◌then◌else◌, arith,
}
use shahboard.Types.{Bytes, ObjectId}
use shahboard.Decimal.{decimal, parse_uint}
use shahboard.Decimal.RoundTrip.{parse_uint-decimal, decimal-IsDigit, IsDigit}

-- `strconv.FormatInt(i, 10)`
unfoldable pub format_int : ℤ → Bytes
format_int (pos n) = decimal n
format_int (negsuc n) = b'-' ∷ decimal (suc n)

-- The magnitude of a signed number, in the range of int64.
unfoldable pub signed : Bool → Option ℕ → Option ℤ
signed neg none = none
signed false (some n) = if ltb n (2 ^ 63) then some (pos n) else none
signed true (some n) =
    if n == 0 then some (pos 0) else if leb n (2 ^ 63) then some (negsuc (n - 1)) else none

-- `strconv.ParseInt(s, 10, 64)`; `none` is its error.
unfoldable pub parse_int : Bytes → Option ℤ
unfolding signed
parse_int [] = none
parse_int (c ∷ cs) =
    if c == b'+'
    then signed false (parse_uint cs)
    else if c == b'-'
    then signed true (parse_uint cs)
    else signed false (parse_uint (c ∷ cs))

-- `ParseObjectId`
unfoldable pub parse_object_id : Bytes → Option ObjectId
unfolding parse_int format_int
parse_object_id s = elim (parse_int s) [ none ↦ none | some i ↦ some (format_int i) ]

-- `ObjectId.Int64`
unfoldable int64_of : ObjectId → ℤ
unfolding parse_int
int64_of id = elim (parse_int id) [ none ↦ pos 0 | some i ↦ i ]

-- `NewObjectId` at the Unix time `unix` and the random number `random`, both cut to uint32. The two
-- halves have no bit in common, so `|` is a sum.
unfoldable new_object_id : ℕ → ℕ → ObjectId
unfolding format_int int64
new_object_id unix random = format_int (int64 (pos (unix % 2 ^ 32 * 2 ^ 32 + random % 2 ^ 32)))

parse_int_of_digits : (s : Bytes) → All IsDigit s → parse_int s ≡ signed false (parse_uint s)
unfolding parse_int parse_uint
parse_int_of_digits [] d = refl
parse_int_of_digits (c ∷ cs) d = ground arith

parse_int-decimal : (n : ℕ) → n < 2 ^ 63 → parse_int (decimal n) ≡ some (pos n)
unfolding signed
parse_int-decimal n h =
    parse_int_of_digits (decimal n) (decimal-IsDigit n) ∙ ground (arith, parse_uint-decimal n)

-- Formatting an int64 and parsing it gives it back.
parse_int-format_int : (i : ℤ) → IsInt64 i → parse_int (format_int i) ≡ some i
unfolding parse_int format_int
parse_int-format_int (pos n) h = parse_int-decimal n h.0
parse_int-format_int (negsuc n) h = ground (arith, parse_uint-decimal (suc n))

parse_int-IsInt64 : (s : Bytes) (i : ℤ) → parse_int s ≡ some i → IsInt64 i
unfolding parse_int
parse_int-IsInt64 [] i h = ground arith
parse_int-IsInt64 (c ∷ cs) i h = ground arith

-- An identifier that the services make is a number, and `ParseObjectId` gives it back unchanged.
parse_object_id-new_object_id :
    (unix random : ℕ)
    → parse_object_id (new_object_id unix random) ≡ some (new_object_id unix random)
unfolding parse_object_id new_object_id
parse_object_id-new_object_id unix random =
    let n = pos (unix % 2 ^ 32 * 2 ^ 32 + random % 2 ^ 32) in
    rw (parse_int-format_int (int64 n) (int64-IsInt64 n), parse_object_id)

-- Parsing normalises: what it accepts is the text of an int64, and parsing that again changes
-- nothing more.
parse_object_id_idem :
    (s : Bytes) (id : ObjectId) → parse_object_id s ≡ some id → parse_object_id id ≡ some id
unfolding parse_object_id
parse_object_id_idem s id h = elim (Option-cases (parse_int s)) [
  | inl e ↦ ground arith
  | inr (i, e) ↦ ground (arith, parse_int-format_int i (parse_int-IsInt64 s i e))
]
