-- ===== src/Decimal/RoundTrip.antt =====
-- Printing a number and parsing it back.
use shahboard.Base.{
  ℕ, zero, suc, ◌+◌, ◌-◌, ◌*◌, ◌/◌, ◌%◌, ◌^◌, ◌<◌, ◌≤◌, ◌≡◌, refl, ap, ◌≢◌, ◌∙◌, [], ◌∷◌, ◌++◌,
  some, arith, inl, inr, ltb, Bool-cases, All, All-append,
}
use shahboard.Types.{Bytes}
use shahboard.Decimal.{decimal_fuel, decimal, parse_digits, parse_uint}

-- A digit put last is parsed last.
parse_digits-append :
    (s : Bytes) (n m d : ℕ)
    → parse_digits n s ≡ some m
    → d < 10
    → m * 10 + d < 2 ^ 64
    → parse_digits n (s ++ (48 + d) ∷ []) ≡ some (m * 10 + d)
unfolding parse_digits
parse_digits-append [] n m d h k b = ground arith
parse_digits-append (c ∷ cs) n m d h k b =
    ground (arith, parse_digits-append cs (n * 10 + (c - 48)) m d)

parse_digits-decimal_fuel :
    (f n : ℕ) → n < f → n < 2 ^ 64 → parse_digits 0 (decimal_fuel f n) ≡ some n
unfolding parse_digits decimal_fuel
parse_digits-decimal_fuel zero n h b = elim h [ ]
parse_digits-decimal_fuel (suc f) n h b = elim (Bool-cases (ltb n 10)) [
  | inl small ↦ rw small (ground arith)
  | inr big ↦ rw big (
      parse_digits-append (decimal_fuel f (n / 10)) 0 (n / 10) (n % 10)
        (parse_digits-decimal_fuel f (n / 10) (ground arith) (omega arith)) (omega arith)
        (omega arith)
      ∙ ap some (omega arith))
]

parse_uint_of_ne_nil : (s : Bytes) → s ≢ [] → parse_uint s ≡ parse_digits 0 s
unfolding parse_uint
parse_uint_of_ne_nil [] h = absurd (h refl)
parse_uint_of_ne_nil (c ∷ cs) h = refl

snoc_ne_nil : (s : Bytes) (c : ℕ) → s ++ c ∷ [] ≢ []
snoc_ne_nil [] c e = cc
snoc_ne_nil (d ∷ ds) c e = cc

decimal_fuel_ne_nil : (f n : ℕ) → decimal_fuel (suc f) n ≢ []
unfolding decimal_fuel
decimal_fuel_ne_nil f n = ground (arith, snoc_ne_nil (decimal_fuel f (n / 10)) (48 + n % 10))

decimal_fuel-same : (f g n : ℕ) → n < f → n < g → decimal_fuel f n ≡ decimal_fuel g n
unfolding decimal_fuel
decimal_fuel-same zero g n h k = elim h [ ]
decimal_fuel-same (suc f) zero n h k = elim k [ ]
decimal_fuel-same (suc f) (suc g) n h k = elim (Bool-cases (ltb n 10)) [
  | inl small ↦ rw small refl
  | inr big ↦
      let ih = decimal_fuel-same f g (n / 10) (ground arith) (ground arith) in rw (big, ih) refl
]

-- The loop of `%d` ends: every fuel above the number gives the same text.
decimal_fuel-decimal : (f n : ℕ) → n < f → decimal_fuel f n ≡ decimal n
unfolding decimal
decimal_fuel-decimal f n h = decimal_fuel-same f (suc n) n h (omega arith)

-- What `%d` prints of a number below 2 ^ 64, `ParseUint` reads back.
pub parse_uint-decimal : (n : ℕ) → n < 2 ^ 64 → parse_uint (decimal n) ≡ some n
unfolding decimal
parse_uint-decimal n b =
    parse_uint_of_ne_nil (decimal n) (decimal_fuel_ne_nil n n)
    ∙ parse_digits-decimal_fuel (suc n) n (omega arith) b

-- The bytes that `%d` prints are digits.
abbrev pub IsDigit : ℕ → Type 0
IsDigit c = (48 ≤ c) × (c ≤ 57)

decimal_fuel-IsDigit : (f n : ℕ) → All IsDigit (decimal_fuel f n)
unfolding decimal_fuel
decimal_fuel-IsDigit zero n = tt
decimal_fuel-IsDigit (suc f) n = elim (Bool-cases (ltb n 10)) [
  | inl small ↦ rw small (ground arith)
  | inr big ↦ rw big (All-append IsDigit _ _ (decimal_fuel-IsDigit f (n / 10)) (omega arith))
]

pub decimal-IsDigit : (n : ℕ) → All IsDigit (decimal n)
unfolding decimal
decimal-IsDigit n = decimal_fuel-IsDigit (suc n) n
