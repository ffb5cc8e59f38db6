-- ===== src/Elo.antt =====
-- pkg/elo/elo.go: ratings after a game. The arithmetic of float64 is a parameter.
use shahboard.Base.{
  ℕ, ◌≤◌, ℤ, pos, ◌-ℤ◌, Bool-cases, ◌≤ℤ◌, int64, Bool, true, false, ◌≡◌, ◌^◌, ltb_ℤ, leb_ℤ,
  if◌then◌else◌, arith, inl, inr,
}
use shahboard.Types.{Level, pawn, knight, bishop, rook, queen, king}

-- float64 and what is used of it: conversions, arithmetic, `math.Pow(10, _)`, comparison.
pub record Floats : Type 1 where
  pub Float : Type 0
  pub of_int : ℤ → Float
  pub half : Float
  pub add : Float → Float → Float
  pub sub : Float → Float → Float
  pub mul : Float → Float → Float
  pub div : Float → Float → Float
  pub pow10 : Float → Float
  pub lt : Float → Float → Bool
  pub eq : Float → Float → Bool
  -- `int64(f)`: towards zero
  pub truncate : Float → ℤ

abbrev pub min_score : ℤ
min_score = pos 1000

abbrev pub base_score : ℤ
base_score = pos 1000

unfoldable pub get_player_level : ℤ → Level
get_player_level elo =
    if leb_ℤ elo (pos 1200)
    then pawn
    else if leb_ℤ elo (pos 1400)
    then knight
    else if leb_ℤ elo (pos 1600)
    then bishop
    else if leb_ℤ elo (pos 1800)
    then rook
    else if leb_ℤ elo (pos 2000)
    then queen
    else king

abbrev k_of_level : Level → ℤ
k_of_level pawn = pos 32
k_of_level knight = pos 32
k_of_level bishop = pos 24
k_of_level rook = pos 24
k_of_level queen = pos 16
k_of_level king = pos 16

unfoldable calculate_k_factor : ℤ → ℤ
calculate_k_factor elo = k_of_level (get_player_level elo)

-- The lower bound of a score that the formula starts from.
abbrev floored : ℤ → ℤ
floored s = if ltb_ℤ s base_score then base_score else s

module _ (f : Floats) where
  open f use {Float, of_int, add, sub, mul, div, pow10, lt, truncate}

  -- `newRating` for the scores `s1` and `s2`, which are at least `BaseScore`.
  unfoldable pub new_rating : ℤ → ℤ → Float → Float
  unfolding calculate_k_factor
  new_rating s1 s2 score =
      let expected =
        div (of_int (pos 1))
          (add (of_int (pos 1)) (pow10 (div (of_int (int64 (s2 -ℤ s1))) (of_int (pos 400))))) in
      add (of_int s1) (mul (of_int (calculate_k_factor s1)) (sub score expected))

  -- `CalculateElo`
  unfoldable pub calculate_elo : ℤ → ℤ → Float → ℤ
  unfolding new_rating
  calculate_elo s1 s2 score =
      let r = new_rating (floored s1) (floored s2) score in
      if lt r (of_int min_score) then min_score else truncate r

  -- 2 ^ 63, from which on a float64 has no int64.
  abbrev limit : Float
  limit = of_int (pos (2 ^ 63))

  -- A float64 in the range of int64 that is not below 1000 is truncated to no less. NaN and the
  -- infinities are not below 2 ^ 63, or are below 1000.
  abbrev pub Truncates : Type 0
  Truncates =
      (x : Float) → lt x (of_int min_score) ≡ false → lt x limit ≡ true → min_score ≤ℤ truncate x

  -- What the formula gives for these scores is below 2 ^ 63.
  abbrev pub InRange : ℤ → ℤ → Float → Type 0
  InRange s1 s2 score = lt (new_rating (floored s1) (floored s2) score) limit ≡ true

  -- Where the formula gives a float64 below 2 ^ 63, the new score is at least `MinScore`, whatever the
  -- scores and the result of the game.
  pub calculate_elo-ge_min :
      Truncates
      → (s1 s2 : ℤ) (score : Float) → InRange s1 s2 score
      → min_score ≤ℤ calculate_elo s1 s2 score
  unfolding calculate_elo
  calculate_elo-ge_min trunc s1 s2 score range =
      elim (Bool-cases (lt (new_rating (floored s1) (floored s2) score) (of_int min_score))) [
        | inl e ↦ rw e (omega arith)
        | inr e ↦ rw e (trunc (new_rating (floored s1) (floored s2) score) e range)
      ]

-- The rank of a level, from 1 for a pawn to 6 for a king.
abbrev pub rank : Level → ℕ
rank pawn = 1
rank knight = 2
rank bishop = 3
rank rook = 4
rank queen = 5
rank king = 6

-- A higher score never means a lower level, nor a larger step of the rating.
levels_monotone :
    (a b : ℤ)
    → a ≤ℤ b
    → (rank (get_player_level a) ≤ rank (get_player_level b))
      × (calculate_k_factor b ≤ℤ calculate_k_factor a)
unfolding get_player_level calculate_k_factor
levels_monotone a b h = (ground arith, ground arith)
