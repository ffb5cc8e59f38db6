-- ===== src/Paginate/Conditions.antt =====
-- The conditions that are written for the filters, against what the filters ask for.
use mathlib.Core.List.{append_assoc, map-append}
use shahboard.Base.{
  ℕ, suc, ◌+◌, List, [], ◌∷◌, ◌++◌, some, map, length, length-append, >>=-eq-some, ◌≡◌, refl, subst,
  arith,
}
use shahboard.Types.{Bytes, bytes}
use shahboard.Paginate.{
  FilterOperator, equal, not_equal, greater, greater_equal, less, less_equal, is_in, not_in,
  between, other, Value, Filter,
}
use shahboard.Paginate.Query.{
  lit, join, compared, placeholders, listed, ranged, condition, conditions, Written,
}
use shahboard.Paginate.Asked.{
  Bound, words, value, bind_piece, bind, first, second, values_listed, asked, asked_all,
  argument-append, map-join, separated, join-separated,
}

-- What is written at index `n` asks for `spec`, wherever its arguments stand behind `n - 1` others.
abbrev Asks : ℕ → Written → List (List Bound) → Type 0
Asks n w spec =
    ((pre post : List Value) → suc (length pre) ≡ n → map (bind (pre ++ (w.1 ++ post))) w.0 ≡ spec)
    × (w.2 ≡ n + length w.1)

module _ (p op : Bytes) where
  compared-Asks :
      (vs : List Value) (n : ℕ) {w : Written}
      → compared p op vs n ≡ some w
      → Asks n w ((words p ∷ words op ∷ value (first vs) ∷ []) ∷ [])
  unfolding compared bind_piece
  compared-Asks [] n e = cc
  compared-Asks (v ∷ vs) n e =
      (λ pre post at. ground (arith, argument-append pre v post), ground arith)

placeholders-Asks :
    (vs : List Value) (n : ℕ) (pre post : List Value)
    → suc (length pre) ≡ n
    → map (bind (pre ++ (vs ++ post))) (placeholders vs n).0 ≡ values_listed vs
unfolding placeholders bind_piece
placeholders-Asks [] n pre post at = refl
placeholders-Asks (v ∷ vs) n pre post at =
    let more : suc (length (pre ++ v ∷ [])) ≡ suc n = omega (arith, length-append pre (v ∷ [])) in
    let rest =
      subst (λ l. map (bind l) (placeholders vs (suc n)).0 ≡ values_listed vs)
        (append_assoc pre (v ∷ []) (vs ++ post))
        (placeholders-Asks vs (suc n) (pre ++ v ∷ []) post more) in
    rw rest (rw (← at) (rw (argument-append pre v (vs ++ post))))

placeholders-next : (vs : List Value) (n : ℕ) → (placeholders vs n).1 ≡ n + length vs
unfolding placeholders
placeholders-next [] n = omega arith
placeholders-next (v ∷ vs) n = omega (arith, placeholders-next vs (suc n))

module _ (p op : Bytes) where
  abbrev listing : List Value → List (List Bound)
  listing vs =
      (words p
        ∷ words op
        ∷ (separated (words (bytes ", ") ∷ []) (values_listed vs) ++ words (bytes ")") ∷ []))
      ∷ []

  abbrev list_written : List Value → ℕ → Written
  list_written vs n = (
    (lit p ∷ lit op ∷ (join (lit (bytes ", ") ∷ []) (placeholders vs n).0 ++ lit (bytes ")") ∷ []))
        ∷ [],
    vs,
    (placeholders vs n).1,
  )

  list_written-Asks : (vs : List Value) (n : ℕ) → Asks n (list_written vs n) (listing vs)
  list_written-Asks vs n = (
    λ pre post at.
        unfold bind_piece in
        simp (
          map-append,
          map-join (bind_piece (pre ++ (vs ++ post))),
          placeholders-Asks vs n pre post at,
          join-separated,
        ),
    placeholders-next vs n,
  )

  listed-Asks :
      (vs : List Value) (n : ℕ) {w : Written} → listed p op vs n ≡ some w → Asks n w (listing vs)
  unfolding listed
  listed-Asks vs n {w} e =
      let same : list_written vs n ≡ w = cc e in
      subst (λ (x : Written). Asks n x (listing vs)) same (list_written-Asks vs n)

  ranged-Asks :
      (vs : List Value) (n : ℕ) {w : Written}
      → ranged p vs n ≡ some w
      → Asks n w (
          (words p
            ∷ words (bytes " BETWEEN ")
            ∷ value (first vs)
            ∷ words (bytes " AND ")
            ∷ value (second vs)
            ∷ [])
          ∷ [])
  unfolding ranged bind_piece
  ranged-Asks [] n e = cc
  ranged-Asks (v ∷ []) n e = cc
  ranged-Asks (v ∷ u ∷ vs) n e = (
    λ pre post at. ground (
      arith,
      argument-append pre v (u ∷ post),
      argument-append (pre ++ v ∷ []) u post,
      append_assoc pre (v ∷ []) (u ∷ post),
      length-append pre (v ∷ []),
    ),
    ground arith,
  )

condition-Asks :
    (p : Bytes) (op : FilterOperator) (vs : List Value) (n : ℕ) {w : Written}
    → condition p op vs n ≡ some w
    → Asks n w (asked p op vs)
unfolding condition
condition-Asks p equal vs n e = compared-Asks p _ vs n e
condition-Asks p not_equal vs n e = compared-Asks p _ vs n e
condition-Asks p greater vs n e = compared-Asks p _ vs n e
condition-Asks p greater_equal vs n e = compared-Asks p _ vs n e
condition-Asks p less vs n e = compared-Asks p _ vs n e
condition-Asks p less_equal vs n e = compared-Asks p _ vs n e
condition-Asks p is_in vs n e = listed-Asks p _ vs n e
condition-Asks p not_in vs n e = listed-Asks p _ vs n e
condition-Asks p between vs n e = ranged-Asks p p vs n e
condition-Asks p other vs n e = (λ pre post at. ground arith, ground arith)

-- One after the other: the arguments of the second stand behind those of the first.
both-Asks :
    (n : ℕ) (c r : Written) (spec more : List (List Bound))
    → Asks n c spec
    → Asks c.2 r more
    → Asks n (c.0 ++ r.0, c.1 ++ r.1, r.2) (spec ++ more)
both-Asks n c r spec more (h, h') (k, k') = (
  λ pre post at.
      let one = h pre (r.1 ++ post) at in
      let at' : suc (length (pre ++ c.1)) ≡ c.2 = omega (arith, length-append pre c.1) in
      let two =
        subst (λ l. map (bind l) r.0 ≡ more) (append_assoc pre c.1 (r.1 ++ post))
          (k (pre ++ c.1) post at') in
      rw (append_assoc c.1 r.1 post) (rw (map-append) (rw (one, two))),
  omega (arith, length-append c.1 r.1),
)

pub conditions-Asks :
    (fs : List (Bytes × Filter)) (n : ℕ) {w : Written}
    → conditions fs n ≡ some w
    → Asks n w (asked_all fs)
unfolding conditions
conditions-Asks [] n e = (λ pre post at. ground arith, ground arith)
conditions-Asks ((p, f) ∷ fs) n {w} e =
    let (c, ec, er) = >>=-eq-some (condition p f.operator f.values n) _ e in
    let (r, er', ew) = >>=-eq-some (conditions fs c.2) _ er in
    let same : (c.0 ++ r.0, c.1 ++ r.1, r.2) ≡ w = cc ew in
    subst (λ (x : Written). Asks n x (asked_all ((p, f) ∷ fs))) same
      (both-Asks n c r _ _ (condition-Asks p f.operator f.values n ec) (conditions-Asks fs c.2 er'))
