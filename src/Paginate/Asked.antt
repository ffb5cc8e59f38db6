-- ===== src/Paginate/Asked.antt =====
-- What a query asks for once its arguments stand in its placeholders, and what it should ask for,
-- written from the filters themselves.
use mathlib.Core.List.{map-append, append-nil}
use shahboard.Base.{
  ℕ, zero, suc, Bool, List, [], ◌∷◌, ◌++◌, Option, none, some, map, length, ◌≡◌, refl, sym, ap,
  if◌then◌else◌,
}
use shahboard.Types.{Bytes, bytes, same_id}
use shahboard.Paginate.{
  FilterOperator, equal, not_equal, greater, greater_equal, less, less_equal, is_in, not_in,
  between, other, Value, number, Filter,
}
use shahboard.Paginate.Query.{Piece, lit, param, Sql, join}

-- A text with values in the places of its placeholders; the library finds no value for `none`.
pub data Bound : Type 0 where
  words : Bytes → Bound
  value : Option Value → Bound

-- `$1` is the first argument.
unfoldable pub argument : List Value → ℕ → Option Value
argument [] n = none
argument (v ∷ vs) zero = none
argument (v ∷ vs) (suc zero) = some v
argument (v ∷ vs) (suc (suc n)) = argument vs (suc n)

unfoldable pub bind_piece : List Value → Piece → Bound
bind_piece args (lit s) = words s
bind_piece args (param n) = value (argument args n)

abbrev pub bind : List Value → Sql → List Bound
bind args q = map (bind_piece args) q

-- `Values[0]` and `Values[1]`
abbrev pub first : List Value → Option Value
first [] = none
first (v ∷ vs) = some v

abbrev pub second : List Value → Option Value
second [] = none
second (v ∷ vs) = first vs

abbrev pub values_listed : List Value → List (List Bound)
values_listed vs = map (λ v. value (some v) ∷ []) vs

-- Each list with the separator before it.
abbrev pub following : List Bound → List (List Bound) → List Bound
following sep [] = []
following sep (x ∷ xs) = sep ++ (x ++ following sep xs)

-- The lists one after the other, with the separator between any two.
abbrev pub separated : List Bound → List (List Bound) → List Bound
separated sep [] = []
separated sep (x ∷ xs) = x ++ following sep xs

pub join-separated : (sep : List Bound) (xs : List (List Bound)) → join sep xs ≡ separated sep xs
unfolding join
join-separated sep [] = refl
join-separated sep (x ∷ []) = sym (append-nil x)
join-separated sep (x ∷ y ∷ ys) = ap (λ l. x ++ (sep ++ l)) (join-separated sep (y ∷ ys))

-- The condition that a filter stands for. An unknown operator stands for none.
abbrev pub asked : Bytes → FilterOperator → List Value → List (List Bound)
asked p equal vs = (words p ∷ words (bytes " = ") ∷ value (first vs) ∷ []) ∷ []
asked p not_equal vs = (words p ∷ words (bytes " != ") ∷ value (first vs) ∷ []) ∷ []
asked p greater vs = (words p ∷ words (bytes " > ") ∷ value (first vs) ∷ []) ∷ []
asked p greater_equal vs = (words p ∷ words (bytes " >= ") ∷ value (first vs) ∷ []) ∷ []
asked p less vs = (words p ∷ words (bytes " < ") ∷ value (first vs) ∷ []) ∷ []
asked p less_equal vs = (words p ∷ words (bytes " <= ") ∷ value (first vs) ∷ []) ∷ []
asked p is_in vs =
    (words p
      ∷ words (bytes " IN (")
      ∷ (separated (words (bytes ", ") ∷ []) (values_listed vs) ++ words (bytes ")") ∷ []))
    ∷ []
asked p not_in vs =
    (words p
      ∷ words (bytes " NOT IN (")
      ∷ (separated (words (bytes ", ") ∷ []) (values_listed vs) ++ words (bytes ")") ∷ []))
    ∷ []
asked p between vs =
    (words p
      ∷ words (bytes " BETWEEN ")
      ∷ value (first vs)
      ∷ words (bytes " AND ")
      ∷ value (second vs)
      ∷ [])
    ∷ []
asked p other vs = []

abbrev pub asked_all : List (Bytes × Filter) → List (List Bound)
asked_all [] = []
asked_all ((p, f) ∷ fs) = asked p f.operator f.values ++ asked_all fs

-- ` WHERE `, with the conditions of all filters; nothing where there are no filters.
abbrev asked_where : List (Bytes × Filter) → List Bound
asked_where [] = []
asked_where (f ∷ fs) =
    words (bytes " WHERE ") ∷ separated (words (bytes " AND ") ∷ []) (asked_all (f ∷ fs))

-- The page that is asked for.
abbrev pub asked_page : Bytes → List (Bytes × Filter) → Bytes → Bool → ℕ → ℕ → List Bound
asked_page table fs sort_column descending limit offset =
    words (bytes "SELECT * FROM ")
    ∷ words table
    ∷ (asked_where fs
        ++ (words (bytes " ORDER BY ")
            ∷ words (if same_id sort_column (bytes "") then bytes "id" else sort_column)
            ∷ words (bytes " ")
            ∷ words (if descending then bytes "DESC" else bytes "ASC")
            ∷ words (bytes " LIMIT ")
            ∷ value (some (number limit))
            ∷ words (bytes " OFFSET ")
            ∷ value (some (number offset))
            ∷ words (bytes ";")
            ∷ []))

abbrev pub asked_count : Bytes → List (Bytes × Filter) → List Bound
asked_count table fs =
    words (bytes "SELECT COUNT(*) FROM ") ∷ words table ∷ (asked_where fs ++ words (bytes ";") ∷ [])

-- The value that stands behind the first arguments is under the next number.
pub argument-append :
    (pre : List Value) (v : Value) (post : List Value)
    → argument (pre ++ v ∷ post) (suc (length pre)) ≡ some v
unfolding argument
argument-append [] v post = refl
argument-append (u ∷ pre) v post = argument-append pre v post

pub map-join {ℓ κ} :
    {A : Type ℓ} {B : Type κ} (f : A → B) (sep : List A) (xs : List (List A))
    → map f (join sep xs) ≡ join (map f sep) (map (map f) xs)
unfolding join
map-join f sep [] = refl
map-join f sep (x ∷ []) = refl
map-join f sep (x ∷ y ∷ ys) = simp (map-append, map-join f sep (y ∷ ys))
