-- ===== src/Paginate/Query.antt =====
-- pkg/paginate/sql/query.go: the two SQL texts of a page and their arguments. A text is kept as its
-- pieces, literal text and numbered placeholders; `sql_text` puts them together.
use shahboard.Base.{
  ℕ, suc, Bool, true, false, List, [], ◌∷◌, ◌++◌, Option, none, some, ◌>>=◌, if◌then◌else◌,
}
use shahboard.Types.{Bytes, bytes, same_id}
use shahboard.Decimal.{decimal}
use shahboard.Paginate.{
  FilterOperator, equal, not_equal, greater, greater_equal, less, less_equal, is_in, not_in,
  between, other, Value, number, Filter,
}

pub data Piece : Type 0 where
  lit : Bytes → Piece
  param : ℕ → Piece

abbrev pub Sql : Type 0
Sql = List Piece

unfoldable pub sql_text : Sql → Bytes
sql_text [] = []
sql_text (lit s ∷ q) = s ++ sql_text q
sql_text (param n ∷ q) = b'$' ∷ (decimal n ++ sql_text q)

-- `strings.Join`
unfoldable pub join {ℓ} : {A : Type ℓ} → List A → List (List A) → List A
join sep [] = []
join sep (x ∷ []) = x
join sep (x ∷ y ∷ ys) = x ++ (sep ++ join sep (y ∷ ys))

unfoldable pub order_direction : Bool → Bytes
order_direction true = bytes "DESC"
order_direction false = bytes "ASC"

-- `p op $n`, with `Values[0]`; `none` is the panic for an index out of range.
abbrev pub Written : Type 0
Written = List Sql × List Value × ℕ

unfoldable pub compared : Bytes → Bytes → List Value → ℕ → Option Written
compared p op [] n = none
compared p op (v ∷ vs) n = some ((lit p ∷ lit op ∷ param n ∷ []) ∷ [], v ∷ [], suc n)

-- The placeholders of `IN`: one for each value.
unfoldable pub placeholders : List Value → ℕ → List Sql × ℕ
placeholders [] n = ([], n)
placeholders (v ∷ vs) n = let (ps, m) = placeholders vs (suc n) in ((param n ∷ []) ∷ ps, m)

unfoldable pub listed : Bytes → Bytes → List Value → ℕ → Option Written
unfolding placeholders join
listed p op vs n =
    let (ps, m) = placeholders vs n in
    some ((lit p ∷ lit op ∷ (join (lit (bytes ", ") ∷ []) ps ++ lit (bytes ")") ∷ [])) ∷ [], vs, m)

unfoldable pub ranged : Bytes → List Value → ℕ → Option Written
ranged p [] n = none
ranged p (v ∷ []) n = none
ranged p (v ∷ w ∷ vs) n = some (
  (lit p ∷ lit (bytes " BETWEEN ") ∷ param n ∷ lit (bytes " AND ") ∷ param (suc n) ∷ []) ∷ [],
  v ∷ w ∷ [],
  suc (suc n),
)

-- The switch on the operator, at the parameter index `n`: the conditions and arguments that are
-- appended, and the next index.
unfoldable pub condition : Bytes → FilterOperator → List Value → ℕ → Option Written
unfolding compared listed ranged
condition p equal vs n = compared p (bytes " = ") vs n
condition p not_equal vs n = compared p (bytes " != ") vs n
condition p greater vs n = compared p (bytes " > ") vs n
condition p greater_equal vs n = compared p (bytes " >= ") vs n
condition p less vs n = compared p (bytes " < ") vs n
condition p less_equal vs n = compared p (bytes " <= ") vs n
condition p is_in vs n = listed p (bytes " IN (") vs n
condition p not_in vs n = listed p (bytes " NOT IN (") vs n
condition p between vs n = ranged p vs n
condition p other vs n = some ([], [], n)

-- The loop over the filters.
unfoldable pub conditions : List (Bytes × Filter) → ℕ → Option Written
unfolding condition
conditions [] n = some ([], [], n)
conditions ((p, f) ∷ fs) n = condition p f.operator f.values n >>= λ c.
    conditions fs c.2 >>= λ r. some (c.0 ++ r.0, c.1 ++ r.1, r.2)

unfoldable pub sort_by : Bytes → Bytes
sort_by column = if same_id column (bytes "") then bytes "id" else column

-- The text of the query for a page, after the `WHERE` clause that it is given; `n` is the index of
-- the limit.
unfoldable pub page_query : Bytes → Sql → Bytes → Bool → ℕ → Sql
unfolding sort_by order_direction
page_query table where_clause sort_column descending n =
    lit (bytes "SELECT * FROM ")
    ∷ lit table
    ∷ (where_clause
        ++ (lit (bytes " ORDER BY ")
            ∷ lit (sort_by sort_column)
            ∷ lit (bytes " ")
            ∷ lit (order_direction descending)
            ∷ lit (bytes " LIMIT ")
            ∷ param n
            ∷ lit (bytes " OFFSET ")
            ∷ param (suc n)
            ∷ lit (bytes ";")
            ∷ []))

unfoldable pub count_query : Bytes → Sql → Sql
count_query table where_clause =
    lit (bytes "SELECT COUNT(*) FROM ") ∷ lit table ∷ (where_clause ++ (lit (bytes ";") ∷ []))

unfoldable pub where_of : List Sql → Sql
unfolding join
where_of cs = lit (bytes " WHERE ") ∷ join (lit (bytes " AND ") ∷ []) cs

-- `WriteQuery`: the query, the query that counts, and the arguments.
unfoldable pub write_query :
    Bytes → List (Bytes × Filter) → Bytes → Bool → ℕ → ℕ → Option (Sql × Sql × List Value)
unfolding conditions page_query count_query where_of
write_query table [] sort_column descending limit offset = some (
  page_query table [] sort_column descending 1,
  count_query table [],
  number limit ∷ number offset ∷ [],
)
write_query table (f ∷ fs) sort_column descending limit offset = conditions (f ∷ fs) 1 >>= λ w.
    some (
      page_query table (where_of w.0) sort_column descending w.2,
      count_query table (where_of w.0),
      w.1 ++ (number limit ∷ number offset ∷ []),
    )
