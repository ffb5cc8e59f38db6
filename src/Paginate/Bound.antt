-- ===== src/Paginate/Bound.antt =====
-- What the queries of pkg/paginate/sql/query.go ask once their arguments stand in their
-- placeholders.
use mathlib.Core.List.{append-nil, append_assoc, map-append}
use shahboard.Base.{
  ℕ, suc, Bool, List, [], ◌∷◌, ◌++◌, some, map, length, length-append, >>=-eq-some, ◌≡◌, refl, sym,
  ap, subst, arith, true, false, if◌then◌else◌,
}
use shahboard.Types.{Bytes, bytes, same_id}
use shahboard.Paginate.{Value, number, Filter}
use shahboard.Paginate.Query.{
  Sql, order_direction, sort_by, conditions, write_query, page_query, count_query, where_of,
}
use shahboard.Paginate.Asked.{
  Bound, words, value, argument, bind_piece, bind, asked_all, asked_page, asked_count,
  argument-append, map-join, separated, join-separated,
}
use shahboard.Paginate.Conditions.{conditions-Asks}

order_direction_if : (b : Bool) → order_direction b ≡ (if b then bytes "DESC" else bytes "ASC")
unfolding order_direction
order_direction_if true = refl
order_direction_if false = refl

page_query-asked :
    (table : Bytes) (clause : Sql) (asked_clause : List Bound) (sort_column : Bytes)
    (descending : Bool) (limit offset : ℕ) (values : List Value)
    → bind (values ++ (number limit ∷ number offset ∷ [])) clause ≡ asked_clause
    → bind
        (values ++ (number limit ∷ number offset ∷ []))
        (page_query table clause sort_column descending (suc (length values)))
      ≡ words (bytes "SELECT * FROM ")
        ∷ words table
        ∷ (asked_clause
            ++ (words (bytes " ORDER BY ")
                ∷ words (if same_id sort_column (bytes "") then bytes "id" else sort_column)
                ∷ words (bytes " ")
                ∷ words (if descending then bytes "DESC" else bytes "ASC")
                ∷ words (bytes " LIMIT ")
                ∷ value (some (number limit))
                ∷ words (bytes " OFFSET ")
                ∷ value (some (number offset))
                ∷ words (bytes ";")
                ∷ []))
unfolding page_query bind_piece sort_by
page_query-asked table clause asked_clause sort_column descending limit offset values h =
    let one = argument-append values (number limit) (number offset ∷ []) in
    let two =
      subst (λ (l : List Value). argument l (suc (suc (length values))) ≡ some (number offset))
        (append_assoc values (number limit ∷ []) (number offset ∷ []))
        (subst
          (λ (n : ℕ).
            argument ((values ++ number limit ∷ []) ++ number offset ∷ []) (suc n)
            ≡ some (number offset))
          (omega (arith, length-append values (number limit ∷ [])))
          (argument-append (values ++ number limit ∷ []) (number offset) [])) in
    simp (map-append, h, one, two, order_direction_if descending)

count_query-asked :
    (table : Bytes) (clause : Sql) (asked_clause : List Bound) (values : List Value)
    → bind values clause ≡ asked_clause
    → bind values (count_query table clause)
      ≡ words (bytes "SELECT COUNT(*) FROM ")
        ∷ words table
        ∷ (asked_clause ++ words (bytes ";") ∷ [])
unfolding count_query bind_piece
count_query-asked table clause asked_clause values h = simp (map-append, h)

where_of-asked :
    (args : List Value) (cs : List Sql) (specs : List (List Bound))
    → map (bind args) cs ≡ specs
    → bind args (where_of cs)
      ≡ words (bytes " WHERE ") ∷ separated (words (bytes " AND ") ∷ []) specs
unfolding where_of bind_piece
where_of-asked args cs specs h =
    rw (map-join (bind_piece args)) (rw (h, join-separated (words (bytes " AND ") ∷ []) specs))

-- With every argument in its place, `WriteQuery` asks for the rows that meet all the filters, in
-- the order and the part asked for, and counts the rows that meet all the filters; the counting
-- query needs the arguments but the last two.
pub write_query-asked :
    (table : Bytes) (fs : List (Bytes × Filter)) (sort_column : Bytes) (descending : Bool)
    (limit offset : ℕ) {q cq : Sql} {args : List Value}
    → write_query table fs sort_column descending limit offset ≡ some (q, cq, args)
    → (values : List Value) × (args ≡ values ++ (number limit ∷ number offset ∷ []))
      × (bind args q ≡ asked_page table fs sort_column descending limit offset)
      × (bind values cq ≡ asked_count table fs)
unfolding write_query
write_query-asked table [] sort_column descending limit offset {q} {cq} {args} e =
    let tail : List Value = number limit ∷ number offset ∷ [] in
    let same : (page_query table [] sort_column descending 1, count_query table [], tail)
        ≡ (q, cq, args) =
      cc e in
    (
      [],
      sym (ap (λ (r : Sql × Sql × List Value). r.2) same),
      subst
          (λ (r : Sql × Sql × List Value).
            bind r.2 r.0 ≡ asked_page table [] sort_column descending limit offset)
          same (page_query-asked table [] [] sort_column descending limit offset [] refl),
      subst (λ (r : Sql × Sql × List Value). bind [] r.1 ≡ asked_count table []) same
          (count_query-asked table [] [] [] refl),
    )
write_query-asked table (f ∷ fs) sort_column descending limit offset {q} {cq} {args} e =
    let (w, ew, er) = >>=-eq-some (conditions (f ∷ fs) 1) _ e in
    let asks = conditions-Asks (f ∷ fs) 1 ew in
    let tail : List Value = number limit ∷ number offset ∷ [] in
    let one = where_of-asked (w.1 ++ tail) w.0 _ (asks.0 [] tail (omega arith)) in
    let two = where_of-asked w.1 w.0 _ (
      subst (λ (l : List Value). map (bind l) w.0 ≡ asked_all (f ∷ fs)) (append-nil w.1)
        (asks.0 [] [] (omega arith))) in
    let next : suc (length w.1) ≡ w.2 = omega (arith, asks.1) in
    let same : (
      page_query table (where_of w.0) sort_column descending w.2,
      count_query table (where_of w.0),
      w.1 ++ tail,
    )
        ≡ (q, cq, args) =
      cc er in
    (
      w.1,
      sym (ap (λ (r : Sql × Sql × List Value). r.2) same),
      subst
          (λ (r : Sql × Sql × List Value).
            bind r.2 r.0 ≡ asked_page table (f ∷ fs) sort_column descending limit offset)
          same
          (subst
            (λ (n : ℕ).
              bind (w.1 ++ tail) (page_query table (where_of w.0) sort_column descending n)
              ≡ asked_page table (f ∷ fs) sort_column descending limit offset)
            next
            (page_query-asked table (where_of w.0) _ sort_column descending limit offset w.1 one)),
      subst (λ (r : Sql × Sql × List Value). bind w.1 r.1 ≡ asked_count table (f ∷ fs)) same
          (count_query-asked table (where_of w.0) _ w.1 two),
    )
