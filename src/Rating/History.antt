-- ===== src/Rating/History.antt =====
-- The history of a user's ratings: getUserRatingHistory of profileservice/delivery/http/rating.go,
-- GetUserChangeHistory of service/rating/rating.go and GetGameEloChanges of repository/rating.go.
-- The database is a parameter, and so are the rows that it sends. What `c.GetQuery` and `c.Param`
-- return are arguments.
pub mod Pages
use shahboard.Base.{
  ℕ, zero, suc, ◌+◌, ◌-◌, ◌*◌, ◌/◌, ◌%◌, ◌^◌, ◌<◌, ◌≤◌, pos, negsuc, ℤ, Bool, true, false, List, [],
  ◌∷◌, ◌++◌, Option, none, some, length, take, insert, lookup, ltb, leb, if◌then◌else◌, ◌≡◌, ◌↔◌,
  refl, arith, ◌&&◌,
}
use shahboard.Types.{Bytes, bytes, ObjectId, dec_id}
use shahboard.ObjectIds.{parse_int, parse_object_id}
use shahboard.Paginate.{Paginated, Filter, equal, Value, text, number, validate}
use shahboard.Paginate.Query.{Sql, write_query}
use shahboard.Rating.{GameEloChange}

-- The database: the rows of a query, each `none` if it cannot be scanned, and the number that a
-- counting query gives. `none` is an error.
pub record Database : Type 0 where
  pub query : Sql → List Value → Option (List (Option GameEloChange))
  pub count : Sql → List Value → Option ℕ

-- The rows that can be scanned; the others are skipped.
unfoldable scanned : List (Option GameEloChange) → List GameEloChange
scanned [] = []
scanned (none ∷ rs) = scanned rs
scanned (some c ∷ rs) = c ∷ scanned rs

-- The arguments of the counting query.
unfoldable count_args : List Value → List Value
count_args args =
    if ltb 0 (length args) && ltb (length args) 3
    then take 1 args
    else if ltb 0 (length args) && leb 3 (length args)
    then take (length args - 2) args
    else []

-- `(p.Page - 1) * limit`, in uint64.
unfoldable pub offset_of : ℕ → ℕ → ℕ
offset_of page limit = (page + 2 ^ 64 - 1) % 2 ^ 64 * limit % 2 ^ 64

pub data Found : Type 0 where
  found : List GameEloChange → ℕ → Found
  failed : Found
  -- an index out of range in `WriteQuery`
  panicked : Found

-- What the two queries give, the first one asked first.
unfoldable pub found_of : Option (List (Option GameEloChange)) → Option ℕ → Found
unfolding scanned
found_of none count = failed
found_of (some rows) none = failed
found_of (some rows) (some n) = found (scanned rows) n

-- `GetGameEloChanges`
unfoldable get_game_elo_changes : Database → Paginated → Found
unfolding write_query count_args offset_of found_of
get_game_elo_changes db p =
    elim (write_query (bytes "game_elo_changes") p.filters p.sort_column p.descending p.per_page
      (offset_of p.page p.per_page)) [
        | none ↦ panicked
        | some (q, cq, args) ↦ found_of (db.query q args) (db.count cq (count_args args))
      ]

abbrev pub of_user : ObjectId → Filter
of_user id = record { operator = equal; values = text id ∷ [] }

-- `GetUserChangeHistory`
unfoldable pub get_user_change_history : Database → ObjectId → Paginated → Found
unfolding get_game_elo_changes
get_user_change_history db id p =
    get_game_elo_changes db
      (record p { filters = insert dec_id (bytes "user_id") (of_user id) p.filters })

-- `uint64(i)` of an int.
unfoldable uint64_of : ℤ → ℕ
uint64_of (pos n) = n
uint64_of (negsuc n) = 2 ^ 64 - 1 - n

-- A number in the query string: what `strconv.Atoi` refuses counts as absent.
unfoldable number_or_zero : Option Bytes → ℕ
unfolding uint64_of parse_int
number_or_zero none = 0
number_or_zero (some s) = elim (parse_int s) [ none ↦ 0 | some i ↦ uint64_of i ]

-- The parameters of the request, before and after `Validate`.
unfoldable pub requested : Option Bytes → Option Bytes → Paginated
unfolding number_or_zero validate
requested limit page = validate (record {
  page = number_or_zero page;
  per_page = number_or_zero limit;
  total = 0;
  filters = [];
  sort_column = bytes "";
  descending = true;
})

-- `UserRatingHistoryResponse`
pub record HistoryResponse : Type 0 where
  pub current_page : ℕ
  pub page_size : ℕ
  pub total_numbers : ℕ
  pub total_pages : ℕ
  pub changes : List GameEloChange

-- `(total + p.PerPage - 1) / p.PerPage`, in uint64.
unfoldable pub total_pages_of : ℕ → ℕ → ℕ
total_pages_of total per_page = ((total + per_page) % 2 ^ 64 + 2 ^ 64 - 1) % 2 ^ 64 / per_page

pub data HttpReply : Type 0 where
  status : ℕ → HttpReply
  -- the handler panicked, and the connection is closed with no reply
  dropped : HttpReply
  page_of : HistoryResponse → HttpReply

-- The reply to what was found.
unfoldable pub reply_of : Paginated → Found → HttpReply
unfolding total_pages_of
reply_of p failed = status 500
reply_of p panicked = dropped
reply_of p (found changes total) = page_of (record {
  current_page = p.page;
  page_size = length changes;
  total_numbers = total;
  total_pages = total_pages_of total p.per_page;
  changes = changes;
})

-- `getUserRatingHistory`
unfoldable pub get_user_rating_history : Database → Bytes → Option Bytes → Option Bytes → HttpReply
unfolding requested reply_of get_user_change_history
get_user_rating_history db user limit page = elim (parse_object_id user) [
  | none ↦ status 400
  | some id ↦ reply_of (requested limit page) (get_user_change_history db id (requested limit page))
]
