-- ===== src/Rating/History/Pages.antt =====
-- What a request for the history of ratings asks of the database, and which pages there are.
use shahboard.Base.{
  ℕ, zero, suc, ◌+◌, ◌-◌, ◌*◌, ◌/◌, ◌%◌, ◌^◌, ◌<◌, ◌≤◌, true, List, [], ◌∷◌, Option, some, insert,
  ◌≡◌, ◌↔◌, refl, ap, arith,
}
use shahboard.Types.{Bytes, bytes, ObjectId, dec_id}
use shahboard.ObjectIds.{parse_object_id}
use shahboard.Paginate.{Filter}
use shahboard.Paginate.Asked.{Bound, bind, bind_piece, argument, asked_page, asked_count}
use shahboard.Rating.{GameEloChange}
use shahboard.Rating.History.{
  Database, offset_of, found_of, of_user, get_user_change_history, requested, reply_of,
  get_user_rating_history, total_pages_of,
}

-- The filter of a user, which is the only one of a request.
abbrev filters_of : ObjectId → List (Bytes × Filter)
filters_of id = (bytes "user_id", of_user id) ∷ []

-- A page that is validated is not page 0, and has from 10 to 100 entries.
requested_bounds :
    (limit page : Option Bytes)
    → let p = requested limit page in (1 ≤ p.page) × (10 ≤ p.per_page) × (p.per_page ≤ 100)
unfolding requested
requested_bounds limit page = ground arith

module _ (rows : List Bound → Option (List (Option GameEloChange)))
    (total : List Bound → Option ℕ) where
  -- A database that puts each argument in the place of its number.
  abbrev pub database : Database
  database = record { query = λ q args. rows (bind args q); count = λ q args. total (bind args q) }

  changes_asked :
      (id : ObjectId) (limit page : Option Bytes)
      → let p = requested limit page in
        get_user_change_history database id p
        ≡ found_of
            (rows (
              asked_page
                (bytes "game_elo_changes")
                (filters_of id)
                (bytes "")
                true
                p.per_page
                (offset_of p.page p.per_page)))
            (total (asked_count (bytes "game_elo_changes") (filters_of id)))
  unfolding get_user_change_history requested dec_id bind_piece argument insert
  changes_asked id limit page = refl

  -- Whatever the strings of the request are, the database is asked for the changes of the user
  -- and no others, from the highest identifier down, between 10 and 100 of them, and for their number.
  -- The answer is made of what it sends.
  pub get_user_rating_history-asked :
      (user : Bytes) (limit page : Option Bytes) (id : ObjectId)
      → parse_object_id user ≡ some id
      → let p = requested limit page in
        get_user_rating_history database user limit page
        ≡ reply_of p (
            found_of
              (rows (
                asked_page
                  (bytes "game_elo_changes")
                  (filters_of id)
                  (bytes "")
                  true
                  p.per_page
                  (offset_of p.page p.per_page)))
              (total (asked_count (bytes "game_elo_changes") (filters_of id))))
  unfolding get_user_rating_history
  get_user_rating_history-asked user limit page id e =
      rw (e, get_user_rating_history) (rw (changes_asked id limit page))

page_below :
    (k p t : ℕ)
    → 1 ≤ p
    → (suc k ≤ (t + p - 1) / p → k * p < t) × (k * p < t → suc k ≤ (t + p - 1) / p)
page_below k p t h = (λ a. grind arith, λ a. grind arith)

-- What the two computations come to where nothing wraps around.
total_pages_of_lem :
    (total per_page : ℕ)
    → 1 ≤ per_page
    → total + per_page < 2 ^ 64
    → total_pages_of total per_page ≡ (total + per_page - 1) / per_page
unfolding total_pages_of
total_pages_of_lem total per_page h k =
    ap (λ (n : ℕ). n / per_page) {x = ((total + per_page) % 2 ^ 64 + 2 ^ 64 - 1) % 2 ^ 64}
      (omega arith)

offset_of_lem :
    (k per_page : ℕ)
    → k < 2 ^ 64
    → k * per_page < 2 ^ 64
    → offset_of (suc k) per_page ≡ k * per_page
unfolding offset_of
offset_of_lem k per_page h fits =
    let same : (suc k + 2 ^ 64 - 1) % 2 ^ 64 ≡ k = omega arith in rw same (omega arith)

-- As long as no number leaves uint64, a page is one of the pages that the answer counts exactly
-- when its first row is one of the rows.
pub total_pages_of-offset_of :
    (page per_page total : ℕ)
    → 1 ≤ page
    → 1 ≤ per_page
    → page * per_page < 2 ^ 64
    → total + per_page < 2 ^ 64
    → (page ≤ total_pages_of total per_page) ↔ (offset_of page per_page < total)
total_pages_of-offset_of zero per_page total h k fits few = absurd (omega arith)
total_pages_of-offset_of (suc page) per_page total h k fits few =
    let small : page < 2 ^ 64 = grind arith in
    let whole : page * per_page < 2 ^ 64 = grind arith in
    rw (total_pages_of_lem total per_page k few)
      (rw (offset_of_lem page per_page small whole) (page_below page per_page total k))

-- With 16 entries to a page, 2 ^ 60 pages on is the same page.
offset_of_wraps : (page : ℕ) → 1 ≤ page → offset_of (page + 2 ^ 60) 16 ≡ offset_of page 16
unfolding offset_of
offset_of_wraps page h = omega arith
