-- ===== src/Examples/Requests.antt =====
-- Requests to the services: the tests of pkg/paginate/sql/query_test.go, and the theorems on queries,
-- pages and deliveries applied to small databases.
use shahboard.Base.{
  ◌≤◌, ◌<◌, ◌≡◌, ◌≢◌, ◌↔◌, inl, refl, true, false, List, [], ◌∷◌, ◌++◌, Option, some, map, arith,
  ◌>>=◌,
}
use shahboard.Types.{Bytes, bytes, dec_id}
use shahboard.Decimal.{decimal}
use shahboard.Paginate.{Filter, greater, is_in, between, Value, text, number}
use shahboard.Paginate.Query.{
  Sql, lit, param, sql_text, write_query, count_query, page_query, where_of,
}
use shahboard.Paginate.Asked.{bind, asked_page, asked_count}
use shahboard.Paginate.Bound.{write_query-asked}
use shahboard.Rating.History.{offset_of, total_pages_of}
use shahboard.Rating.History.Pages.{total_pages_of-offset_of}
use shahboard.Event.{PlayerEvent}
use shahboard.Event.Publisher.{done}
use shahboard.Tracker
use shahboard.GameService.{handle_player_resigned}
use shahboard.GameService.Cache.{add_game}
use shahboard.GameService.Queries.{disconnections}
use shahboard.Auth.{generate_jwt}
use shahboard.Delivery.{resign_request}
use shahboard.Delivery.Grpc.{get_user_live_game_pgn, user_game, kept_disconnection}
use shahboard.Delivery.Resigning.{resign_request-handle_player_resigned}
use shahboard.Delivery.LiveGame.{user_game-add_game}
use shahboard.Examples.Boards.{chess}
use shahboard.Examples.Caches.{redis, rlaws}
use shahboard.Examples.Games.{settings, game, ann}
use shahboard.Examples.Services.{env, idle, busy, busy-game}
use shahboard.Examples.Queries.{
  shown, reread_board, game-IsCanonical, ann-IsCanonical, game-IsReadable, uncached, not_zero,
}
use shahboard.Examples.Accounts.{jwt, jwt_laws}

abbrev price_and_kind : List (Bytes × Filter)
price_and_kind =
    (bytes "price", record { operator = between; values = number 50 ∷ number 150 ∷ [] })
    ∷ (bytes "kind", record { operator = is_in; values = text (bytes "a") ∷ text (bytes "b") ∷ [] })
    ∷ []

-- The texts of the two queries.
abbrev texts : Option (Sql × Sql × List Value) → Option (Bytes × Bytes × List Value)
texts r = r >>= λ w. some (sql_text w.0, sql_text w.1, w.2)

test_no_filters :
    texts (write_query (bytes "users") [] (bytes "name") false 10 10)
    ≡ some (
      bytes "SELECT * FROM users ORDER BY name ASC LIMIT $1 OFFSET $2;",
      bytes "SELECT COUNT(*) FROM users;",
      number 10 ∷ number 10 ∷ [],
    )
unfolding write_query sql_text decimal dec_id
test_no_filters = refl

test_filters :
    texts (write_query (bytes "products") price_and_kind (bytes "") true 5 0)
    ≡ some (
      bytes
          "SELECT * FROM products WHERE price BETWEEN $1 AND $2 AND kind IN ($3, $4) ORDER BY id DESC LIMIT $5 OFFSET $6;",
      bytes "SELECT COUNT(*) FROM products WHERE price BETWEEN $1 AND $2 AND kind IN ($3, $4);",
      number 50 ∷ number 150 ∷ text (bytes "a") ∷ text (bytes "b") ∷ number 5 ∷ number 0 ∷ [],
    )
unfolding write_query sql_text decimal dec_id
test_filters = refl

abbrev one_filter : List (Bytes × Filter)
one_filter = (bytes "age", record { operator = greater; values = number 18 ∷ [] }) ∷ []

abbrev age_where : Sql
age_where = where_of ((lit (bytes "age") ∷ lit (bytes " > ") ∷ param 1 ∷ []) ∷ [])

asks_age :
    write_query (bytes "employees") one_filter (bytes "name") true 5 20
    ≡ some (
      page_query (bytes "employees") age_where (bytes "name") true 2,
      count_query (bytes "employees") age_where,
      number 18 ∷ number 5 ∷ number 20 ∷ [],
    )
unfolding write_query
asks_age = refl

write_query-asked_example :
    (values : List Value) × (number 18 ∷ number 5 ∷ number 20 ∷ []
      ≡ values ++ (number 5 ∷ number 20 ∷ []))
    × (bind
          (number 18 ∷ number 5 ∷ number 20 ∷ [])
          (page_query (bytes "employees") age_where (bytes "name") true 2)
        ≡ asked_page (bytes "employees") one_filter (bytes "name") true 5 20)
    × (bind values (count_query (bytes "employees") age_where)
        ≡ asked_count (bytes "employees") one_filter)
write_query-asked_example =
    write_query-asked (bytes "employees") one_filter (bytes "name") true 5 20 asks_age

total_pages_of-offset_of_example : (3 ≤ total_pages_of 25 10) ↔ (offset_of 3 10 < 25)
total_pages_of-offset_of_example =
    total_pages_of-offset_of 3 10 25 (omega arith) (omega arith) (omega arith) (omega arith)

some_token : generate_jwt jwt 60 5000000000 ann ≢ bytes ""
unfolding generate_jwt
some_token = ground arith

abbrev ann_resigns : PlayerEvent
ann_resigns = record { id = bytes "6"; game_id = game.id; player_id = ann.id; timestamp = 3 }

resign_request-handle_player_resigned_example :
    (resign_request chess shown shown redis settings jwt 50 env done busy
      (bytes "Bearer " ++ generate_jwt jwt 60 5000000000 ann)
      game.id).0
    ≡ handle_player_resigned chess redis settings env busy ann_resigns
resign_request-handle_player_resigned_example =
    resign_request-handle_player_resigned chess shown shown redis settings jwt 60 5000000000 50 ann
      env done busy game.id ann_resigns game jwt_laws (omega arith) (omega arith) some_token
      game-IsCanonical refl busy-game

user_game-add_game_example :
    user_game (
      get_user_live_game_pgn chess shown shown redis settings done done
        (record idle { db = (add_game chess redis done game idle.db).0 })
        game.player1.id)
    ≡ some (
        some (record {
          game_id = game.id;
          pgn = shown reread_board;
          disconnections =
              map kept_disconnection (disconnections (Tracker.get idle.tracker game.id));
        }))
user_game-add_game_example =
    user_game-add_game chess shown shown redis settings rlaws idle game reread_board game.player1.id
      uncached (inl refl) game-IsReadable ann-IsCanonical not_zero (omega arith)
