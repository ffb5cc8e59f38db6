-- ===== src/Examples/Services.antt =====
-- The game service on the small board and cache, and the theorems on its handlers applied to it.
use shahboard.Base.{
  ◌/◌, pos, true, false, ◌||◌, [], ◌∷◌, ◌++◌, none, some, ◌≡◌, ◌≢◌, refl, arith, if◌then◌else◌,
  ◌==◌, lookup, ℤ-discrete, ◌-ℤ◌,
}
use shahboard.Types.{
  Bytes, bytes, dec_id, GameOutcome-discrete, same_id, no_outcome, white_won, black_won, draw,
}
use shahboard.Event.{
  game_ended, move_approved, player_resigned as resigned_event, MoveEvent, PlayerEvent,
  DrawResponse, UsersMatchCreated,
}
use shahboard.Event.Publisher.{done, refused}
use shahboard.Tracker.{new_tracker}
use shahboard.LiveGames.{new_live_games}
use shahboard.Game.{
  status_active, status_deactive, is_player, turn_player, white_player, move, accept_draw,
  resign_player, end_game, encode,
}
use shahboard.GameService.{
  Env, State, active_game, handle_event, handle_users_matched, handle_player_moved,
  handle_player_resigned, handle_draw_response, check_players_connection,
}
use shahboard.GameService.Cache.{cached, game_key, player_game_key, game_value, id_value}
use shahboard.GameService.Manager.{get_game, check_by_player}
use shahboard.GameService.Invariant.{Inv, handle_event-Inv, check_players_connection-Inv}
use shahboard.GameService.Endings.{IsCleared, handle_player_resigned_lem, agreed_draw_cached_active}
use shahboard.GameService.Creation.{made, announced, handle_users_matched_free}
use shahboard.GameService.Blocked.{over, unpublished_end_blocks}
use shahboard.GameService.Moving.{g1, handle_player_moved_ongoing, handle_player_moved_decided}
use shahboard.Examples.Boards.{Board, chess, laws}
use shahboard.Examples.Caches.{redis, rlaws}
use shahboard.Examples.Games.{
  fmt, ann, bob, ann-bob, settings, game, game-IsValid, offered_game, offered_game-IsValid,
  bob-accepts, bob-plays,
}

abbrev pub env : Env
env = record {
  now = 3000000000;
  fresh = λ n. if n == 0 then bytes "88" else bytes "89";
  coin = 0;
  fmt_time = fmt;
  redis = done;
  send = λ e. done;
}

-- Kafka does not answer.
abbrev mute : Env
mute = record env { send = λ e. refused }

abbrev pub idle : State Board redis.Db
idle = record { games = []; tracker = new_tracker 60; live = new_live_games; db = []; log = [] }

abbrev pub busy : State Board redis.Db
busy = record idle { games = (game.id, game) ∷ [] }

abbrev offered : State Board redis.Db
offered = record idle { games = (game.id, offered_game) ∷ [] }

abbrev matched : UsersMatchCreated
matched = record { id = bytes "5"; user1 = ann; user2 = bob; timestamp = 3 }

abbrev pub resigns : PlayerEvent
resigns = record { id = bytes "6"; game_id = game.id; player_id = bob.id; timestamp = 3 }

abbrev moves_to : Bytes → MoveEvent
moves_to m = record {
  id = bytes "7";
  game_id = game.id;
  player_id = ann.id;
  move = m;
  index = pos 1;
  timestamp = 3;
}

abbrev accepts : DrawResponse
accepts = record {
  id = bytes "8";
  claim_id = bytes "6";
  game_id = game.id;
  player_id = bob.id;
  accept = true;
  timestamp = 3;
}

pub busy-Inv : Inv busy
busy-Inv = ((refl, game-IsValid), tt)

pub busy-game : active_game chess redis settings busy game.id ≡ some game
unfolding active_game get_game dec_id lookup
busy-game = refl

offered-game : active_game chess redis settings offered game.id ≡ some offered_game
unfolding active_game get_game dec_id lookup
offered-game = refl

quiet-taken : (move chess game ann.id (bytes "e4") (pos 1) env.now).1 ≡ none
unfolding move turn_player white_player dec_id ℤ-discrete ◌-ℤ◌ GameOutcome-discrete
quiet-taken = refl

quiet-ongoing :
    chess.outcome
      (g1 chess redis settings env busy (moves_to (bytes "e4")) game busy-game quiet-taken).board
    ≡ no_outcome
unfolding move turn_player white_player dec_id ℤ-discrete ◌-ℤ◌ GameOutcome-discrete
quiet-ongoing = refl

mate-taken : (move chess game ann.id (bytes "#") (pos 1) env.now).1 ≡ none
unfolding move turn_player white_player dec_id ℤ-discrete ◌-ℤ◌ GameOutcome-discrete
mate-taken = refl

mate-white :
    chess.outcome
      (g1 chess redis settings env busy (moves_to (bytes "#")) game busy-game mate-taken).board
    ≡ white_won
unfolding move turn_player white_player dec_id ℤ-discrete ◌-ℤ◌ GameOutcome-discrete
mate-white = refl

mate-over :
    chess.outcome
      (g1 chess redis settings env busy (moves_to (bytes "#")) game busy-game mate-taken).board
    ≢ no_outcome
mate-over = ground (arith, mate-white)

nobody-plays : check_by_player idle.games ann.id || check_by_player idle.games bob.id ≡ false
unfolding check_by_player
nobody-plays = refl

nothing-cached : redis.get (game_key (made chess redis settings env idle matched).id) idle.db ≡ none
unfolding lookup
nothing-cached = refl

nothing-managed : lookup dec_id (made chess redis settings env idle matched).id idle.games ≡ none
unfolding lookup
nothing-managed = refl

ann-plays : is_player chess game ann.id ≡ true
unfolding is_player dec_id
ann-plays = refl

handle_event-Inv_example : Inv (handle_event chess redis settings env busy (resigned_event resigns))
handle_event-Inv_example =
    handle_event-Inv chess laws redis settings env busy (resigned_event resigns) tt busy-Inv

check_players_connection-Inv_example : Inv (check_players_connection chess redis settings env busy)
check_players_connection-Inv_example =
    check_players_connection-Inv chess laws redis settings env busy busy-Inv

handle_player_resigned_lem_example :
    let s' = handle_player_resigned chess redis settings env busy resigns in
    let g' = (resign_player chess game bob.id env.now).0 in
    (get_game s'.games game.id ≡ none)
    × IsCleared chess redis rlaws settings g' s'.db
    × (g'.status ≡ status_deactive)
    × (chess.outcome g'.board
        ≡ (if same_id (white_player chess game).id bob.id then black_won else white_won))
    × (s'.log
        ≡ busy.log
          ++ game_ended (record {
            id = env.fresh 0;
            game_id = game.id;
            player1 = game.player1;
            player2 = game.player2;
            outcome = if same_id (white_player chess game).id bob.id then black_won else white_won;
            desc = bytes "player_resigned";
            timestamp = env.now / 1000000000;
          })
            ∷ [])
handle_player_resigned_lem_example =
    handle_player_resigned_lem chess redis rlaws settings laws env busy resigns game busy-game
      game-IsValid bob-plays refl refl (λ e. refl)

agreed_draw_cached_active_example :
    let s' = handle_draw_response chess redis settings env offered accepts in
    let g' = (accept_draw chess offered_game bob.id).0 in
    (get_game s'.games g'.id ≡ none)
    × IsCleared chess redis rlaws settings g' s'.db
    × (chess.outcome g'.board ≡ draw)
    × (s'.log
        ≡ offered.log
          ++ game_ended (record {
            id = env.fresh 0;
            game_id = g'.id;
            player1 = g'.player1;
            player2 = g'.player2;
            outcome = draw;
            desc = bytes "";
            timestamp = env.now / 1000000000;
          })
            ∷ [])
    × (redis.get (game_key g'.id) s'.db ≡ some (game_value status_active (encode chess g')))
agreed_draw_cached_active_example =
    agreed_draw_cached_active chess redis rlaws settings laws env offered accepts offered_game
      offered-game offered_game-IsValid refl refl bob-accepts refl (λ e. refl)

handle_users_matched_free_example :
    let s' = handle_users_matched chess redis settings env idle matched in
    ((made chess redis settings env idle matched).id ≡ env.fresh 0)
    × (get_game s'.games (made chess redis settings env idle matched).id
        ≡ some (made chess redis settings env idle matched))
    × (redis.get (player_game_key (made chess redis settings env idle matched).player1.id) s'.db
        ≡ some (id_value (made chess redis settings env idle matched).id))
    × (redis.get (player_game_key (made chess redis settings env idle matched).player2.id) s'.db
        ≡ some (id_value (made chess redis settings env idle matched).id))
    × (redis.get (game_key (made chess redis settings env idle matched).id) s'.db
        ≡ some (cached chess redis (made chess redis settings env idle matched)))
    × (s'.log ≡ idle.log ++ announced chess redis settings env idle matched ∷ [])
    × (check_by_player s'.games ann.id ≡ true)
    × (check_by_player s'.games bob.id ≡ true)
handle_users_matched_free_example =
    handle_users_matched_free chess redis settings env idle matched laws rlaws ann-bob nobody-plays
      nothing-managed nothing-cached refl (λ e. refl)

unpublished_end_blocks_example :
    let s' = handle_player_moved chess redis settings mute busy (moves_to (bytes "#")) in
    (get_game s'.games game.id
      ≡ some (
          over chess redis rlaws settings mute env busy
            (moves_to (bytes "#"))
            game
            busy-game
            mate-taken))
    × (handle_users_matched chess redis settings env s' matched ≡ s')
    × (redis.get (player_game_key game.player1.id) s'.db ≡ none)
    × (redis.get (player_game_key game.player2.id) s'.db ≡ none)
unpublished_end_blocks_example =
    unpublished_end_blocks chess redis rlaws settings mute env busy (moves_to (bytes "#")) game
      busy-game mate-taken mate-over refl (λ e. refl) matched ann-plays

handle_player_moved_ongoing_example :
    let s' = handle_player_moved chess redis settings env busy (moves_to (bytes "e4")) in
    (get_game s'.games game.id
      ≡ some (g1 chess redis settings env busy (moves_to (bytes "e4")) game busy-game quiet-taken))
    × (redis.get
          (game_key
            (g1 chess redis settings env busy
              (moves_to (bytes "e4"))
              game
              busy-game
              quiet-taken).id)
          s'.db
        ≡ some (
            game_value
              (g1 chess redis settings env busy
                (moves_to (bytes "e4"))
                game
                busy-game
                quiet-taken).status
              (encode chess (
                g1 chess redis settings env busy
                  (moves_to (bytes "e4"))
                  game
                  busy-game
                  quiet-taken))))
    × (s'.log
        ≡ busy.log
          ++ move_approved (record {
            id = env.fresh 0;
            game_id = game.id;
            player_id = ann.id;
            move = bytes "e4";
            index = pos 1;
            timestamp = env.now / 1000000000;
          })
            ∷ [])
handle_player_moved_ongoing_example =
    handle_player_moved_ongoing chess redis settings env busy (moves_to (bytes "e4")) game busy-game
      quiet-taken rlaws quiet-ongoing refl (λ e. refl)

handle_player_moved_decided_example :
    let s' = handle_player_moved chess redis settings env busy (moves_to (bytes "#")) in
    let g2 =
      (end_game chess
        (g1 chess redis settings env busy (moves_to (bytes "#")) game busy-game mate-taken)
        env.now).0 in
    (get_game s'.games g2.id ≡ none)
    × IsCleared chess redis rlaws settings g2 s'.db
    × (g2.status ≡ status_deactive)
    × (s'.log
        ≡ busy.log
          ++ move_approved (record {
            id = env.fresh 0;
            game_id = game.id;
            player_id = ann.id;
            move = bytes "#";
            index = pos 1;
            timestamp = env.now / 1000000000;
          })
            ∷ game_ended (record {
              id = env.fresh 1;
              game_id = g2.id;
              player1 = g2.player1;
              player2 = g2.player2;
              outcome = chess.outcome g2.board;
              desc = bytes "";
              timestamp = env.now / 1000000000;
            })
            ∷ [])
handle_player_moved_decided_example =
    handle_player_moved_decided chess redis settings env busy (moves_to (bytes "#")) game busy-game
      mate-taken rlaws mate-over refl (λ e. refl)
