-- ===== src/GameService/Answers.antt =====
-- gameservice/service/methods.go and cache.go: what a player's queries find.
use shahboard.Base.{
  ℕ, ◌<◌, ◌^◌, false, none, some, ◌≡◌, ◌≢◌, ◌⊎◌, inl, inr, refl, arith, ◌∙◌, ap, ◌==◌,
}
use shahboard.Types.{Bytes, ObjectId, is_zero}
use shahboard.Chess.{ChessLib}
use shahboard.Redis.{RedisLib, RedisLaws}
use shahboard.Event.{PlayerEvent}
use shahboard.Event.Publisher.{Reply, done}
use shahboard.Tracker
use shahboard.Game.{Game, GameSettings, status_deactive, resign_player, resign_with}
use shahboard.Game.Encoding.{decode-encode, IsCanonical, reread}
use shahboard.GameService.Cache.{
  CacheValue, id_value, cached, game_key, player_game_key, add_game, add_game_script,
  get_game_id_by_user_id,
}
use shahboard.GameService.Endings.{keys-ne}
use shahboard.GameService.{Env, State, active_game, resign_game, handle_player_resigned}
use shahboard.GameService.Queries.{
  blank, cached_game, get_game_pgn, get_live_game_pgn_by_user_id, disconnections, get_game_by_id,
  resing_by_player,
}

is_active : (n : ℕ) → n ≢ status_deactive → (n == status_deactive) ≡ false
is_active n h = ground arith

module _ (chess : ChessLib) (pgn_of fen_of : chess.Board → Bytes) (redis : RedisLib CacheValue)
    (settings : GameSettings) where
  open chess use {Board, marshal_text, unmarshal_text}
  open redis use {Db, get}

  -- A player who resigns by a request to an instance that manages the game, active, changes the
  -- state exactly as his event does.
  pub resing_by_player-handle_player_resigned :
      (env : Env) (read : Reply) (s : State Board Db) (d : PlayerEvent) (g : Game Board)
      → active_game chess redis settings s d.game_id ≡ some g
      → (resing_by_player chess pgn_of fen_of redis settings env read s d.game_id d.player_id).0
        ≡ handle_player_resigned chess redis settings env s d
  unfolding resing_by_player handle_player_resigned active_game resign_game get_game_by_id
      resign_player resign_with
  resing_by_player-handle_player_resigned env read s d g a = ground arith

  -- A game as the cache gives it back.
  abbrev pub found : Game Board → Board → Game Board
  found g b = reread chess (blank chess pgn_of fen_of redis settings) g b

  -- What makes a game's text readable.
  abbrev pub IsReadable : Game Board → Board → Type 0
  IsReadable g b =
      IsCanonical g.id
      × IsCanonical g.player1.id
      × IsCanonical g.player2.id
      × (g.status < 2 ^ 8)
      × (g.player1.color < 2 ^ 8)
      × (g.player2.color < 2 ^ 8)
      × (unmarshal_text (marshal_text g.board) ≡ some b)

  cached_game-found :
      (g : Game Board) (b : Board) (db : Db)
      → IsReadable g b
      → get (game_key g.id) db ≡ some (cached chess redis g)
      → cached_game chess pgn_of fen_of redis settings done g.id db ≡ some (some (found g b))
  unfolding cached_game cached
  cached_game-found g b db (i, p, q, s, c, d, u) e =
      ground
        (arith, decode-encode chess (blank chess pgn_of fen_of redis settings) g b i p q s c d u)

  add_game-found :
      RedisLaws redis
      → (g : Game Board) (p : ObjectId) (db : Db) → get (game_key g.id) db ≡ none
      → (p ≡ g.player1.id) ⊎ (p ≡ g.player2.id)
      → (get (player_game_key p) (add_game chess redis done g db).0 ≡ some (id_value g.id))
        × (get (game_key g.id) (add_game chess redis done g db).0 ≡ some (cached chess redis g))
  unfolding add_game add_game_script
  add_game-found laws g p db free who =
      let k1 = player_game_key g.player1.id in
      let k2 = player_game_key g.player2.id in
      let gk = game_key g.id in
      let v = id_value g.id in
      let db1 = redis.set gk (cached chess redis g) 0 db in
      let db2 = redis.set k1 v 0 db1 in
      let new = laws.set_nx_new gk (cached chess redis g) db free in
      let first = laws.get-set k1 (player_game_key p) v 0 db1 in
      let second = laws.get-set k2 (player_game_key p) v 0 db2 in
      (
        elim who [
          | inl e ↦ let k = ap player_game_key e in ground (arith, new, first, second)
          | inr e ↦ let k = ap player_game_key e in ground (arith, new, first, second)
        ],
        ground (
          arith,
          new,
          laws.get-set k2 gk v 0 db2,
          laws.get-set k1 gk v 0 db1,
          laws.get-set gk gk (cached chess redis g) 0 db,
          keys-ne g.id g.player1.id,
          keys-ne g.id g.player2.id,
        ),
      )

  get_game_pgn-found :
      (s : State Board Db) (g : Game Board) (b : Board)
      → cached_game chess pgn_of fen_of redis settings done g.id s.db ≡ some (some (found g b))
      → g.status ≢ status_deactive
      → get_game_pgn chess pgn_of fen_of redis settings done s g.id
        ≡ some (record {
          id = g.id;
          pgn = pgn_of b;
          players_disconnection = disconnections (Tracker.get s.tracker g.id);
        })
  unfolding get_game_pgn
  get_game_pgn-found s g b e active = rw (e, is_active g.status active) refl

  get_live_game_pgn_by_user_id-get_game_pgn :
      (s : State Board Db) (g : Game Board) (p : ObjectId)
      → get (player_game_key p) s.db ≡ some (id_value g.id)
      → IsCanonical g.id
      → is_zero g.id ≡ false
      → get_live_game_pgn_by_user_id chess pgn_of fen_of redis settings done done s p
        ≡ get_game_pgn chess pgn_of fen_of redis settings done s g.id
  unfolding get_live_game_pgn_by_user_id get_game_id_by_user_id
  get_live_game_pgn_by_user_id-get_game_pgn s g p e i z = ground arith

  -- Once a game is added to the cache, each of its players who asks for his live game gets its
  -- identifier and its moves, with the players who are absent. The conditions are that Redis
  -- answers, that the identifier is new to the cache and not zero, that the game is not
  -- deactivated, and that its text can be read back.
  pub get_live_game_pgn_by_user_id-add_game :
      RedisLaws redis
      → (s : State Board Db) (g : Game Board) (b : Board) (p : ObjectId)
      → get (game_key g.id) s.db ≡ none
      → (p ≡ g.player1.id) ⊎ (p ≡ g.player2.id)
      → IsReadable g b
      → is_zero g.id ≡ false
      → g.status ≢ status_deactive
      → get_live_game_pgn_by_user_id chess pgn_of fen_of redis settings done done
          (record s { db = (add_game chess redis done g s.db).0 })
          p
        ≡ some (record {
          id = g.id;
          pgn = pgn_of b;
          players_disconnection = disconnections (Tracker.get s.tracker g.id);
        })
  get_live_game_pgn_by_user_id-add_game laws s g b p free who readable z active =
      let (k, e) = add_game-found laws g p s.db free who in
      let after = record s { db = (add_game chess redis done g s.db).0 } in
      get_live_game_pgn_by_user_id-get_game_pgn after g p k readable.0 z
      ∙ get_game_pgn-found after g b (cached_game-found g b after.db readable e) active
