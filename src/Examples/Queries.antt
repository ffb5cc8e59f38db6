-- ===== src/Examples/Queries.antt =====
-- The queries of the game service on the small board and cache, and their theorems applied there.
use shahboard.Base.{lookup, pos, false, [], ◌∷◌, none, some, ◌≡◌, refl, arith}
use shahboard.Types.{Bytes, bytes, object_zero, is_zero, dec_id}
use shahboard.Decimal.{decimal, parse_uint, parse_digits}
use shahboard.ObjectIds.{parse_object_id, parse_int, signed, format_int}
use shahboard.Event.Publisher.{done}
use shahboard.Game.{encode}
use shahboard.Game.Encoding.{decode, reread, IsCanonical, decode-encode}
use shahboard.MatchService.{MatchService, MatchInput, new_service, match_step, asks, ticks}
use shahboard.MatchService.Pairs.{Served, Served-IsFit, IsFit}
use shahboard.GameService.Cache.{game_key}
use shahboard.GameService.Invariant.{Inv}
use shahboard.GameService.Matched.{handle_events_of, Served-Inv}
use shahboard.GameService.Answers.{IsReadable}
use shahboard.Examples.Boards.{Board, chess, laws}
use shahboard.Examples.Caches.{redis}
use shahboard.Examples.Games.{settings, game}
use shahboard.Examples.Services.{env, idle, busy, busy-Inv}

-- The text of a board.
abbrev pub shown : Board → Bytes
shown b = chess.marshal_text b

abbrev pub reread_board : Board
reread_board = record {
  tags = [];
  moves = chess.marshal_text game.board ∷ [];
  outcome = game.board.outcome;
}

pub game-IsCanonical : IsCanonical game.id
unfolding parse_object_id parse_int signed format_int parse_uint parse_digits decimal
game-IsCanonical = refl

pub ann-IsCanonical : IsCanonical game.player1.id
unfolding parse_object_id parse_int signed format_int parse_uint parse_digits decimal
ann-IsCanonical = refl

bob-IsCanonical : IsCanonical game.player2.id
unfolding parse_object_id parse_int signed format_int parse_uint parse_digits decimal
bob-IsCanonical = refl

pub game-IsReadable : IsReadable chess shown shown redis settings game reread_board
game-IsReadable = (
  game-IsCanonical,
  ann-IsCanonical,
  bob-IsCanonical,
  omega arith,
  omega arith,
  omega arith,
  refl,
)

pub uncached : redis.get (game_key game.id) idle.db ≡ none
unfolding lookup
uncached = refl

pub not_zero : is_zero game.id ≡ false
unfolding is_zero dec_id
not_zero = refl

-- Two users ask for an opponent, and the engine matches them.
abbrev first_asks : MatchInput
first_asks = asks (bytes "1") (some object_zero) (some (pos 1200))

abbrev second_asks : MatchInput
second_asks = asks (bytes "2") (some object_zero) none

abbrev tick : MatchInput
tick = ticks (λ n. bytes "50") 3 (λ e. done)

abbrev two_wait : MatchService
two_wait = match_step (match_step new_service first_asks) second_asks

abbrev matching : MatchService
matching = match_step two_wait tick

matching-Served : Served matching
matching-Served = Served.next two_wait tick (
    Served.next (match_step new_service first_asks) second_asks
      (Served.next new_service first_asks Served.opened))

decode-encode_example :
    decode chess game (encode chess game) ≡ some (reread chess game game reread_board)
decode-encode_example =
    decode-encode chess game game reread_board game-IsCanonical ann-IsCanonical bob-IsCanonical
      (omega arith) (omega arith) (omega arith) refl

Served-Inv_example : Inv (handle_events_of chess redis settings (λ n. env) busy matching.log)
Served-Inv_example =
    Served-Inv chess redis settings laws matching matching-Served (λ n. env) busy busy-Inv

Served-IsFit_example : IsFit matching
Served-IsFit_example = Served-IsFit matching matching-Served
