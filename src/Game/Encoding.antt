-- ===== src/Game/Encoding.antt =====
-- gameservice/entity/entity.go: `Decode`, and what it makes of an encoded game.
use shahboard.Base.{
  ℕ, suc, ◌%◌, ◌^◌, ◌<◌, pos, ℤ, negsuc, subst, List, [], ◌∷◌, ◌++◌, Option, none, some, ◌≡◌, ◌≢◌,
  ◌∙◌, refl, arith, ap, All, All-append, ◌>>=◌, ◌==◌, if◌then◌else◌, Option-cases, inl, inr,
}
use mathlib.Core.List.{append_assoc}
use shahboard.Types.{Bytes, ObjectId, Player}
use shahboard.Decimal.{decimal, parse_uint}
use shahboard.Decimal.RoundTrip.{parse_uint-decimal, decimal-IsDigit, IsDigit}
use shahboard.ObjectIds.{parse_object_id, parse_int, format_int}
use shahboard.Chess.{ChessLib}
use shahboard.Game.{Game, encode}

abbrev first_longer : ℕ → List Bytes → List Bytes
first_longer b [] = (b ∷ []) ∷ []
first_longer b (w ∷ ws) = (b ∷ w) ∷ ws

-- `strings.Split` at one byte.
unfoldable split : ℕ → Bytes → List Bytes
split c [] = [] ∷ []
split c (x ∷ xs) = let rest = split c xs in if x == c then [] ∷ rest else first_longer x rest

-- `strings.SplitN` into two at one byte; `none` when the byte is not there.
unfoldable split_in_two : ℕ → Bytes → Option (Bytes × Bytes)
split_in_two c [] = none
split_in_two c (x ∷ xs) =
    if x == c
    then some ([], xs)
    else elim (split_in_two c xs) [ none ↦ none | some (a, b) ↦ some (x ∷ a, b) ]

-- A word of a header.
abbrev IsWord : Bytes → Type 0
IsWord w = All (λ c. (c ≢ 58) × (c ≢ 10)) w

split_word : (w rest : Bytes) → IsWord w → split 58 (w ++ 58 ∷ rest) ≡ w ∷ split 58 rest
unfolding split
split_word [] rest h = refl
split_word (x ∷ w) rest (h, hs) = let ih = split_word w rest hs in ground arith

split_last : (w : Bytes) → IsWord w → split 58 w ≡ w ∷ []
unfolding split
split_last [] h = refl
split_last (x ∷ w) (h, hs) = let ih = split_last w hs in ground arith

split_in_two_line :
    (l rest : Bytes) → All (λ c. c ≢ 10) l → split_in_two 10 (l ++ 10 ∷ rest) ≡ some (l, rest)
unfolding split_in_two
split_in_two_line [] rest h = refl
split_in_two_line (x ∷ l) rest (h, hs) = let ih = split_in_two_line l rest hs in ground arith

digits-IsWord : (l : Bytes) → All IsDigit l → IsWord l
digits-IsWord [] h = tt
digits-IsWord (x ∷ l) (h, hs) = ((omega (arith, h), omega (arith, h)), digits-IsWord l hs)

decimal-IsWord : (n : ℕ) → IsWord (decimal n)
decimal-IsWord n = digits-IsWord (decimal n) (decimal-IsDigit n)

-- An identifier as `ParseObjectId` gives it.
abbrev pub IsCanonical : ObjectId → Type 0
IsCanonical id = parse_object_id id ≡ some id

format_int-IsWord : (i : ℤ) → IsWord (format_int i)
unfolding format_int
format_int-IsWord (pos n) = decimal-IsWord n
format_int-IsWord (negsuc n) = ((omega arith, omega arith), decimal-IsWord (suc n))

IsCanonical-IsWord : (id : ObjectId) → IsCanonical id → IsWord id
unfolding parse_object_id
IsCanonical-IsWord id h = elim (Option-cases (parse_int id)) [
  | inl e ↦ ground arith
  | inr (i, e) ↦
      let same : format_int i ≡ id = ground arith in subst IsWord same (format_int-IsWord i)
]

-- Words with colons between them.
abbrev joined : Bytes → List Bytes → Bytes
joined w [] = w
joined w (v ∷ vs) = w ++ 58 ∷ joined v vs

split-joined :
    (w : Bytes) (ws : List Bytes) → IsWord w → All IsWord ws → split 58 (joined w ws) ≡ w ∷ ws
split-joined w [] h hs = split_last w h
split-joined w (v ∷ vs) h (k, ks) =
    split_word w (joined v vs) h ∙ ap (λ l. w ∷ l) (split-joined v vs k ks)

word-line : (w : Bytes) → IsWord w → All (λ c. c ≢ 10) w
word-line [] h = tt
word-line (x ∷ w) (h, hs) = (h.1, word-line w hs)

joined-line :
    (w : Bytes) (ws : List Bytes) → IsWord w → All IsWord ws → All (λ c. c ≢ 10) (joined w ws)
joined-line w [] h hs = word-line w h
joined-line w (v ∷ vs) h (k, ks) =
    All-append _ w (58 ∷ joined v vs) (word-line w h) (omega arith, joined-line v vs k ks)

module _ (chess : ChessLib) where
  open chess use {Board, marshal_text, unmarshal_text}

  abbrev decoded_player : ObjectId → ℕ → Player
  decoded_player id color = record { id = id; score = pos 0; color = color % 2 ^ 8 }

  -- The header of `Decode`, and the text of the board.
  unfoldable decode_fields : Game Board → List Bytes → Bytes → Option (Game Board)
  unfolding parse_object_id parse_uint
  decode_fields g (f0 ∷ f1 ∷ f2 ∷ f3 ∷ f4 ∷ f5 ∷ []) text = do
    id ← parse_object_id f0
    status ← parse_uint f1
    player1 ← parse_object_id f2
    color1 ← parse_uint f3
    player2 ← parse_object_id f4
    color2 ← parse_uint f5
    board ← unmarshal_text text
    some (record g {
      id = id;
      status = status % 2 ^ 8;
      player1 = decoded_player player1 color1;
      player2 = decoded_player player2 color2;
      board = board;
    })
  decode_fields g _ text = none

  -- `Decode` of the receiver `g`; `none` is its error, after which no caller uses the receiver.
  unfoldable pub decode : Game Board → Bytes → Option (Game Board)
  unfolding split_in_two split decode_fields
  decode g encoded = elim (split_in_two b'\n' encoded) [
    | none ↦ none
    | some (header, text) ↦ decode_fields g (split b':' header) text
  ]

  encode-joined :
      (g : Game Board)
      → encode chess g
        ≡ joined g.id (
            decimal g.status
            ∷ g.player1.id
            ∷ decimal g.player1.color
            ∷ g.player2.id
            ∷ decimal g.player2.color
            ∷ [])
          ++ 10 ∷ marshal_text g.board
  unfolding encode
  encode-joined g = simp (append_assoc)

  decode_line :
      (r : Game Board) (header text : Bytes) {fields : List Bytes}
      → All (λ c. c ≢ 10) header
      → split 58 header ≡ fields
      → decode r (header ++ 10 ∷ text) ≡ decode_fields r fields text
  unfolding decode
  decode_line r header text h e = ground (arith, split_in_two_line header text h)

  -- The game with the players' scores gone, and the text of its board read again.
  abbrev pub reread : Game Board → Game Board → Board → Game Board
  reread r g b = record r {
    id = g.id;
    status = g.status;
    player1 = record { id = g.player1.id; score = pos 0; color = g.player1.color };
    player2 = record { id = g.player2.id; score = pos 0; color = g.player2.color };
    board = b;
  }

  -- Decoding an encoded game gives back its identifier, its status, and the identifiers and colours
  -- of its players, with the board that the chess library reads from the text that it wrote. The
  -- conditions are that the three identifiers are ones that `ParseObjectId` gives, that the status
  -- and the colours are bytes, and that the chess library reads its own text. The players' scores
  -- are lost, and the rest of the receiver is as it was.
  pub decode-encode :
      (r g : Game Board) (b : Board)
      → IsCanonical g.id
      → IsCanonical g.player1.id
      → IsCanonical g.player2.id
      → g.status < 2 ^ 8
      → g.player1.color < 2 ^ 8
      → g.player2.color < 2 ^ 8
      → unmarshal_text (marshal_text g.board) ≡ some b
      → decode r (encode chess g) ≡ some (reread r g b)
  unfolding decode decode_fields
  decode-encode r g b i p q s c d u =
      let words =
        decimal g.status
        ∷ g.player1.id
        ∷ decimal g.player1.color
        ∷ g.player2.id
        ∷ decimal g.player2.color
        ∷ [] in
      let first = IsCanonical-IsWord g.id i in
      let rest : All IsWord words = (
        decimal-IsWord g.status,
        (
          IsCanonical-IsWord g.player1.id p,
          (
            decimal-IsWord g.player1.color,
            (IsCanonical-IsWord g.player2.id q, (decimal-IsWord g.player2.color, tt)),
          ),
        ),
      ) in
      ap (decode r) (encode-joined g)
      ∙ decode_line r (joined g.id words) (marshal_text g.board) (joined-line g.id words first rest)
          (split-joined g.id words first rest)
      ∙ rw
          (
            i,
            parse_uint-decimal g.status (omega (arith, s)),
            p,
            parse_uint-decimal g.player1.color (omega (arith, c)),
            q,
            parse_uint-decimal g.player2.color (omega (arith, d)),
            u,
          )
          (ground arith)
