-- ===== src/Bot/Talk.antt =====
-- client-go/bot/chat.go, view.go and resign.go: what a bot says, which games it views, and how it
-- resigns. The random letters are arguments.
use shahboard.Base.{
  ℕ, ℕ_discrete, ◌≡◌, ◌≢◌, refl, subst, Option-cases, inl, inr, >>=-eq-some, Bool, not, ◌||◌, List,
  [], ◌∷◌, ◌++◌, Option, none, some, ◌>>=◌, if◌then◌else◌, ◌==◌, All, arith, insert, delete, lookup,
  is_some,
}
use shahboard.Types.{Bytes, bytes, ObjectId, same_id, dec_id}
use shahboard.Event.{ChatMsg, PlayerEvent}
use shahboard.Bot.{BotGame}

-- What follows the first quote.
unfoldable after_quote : Bytes → Option Bytes
after_quote [] = none
after_quote (c ∷ cs) = if c == 39 then some cs else after_quote cs

-- What comes before the first quote.
unfoldable before_quote : Bytes → Option Bytes
before_quote [] = none
before_quote (c ∷ cs) = if c == 39 then some [] else (before_quote cs >>= λ s. some (c ∷ s))

-- `extractMsg`: the group of the first match of `'([^']*)'`, "" for none.
unfoldable pub extract_msg : Bytes → Bytes
unfolding after_quote before_quote
extract_msg s = elim (after_quote s >>= before_quote) [ none ↦ [] | some m ↦ m ]

-- What a bot with the white pieces says.
abbrev pub white_text : Bytes → Bytes
white_text random =
    bytes "random msg by white:" ++ (10 ∷ bytes " '") ++ (random ++ (bytes "'" ++ 10 ∷ []))

-- What a bot with the black pieces answers.
abbrev pub black_text : Bytes → Bytes → Bytes
black_text extracted random =
    bytes "random reply to '"
    ++ (extracted
        ++ (bytes "' by black is:" ++ (10 ∷ bytes " '") ++ (random ++ (bytes "'" ++ 10 ∷ []))))

module _ {Board : Type 0} where
  -- The message that `sendChat` sends.
  unfoldable chat_msg : BotGame Board → Bytes → ℕ → ChatMsg
  chat_msg g content unix = record {
    id = bytes "";
    sender_id = g.player_id;
    game_id = g.id;
    content = content;
    timestamp = unix;
  }

  -- What a bot with the black pieces answers to an approved message, if it does.
  unfoldable pub chat_reply : BotGame Board → ChatMsg → Bytes → ℕ → Option ChatMsg
  unfolding extract_msg chat_msg
  chat_reply g e random unix =
      if not (same_id e.game_id g.id) || not (same_id e.sender_id g.opponent_id)
      then none
      else if same_id (extract_msg e.content) (bytes "")
      then none
      else some (chat_msg g (black_text (extract_msg e.content) random) unix)

  -- `resign`
  unfoldable resign_event : BotGame Board → ℕ → PlayerEvent
  resign_event g unix = record {
    id = bytes "";
    game_id = g.id;
    player_id = g.player_id;
    timestamp = unix;
  }

-- `viewManager`: the games that are viewed.
abbrev ViewManager : Type 0
ViewManager = List (ObjectId × Unit {0})

unfoldable add_view : ViewManager → ObjectId → ViewManager
add_view v id = insert dec_id id tt v

unfoldable remove_view : ViewManager → ObjectId → ViewManager
remove_view v id = if is_some (lookup dec_id id v) then delete dec_id id v else v

unfoldable is_viewed : ViewManager → ObjectId → Bool
is_viewed v id = is_some (lookup dec_id id v)

before_quote_no_quote : (s m : Bytes) → before_quote s ≡ some m → All (λ c. c ≢ 39) m
unfolding before_quote
before_quote_no_quote [] m e = cc
before_quote_no_quote (c ∷ cs) m e = elim (ℕ_discrete c 39) [
  | yes q ↦ subst (All (λ c. c ≢ 39)) {x = []} (ground arith) tt
  | no q ↦
      let rest : (before_quote cs >>= λ s. some (c ∷ s)) ≡ some m = ground arith in
      let (m', here, same) = >>=-eq-some (before_quote cs) _ rest in
      subst (All (λ c. c ≢ 39)) {x = c ∷ m'} (cc same) (q, before_quote_no_quote cs m' here)
]

before_quote-append :
    (m rest : Bytes) → All (λ c. c ≢ 39) m → before_quote (m ++ (39 ∷ rest)) ≡ some m
unfolding before_quote
before_quote-append [] rest h = refl
before_quote-append (c ∷ m) rest h = ground (arith, before_quote-append m rest h.1)

-- What is read from a message has no quote.
extract_msg_no_quote : (s : Bytes) → All (λ c. c ≢ 39) (extract_msg s)
unfolding extract_msg
extract_msg_no_quote s = elim (Option-cases (after_quote s >>= before_quote)) [
  | inl e ↦ rw (e, extract_msg) tt
  | inr (m, e) ↦
      let (t, here, rest) = >>=-eq-some (after_quote s) before_quote e in
      rw (e, extract_msg) (before_quote_no_quote t m rest)
]

extract_msg-black_text :
    (m random : Bytes) → All (λ c. c ≢ 39) m → extract_msg (black_text m random) ≡ m
unfolding extract_msg
extract_msg-black_text m random h =
    let rest = bytes " by black is:" ++ (10 ∷ bytes " '") ++ (random ++ (bytes "'" ++ 10 ∷ [])) in
    let read : (after_quote (black_text m random) >>= before_quote) ≡ some m =
      before_quote-append m rest h in
    rw (read, extract_msg)

-- The answer of a bot quotes the very text that it read, whatever the message was, so that who reads
-- the answer in the same way reads that text again.
extract_msg-chat_reply :
    {Board : Type 0} (g : BotGame Board) (e : ChatMsg) (random : Bytes) (unix : ℕ) (r : ChatMsg)
    → chat_reply g e random unix ≡ some r
    → (extract_msg r.content ≡ extract_msg e.content) × (r.game_id ≡ e.game_id)
unfolding chat_reply
extract_msg-chat_reply g e random unix r h =
    let m = extract_msg e.content in
    let answer : chat_msg g (black_text m random) unix ≡ r = ground arith in
    subst (λ (x : ChatMsg). (extract_msg x.content ≡ m) × (x.game_id ≡ e.game_id)) answer
      (unfold chat_msg in
        (extract_msg-black_text m random (extract_msg_no_quote e.content), ground arith))
