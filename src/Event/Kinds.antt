-- ===== src/Event/Kinds.antt =====
-- `decodeEvent` of event/kafka/subscriber.go: which struct a message's domain and action select.
-- The JSON decoding that follows fills the struct.
use shahboard.Base.{◌≡◌, refl, Option, none, some, if◌then◌else◌}
use shahboard.Types.{Bytes, bytes, same_id, dec_id}
use shahboard.Event.Topics.{domain_user, domain_game, domain_match, domain_game_chat}
use shahboard.Event.{
  Event, game_created, player_moved, move_approved, player_joined, player_resigned, player_left,
  game_ended, claim_draw, draw_response, claim_approved, square_selected, chat_created, msg_sent,
  msg_approved, chat_ended, users_matched, user_created, user_logged_in, user_logged_out, topic_of,
}

-- The structs that a message can be decoded into.
pub data Kind : Type 0 where
  game_created_kind player_moved_kind move_approved_kind player_joined_kind : Kind
  player_resigned_kind player_left_kind game_ended_kind claim_draw_kind : Kind
  draw_response_kind claim_approved_kind square_selected_kind chat_created_kind : Kind
  msg_sent_kind msg_approved_kind chat_ended_kind users_matched_kind : Kind
  user_created_kind user_logged_in_kind user_logged_out_kind : Kind

-- The struct of an event.
unfoldable pub kind_of : Event → Kind
kind_of (game_created e) = game_created_kind
kind_of (player_moved e) = player_moved_kind
kind_of (move_approved e) = move_approved_kind
kind_of (player_joined e) = player_joined_kind
kind_of (player_resigned e) = player_resigned_kind
kind_of (player_left e) = player_left_kind
kind_of (game_ended e) = game_ended_kind
kind_of (claim_draw e) = claim_draw_kind
kind_of (draw_response e) = draw_response_kind
kind_of (claim_approved e) = claim_approved_kind
kind_of (square_selected e) = square_selected_kind
kind_of (chat_created e) = chat_created_kind
kind_of (msg_sent e) = msg_sent_kind
kind_of (msg_approved e) = msg_approved_kind
kind_of (chat_ended e) = chat_ended_kind
kind_of (users_matched e) = users_matched_kind
kind_of (user_created e) = user_created_kind
kind_of (user_logged_in e) = user_logged_in_kind
kind_of (user_logged_out e) = user_logged_out_kind

-- The case `DomainGame`, in the order of the source.
unfoldable game_kind : Bytes → Option Kind
game_kind action =
    if same_id action (bytes "created")
    then some game_created_kind
    else if same_id action (bytes "playerMoved")
    then some player_moved_kind
    else if same_id action (bytes "moveApproved")
    then some move_approved_kind
    else if same_id action (bytes "claimDraw")
    then some claim_draw_kind
    else if same_id action (bytes "playerResponsedDrawOffer")
    then some draw_response_kind
    else if same_id action (bytes "claimDrawApproved")
    then some claim_approved_kind
    else if same_id action (bytes "playerResigned")
    then some player_resigned_kind
    else if same_id action (bytes "playerLeft")
    then some player_left_kind
    else if same_id action (bytes "playerJoined")
    then some player_joined_kind
    else if same_id action (bytes "selectSquare")
    then some square_selected_kind
    else if same_id action (bytes "ended")
    then some game_ended_kind
    else none

-- The case `DomainGameChat`.
unfoldable chat_kind : Bytes → Option Kind
chat_kind action =
    if same_id action (bytes "created")
    then some chat_created_kind
    else if same_id action (bytes "msg_sent")
    then some msg_sent_kind
    else if same_id action (bytes "msg_approved")
    then some msg_approved_kind
    else if same_id action (bytes "ended")
    then some chat_ended_kind
    else none

-- The case `DomainMatch`.
unfoldable match_kind : Bytes → Option Kind
match_kind action = if same_id action (bytes "created") then some users_matched_kind else none

-- The case `DomainUser`.
unfoldable user_kind : Bytes → Option Kind
user_kind action =
    if same_id action (bytes "created")
    then some user_created_kind
    else if same_id action (bytes "loggedIn")
    then some user_logged_in_kind
    else if same_id action (bytes "loggedOut")
    then some user_logged_out_kind
    else none

-- The two nested switches; `none` is the error for an unknown event type.
unfoldable pub decode_kind : Bytes → Bytes → Option Kind
unfolding game_kind chat_kind match_kind user_kind
decode_kind domain action =
    if same_id domain domain_game
    then game_kind action
    else if same_id domain domain_game_chat
    then chat_kind action
    else if same_id domain domain_match
    then match_kind action
    else if same_id domain domain_user
    then user_kind action
    else none

-- Whatever event is published, the domain and the action of its topic, which are what its message
-- carries, select the struct of that event again.
pub decode_kind-topic_of :
    (e : Event) → decode_kind (topic_of e).domain (topic_of e).action ≡ some (kind_of e)
unfolding decode_kind topic_of kind_of dec_id
decode_kind-topic_of (game_created e) = refl
decode_kind-topic_of e = refl
