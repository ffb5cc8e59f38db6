-- ===== src/Gateway/Cleaning/Leaving.antt =====
-- wsgateway/ws/cleaner.go: when the end of a session means that its user has left the game.
use shahboard.Base.{
  true, false, List, [], ◌∷◌, ◌++◌, ◌≡◌, inl, inr, refl, arith, delete, length, ◌==◌, All, ◌∙◌,
  if◌then◌else◌, Bool-cases,
}
use shahboard.Types.{Bytes, bytes, ObjectId, object_zero, dec_id, same_id, is_zero}
use shahboard.Event.{Event, player_left}
use shahboard.Event.Publisher.{done, applied, publish}
use shahboard.RedisHashes.{HashLib, HashLaws}
use shahboard.Gateway.{Session, GatewayEnv}
use shahboard.Gateway.Registry.{Registry}
use shahboard.Gateway.SessionCache.{
  SessionInCache, user_key, viewers_key, count_playing, delete_user_game_session, remove_viewer,
  remove_from_game_viewers_list,
}
use shahboard.Gateway.Requests.{World, publish_one}
use shahboard.Gateway.Cleaning.{leave_game, remove_session}

-- Of a user's cached sessions, only the one with the identifier may have a game.
abbrev pub NoOtherPlays : ObjectId → List (Bytes × SessionInCache) → Type 0
NoOtherPlays id l = All (λ (f, v). ¬ (f ≡ id) → v.game_id ≡ bytes "") l

count_playing-delete :
    (id : ObjectId) (l : List (Bytes × SessionInCache))
    → NoOtherPlays id l
    → count_playing (delete dec_id id l) ≡ 0
unfolding count_playing delete
count_playing-delete id [] h = refl
count_playing-delete id ((f, v) ∷ l) (h, hs) =
    let ih = count_playing-delete id l hs in
    elim (dec_id f id) [ yes e ↦ ground arith | no n ↦ let k = h n in ground arith ]

NoOtherPlays-count :
    (id : ObjectId) (l : List (Bytes × SessionInCache))
    → count_playing (delete dec_id id l) ≡ 0
    → NoOtherPlays id l
unfolding count_playing delete
NoOtherPlays-count id [] h = tt
NoOtherPlays-count id ((f, v) ∷ l) h = elim (dec_id f id) [
  | yes e ↦ ((λ n. elim (n e) [ ]), NoOtherPlays-count id l (ground arith))
  | no n ↦ elim (dec_id v.game_id (bytes "")) [
    | yes k ↦ ((λ m. k), NoOtherPlays-count id l (ground arith))
    | no k ↦ ground arith
  ]
]

-- The message on the user's leaving.
abbrev pub left_of : GatewayEnv → Session → Event
left_of env s = player_left (record {
  id = object_zero;
  game_id = s.play_game_id;
  player_id = s.user_id;
  timestamp = env.unix;
})

module _ (redis : HashLib SessionInCache) (laws : HashLaws redis) where
  open redis use {Db, hgetall}

  hgetall-remove_viewer :
      (u : ObjectId) (gs : List ObjectId) (k : Bytes) (db : Db)
      → hgetall k (remove_viewer redis u gs db) ≡ hgetall k db
  unfolding remove_viewer
  hgetall-remove_viewer u [] k db = refl
  hgetall-remove_viewer u (g ∷ gs) k db =
      hgetall-remove_viewer u gs k _ ∙ laws.hgetall-srem (viewers_key g) k u db

  module _ (env : GatewayEnv) (w : World Db) (s : Session) where
    leave_game-db :
        (k : Bytes)
        → env.redis ≡ done
        → hgetall k (leave_game redis env w s).db ≡ (
            if same_id (user_key s.user_id) k
            then delete dec_id s.id (hgetall k w.db)
            else hgetall k w.db)
    unfolding leave_game delete_user_game_session publish_one
    leave_game-db k r = ground (arith, laws.hgetall-hdel (user_key s.user_id) k s.id w.db)

    leave_game-log :
        env.redis ≡ done
        → applied (env.send (left_of env s)) ≡ true
        → (leave_game redis env w s).log ≡ (
            if count_playing (delete dec_id s.id (hgetall (user_key s.user_id) w.db)) == 0
            then w.log ++ (left_of env s ∷ [])
            else w.log)
    unfolding leave_game delete_user_game_session publish_one publish
    leave_game-log r a =
        ground (arith, laws.hgetall-hdel (user_key s.user_id) (user_key s.user_id) s.id w.db)

  module _ (env : GatewayEnv) (m : Registry ObjectId) (w : World Db) (s : Session) where
    -- The world of `removeSession` when the session has left the lists of viewers.
    abbrev unviewed : World Db
    unviewed = record w {
      db =
          if length s.view_games == 0
          then w.db
          else (remove_from_game_viewers_list redis env.redis s.user_id s.view_games w.db).0;
    }

    hgetall-unviewed : (k : Bytes) → hgetall k unviewed.db ≡ hgetall k w.db
    unfolding remove_from_game_viewers_list
    hgetall-unviewed k = ground (arith, hgetall-remove_viewer s.user_id s.view_games k w.db)

    remove_session-leave_game :
        is_zero s.play_game_id ≡ false
        → (remove_session redis env m w s).1 ≡ leave_game redis env unviewed s
    unfolding remove_session
    remove_session-leave_game z = rw z

    -- When Redis answers and Kafka takes the message, the end of a session that plays deletes its
    -- entry, and no other, among the cached sessions, and publishes that the user has left the
    -- game if, and only if, no other cached session of the user has a game.
    pub remove_session-left :
        is_zero s.play_game_id ≡ false
        → env.redis ≡ done
        → applied (env.send (left_of env s)) ≡ true
        → ((k : Bytes)
            → hgetall k (remove_session redis env m w s).1.db ≡ (
                if same_id (user_key s.user_id) k
                then delete dec_id s.id (hgetall k w.db)
                else hgetall k w.db))
          × (NoOtherPlays s.id (hgetall (user_key s.user_id) w.db)
              → (remove_session redis env m w s).1.log ≡ w.log ++ (left_of env s ∷ []))
          × (¬ NoOtherPlays s.id (hgetall (user_key s.user_id) w.db)
              → (remove_session redis env m w s).1.log ≡ w.log)
    remove_session-left z r a =
        let entries = hgetall (user_key s.user_id) w.db in
        let same = remove_session-leave_game z in
        let log = leave_game-log env unviewed s r a in
        let kept = hgetall-unviewed (user_key s.user_id) in
        (
          λ k. ground (arith, leave_game-db env unviewed s k r, hgetall-unviewed k),
          λ h. let c = count_playing-delete s.id entries h in ground arith,
          λ h. elim (Bool-cases (count_playing (delete dec_id s.id entries) == 0)) [
            | inl e ↦ elim (h (NoOtherPlays-count s.id entries (ground arith))) [ ]
            | inr n ↦ ground arith
          ],
        )
