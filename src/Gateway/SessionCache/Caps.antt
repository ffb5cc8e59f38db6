-- ===== src/Gateway/SessionCache/Caps.antt =====
-- wsgateway/ws/cache.go: how many sessions a user gets.
use shahboard.Base.{
  ℕ, suc, ◌≤◌, true, false, List, [], ◌∷◌, some, ◌≡◌, arith, length, lookup, insert, lookup-insert,
}
use shahboard.Types.{Bytes, ObjectId, object_zero, dec_id}
use shahboard.Event.Publisher.{Reply}
use shahboard.RedisHashes.{HashLib, HashLaws}
use shahboard.Gateway.SessionCache.{
  SessionInCache, user_key, in_cache, add_user_session_id, add_user_session_script,
}

length-insert :
    (f : Bytes) (v : SessionInCache) (m : List (Bytes × SessionInCache))
    → length (insert dec_id f v m) ≤ suc (length m)
unfolding insert
length-insert f v [] = omega arith
length-insert f v ((g, x) ∷ m) = ground (arith, length-insert f v m)

module _ (redis : HashLib SessionInCache) (laws : HashLaws redis) where
  open redis use {Db, hgetall}

  -- The script never makes any user's cached sessions more than the cap, whatever Redis answers:
  -- a user within the cap stays within it. The answer `true` means that the session is in the cache
  -- with the zero game; the answer `false` that the user has as many sessions as the cap allows, or more, and
  -- that nothing has changed.
  pub add_user_session_id-cap :
      (r : Reply) (cap : ℕ) (user id : ObjectId) (now : ℕ) (db : Db)
      → ((k : Bytes)
          → length (hgetall k db) ≤ cap
          → length (hgetall k (add_user_session_id redis r cap user id now db).0) ≤ cap)
        × ((add_user_session_id redis r cap user id now db).1 ≡ some true
            → lookup dec_id id
                (hgetall (user_key user) (add_user_session_id redis r cap user id now db).0)
              ≡ some (in_cache user id object_zero now))
        × ((add_user_session_id redis r cap user id now db).1 ≡ some false
            → (cap ≤ length (hgetall (user_key user) db))
              × ((add_user_session_id redis r cap user id now db).0 ≡ db))
  unfolding add_user_session_id add_user_session_script
  add_user_session_id-cap r cap user id now db =
      let key = user_key user in
      let value = in_cache user id object_zero now in
      let entries = hgetall key db in
      (
        λ k h. ground (arith, laws.hgetall-hset key k id value db, length-insert id value entries),
        λ h. ground (
          arith,
          laws.hgetall-hset key key id value db,
          lookup-insert dec_id id id value entries,
        ),
        λ h. (ground arith, ground arith),
      )
