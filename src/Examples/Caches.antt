-- ===== src/Examples/Caches.antt =====
-- A small Redis: an association list.
use shahboard.Base.{
  true, false, List, lookup, insert, delete, lookup-insert, lookup-delete, arith, is_some,
  if◌then◌else◌,
}
use shahboard.Types.{Bytes, dec_id}
use shahboard.Redis.{RedisLib, RedisLaws}
use shahboard.GameService.Cache.{CacheValue}

abbrev pub redis_of : (V : Type 0) → RedisLib V
redis_of V = record {
  Db = List (Bytes × V);
  get = λ k db. lookup dec_id k db;
  set = λ k v ttl db. insert dec_id k v db;
  del = λ k db. delete dec_id k db;
  set_nx =
      λ k v db. if is_some (lookup dec_id k db) then (db, false) else (insert dec_id k v db, true);
  expire = λ k ttl db. db;
}

abbrev pub redis : RedisLib CacheValue
redis = redis_of CacheValue

pub rlaws : RedisLaws redis
rlaws = record {
  get-set = λ k j v ttl db. lookup-insert dec_id k j v db;
  get-del = λ k j db. lookup-delete dec_id k j db;
  set_nx_old = λ k v w db e. ground arith;
  set_nx_new = λ k v db e. ground arith;
}
