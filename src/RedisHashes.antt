-- ===== src/RedisHashes.antt =====
-- The commands of Redis on hashes and sets that the gateway uses. Redis is not part of the
-- repository: a database is abstract, and the laws state the documented behaviour that is relied
-- on. A hash is the list of its fields; the order, which Redis leaves open, is that of the list.
use shahboard.Base.{◌≡◌, List, insert, delete, if◌then◌else◌}
use shahboard.Types.{Bytes, same_id, dec_id}

pub record HashLib (V : Type 0) : Type 1 where
  pub Db : Type 0
  -- `HGETALL`, which `HLEN` and `HVALS` go by
  pub hgetall : Bytes → Db → List (Bytes × V)
  pub hset : Bytes → Bytes → V → Db → Db
  pub hdel : Bytes → Bytes → Db → Db
  pub smembers : Bytes → Db → List Bytes
  pub sadd : Bytes → List Bytes → Db → Db
  pub srem : Bytes → Bytes → Db → Db
  -- `DEL`, for several keys
  pub del : List Bytes → Db → Db
  -- `KEYS` of a pattern that ends in `*`, by what stands before it
  pub keys : Bytes → Db → List Bytes

-- Documented behaviour.
pub record HashLaws {V : Type 0} (r : HashLib V) : Type 0 where
  pub hgetall-hset :
      (k j f : Bytes) (v : V) (db : r.Db)
      → r.hgetall j (r.hset k f v db)
        ≡ (if same_id k j then insert dec_id f v (r.hgetall j db) else r.hgetall j db)
  pub hgetall-hdel :
      (k j f : Bytes) (db : r.Db)
      → r.hgetall j (r.hdel k f db)
        ≡ (if same_id k j then delete dec_id f (r.hgetall j db) else r.hgetall j db)
  pub hgetall-srem : (k j u : Bytes) (db : r.Db) → r.hgetall j (r.srem k u db) ≡ r.hgetall j db
