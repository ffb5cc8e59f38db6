-- ===== src/Redis.antt =====
-- The key-value commands of Redis that the services use. Redis is not part of the repository: a
-- database is abstract, and the laws state the documented behaviour that is relied on. The passing
-- of a key's time to live is not modelled; a snapshot holds what has not expired.
use shahboard.Base.{ℕ, Bool, true, false, ◌≡◌, Option, none, some, if◌then◌else◌}
use shahboard.Types.{Bytes, same_id}

pub record RedisLib (V : Type 0) : Type 1 where
  pub Db : Type 0
  -- `GET`
  pub get : Bytes → Db → Option V
  -- `SET` with a time to live, 0 for none
  pub set : Bytes → V → ℕ → Db → Db
  -- `DEL`, for one key
  pub del : Bytes → Db → Db
  -- `SETNX`, and `MSETNX` with one key: was the key set?
  pub set_nx : Bytes → V → Db → Db × Bool
  -- `EXPIRE`
  pub expire : Bytes → ℕ → Db → Db

pub record RedisLaws {V : Type 0} (r : RedisLib V) : Type 0 where
  pub get-set :
      (k j : Bytes) (v : V) (ttl : ℕ) (db : r.Db)
      → r.get j (r.set k v ttl db) ≡ (if same_id k j then some v else r.get j db)
  pub get-del :
      (k j : Bytes) (db : r.Db) → r.get j (r.del k db) ≡ (if same_id k j then none else r.get j db)
  pub set_nx_old :
      (k : Bytes) (v w : V) (db : r.Db) → r.get k db ≡ some w → r.set_nx k v db ≡ (db, false)
  pub set_nx_new :
      (k : Bytes) (v : V) (db : r.Db) → r.get k db ≡ none → r.set_nx k v db ≡ (r.set k v 0 db, true)
