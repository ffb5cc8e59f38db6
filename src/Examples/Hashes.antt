-- ===== src/Examples/Hashes.antt =====
-- A small Redis of hashes and sets: association lists.
use shahboard.Base.{
  List, [], ◌∷◌, ◌++◌, none, some, ◌≡◌, refl, ap, arith, lookup, insert, delete, delete_all,
  lookup-insert, if◌then◌else◌,
}
use shahboard.Types.{Bytes, dec_id, same_id}
use shahboard.RedisHashes.{HashLib, HashLaws}
use shahboard.Gateway.SessionCache.{SessionInCache}

abbrev Fields : Type 0
Fields = List (Bytes × SessionInCache)

-- The hashes and the sets.
abbrev pub Store : Type 0
Store = List (Bytes × Fields) × List (Bytes × List Bytes)

abbrev fields : Bytes → Store → Fields
fields k db = elim (lookup dec_id k db.0) [ none ↦ [] | some h ↦ h ]

abbrev members : Bytes → Store → List Bytes
members k db = elim (lookup dec_id k db.1) [ none ↦ [] | some l ↦ l ]

abbrev all_keys : Store → List Bytes
all_keys (hs, sets) = names_h hs ++ names_s sets
  where
    names_h : List (Bytes × Fields) → List Bytes
    names_h [] = []
    names_h ((k, h) ∷ l) = k ∷ names_h l

    names_s : List (Bytes × List Bytes) → List Bytes
    names_s [] = []
    names_s ((k, h) ∷ l) = k ∷ names_s l

abbrev without : Bytes → List Bytes → List Bytes
without u [] = []
without u (v ∷ l) = if same_id u v then without u l else v ∷ without u l

abbrev pub hashes : HashLib SessionInCache
hashes = record {
  Db = Store;
  hgetall = fields;
  hset = λ k f v db. (insert dec_id k (insert dec_id f v (fields k db)) db.0, db.1);
  hdel = λ k f db. (insert dec_id k (delete dec_id f (fields k db)) db.0, db.1);
  smembers = members;
  sadd = λ k us db. (db.0, insert dec_id k (members k db ++ us) db.1);
  srem = λ k u db. (db.0, insert dec_id k (without u (members k db)) db.1);
  del = λ ks db. (delete_all dec_id ks db.0, delete_all dec_id ks db.1);
  keys = λ p db. all_keys db;
}

fields-insert :
    (k j : Bytes) (h : Fields) (db : Store)
    → fields j (insert dec_id k h db.0, db.1) ≡ (if same_id k j then h else fields j db)
fields-insert k j h db = ground (arith, lookup-insert dec_id k j h db.0)

pub hlaws : HashLaws hashes
hlaws = record {
  hgetall-hset = λ k j f v db. by_key k j db (λ h. insert dec_id f v h);
  hgetall-hdel = λ k j f db. by_key k j db (λ h. delete dec_id f h);
  hgetall-srem = λ k j u db. refl;
}
  where
    by_key :
        (k j : Bytes) (db : Store) (change : Fields → Fields)
        → fields j (insert dec_id k (change (fields k db)) db.0, db.1)
          ≡ (if same_id k j then change (fields j db) else fields j db)
    by_key k j db change =
        let set = fields-insert k j (change (fields k db)) db in
        elim (dec_id k j) [
          | yes e ↦ let same = ap (λ x. change (fields x db)) e in ground arith
          | no n ↦ ground arith
        ]
