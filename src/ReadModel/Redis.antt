-- ===== src/ReadModel/Redis.antt =====
-- The commands that rediscache sends, over a store of texts: strings by key, and hashes by key and
-- field. Keys may expire at any time; that is a step of its own (`evict`).
use second_brain.Prelude.{
  Bool, Dict, List, Option, Outcome, Text, [], delete, err, if◌then◌else◌, insert, lookup, none, ok,
  or_else, some, ◌∷◌,
}

pub record Redis : Type 0 where
  pub strings : Dict Text
  pub hashes : Dict (Dict Text)

pub data Command : Type 0 where
  set : Text → Text → Command
  hset : Text → Dict Text → Command
  expire : Text → Command

-- `for field, value := range fields { hash[field] = value }`.
unfoldable pub put_fields : Dict Text → Dict Text → Dict Text
put_fields [] hash = hash
put_fields ((field, value) ∷ fields) hash = insert field value (put_fields fields hash)

abbrev pub hash_at : Text → Redis → Dict Text
hash_at key redis = or_else (lookup key redis.hashes) []

-- `EXPIRE` changes no value; the time to live is not modelled.
unfoldable pub exec : Command → Redis → Redis
unfolding put_fields
exec (set key value) redis = record redis { strings = insert key value redis.strings }
exec (hset key fields) redis = record redis {
  hashes = insert key (put_fields fields (hash_at key redis)) redis.hashes;
}
exec (expire key) redis = redis

unfoldable pub evict : Text → Redis → Redis
evict key redis = record redis {
  strings = delete key redis.strings;
  hashes = delete key redis.hashes;
}

-- What the connection answers to a pipeline: all commands took effect, or an error came back and
-- those took effect that the list marks.
pub data Answer : Type 0 where
  done : Answer
  broken : List Bool → Text → Answer

unfoldable pub exec_all : List Command → Redis → Redis
exec_all [] redis = redis
exec_all (c ∷ cs) redis = exec_all cs (exec c redis)

unfoldable pub exec_marked : List Bool → List Command → Redis → Redis
exec_marked [] cs redis = redis
exec_marked (m ∷ ms) [] redis = redis
exec_marked (m ∷ ms) (c ∷ cs) redis = exec_marked ms cs (if m then exec c redis else redis)

-- `pipe.Exec`.
unfoldable pub exec_pipeline : Answer → List Command → Redis → Redis × Outcome Text (Unit {0})
unfolding exec_all exec_marked exec
exec_pipeline done cs redis = (exec_all cs redis, ok tt)
exec_pipeline (broken marks e) cs redis = (exec_marked marks cs redis, err e)

-- `ErrReadModelCacheMiss`, or another error.
pub data CacheError : Type 0 where
  miss : CacheError
  failed : Text → CacheError

-- `GET`, where `net` says which commands fail, with `redisError`.
unfoldable pub get : (Text → Option Text) → Text → Redis → Outcome CacheError Text
get net key redis = elim (net key) [
  | some e ↦ err (failed e)
  | none ↦ elim (lookup key redis.strings) [ none ↦ err miss | some raw ↦ ok raw ]
]
