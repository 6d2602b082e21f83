-- ===== src/ReadModel/Stored.antt =====
-- What a pipeline leaves of the strings and the hashes, and what the manifest reads as afterwards.
use second_brain.Prelude.{
  ok, All, Bool, List, Text, [], arith, false, inl, inr, lookup, lookup-insert, refl, true, ◌==◌,
  ◌∙◌, ◌∷◌, ◌≡◌, ◌⊎◌,
}
use second_brain.ReadModel.Redis.{
  Answer, Command, Redis, broken, done, exec, exec_all, exec_marked, exec_pipeline, expire, hash_at,
  hset, put_fields, set,
}

-- The command leaves the string, or the hash, at the key alone.
abbrev pub SparesString : Text → Command → Type 0
SparesString k (set key value) = (key == k) ≡ false
SparesString k (hset key fields) = Unit
SparesString k (expire key) = Unit

abbrev pub SparesHash : Text → Command → Type 0
SparesHash k (set key value) = Unit
SparesHash k (hset key fields) = (key == k) ≡ false
SparesHash k (expire key) = Unit

exec-string :
    (k : Text) (c : Command) (r : Redis)
    → SparesString k c
    → lookup k (exec c r).strings ≡ lookup k r.strings
unfolding exec
exec-string k (set key value) r h = ground (arith, lookup-insert key k value r.strings)
exec-string k (hset key fields) r h = refl
exec-string k (expire key) r h = refl

exec-hash :
    (k : Text) (c : Command) (r : Redis)
    → SparesHash k c
    → lookup k (exec c r).hashes ≡ lookup k r.hashes
unfolding exec
exec-hash k (set key value) r h = refl
exec-hash k (hset key fields) r h =
    ground (arith, lookup-insert key k (put_fields fields (hash_at key r)) r.hashes)
exec-hash k (expire key) r h = refl

pub exec_all-string :
    (k : Text) (cs : List Command) (r : Redis)
    → All (SparesString k) cs
    → lookup k (exec_all cs r).strings ≡ lookup k r.strings
unfolding exec_all
exec_all-string k [] r h = refl
exec_all-string k (c ∷ cs) r (hc, h) = exec_all-string k cs (exec c r) h ∙ exec-string k c r hc

exec_marked-string :
    (k : Text) (ms : List Bool) (cs : List Command) (r : Redis)
    → All (SparesString k) cs
    → lookup k (exec_marked ms cs r).strings ≡ lookup k r.strings
unfolding exec_marked
exec_marked-string k [] cs r h = refl
exec_marked-string k (m ∷ ms) [] r h = refl
exec_marked-string k (true ∷ ms) (c ∷ cs) r (hc, h) =
    exec_marked-string k ms cs (exec c r) h ∙ exec-string k c r hc
exec_marked-string k (false ∷ ms) (c ∷ cs) r (hc, h) = exec_marked-string k ms cs r h

exec_all-hash :
    (k : Text) (cs : List Command) (r : Redis)
    → All (SparesHash k) cs
    → lookup k (exec_all cs r).hashes ≡ lookup k r.hashes
unfolding exec_all
exec_all-hash k [] r h = refl
exec_all-hash k (c ∷ cs) r (hc, h) = exec_all-hash k cs (exec c r) h ∙ exec-hash k c r hc

exec_marked-hash :
    (k : Text) (ms : List Bool) (cs : List Command) (r : Redis)
    → All (SparesHash k) cs
    → lookup k (exec_marked ms cs r).hashes ≡ lookup k r.hashes
unfolding exec_marked
exec_marked-hash k [] cs r h = refl
exec_marked-hash k (m ∷ ms) [] r h = refl
exec_marked-hash k (true ∷ ms) (c ∷ cs) r (hc, h) =
    exec_marked-hash k ms cs (exec c r) h ∙ exec-hash k c r hc
exec_marked-hash k (false ∷ ms) (c ∷ cs) r (hc, h) = exec_marked-hash k ms cs r h

-- However a pipeline ends, it leaves alone what its commands leave alone.
pub exec_pipeline-string :
    (k : Text) (answer : Answer) (cs : List Command) (r : Redis)
    → All (SparesString k) cs
    → lookup k (exec_pipeline answer cs r).0.strings ≡ lookup k r.strings
unfolding exec_pipeline
exec_pipeline-string k done cs r h = exec_all-string k cs r h
exec_pipeline-string k (broken marks e) cs r h = exec_marked-string k marks cs r h

pub exec_pipeline-hash :
    (k : Text) (answer : Answer) (cs : List Command) (r : Redis)
    → All (SparesHash k) cs
    → lookup k (exec_pipeline answer cs r).0.hashes ≡ lookup k r.hashes
unfolding exec_pipeline
exec_pipeline-hash k done cs r h = exec_all-hash k cs r h
exec_pipeline-hash k (broken marks e) cs r h = exec_marked-hash k marks cs r h

-- One command either takes effect or does not.
pub exec_pipeline_single :
    (answer : Answer) (c : Command) (r : Redis)
    → ((exec_pipeline answer (c ∷ []) r).0 ≡ r) ⊎ ((exec_pipeline answer (c ∷ []) r).0 ≡ exec c r)
unfolding exec_pipeline
exec_pipeline_single done c r = inr refl
exec_pipeline_single (broken [] e) c r = inl refl
exec_pipeline_single (broken (true ∷ []) e) c r = inr refl
exec_pipeline_single (broken (false ∷ []) e) c r = inl refl
exec_pipeline_single (broken (true ∷ m ∷ ms) e) c r = inr refl
exec_pipeline_single (broken (false ∷ m ∷ ms) e) c r = inl refl

-- A pipeline that reports success has executed its commands.
pub exec_pipeline_ok :
    (answer : Answer) (cs : List Command) (r : Redis)
    → (exec_pipeline answer cs r).1 ≡ ok tt
    → (exec_pipeline answer cs r).0 ≡ exec_all cs r
unfolding exec_pipeline
exec_pipeline_ok done cs r h = refl
exec_pipeline_ok (broken marks e) cs r h = cc
