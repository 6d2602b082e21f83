-- ===== src/Material/Cache.antt =====
-- source_material_cache.go: material states are read through the cache. The cache and the store
-- are behind interfaces: what they answer is a parameter.
use second_brain.Prelude.{
  List, Option, Outcome, Text, [], codes, err, has_key, if◌then◌else◌, insert, is_nil, keep, none,
  not, ok, some, values, ◌++◌, ◌∷◌,
}
use second_brain.Models.{SourceMaterialKey, SourceMaterialState}
use second_brain.Material.Keys.{key_text}
use second_brain.Material.Selection.{States}

-- What `s.cache` answers: there is no cache, it fails, or it returns what it has.
pub data CacheAnswer : Type 0 where
  no_cache : CacheAnswer
  cache_failed : Text → CacheAnswer
  cached : States → CacheAnswer

abbrev pub cached_states : CacheAnswer → States
cached_states no_cache = []
cached_states (cache_failed e) = []
cached_states (cached states) = states

-- `for key, state := range from { states[key] = state }`.
unfoldable pub insert_all : States → States → States
insert_all [] states = states
insert_all ((k, v) ∷ from) states = insert k v (insert_all from states)

unfoldable pub missing_keys : List SourceMaterialKey → States → List SourceMaterialKey
missing_keys keys states = keep (λ k. not (has_key (key_text k) states)) keys

-- `publishSourceMaterialStatesBestEffort`: what is handed to the cache, if anything.
unfoldable pub publish_source_material_states_best_effort :
    CacheAnswer → States → Option (List SourceMaterialState)
publish_source_material_states_best_effort no_cache states = none
publish_source_material_states_best_effort (cache_failed e) states =
    if is_nil states then none else some (values states)
publish_source_material_states_best_effort (cached m) states =
    if is_nil states then none else some (values states)

pub record StatesRead : Type 0 where
  pub states : States
  pub warnings : List Text
  pub published : Option (List SourceMaterialState)

-- What is left to do once the cache has answered.
unfoldable pub read_missing :
    (List SourceMaterialKey → Outcome Text States)
    → CacheAnswer
    → List SourceMaterialKey
    → States
    → StatesRead
read_missing store cache missing states = elim (store missing) [
  | err e ↦ record {
    states = states;
    warnings = (codes "source material lookup failed: " ++ e) ∷ [];
    published = none;
  }
  | ok canonical ↦ record {
    states = insert_all canonical states;
    warnings = [];
    published = publish_source_material_states_best_effort cache canonical;
  }
]

unfoldable pub read_source_material_states :
    (List SourceMaterialKey → Outcome Text States)
    → CacheAnswer
    → List SourceMaterialKey
    → StatesRead
read_source_material_states store cache keys =
    let states = insert_all (cached_states cache) [] in
    let missing = missing_keys keys states in
    if is_nil keys
    then record { states = []; warnings = []; published = none }
    else if is_nil missing
    then record { states = states; warnings = []; published = none }
    else read_missing store cache missing states
