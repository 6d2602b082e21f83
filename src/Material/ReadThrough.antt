-- ===== src/Material/ReadThrough.antt =====
-- Reading through the cache gives what the cache has, and for other keys what the store has.
use second_brain.Prelude.{
  Bool-cases, List, Outcome, Outcome-cases, Text, [], arith, contains, eq_iff, has_key,
  if◌then◌else◌, inl, inr, is_nil, lookup, lookup-insert, map, none, not, ok, refl, true, ◌&&◌, ◌∷◌,
  ◌≡◌, false,
}
use second_brain.Models.{SourceMaterialKey}
use second_brain.Material.Keys.{key_text}
use second_brain.Material.Selection.{States}
use second_brain.Material.Cache.{
  CacheAnswer, cached_states, insert_all, missing_keys, read_missing, read_source_material_states,
}
use second_brain.Material.Union.{first_some}

lookup-insert_all :
    (k : Text) (from states : States)
    → lookup k (insert_all from states) ≡ first_some (lookup k from) (lookup k states)
unfolding insert_all lookup
lookup-insert_all k [] states = refl
lookup-insert_all k ((j, v) ∷ from) states = ground (
  arith,
  eq_iff j k,
  lookup-insert j k v (insert_all from states),
  lookup-insert_all k from states,
)

-- The store answers each question by one table: the rows of the wanted keys, and no other.
abbrev pub Answers : (List SourceMaterialKey → Outcome Text States) → States → Type 0
Answers store table =
    (keys : List SourceMaterialKey) (m : States)
    → store keys ≡ ok m
    → (k : Text) → lookup k m ≡ (if contains k (map key_text keys) then lookup k table else none)

contains-missing :
    (k : Text) (keys : List SourceMaterialKey) (states : States)
    → contains k (map key_text (missing_keys keys states))
      ≡ (contains k (map key_text keys) && not (has_key k states))
unfolding missing_keys contains
contains-missing k [] states = refl
contains-missing k (key ∷ keys) states =
    ground (arith, eq_iff (key_text key) k, contains-missing k keys states)

contains-nil :
    (k : Text) (keys : List SourceMaterialKey)
    → is_nil keys ≡ true
    → contains k (map key_text keys) ≡ false
unfolding contains
contains-nil k [] h = refl
contains-nil k (key ∷ keys) h = cc

-- If the store answers by one table, and no warning is given, a wanted key has its cached state,
-- or else the one in the table.
pub read_source_material_states-through :
    (store : List SourceMaterialKey → Outcome Text States) (table : States) (cache : CacheAnswer)
    (keys : List SourceMaterialKey) (k : Text)
    → Answers store table
    → contains k (map key_text keys) ≡ true
    → (read_source_material_states store cache keys).warnings ≡ []
    → lookup k (read_source_material_states store cache keys).states
      ≡ first_some (lookup k (cached_states cache)) (lookup k table)
unfolding read_source_material_states read_missing lookup contains
read_source_material_states-through store table cache [] k answers wanted quiet = cc
read_source_material_states-through store table cache (key ∷ keys) k answers wanted quiet =
    let states = insert_all (cached_states cache) [] in
    let missing = missing_keys (key ∷ keys) states in
    let here = lookup-insert_all k (cached_states cache) [] in
    let asked = contains-missing k (key ∷ keys) states in
    elim (Bool-cases (is_nil missing)) [
      | inl e ↦ ground (arith, contains-nil k missing e)
      | inr e ↦ elim (Outcome-cases (store missing)) [
        | inr (x, h) ↦ absurd (ground arith)
        | inl (m, h) ↦ ground (arith, answers missing m h k, lookup-insert_all k m states)
      ]
    ]
