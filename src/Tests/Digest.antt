-- ===== src/Tests/Digest.antt =====
-- The inputs of a digest at a concrete run.
use second_brain.Prelude.{
  ◌||◌, [], codes, contains, has_key, insert, lookup, not, ok, refl, some, trim, ◌&&◌, ◌==◌, ◌∷◌,
  ◌≡◌,
}
use second_brain.Models.{items, Insight, DigestSourceRef, Result, Summary}
use second_brain.Digest.Refs.{
  digest_source_key, digest_source_ref_map, digest_source_ref_map_from, input_ref, of_summary,
  refs_by_key, seen_at,
}
use second_brain.Digest.Inputs.{
  DigestInputs, digest_inputs_for_latest, filter_digest_insights,
  filter_digest_source_refs_for_inputs, filter_digest_summaries, filter_used_refs, select_inputs,
  used_keys, with_role,
}
use second_brain.Digest.Freshness.{some_item, is_new, has_key-refs_by_key}
use second_brain.Digest.Referred.{has_key-ref_map, keys_of}
use second_brain.Digest.Grounding.{IsGrounded, digest_inputs_for_latest-IsGrounded}
use second_brain.Tests.Blank.{blank_result, blank_summary}

abbrev summary : Summary
summary = record blank_summary { id = b'1' ∷ []; source = b'x' ∷ []; generated_at = some 700 }

abbrev old : Summary
old = record blank_summary { id = b'2' ∷ []; source = b'x' ∷ []; generated_at = some 5 }

abbrev latest : Result
latest = record blank_result { generated_at = 700; summaries = some (summary ∷ old ∷ []) }

has_key-refs_by_key_example : has_key (b'x' ∷ b':' ∷ b'1' ∷ []) (refs_by_key latest) ≡ (
    some_item
      (λ (s : Summary). is_new latest (b'x' ∷ b':' ∷ b'1' ∷ []) s.source s.id s.generated_at)
      (items latest.summaries)
    || some_item
        (λ (i : Insight).
          is_new latest (b'x' ∷ b':' ∷ b'1' ∷ []) i.source i.source_id i.generated_at)
        (items latest.insights))
has_key-refs_by_key_example = has_key-refs_by_key latest (b'x' ∷ b':' ∷ b'1' ∷ [])

abbrev new_ref : DigestSourceRef
new_ref = input_ref (seen_at 700 (of_summary summary)) (of_summary summary)

has_key-ref_map_example :
    has_key (b':' ∷ []) (digest_source_ref_map (new_ref ∷ []))
    ≡ (not ((b':' ∷ []) == codes ":") && contains (b':' ∷ []) (keys_of (new_ref ∷ [])))
has_key-ref_map_example = has_key-ref_map (b':' ∷ []) (new_ref ∷ [])

abbrev inputs : DigestInputs
inputs = select_inputs latest (with_role new_ref ∷ []) (summary ∷ []) []

selected : digest_inputs_for_latest (ok (new_ref ∷ [])) latest ≡ ok inputs
unfolding digest_inputs_for_latest filter_digest_summaries filter_digest_insights
    filter_digest_source_refs_for_inputs filter_used_refs used_keys contains digest_source_ref_map
    digest_source_ref_map_from insert lookup input_ref of_summary digest_source_key trim ◌==◌ codes
selected = refl

digest_inputs_for_latest-IsGrounded_example : IsGrounded latest inputs
digest_inputs_for_latest-IsGrounded_example =
    digest_inputs_for_latest-IsGrounded (ok (new_ref ∷ [])) latest inputs selected
