-- ===== src/Run/Sources.antt =====
-- The sources that a run stands for: one for each identity that its summaries have.
use second_brain.Prelude.{
  ==_refl, List, Text, [], arith, codes, contains, eq_iff, if◌then◌else◌, map, none, refl, some,
  ◌==◌, ◌||◌, ◌∷◌, ◌≡◌, Bool-cases, inl, inr,
}
use mathlib.Core.Option
use second_brain.Models.{ProcessedSource, Result, Summary, items}
use second_brain.Material.Keys.{source_material_identity}
use second_brain.Material.Selection.{summary_identity}
use second_brain.Material.Union.{IsDistinct, find_id}
use second_brain.Run.Output.{fresh_summaries, processed_sources_from_result, source_of_summary}

abbrev pub source_identity : ProcessedSource → Text
source_identity s = source_material_identity s.source_type s.external_id

find_id-fresh :
    (k : Text) (exclude seen : List Text) (ss : List Summary)
    → find_id summary_identity k (fresh_summaries exclude seen ss) ≡ (
        if k == codes ":" || contains k exclude || contains k seen
        then none
        else find_id summary_identity k ss)
unfolding find_id fresh_summaries contains
find_id-fresh k exclude seen [] = ground arith
find_id-fresh k exclude seen (s ∷ ss) = ground (
  arith,
  eq_iff (summary_identity s) k,
  find_id-fresh k exclude seen ss,
  find_id-fresh k exclude (summary_identity s ∷ seen) ss,
)

fresh-IsDistinct :
    (exclude seen : List Text) (ss : List Summary)
    → IsDistinct summary_identity (fresh_summaries exclude seen ss)
unfolding fresh_summaries contains
fresh-IsDistinct exclude seen [] = tt
fresh-IsDistinct exclude seen (s ∷ ss) =
    let k = summary_identity s in
    elim (Bool-cases (k == codes ":" || contains k exclude || contains k seen)) [
      | inl e ↦ rw e (fresh-IsDistinct exclude seen ss)
      | inr e ↦ rw e (
        ground (arith, find_id-fresh k exclude (k ∷ seen) ss, ==_refl k),
        fresh-IsDistinct exclude (k ∷ seen) ss,
      )
    ]

module _ (result : Result) where
  find_id-sources :
      (k : Text) (ss : List Summary)
      → find_id source_identity k (map (source_of_summary result) ss)
        ≡ Option.map (source_of_summary result) (find_id summary_identity k ss)
  unfolding find_id source_of_summary
  find_id-sources k [] = refl
  find_id-sources k (s ∷ ss) = ground (arith, find_id-sources k ss)

  sources-IsDistinct :
      (ss : List Summary)
      → IsDistinct summary_identity ss
      → IsDistinct source_identity (map (source_of_summary result) ss)
  sources-IsDistinct [] h = tt
  sources-IsDistinct (s ∷ ss) (first, h) = (
    unfold source_of_summary in ground (arith, find_id-sources (summary_identity s) ss),
    sources-IsDistinct ss h,
  )

-- The sources of a run have distinct identities, and an identity has one exactly when it is not
-- `:`, is not excluded and a summary of the run has it: the source of the first such summary.
pub processed_sources_from_result_lem :
    (result : Result) (exclude : List Text)
    → IsDistinct source_identity (processed_sources_from_result (some result) exclude)
      × ((k : Text)
          → find_id source_identity k (processed_sources_from_result (some result) exclude) ≡ (
              if k == codes ":" || contains k exclude
              then none
              else Option.map
                  (source_of_summary result)
                  (find_id summary_identity k (items result.summaries))))
unfolding processed_sources_from_result
processed_sources_from_result_lem result exclude =
    let ss = items result.summaries in
    (
      sources-IsDistinct result (fresh_summaries exclude [] ss) (fresh-IsDistinct exclude [] ss),
      λ k.
          unfold contains in
          ground (
            arith,
            find_id-sources result k (fresh_summaries exclude [] ss),
            find_id-fresh k exclude [] ss,
          ),
    )
