-- ===== src/LocalStore/Illustrations.antt =====
-- Digests as the local store keeps them.
use second_brain.Prelude.{
  Option-cases, Outcome-cases, Text, [], arith, inl, inr, none, ok, some, ◌∷◌, ◌≡◌,
}
use second_brain.Models.{DigestIssue, Result, persisted, persisted_digest}
use second_brain.LocalStore.Files.{Files, Io, Json}
use second_brain.LocalStore.Latest.{
  illustration_of, read_digest_illustration, read_digests, read_latest, save_digest, save_run,
}
use second_brain.LocalStore.Replacement.{IsQuiet, RoundTrips, read_latest-save_run}

illustration-persisted :
    (id : Text) (d : DigestIssue) → illustration_of id (persisted_digest d) ≡ none
unfolding illustration_of persisted_digest
illustration-persisted id d = ground arith

module _ {Raw : Type 0} (json : Json Raw) (path : Text) (laws : RoundTrips json) where
  -- Given that the documents round-trip through JSON: after a successful save, a read that meets
  -- no error finds no illustration, whatever the run and the identifier, since the bytes are
  -- tagged `json:"-"`.
  pub read_digest_illustration-save_run :
      (io io' : Io) (id : Text) (result : Result) (files : Files Raw)
      → IsQuiet io'
      → (save_run json path io result files).1 ≡ ok tt
      → read_digest_illustration json path io' id (save_run json path io result files).0 ≡ ok none
  unfolding read_digest_illustration persisted
  read_digest_illustration-save_run io io' id result files quiet saved =
      let back = read_latest-save_run json path laws io io' result files quiet in
      elim (Option-cases result.digest) [
        | inl h ↦ ground arith
        | inr (d, h) ↦ ground (arith, illustration-persisted id d)
      ]

  -- Given that the documents round-trip through JSON: after a digest was saved, a read that meets
  -- no error returns it as the only digest, less its owner and its illustration.
  pub read_digests-save_digest :
      (io io' io'' : Io) (between : Files Raw → Files Raw) (digest : DigestIssue)
      (files : Files Raw)
      → IsQuiet io''
      → (save_digest json path io io' between digest files).1 ≡ ok (some digest)
      → read_digests json path io'' (save_digest json path io io' between digest files).0
        ≡ ok (persisted_digest digest ∷ [])
  unfolding save_digest read_digests persisted
  read_digests-save_digest io io' io'' between digest files quiet saved =
      elim (Outcome-cases (read_latest json path io files)) [
        | inr (e, h) ↦ absurd (ground arith)
        | inl (none, h) ↦ absurd (ground arith)
        | inl (some latest, h) ↦ ground (
          arith,
          read_latest-save_run json path laws io' io'' (record latest { digest = some digest })
              (between files) quiet,
        )
      ]
