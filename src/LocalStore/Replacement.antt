-- ===== src/LocalStore/Replacement.antt =====
-- Replacing a file is all or nothing, and what was saved is read back.
use second_brain.Prelude.{
  append-ne_self, Outcome, Text, arith, codes, delete, eq_iff, if◌then◌else◌, insert, is_ok, lookup,
  lookup-delete, lookup-insert, some, ◌&&◌, ◌++◌, ◌==◌, ◌≡◌, ◌≢◌, none, ok, Dict, Outcome-cases,
  inr, inl, Bool-cases, ==_refl,
}
use second_brain.Models.{Result, persisted}
use second_brain.LocalStore.Files.{
  Files, Io, Json, replace_file, read_file, TranscriptRequestRecord,
}
use second_brain.LocalStore.Latest.{read_latest, save_run}

pub ne_temporary : (p : Text) → p ≢ p ++ codes ".tmp"
unfolding codes
ne_temporary p = append-ne_self p _ _

module _ {Raw : Type 0} (json : Json Raw) where
  -- A replacement seen from every path but the temporary one: all of it, or nothing.
  abbrev pub Replaces : Text → Raw → Files Raw → Files Raw × Outcome Text (Unit {0}) → Type 0
  Replaces path raw files out =
      (q : Text)
      → q ≢ path ++ codes ".tmp"
      → lookup q out.0 ≡ (if is_ok out.1 && path == q then some raw else lookup q files)

  pub replace_file-Replaces :
      (io : Io) (path : Text) (raw : Raw) (files : Files Raw)
      → Replaces path raw files (replace_file json io path raw files)
  unfolding replace_file
  replace_file-Replaces io path raw files q n =
      let temp = path ++ codes ".tmp" in
      let torn = json.torn raw in
      ground (
        arith,
        eq_iff temp q,
        lookup-insert temp q raw files,
        lookup-insert temp q torn files,
        lookup-insert path q raw (delete temp (insert temp raw files)),
        lookup-delete temp q (insert temp raw files),
      )

-- What `encoding/json` documents of the two documents that the store keeps.
pub record RoundTrips {Raw : Type 0} (json : Json Raw) : Type 0 where
  pub result_back :
      (r : Result) (raw : Raw)
      → json.encode_result r ≡ ok raw
      → json.decode_result raw ≡ ok (persisted r)
  pub requests_back :
      (m : Dict TranscriptRequestRecord) (raw : Raw)
      → json.encode_requests m ≡ ok raw
      → json.decode_requests raw ≡ ok m

-- A call that the context and the operating system let through.
abbrev pub IsQuiet : Io → Type 0
IsQuiet io = (io.cancelled ≡ none) × (io.read_error ≡ none)

module _ {Raw : Type 0} (json : Json Raw) (path : Text) (laws : RoundTrips json) where
  read_latest-of_lookup :
      (io : Io) (files files' : Files Raw)
      → lookup path files ≡ lookup path files'
      → read_latest json path io files ≡ read_latest json path io files'
  unfolding read_latest read_file
  read_latest-of_lookup io files files' h = ground arith

  read_latest_stored :
      (io : Io) (result : Result) (raw : Raw) (files : Files Raw)
      → IsQuiet io
      → json.encode_result result ≡ ok raw
      → lookup path files ≡ some raw
      → read_latest json path io files ≡ ok (some (persisted result))
  unfolding read_latest read_file
  read_latest_stored io result raw files quiet e h = ground (arith, laws.result_back result raw e)

  read_latest-Replaces :
      (io : Io) (result : Result) (raw : Raw) (files : Files Raw)
      (out : Files Raw × Outcome Text (Unit {0}))
      → IsQuiet io
      → json.encode_result result ≡ ok raw
      → Replaces json path raw files out
      → read_latest json path io out.0
        ≡ (if is_ok out.1 then ok (some (persisted result)) else read_latest json path io files)
  read_latest-Replaces io result raw files out quiet e replaced =
      let seen = replaced path (ne_temporary path) in
      elim (Bool-cases (is_ok out.1)) [
        | inl done ↦
            rw done (read_latest_stored io result raw out.0 quiet e (ground (arith, ==_refl path)))
        | inr failed ↦ rw failed (read_latest-of_lookup io out.0 files (ground arith))
      ]

  -- Given that the documents round-trip through JSON: after a successful save, a read that meets
  -- no error returns the saved run, less the fields that JSON leaves out; after a failed save it
  -- returns what it returned before.
  pub read_latest-save_run :
      (io io' : Io) (result : Result) (files : Files Raw)
      → IsQuiet io'
      → read_latest json path io' (save_run json path io result files).0 ≡ (
          if is_ok (save_run json path io result files).1
          then ok (some (persisted result))
          else read_latest json path io' files)
  unfolding save_run
  read_latest-save_run io io' result files quiet =
      elim (Outcome-cases (json.encode_result result)) [
        | inr (e, h) ↦ ground arith
        | inl (raw, h) ↦
            let out = replace_file json io path raw files in
            ground (
              arith,
              read_latest-Replaces io' result raw files out quiet h
                  (replace_file-Replaces json io path raw files),
            )
      ]
