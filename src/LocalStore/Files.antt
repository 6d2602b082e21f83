-- ===== src/LocalStore/Files.antt =====
-- The files of the local store: reading one, and replacing one by way of a temporary file.
-- The content of a file is abstract, since `encoding/json` is not part of the repository.
use second_brain.Prelude.{
  Dict, Option, Outcome, Text, codes, delete, err, insert, lookup, none, ok, some, ◌++◌,
}
use second_brain.Models.{FeedbackEvent, Result, Time}

-- What the operating system and the context answer during one method call.
pub record Io : Type 0 where
  pub cancelled : Option Text
  pub read_error : Option Text
  pub mkdir_error : Option Text
  pub open_error : Option Text
  pub write_error : Option Text
  pub rename_error : Option Text

-- A record of `transcriptRequestRecord`.
pub record TranscriptRequestRecord : Type 0 where
  pub status : Text
  pub detail : Text
  pub attempted_at : Time
  pub completed_at : Time

-- `encoding/json` on the two documents and on a feedback line, the newline included, with the
-- content that a failed `WriteFile` leaves behind, and an append to a file.
pub record Json (Raw : Type 0) : Type 0 where
  pub encode_result : Result → Outcome Text Raw
  pub decode_result : Raw → Outcome Text Result
  pub encode_requests : Dict TranscriptRequestRecord → Outcome Text Raw
  pub decode_requests : Raw → Outcome Text (Dict TranscriptRequestRecord)
  pub encode_event : FeedbackEvent → Outcome Text Raw
  pub torn : Raw → Raw
  pub append : Option Raw → Raw → Raw

-- `ctx.Err()`, or the error of a call that fails.
abbrev pub check : Option Text → Outcome Text (Unit {0})
check none = ok tt
check (some e) = err e

-- A method returns the files and its result: the files change on some error paths too.
abbrev pub Files : Type 0 → Type 0
Files Raw = Dict Raw

module _ {Raw : Type 0} where
  -- `os.ReadFile`: `none` is `os.ErrNotExist`.
  unfoldable pub read_file : Io → Text → Files Raw → Outcome Text (Option Raw)
  read_file io path files = elim io.read_error [ some e ↦ err e | none ↦ ok (lookup path files) ]

  -- `os.MkdirAll`, `os.WriteFile` of the temporary file and `os.Rename`.
  unfoldable pub replace_file :
      Json Raw → Io → Text → Raw → Files Raw → Files Raw × Outcome Text (Unit {0})
  replace_file json io path raw files =
      let temp_path = path ++ codes ".tmp" in
      let written = insert temp_path raw files in
      elim io.mkdir_error [
        | some e ↦ (files, err e)
        | none ↦ elim io.write_error [
          | some e ↦ (insert temp_path (json.torn raw) files, err e)
          | none ↦ elim io.rename_error [
            | some e ↦ (written, err e)
            | none ↦ (insert path raw (delete temp_path written), ok tt)
          ]
        ]
      ]
