-- ===== src/LocalStore/Granted.antt =====
-- What a claim answers and what it leaves in the store, on every branch.
use second_brain.Prelude.{Bool, Text, has_key, is_ok, is_some, leb_int, not, pos, ℤ, ◌&&◌, ◌||◌}
use second_brain.Models.{Time}
use second_brain.LocalStore.Files.{Files, Io, Json}
use second_brain.LocalStore.Requests.{Requests, requests_since}

-- A claim may be made: its key has no record, and fewer were attempted since than the limit.
unfoldable pub may_claim : Time → ℤ → Text → Requests → Bool
may_claim start limit key m =
    not (has_key key m) && not (leb_int limit (pos (requests_since start m)))

module _ {Raw : Type 0} (json : Json Raw) (path : Text) where
  -- The records can be encoded, and the operating system replaces the file.
  unfoldable pub can_write : Io → Requests → Bool
  can_write io m =
      is_ok (json.encode_requests m)
      && not (is_some io.mkdir_error || is_some io.write_error || is_some io.rename_error)
