-- ===== src/Tests/Storage.antt =====
-- Object paths and uploads at concrete inputs.
use second_brain.Prelude.{
  Outcome, Text, [], arith, false, has_prefix, if◌then◌else◌, map_err, none, ok, refl, trim, true,
  ◌++◌, ◌>>=◌, ◌↔◌, ◌∷◌, ◌≡◌, ◌≢◌, split, join, ◌==◌, All, codes,
}
use second_brain.Models.{Config, SourceCandidate}
use second_brain.Storage.ObjectPath.{
  check_contained, clean_rooted, filesystem_object_path, invalid_bucket, invalid_object,
  is_unsafe_part, join_path, safe_storage_path_part, trim_path, trim_slash_prefix,
}
use second_brain.Storage.Containment.{
  Accepts, IsCleanRoot, filesystem_object_path_lem, safe_storage_path_part_iff, IsSafe,
  filesystem_object_path-contained,
}
use second_brain.Storage.SlashRoot.{filesystem_object_path-slash}
use second_brain.Storage.Upload.{
  Host, UploadRun, object_storage_bucket, storage_path, write_evidence_artifact,
}
use second_brain.Storage.Atomicity.{Uploads, write_evidence_artifact-Uploads}
use second_brain.Tests.Blank.{blank_source_candidate}
use second_brain.Tests.Settings.{blank_config}

-- `filepath.Abs` in the directory `/w`.
abbrev working : Text → Outcome Text Text
working t =
    ok (if has_prefix t (b'/' ∷ []) then clean_rooted t else clean_rooted (b'/' ∷ b'w' ∷ b'/' ∷ t))

abbrev host : Host
host = record { sha256_hex = λ t. t; absolute = working; to_lower = λ t. t; quote = λ t. t }

abbrev cfg : Config
cfg = record blank_config { object_storage_root = b'r' ∷ [] }

abbrev candidate : SourceCandidate
candidate = record blank_source_candidate { external_id = b'7' ∷ []; body = b'h' ∷ b'i' ∷ [] }

abbrev run : UploadRun
run = record {
  cancelled = none;
  mkdir_error = none;
  nanos = b'1' ∷ [];
  write_error = none;
  partial = none;
  rename_error = none;
  remove_fails = false;
}

safe_storage_path_part_iff_example :
    (safe_storage_path_part (b'a' ∷ b'/' ∷ b'.' ∷ []) true ≡ ok (b'a' ∷ []))
    ↔ Accepts (b'a' ∷ b'/' ∷ b'.' ∷ []) true (b'a' ∷ [])
safe_storage_path_part_iff_example =
    safe_storage_path_part_iff (b'a' ∷ b'/' ∷ b'.' ∷ []) true (b'a' ∷ [])

root_set : trim (b'r' ∷ []) ≢ []
unfolding trim
root_set h = cc

root_found : working (trim (b'r' ∷ [])) ≡ ok (b'/' ∷ b'w' ∷ b'/' ∷ b'r' ∷ [])
unfolding trim has_prefix clean_rooted join split ◌==◌ codes
root_found = refl

root_clean : IsCleanRoot (b'/' ∷ b'w' ∷ b'/' ∷ b'r' ∷ []) (b'w' ∷ []) ((b'r' ∷ []) ∷ [])
unfolding is_unsafe_part join ◌==◌ codes
root_clean = record { spelled = refl; safe = (refl, (refl, tt)); whole = ground arith }

filesystem_object_path_lem_example :
    filesystem_object_path working (b'r' ∷ []) (b'b' ∷ []) (b'.' ∷ b'.' ∷ []) ≡ (do
      b ← map_err invalid_bucket (safe_storage_path_part (b'b' ∷ []) false)
      o ← map_err invalid_object (safe_storage_path_part (b'.' ∷ b'.' ∷ []) true)
      ok ((b'/' ∷ b'w' ∷ b'/' ∷ b'r' ∷ []) ++ b'/' ∷ (b ++ b'/' ∷ o)))
filesystem_object_path_lem_example =
    filesystem_object_path_lem working (b'r' ∷ []) (b'/' ∷ b'w' ∷ b'/' ∷ b'r' ∷ []) (b'w' ∷ [])
      ((b'r' ∷ []) ∷ []) root_set root_found root_clean (b'b' ∷ []) (b'.' ∷ b'.' ∷ [])

slash_found : working (trim (b'/' ∷ [])) ≡ ok (b'/' ∷ [])
unfolding trim has_prefix clean_rooted join split ◌==◌ codes
slash_found = refl

filesystem_object_path-slash_example :
    filesystem_object_path working (b'/' ∷ []) (b'b' ∷ []) (b'o' ∷ [])
    ≢ ok (b'/' ∷ b'b' ∷ b'/' ∷ b'o' ∷ [])
filesystem_object_path-slash_example =
    filesystem_object_path-slash working (b'/' ∷ []) (b'b' ∷ []) (b'o' ∷ [])
      (b'/' ∷ b'b' ∷ b'/' ∷ b'o' ∷ []) slash_found

stored_at :
    filesystem_object_path working (b'r' ∷ []) (b'b' ∷ []) (b'o' ∷ [])
    ≡ ok (b'/' ∷ b'w' ∷ b'/' ∷ b'r' ∷ b'/' ∷ b'b' ∷ b'/' ∷ b'o' ∷ [])
unfolding filesystem_object_path safe_storage_path_part trim_path trim clean_rooted join_path
    trim_slash_prefix check_contained has_prefix split ◌==◌ codes join
stored_at = refl

write_evidence_artifact-Uploads_example :
    Uploads run
      (filesystem_object_path working
        (b'r' ∷ [])
        (object_storage_bucket cfg)
        (storage_path host candidate (b'9' ∷ [])))
      (b'h' ∷ b'i' ∷ [])
      []
      (write_evidence_artifact host cfg run candidate (b'9' ∷ []) [])
write_evidence_artifact-Uploads_example =
    write_evidence_artifact-Uploads host cfg run candidate (b'9' ∷ []) []

filesystem_object_path-contained_example :
    (b : Text) × (o : Text) × Accepts (b'b' ∷ []) false b
    × Accepts (b'o' ∷ []) true o
    × ((b'/' ∷ b'w' ∷ b'/' ∷ b'r' ∷ b'/' ∷ b'b' ∷ b'/' ∷ b'o' ∷ [])
        ≡ (b'/' ∷ b'w' ∷ b'/' ∷ b'r' ∷ []) ++ b'/' ∷ (b ++ b'/' ∷ o))
    × (split (b'/' ∷ b'w' ∷ b'/' ∷ b'r' ∷ b'/' ∷ b'b' ∷ b'/' ∷ b'o' ∷ []) b'/'
        ≡ split (b'/' ∷ b'w' ∷ b'/' ∷ b'r' ∷ []) b'/' ++ (split b b'/' ++ split o b'/'))
    × All IsSafe (split b b'/' ++ split o b'/')
filesystem_object_path-contained_example =
    filesystem_object_path-contained working (b'r' ∷ []) (b'/' ∷ b'w' ∷ b'/' ∷ b'r' ∷ [])
      (b'w' ∷ []) ((b'r' ∷ []) ∷ []) root_set root_found root_clean (b'b' ∷ []) (b'o' ∷ [])
      (b'/' ∷ b'w' ∷ b'/' ∷ b'r' ∷ b'/' ∷ b'b' ∷ b'/' ∷ b'o' ∷ []) stored_at
