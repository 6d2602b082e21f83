-- ===== src/Storage/Upload.antt =====
-- Writing an artifact: `objectStorageBackend`, `objectStorageBucket`, `writeStorageArtifact`,
-- `writeFilesystemStorageArtifact` and `writeEvidenceArtifact` of artifacts.go, with
-- `captureHash` and `storagePath` of source_candidate.go. Logging is left out.
use second_brain.Prelude.{
  Bool, Dict, Option, Outcome, Text, [], byte_length, codes, delete, err, false, if◌then◌else◌,
  insert, is_blank, is_nil, join, none, not, ok, some, trim, true, ◌++◌, ◌==◌, ◌||◌, ◌∷◌,
}
use second_brain.Models.{
  Config, SourceArtifact, SourceCandidate, source_type_x, source_type_youtube,
}
use second_brain.Storage.ObjectPath.{
  ObjectPathError, PathError, absolute_failed, escapes_root, filesystem_object_path, invalid_bucket,
  invalid_object, nested_bucket, root_required, unsafe_segment, value_is_empty,
}

-- What the code calls outside the repository: the hexadecimal SHA-256 sum, `filepath.Abs`,
-- `strings.ToLower` and the `%q` of `fmt`.
pub record Host : Type 0 where
  pub sha256_hex : Text → Text
  pub absolute : Text → Outcome Text Text
  pub to_lower : Text → Text
  pub quote : Text → Text

-- What the operating system answers during one upload: an error for each call that may fail, the
-- content that a failed `WriteFile` leaves behind, and the clock's digits in the temporary name.
pub record UploadRun : Type 0 where
  pub cancelled : Option Text
  pub mkdir_error : Option Text
  pub nanos : Text
  pub write_error : Option Text
  pub partial : Option Text
  pub rename_error : Option Text
  pub remove_fails : Bool

-- The files by their path.
abbrev pub Disk : Type 0
Disk = Dict Text

unfoldable pub object_storage_backend : Host → Config → Text
object_storage_backend host cfg =
    let backend = host.to_lower (trim cfg.object_storage_backend) in
    if not (is_nil backend)
    then backend
    else if not (is_blank cfg.object_storage_root)
    then codes "filesystem"
    else codes "none"

unfoldable pub object_storage_bucket : Config → Text
object_storage_bucket cfg =
    let bucket = trim cfg.object_storage_bucket in
    if not (is_nil bucket) then bucket else codes "sources"

path_error_text : Host → PathError → Text
path_error_text host value_is_empty = codes "value is empty"
path_error_text host nested_bucket = codes "nested bucket names are not allowed"
path_error_text host (unsafe_segment part) = codes "unsafe path segment " ++ host.quote part

pub object_path_error_text : Host → ObjectPathError → Text
unfolding path_error_text
object_path_error_text host root_required =
    codes "OBJECT_STORAGE_ROOT is required for filesystem object storage"
object_path_error_text host (invalid_bucket e) = codes "invalid bucket: " ++ path_error_text host e
object_path_error_text host (invalid_object e) =
    codes "invalid object path: " ++ path_error_text host e
object_path_error_text host (absolute_failed e) = e
object_path_error_text host escapes_root = codes "object path escapes storage root"

unfoldable pub upload_failed : SourceArtifact → Text → SourceArtifact
upload_failed artifact message = record artifact {
  error = codes "filesystem object storage upload failed: " ++ message;
}

-- `objectPath + ".tmp-" + nanoseconds`.
unfoldable pub temporary_path : UploadRun → Text → Text
temporary_path run object_path = object_path ++ (codes ".tmp-" ++ run.nanos)

-- `os.WriteFile` of the temporary file: it holds everything, or what a failure left there.
unfoldable pub write_temporary : UploadRun → Text → Text → Disk → Disk
write_temporary run tmp raw disk = elim run.write_error [
  | none ↦ insert tmp raw disk
  | some e ↦ elim run.partial [ none ↦ disk | some rest ↦ insert tmp rest disk ]
]

-- `os.Rename`, and `os.Remove` of the temporary file where it fails.
unfoldable pub rename_temporary : UploadRun → Text → Text → Text → Disk → Disk
rename_temporary run tmp object_path raw disk = elim run.rename_error [
  | none ↦ insert object_path raw (delete tmp disk)
  | some e ↦ if run.remove_fails then disk else delete tmp disk
]

-- The calls after the path is known.
unfoldable pub write_object :
    UploadRun → SourceArtifact → Text → Text → Disk → SourceArtifact × Disk
write_object run artifact raw object_path disk =
    let tmp = temporary_path run object_path in
    let written = write_temporary run tmp raw disk in
    elim run.mkdir_error [
      | some e ↦ (upload_failed artifact e, disk)
      | none ↦ elim run.write_error [
        | some e ↦ (upload_failed artifact e, written)
        | none ↦ elim run.rename_error [
          | some e ↦ (upload_failed artifact e, rename_temporary run tmp object_path raw written)
          | none ↦
              (record artifact { stored = true }, rename_temporary run tmp object_path raw written)
        ]
      ]
    ]

unfoldable pub write_filesystem_storage_artifact :
    Host → Config → UploadRun → SourceArtifact → Text → Disk → SourceArtifact × Disk
write_filesystem_storage_artifact host cfg run artifact raw disk = elim run.cancelled [
  | some e ↦ (upload_failed artifact e, disk)
  | none ↦
      elim (filesystem_object_path host.absolute cfg.object_storage_root artifact.bucket
        artifact.path) [
          | err e ↦ (upload_failed artifact (object_path_error_text host e), disk)
          | ok object_path ↦ write_object run artifact raw object_path disk
        ]
]

unfoldable pub is_filesystem_backend : Text → Bool
is_filesystem_backend backend =
    backend == codes "filesystem" || backend == codes "file" || backend == codes "local"

unfoldable pub write_storage_artifact :
    Host → Config → UploadRun → SourceArtifact → Text → Disk → SourceArtifact × Disk
write_storage_artifact host cfg run artifact raw disk =
    let backend = object_storage_backend host cfg in
    let measured = record artifact {
      checksum = host.sha256_hex raw;
      byte_size = byte_length raw;
    } in
    if is_filesystem_backend backend
    then write_filesystem_storage_artifact host cfg run measured raw disk
    else if is_nil backend || backend == codes "none"
    then (
      record measured {
        error =
            codes
              "Object storage backend is not configured; metadata recorded without object upload.";
      },
      disk,
    )
    else (
      record measured {
        error =
            codes "Object storage backend "
            ++ (host.quote cfg.object_storage_backend
                ++ codes " is not supported; metadata recorded without object upload.");
      },
      disk,
    )

-- source_candidate.go.
unfoldable pub capture_hash : Host → SourceCandidate → Text
capture_hash host candidate = host.sha256_hex (
    join
      (candidate.source_type ∷ candidate.external_id ∷ candidate.title ∷ candidate.source_url
        ∷ candidate.body ∷ [])
      (0 ∷ []))

unfoldable pub storage_path : Host → SourceCandidate → Text → Text
storage_path host candidate given =
    let hash = if is_nil given then capture_hash host candidate else given in
    let top =
      if candidate.source_type == source_type_x
      then codes "x/"
      else if candidate.source_type == source_type_youtube
      then codes "youtube/"
      else codes "unknown/" in
    top
    ++ (candidate.external_id
        ++ (codes "/" ++ (hash ++ (codes "/" ++ (candidate.artifact_kind ++ codes ".txt")))))

unfoldable pub write_evidence_artifact :
    Host → Config → UploadRun → SourceCandidate → Text → Disk → SourceArtifact × Disk
write_evidence_artifact host cfg run candidate hash disk =
    write_storage_artifact host cfg run
      (record {
        source = candidate.source_type;
        source_id = candidate.external_id;
        kind = candidate.artifact_kind;
        bucket = object_storage_bucket cfg;
        path = storage_path host candidate hash;
        checksum = [];
        content_type = candidate.content_type;
        byte_size = 0;
        stored = false;
        error = [];
      })
      candidate.body disk
