-- ===== src/Storage/Atomicity.antt =====
-- What an upload does to the files, whatever the operating system answers.
use second_brain.Prelude.{
  Text, [], arith, codes, delete, eq_iff, false, if◌then◌else◌, insert, lookup, lookup-delete,
  lookup-insert, none, or_else, some, true, ℕ, ◌++◌, ◌==◌, ◌∷◌, ◌≡◌, ◌≢◌, Outcome, ok, Option-cases,
  inr, inl, Bool-cases, Outcome-cases, subst, sym, refl,
}
use second_brain.Models.{SourceArtifact, Config, SourceCandidate}
use second_brain.Storage.ObjectPath.{ObjectPathError, filesystem_object_path}
use second_brain.Storage.Upload.{
  Disk, UploadRun, rename_temporary, temporary_path, upload_failed, write_object, write_temporary,
  write_evidence_artifact, write_filesystem_storage_artifact, write_storage_artifact, Host,
  object_storage_bucket, storage_path, object_storage_backend, is_filesystem_backend,
}

append_ne : (p : Text) (c : ℕ) (t : Text) → p ≢ p ++ c ∷ t
append_ne [] c t h = cc
append_ne (d ∷ p) c t h = append_ne p c t (ground arith)

temporary_path-ne : (run : UploadRun) (p : Text) → p ≢ temporary_path run p
unfolding temporary_path codes
temporary_path-ne run p h = append_ne p _ _ h

-- Where the path is known, an upload that reports success leaves the content at that path and no
-- temporary file; one that reports failure leaves every other file than the temporary one alone.
abbrev pub IsAtomic : UploadRun → Text → Text → Disk → SourceArtifact × Disk → Type 0
IsAtomic run p raw disk out =
    (q : Text)
    → (out.0.stored ≡ true
        → lookup q out.1 ≡ (
            if p == q then some raw else if temporary_path run p == q then none else lookup q disk))
      × (out.0.stored ≡ false → q ≢ temporary_path run p → lookup q out.1 ≡ lookup q disk)

write_object-IsAtomic :
    (run : UploadRun) (artifact : SourceArtifact) (raw p : Text) (disk : Disk)
    → artifact.stored ≡ false
    → IsAtomic run p raw disk (write_object run artifact raw p disk)
unfolding write_object rename_temporary write_temporary upload_failed
write_object-IsAtomic run artifact raw p disk fresh q =
    let tmp = temporary_path run p in
    (
      ground (
        arith,
        lookup-insert p q raw (delete tmp (insert tmp raw disk)),
        lookup-delete tmp q (insert tmp raw disk),
        lookup-insert tmp q raw disk,
        eq_iff p q,
        eq_iff tmp q,
      ),
      ground (
        arith,
        lookup-delete tmp q (insert tmp raw disk),
        lookup-insert tmp q raw disk,
        lookup-insert tmp q (or_else run.partial []) disk,
        eq_iff p q,
        eq_iff tmp q,
      ),
    )

-- The same of an upload whose path may be refused.
abbrev pub Uploads :
    UploadRun → Outcome ObjectPathError Text → Text → Disk → SourceArtifact × Disk → Type 0
Uploads run path raw disk out =
    (out.0.stored ≡ true
      → (p : Text) × (path ≡ ok p)
        × ((q : Text)
            → lookup q out.1 ≡ (
                if p == q
                then some raw
                else if temporary_path run p == q
                then none
                else lookup q disk)))
    × (out.0.stored ≡ false
        → (q : Text) → ((p : Text) → path ≡ ok p → q ≢ temporary_path run p)
        → lookup q out.1 ≡ lookup q disk)

write_filesystem-Uploads :
    (host : Host) (cfg : Config) (run : UploadRun) (artifact : SourceArtifact) (raw : Text)
    (disk : Disk)
    → artifact.stored ≡ false
    → Uploads run
        (filesystem_object_path host.absolute cfg.object_storage_root artifact.bucket artifact.path)
        raw
        disk
        (write_filesystem_storage_artifact host cfg run artifact raw disk)
unfolding write_filesystem_storage_artifact upload_failed
write_filesystem-Uploads host cfg run artifact raw disk fresh =
    let path =
      filesystem_object_path host.absolute cfg.object_storage_root artifact.bucket artifact.path in
    let out = write_filesystem_storage_artifact host cfg run artifact raw disk in
    elim (Option-cases run.cancelled) [
      | inr (e, h) ↦ (λ s. ground arith, λ s q n. ground arith)
      | inl h ↦ elim (Outcome-cases path) [
        | inr (e, he) ↦ (λ s. ground arith, λ s q n. ground arith)
        | inl (p, hp) ↦
            let atomic = write_object-IsAtomic run artifact raw p disk fresh in
            let same : out ≡ write_object run artifact raw p disk = ground arith in
            subst (λ o. Uploads run path raw disk o) (sym same)
              (λ s. (p, hp, λ q. (atomic q).0 s), λ s q n. (atomic q).1 s (n p hp))
      ]
    ]

-- Whatever the operating system answers, an upload of evidence that reports success had an
-- accepted path, at which the files now hold the candidate's body, with no temporary file left;
-- one that reports failure leaves every file but the temporary one as it was.
pub write_evidence_artifact-Uploads :
    (host : Host) (cfg : Config) (run : UploadRun) (candidate : SourceCandidate) (hash : Text)
    (disk : Disk)
    → Uploads run
        (filesystem_object_path host.absolute cfg.object_storage_root
          (object_storage_bucket cfg)
          (storage_path host candidate hash))
        candidate.body
        disk
        (write_evidence_artifact host cfg run candidate hash disk)
unfolding write_evidence_artifact write_storage_artifact
write_evidence_artifact-Uploads host cfg run candidate hash disk =
    let backend = object_storage_backend host cfg in
    elim (Bool-cases (is_filesystem_backend backend)) [
      | inl e ↦ rw e (write_filesystem-Uploads host cfg run _ candidate.body disk refl)
      | inr e ↦ (λ s. ground arith, λ s q n. ground arith)
    ]
