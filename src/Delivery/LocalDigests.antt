-- ===== src/Delivery/LocalDigests.antt =====
-- The local store remembers a digest that it saved.
use second_brain.Prelude.{
  Option, Outcome, Outcome-cases, Text, ap, arith, inl, inr, none, ok, refl, some, suc, sym, ℕ, ◌∙◌,
  ◌≡◌,
}
use second_brain.Models.{DigestIssue, Result, persisted, persisted_digest}
use second_brain.LocalStore.Files.{Files, Io, Json, read_file}
use second_brain.LocalStore.Latest.{read_latest, save_digest}
use second_brain.LocalStore.Replacement.{IsQuiet, RoundTrips, read_latest-save_run}
use second_brain.Delivery.Generate.{DigestStore}
use second_brain.Delivery.Daily.{Remembers}

-- What the system answers to the call with a number; a save is two critical sections, and other
-- calls may come between them.
pub record Answered (Raw : Type 0) : Type 0 where
  pub io : Io
  pub io' : Io
  pub between : Files Raw → Files Raw

module _ {Raw : Type 0} (json : Json Raw) (path : Text) (answered : ℕ → Answered Raw) where
  abbrev pub Counted : Type 0
  Counted = ℕ × Files Raw

  unfoldable pub local_read : Counted → Counted × Outcome Text (Option Result)
  local_read (n, files) = ((suc n, files), read_latest json path (answered n).io files)

  unfoldable pub local_save : DigestIssue → Counted → Counted × Outcome Text (Option DigestIssue)
  local_save digest (n, files) =
      let a = answered n in
      let (files', saved) = save_digest json path a.io a.io' a.between digest files in
      ((suc n, files'), saved)

  unfoldable pub local_digests : DigestStore Counted
  unfolding local_read local_save
  local_digests = record { read_latest = local_read; save_digest = local_save }

  -- An undisturbed read returns the digest as JSON keeps it.
  abbrev pub KeptAt : DigestIssue → Counted → Type 0
  KeptAt s w =
      (r : Result) × ((io : Io) → IsQuiet io → read_latest json path io w.1 ≡ ok (some r))
      × (r.digest ≡ some (persisted_digest s))

  read_latest-IsQuiet :
      (io : Io) (files : Files Raw) (r : Result)
      → read_latest json path io files ≡ ok (some r)
      → IsQuiet io
  unfolding read_latest read_file
  read_latest-IsQuiet io files r h = (ground arith, ground arith)

  module _ (laws : RoundTrips json) where
    saved-KeptAt :
        (digest s : DigestIssue) (w : Counted)
        → (local_save digest w).1 ≡ ok (some s)
        → KeptAt s (local_save digest w).0
    unfolding local_save save_digest
    saved-KeptAt digest s (n, files) h =
        let a = answered n in
        elim (Outcome-cases (read_latest json path a.io files)) [
          | inr (e, h') ↦ absurd (ground arith)
          | inl (none, h') ↦ absurd (ground arith)
          | inl (some latest, h') ↦
              let after = record latest { digest = some digest } in
              let which : digest ≡ s = ground arith in
              (
                persisted after,
                λ io q.
                    ground (
                      arith,
                      read_latest-save_run json path laws a.io' io after (a.between files) q,
                    ),
                unfold persisted in ap (λ x. some (persisted_digest x)) which,
              )
        ]

    read-KeptAt :
        (s : DigestIssue) (w : Counted) (latest : Result)
        → KeptAt s w
        → (local_read w).1 ≡ ok (some latest)
        → (d : DigestIssue) × (latest.digest ≡ some d)
          × (d.digest_date ≡ s.digest_date)
          × (d.status ≡ s.status)
          × (d.body_markdown ≡ s.body_markdown)
    unfolding local_read persisted_digest
    read-KeptAt s (n, files) latest (r, back, digest) h =
        let io = (answered n).io in
        let same : r ≡ latest = ground (arith, back io (read_latest-IsQuiet io files latest h)) in
        (persisted_digest s, ap (λ x. x.digest) (sym same) ∙ digest, refl, refl, refl)

    pub local_digests-Remembers : Remembers local_digests
    unfolding local_read local_digests local_save
    local_digests-Remembers = record {
      Kept = KeptAt;
      save-Kept = saved-KeptAt;
      read-Kept = read-KeptAt;
      read_keeps = λ s w kept. kept;
    }
