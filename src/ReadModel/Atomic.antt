-- ===== src/ReadModel/Atomic.antt =====
-- However the publication of a run ends, a reader is served a whole run: the one before or the new
-- one.
use second_brain.Prelude.{
  Bool-cases, Outcome, Outcome-cases, Text, arith, err, inl, inr, is_nil, lookup, ok, refl, subst,
  sym, trim, ◌==◌, some, ap, ◌∙◌, ◌≡◌, ◌≢◌, ◌⊎◌, codes, trim-trim, is_blank, false,
}
use second_brain.Material.Keys.{source_material_states_from_result}
use second_brain.ReadModel.State.{AppState}
use second_brain.ReadModel.Redis.{
  Answer, CacheError, Redis, broken, done, exec, exec_all, exec_pipeline, hset,
}
use second_brain.ReadModel.Keys.{app_state_key, manifest_key, source_materials_key}
use second_brain.ReadModel.Publish.{
  Answers, Codec, Payloads, manifest_fields, marshal_payloads, payload_commands, publish_app_state,
  publish_source_material_states, switch_manifest,
}
use second_brain.ReadModel.Reads.{read_app_state}
use second_brain.ReadModel.Stored.{
  exec_pipeline_ok, exec_pipeline-hash, exec_pipeline-string, exec_pipeline_single,
}
use second_brain.ReadModel.Distinct.{key-ne, materials-ne, sources-ne}
use second_brain.ReadModel.Isolation.{materials-Agree}
use second_brain.ReadModel.Manifest.{CodecLaws, quiet, served_state}
use second_brain.ReadModel.Switch.{
  current_run, read_switched, read_unswitched, spares_hashes, spares_other, stores_state,
}

-- After a publication that reports success a reader is served `new`, and after one that reports
-- failure `old` or `new`.
abbrev pub Switches {ℓ} : {A : Type ℓ} → A → A → A → Outcome Text (Unit {0}) → Type ℓ
Switches old new seen (ok _) = seen ≡ new
Switches old new seen (err e) = (seen ≡ old) ⊎ (seen ≡ new)

module _ (codec : Codec) (laws : CodecLaws codec) (answers : Answers) (owner : Text)
    (state : AppState) (r : Redis) where
  abbrev Seen : Redis → Outcome CacheError AppState
  Seen s = read_app_state codec quiet owner s s

  abbrev Done : Redis × Outcome Text (Unit {0}) → Type 0
  Done out = Switches (Seen r) (ok (served_state state)) (Seen out.0) out.1

  module _ (other : current_run owner r ≢ trim state.manifest.run_id)
      (named : is_nil (trim state.manifest.run_id) ≡ false) where
    -- The manifest, and the state that it names, are those of the start.
    abbrev Same : Redis → Type 0
    Same s =
        (lookup (manifest_key owner) s.hashes ≡ lookup (manifest_key owner) r.hashes)
        × (lookup (app_state_key owner (current_run owner r)) s.strings
            ≡ lookup (app_state_key owner (current_run owner r)) r.strings)

    payloads-Same :
        (answer : Answer) (p : Payloads)
        → Same (exec_pipeline answer (payload_commands owner (trim state.manifest.run_id) p) r).0
    payloads-Same answer p =
        let run = trim state.manifest.run_id in
        (
          exec_pipeline-hash (manifest_key owner) answer _ r (spares_hashes owner run p _),
          exec_pipeline-string (app_state_key owner (current_run owner r)) answer _ r
              (spares_other owner run p (current_run owner r) other),
        )

    materials-Same :
        (s : Redis)
        → Same s
        → Same
            (publish_source_material_states codec answers.materials owner
              (source_material_states_from_result state.latest)
              s).0
    materials-Same s (h, h') =
        let states = source_material_states_from_result state.latest in
        let q = current_run owner r in
        let apart : (source_materials_key owner == manifest_key owner) ≡ false =
          unfold source_materials_key manifest_key in key-ne owner _ _ materials-ne in
        let apart' : (source_materials_key owner == app_state_key owner q) ≡ false =
          unfold source_materials_key app_state_key in key-ne owner _ _ (sources-ne q) in
        (
          (materials-Agree codec owner (manifest_key owner) apart answers.materials states s).1 ∙ h,
          (materials-Agree codec owner (app_state_key owner (current_run owner r)) apart'
                answers.materials states s).0
              ∙ h',
        )

    old_seen : (s : Redis) → Same s → Seen s ≡ Seen r
    old_seen s (h, h') = read_unswitched codec owner r s h h'

    new_seen :
        (raw : Text) (s : Redis)
        → lookup (app_state_key owner (trim state.manifest.run_id)) s.strings ≡ some raw
        → codec.encode_state state ≡ ok raw
        → Seen (
            exec
              (hset
                (manifest_key owner)
                (manifest_fields codec (trim state.manifest.run_id) state.manifest))
              s)
          ≡ ok (served_state state)
    new_seen raw s stored encoded =
        let run = trim state.manifest.run_id in
        let full : is_blank run ≡ false = unfold is_blank in rw trim-trim named in
        read_switched codec laws owner run raw state s full stored encoded

    manifest-Done :
        (answer : Answer) (raw : Text) (s : Redis)
        → Same s
        → lookup (app_state_key owner (trim state.manifest.run_id)) s.strings ≡ some raw
        → codec.encode_state state ≡ ok raw
        → Done (switch_manifest codec answer owner (trim state.manifest.run_id) state s)
    unfolding switch_manifest
    manifest-Done done raw s same stored encoded =
        unfold exec_pipeline exec_all in new_seen raw s stored encoded
    manifest-Done (broken marks e) raw s same stored encoded =
        let run = trim state.manifest.run_id in
        let command = hset (manifest_key owner) (manifest_fields codec run state.manifest) in
        elim (exec_pipeline_single (broken marks e) command s) [
          | inl kept ↦ unfold exec_pipeline in inl (ap Seen kept ∙ old_seen s same)
          | inr switched ↦
              unfold exec_pipeline in inr (ap Seen switched ∙ new_seen raw s stored encoded)
        ]

    -- From the pipeline of the payloads on.
    stored-Done :
        (p : Payloads)
        → codec.encode_state state ≡ ok p.app_state
        → marshal_payloads codec state ≡ ok p
        → Done (publish_app_state codec answers owner state r)
    unfolding publish_app_state
    stored-Done p encoded marshalled =
        let run = trim state.manifest.run_id in
        let cs = payload_commands owner run p in
        let sent = exec_pipeline answers.payloads cs r in
        let states = source_material_states_from_result state.latest in
        let told = publish_source_material_states codec answers.materials owner states sent.0 in
        elim (Outcome-cases sent.1) [
          | inr (e, h) ↦
              let out : publish_app_state codec answers owner state r ≡ (sent.0, err e) =
                ground arith in
              subst Done (sym out) (inl (old_seen sent.0 (payloads-Same answers.payloads p)))
          | inl (u, h) ↦ elim (Outcome-cases told.1) [
            | inr (e, h') ↦
                let out : publish_app_state codec answers owner state r ≡ (told.0, err e) =
                  ground arith in
                subst Done (sym out)
                  (inl (old_seen told.0 (materials-Same sent.0 (payloads-Same answers.payloads p))))
            | inl (u', h') ↦
                let out : publish_app_state codec answers owner state r
                    ≡ switch_manifest codec answers.manifest owner run state told.0 =
                  ground arith in
                let q = app_state_key owner run in
                let apart : (source_materials_key owner == q) ≡ false =
                  unfold source_materials_key app_state_key in key-ne owner _ _ (sources-ne run) in
                let kept =
                  (materials-Agree codec owner q apart answers.materials states sent.0).0 in
                let whole = exec_pipeline_ok answers.payloads cs r h in
                let stored : lookup q told.0.strings ≡ some p.app_state =
                  kept ∙ (rw whole (stores_state owner run p r)) in
                let same = materials-Same sent.0 (payloads-Same answers.payloads p) in
                subst Done (sym out)
                  (manifest-Done answers.manifest p.app_state told.0 same stored encoded)
          ]
        ]

  marshalled_state :
      (p : Payloads)
      → marshal_payloads codec state ≡ ok p
      → codec.encode_state state ≡ ok p.app_state
  unfolding marshal_payloads
  marshalled_state p h = ground arith

-- Given that a state and its times come back from JSON: unless the manifest already names the run,
-- a reader after a publication is served, if it reported success, JSON's image of the state under
-- its own manifest, and if it reported failure, at whatever command, that or what a reader was
-- served before.
pub publish_app_state-Switches :
    (codec : Codec)
    → CodecLaws codec
    → (answers : Answers) (owner : Text) (state : AppState) (r : Redis)
    → current_run owner r ≢ trim state.manifest.run_id
    → let out = publish_app_state codec answers owner state r in
      Switches
        (read_app_state codec quiet owner r r)
        (ok (served_state state))
        (read_app_state codec quiet owner out.0 out.0)
        out.1
publish_app_state-Switches codec laws answers owner state r other =
    let done = Done codec laws answers owner state r in
    elim (Bool-cases (is_nil (trim state.manifest.run_id))) [
      | inl blank ↦
          let out : publish_app_state codec answers owner state r
              ≡ (r, err (codes "app state manifest run ID is required")) =
            unfold publish_app_state in rw blank in
          subst done (sym out) (inl refl)
      | inr named ↦ elim (Outcome-cases (marshal_payloads codec state)) [
        | inr (e, h) ↦
            let out : publish_app_state codec answers owner state r ≡ (r, err e) =
              unfold publish_app_state in ground arith in
            subst done (sym out) (inl refl)
        | inl (p, h) ↦
            stored-Done codec laws answers owner state r other named p
              (marshalled_state codec laws answers owner state r p h) h
      ]
    ]
