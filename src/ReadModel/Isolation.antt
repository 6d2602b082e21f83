-- ===== src/ReadModel/Isolation.antt =====
-- Publishing for one owner leaves what every other owner is served as it was.
use second_brain.Prelude.{
  ◌>>=◌, map_err, ◌++◌, All, Lacks, List, Option, Outcome-cases, Text, [], arith, codes, false, inl,
  inr, lookup, ok, trim, ℤ, ◌==◌, ◌∷◌, ◌≡◌, ◌≢◌,
}
use second_brain.Models.{SourceMaterialState, items}
use second_brain.Material.Keys.{source_material_states_from_result}
use second_brain.ReadModel.State.{AppState}
use second_brain.ReadModel.Redis.{failed, Answer, Command, Redis, exec_pipeline, get, expire, hset}
use second_brain.ReadModel.Keys.{
  app_state_key, ask_context_key, digests_key, graph_key, key, latest_run_key, manifest_key,
  owner_of, refresh_status_key, run_meta_key, source_materials_key, view_key,
}
use second_brain.ReadModel.Publish.{
  Answers, Codec, marshal_payloads, material_values, payload_commands, publish_app_state,
  publish_source_material_states, switch_manifest, Payloads,
}
use second_brain.ReadModel.Reads.{
  cut_digests, read_app_state, read_digests, read_insight_graph, read_manifest, read_refresh_status,
  served_graph,
}
use second_brain.ReadModel.Stored.{
  SparesHash, SparesString, exec_pipeline-hash, exec_pipeline-string,
}
use second_brain.ReadModel.Distinct.{key-ne_owner}

-- The two stores agree at a key.
abbrev pub Agree : Text → Redis → Redis → Type 0
Agree k r r' = (lookup k r.strings ≡ lookup k r'.strings) × (lookup k r.hashes ≡ lookup k r'.hashes)

pipeline-Agree :
    (k : Text) (answer : Answer) (cs : List Command) (r : Redis)
    → All (SparesString k) cs
    → All (SparesHash k) cs
    → Agree k (exec_pipeline answer cs r).0 r
pipeline-Agree k answer cs r h h' =
    (exec_pipeline-string k answer cs r h, exec_pipeline-hash k answer cs r h')

-- The publication of material states changes nothing but these.
pub materials-Agree :
    (codec : Codec) (owner k : Text)
    → (source_materials_key owner == k) ≡ false
    → (answer : Answer) (states : List SourceMaterialState) (r : Redis)
    → Agree k (publish_source_material_states codec answer owner states r).0 r
unfolding publish_source_material_states
materials-Agree codec owner k apart answer states r =
    elim (Outcome-cases (material_values codec [] states)) [
      | inr (e, h) ↦ (ground arith, ground arith)
      | inl (values, h) ↦
          let store = source_materials_key owner in
          let sent =
            pipeline-Agree k answer (hset store values ∷ expire store ∷ []) r (tt, (tt, tt))
              (apart, (tt, tt)) in
          (ground arith, ground arith)
    ]

module _ (owner k : Text) (foreign : (s : Text) → (key owner s == k) ≡ false) where
  payload_commands-Spares :
      (run : Text) (p : Payloads)
      → All (SparesString k) (payload_commands owner run p)
        × All (SparesHash k) (payload_commands owner run p)
  unfolding payload_commands latest_run_key run_meta_key app_state_key digests_key graph_key
      ask_context_key view_key
  payload_commands-Spares run p = (
    (
      foreign _,
      (
        foreign _,
        (
          foreign _,
          (
            foreign _,
            (foreign _, (foreign _, (foreign _, (foreign _, (foreign _, (foreign _, tt)))))),
          ),
        ),
      ),
    ),
    (tt, (tt, (tt, (tt, (tt, (tt, (tt, (tt, (tt, (tt, tt)))))))))),
  )

  module _ (codec : Codec) where
    manifest-Agree :
        (answer : Answer) (run : Text) (state : AppState) (r : Redis)
        → Agree k (switch_manifest codec answer owner run state r).0 r
    unfolding switch_manifest manifest_key
    manifest-Agree answer run state r = pipeline-Agree k answer _ r (tt, tt) (foreign _, tt)

    -- A key that is none of the owner's is left alone, however the publication ends.
    publish_app_state-Agree :
        (answers : Answers) (state : AppState) (r : Redis)
        → Agree k (publish_app_state codec answers owner state r).0 r
    unfolding publish_app_state
    publish_app_state-Agree answers state r =
        let run = trim state.manifest.run_id in
        elim (Outcome-cases (marshal_payloads codec state)) [
          | inr (e, h) ↦ (ground arith, ground arith)
          | inl (p, h) ↦
              let cs = payload_commands owner run p in
              let stored = (exec_pipeline answers.payloads cs r).0 in
              let states = source_material_states_from_result state.latest in
              let known =
                (publish_source_material_states codec answers.materials owner states stored).0 in
              let (spared, spared') = payload_commands-Spares run p in
              let first = pipeline-Agree k answers.payloads cs r spared spared' in
              let apart : (source_materials_key owner == k) ≡ false =
                unfold source_materials_key in foreign (codes "source-materials") in
              let second = materials-Agree codec owner k apart answers.materials states stored in
              let third = manifest-Agree answers.manifest run state known in
              (ground arith, ground arith)
        ]

module _ (codec : Codec) (net : Text → Option Text) (owner : Text) (after r : Redis)
    (agree : (s : Text) → Agree (key owner s) after r) where
  manifest_same : read_manifest codec net owner after ≡ read_manifest codec net owner r
  unfolding read_manifest manifest_key
  manifest_same = ground (arith, agree (codes "manifest"))

  get_same : (s : Text) → get net (key owner s) after ≡ get net (key owner s) r
  unfolding get
  get_same s = ground (arith, agree s)

  app_state_same : read_app_state codec net owner after after ≡ read_app_state codec net owner r r
  unfolding read_app_state app_state_key
  app_state_same = λ i. manifest_same i >>= λ m.
      get_same (codes "app-state:" ++ m.run_id) i >>= λ raw.
      map_err failed (codec.decode_state raw) >>= λ state. ok (record state { manifest = m })

  digests_same :
      (limit : ℤ)
      → read_digests codec net owner limit after after ≡ read_digests codec net owner limit r r
  unfolding read_digests digests_key
  digests_same limit = λ i. manifest_same i >>= λ m.
      get_same (codes "digests:" ++ (m.run_id ++ codes ":list")) i >>= λ raw.
      map_err failed (codec.decode_digests raw) >>= λ ds. ok (cut_digests limit (items ds))

  graph_same :
      (limit : ℤ)
      → read_insight_graph codec net owner limit after after
        ≡ read_insight_graph codec net owner limit r r
  unfolding read_insight_graph graph_key
  graph_same limit = λ i. manifest_same i >>= λ m.
      get_same (codes "graph:" ++ (m.run_id ++ codes ":read-model")) i >>= λ raw.
      map_err failed (codec.decode_graph raw) >>= λ graph. served_graph limit graph

  status_same : read_refresh_status codec net owner after ≡ read_refresh_status codec net owner r
  unfolding read_refresh_status refresh_status_key
  status_same =
      λ i. get_same (codes "refresh:status") i >>= λ raw. map_err failed (codec.decode_status raw)

-- Publishing for one owner, however it ends, changes nothing of what a reader of another owner is
-- served, if neither owner has a colon: not the state, the digests, the graph or the refresh status.
pub publish_app_state-isolated :
    (codec : Codec) (answers : Answers) (owner other : Text) (state : AppState) (r : Redis)
    (net : Text → Option Text) (limit : ℤ)
    → Lacks b':' (owner_of owner)
    → Lacks b':' (owner_of other)
    → owner_of owner ≢ owner_of other
    → let after = (publish_app_state codec answers owner state r).0 in
      (read_app_state codec net other after after ≡ read_app_state codec net other r r)
      × (read_digests codec net other limit after after ≡ read_digests codec net other limit r r)
      × (read_insight_graph codec net other limit after after
          ≡ read_insight_graph codec net other limit r r)
      × (read_refresh_status codec net other after ≡ read_refresh_status codec net other r)
publish_app_state-isolated codec answers owner other state r net limit h h' n =
    let after = (publish_app_state codec answers owner state r).0 in
    let agree : (s : Text) → Agree (key other s) after r = λ s.
      publish_app_state-Agree owner (key other s) (λ t. key-ne_owner owner other t s h h' n) codec
        answers state r in
    (
      app_state_same codec net other after r agree,
      digests_same codec net other after r agree limit,
      graph_same codec net other after r agree limit,
      status_same codec net other after r agree,
    )
