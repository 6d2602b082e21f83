-- ===== src/ReadModel/Switch.antt =====
-- A publication switches a reader from one run to the next: the manifest is written last.
use second_brain.Prelude.{
  All, Text, [], append-ne, arith, codes, false, is_blank, lookup, lookup-insert_self, ok, some,
  sym, ◌++◌, ◌==◌, ◌∙◌, ◌∷◌, ◌≡◌, ◌≢◌,
}
use second_brain.ReadModel.State.{AppState, persisted_state}
use second_brain.ReadModel.Redis.{Redis, exec, exec_all, get, hash_at, hset, set}
use second_brain.ReadModel.Keys.{
  app_state_key, ask_context_key, digests_key, graph_key, key, latest_run_key, manifest_key,
  run_meta_key, view_key,
}
use second_brain.ReadModel.Publish.{
  Codec, Payloads, app_state_schema_version, manifest_fields, payload_commands,
}
use second_brain.ReadModel.Reads.{field, manifest_of, read_app_state, read_manifest}
use second_brain.ReadModel.Stored.{exec_all-string, SparesHash, SparesString}
use second_brain.ReadModel.Distinct.{ask-ne, digests-ne, graph-ne, key-ne, run-ne, view-ne}
use second_brain.ReadModel.Manifest.{
  CodecLaws, lookup-nonempty, manifest_of-fields, quiet, run_id_field, stored_fields,
}

module _ (owner run : Text) (p : Payloads) where
  -- The state of another run is none of the payloads.
  pub spares_other :
      (q : Text)
      → q ≢ run
      → All (SparesString (app_state_key owner q)) (payload_commands owner run p)
  unfolding payload_commands latest_run_key run_meta_key app_state_key digests_key graph_key
      ask_context_key view_key
  spares_other q n =
      let view : (t : Text) → (key owner (codes "view:" ++ t) == app_state_key owner q) ≡ false =
        λ t. key-ne owner _ _ (view-ne t q) in
      (
        key-ne owner _ _ (run-ne _ q),
        (
          key-ne owner _ _ (run-ne _ q),
          (
            key-ne owner _ _ (append-ne (codes "app-state:") run q (λ e. n (sym e))),
            (
              key-ne owner _ _ (digests-ne _ q),
              (
                key-ne owner _ _ (graph-ne _ q),
                (key-ne owner _ _ (ask-ne _ q), (view _, (view _, (view _, (view _, tt))))),
              ),
            ),
          ),
        ),
      )

  pub spares_hashes : (k : Text) → All (SparesHash k) (payload_commands owner run p)
  unfolding payload_commands
  spares_hashes k = (tt, (tt, (tt, (tt, (tt, (tt, (tt, (tt, (tt, (tt, tt))))))))))

  -- A pipeline that is done has stored the state.
  pub stores_state :
      (r : Redis)
      → lookup (app_state_key owner run) (exec_all (payload_commands owner run p) r).strings
        ≡ some p.app_state
  unfolding payload_commands exec_all exec app_state_key digests_key graph_key ask_context_key
      view_key
  stores_state r =
      let before =
        exec (set (run_meta_key owner run) p.meta)
          (exec (set (latest_run_key owner run) p.latest) r) in
      let k = key owner (codes "app-state:" ++ run) in
      let behind =
        set (digests_key owner run) p.digests
        ∷ set (graph_key owner run) p.graph
        ∷ set (ask_context_key owner run) p.ask_context
        ∷ set (view_key owner run (codes "insights")) p.insights
        ∷ set (view_key owner run (codes "daily-newsletter")) p.newsletter
        ∷ set (view_key owner run (codes "original-x-bookmarks")) p.bookmarks
        ∷ set (view_key owner run (codes "original-youtube-posts")) p.videos
        ∷ [] in
      let view : (t : Text) → (key owner (codes "view:" ++ t) == k) ≡ false =
        λ t. key-ne owner _ _ (view-ne t run) in
      exec_all-string k behind (exec (set k p.app_state) before) (
        key-ne owner _ _ (digests-ne _ run),
        (
          key-ne owner _ _ (graph-ne _ run),
          (key-ne owner _ _ (ask-ne _ run), (view _, (view _, (view _, (view _, tt))))),
        ),
      )
      ∙ lookup-insert_self k p.app_state before.strings

-- A store in which the manifest names `run` and the state of `run` is stored serves that state.
pub read_switched :
    (codec : Codec)
    → CodecLaws codec
    → (owner run raw : Text) (state : AppState) (r : Redis) → is_blank run ≡ false
    → lookup (app_state_key owner run) r.strings ≡ some raw
    → codec.encode_state state ≡ ok raw
    → let after = exec (hset (manifest_key owner) (manifest_fields codec run state.manifest)) r in
      read_app_state codec quiet owner after after
      ≡ ok (record (persisted_state state) {
        manifest = record (state.manifest) {
          schema_version = app_state_schema_version;
          run_id = run;
        };
      })
unfolding read_app_state read_manifest get exec
read_switched codec laws owner run raw state r named stored encoded =
    let hash = hash_at (manifest_key owner) r in
    let fields = stored_fields codec run state.manifest hash in
    ground (
      arith,
      lookup-insert_self (manifest_key owner) fields r.hashes,
      lookup-nonempty (codes "current_run_id") run fields
          (run_id_field codec run state.manifest hash),
      run_id_field codec run state.manifest hash,
      manifest_of-fields codec run state.manifest hash laws,
      laws.state_back state raw encoded,
    )

-- The run that the manifest of an owner names.
abbrev pub current_run : Text → Redis → Text
current_run owner r = field (codes "current_run_id") (hash_at (manifest_key owner) r)

-- A store that agrees on the manifest and on the state that it names serves the same.
pub read_unswitched :
    (codec : Codec) (owner : Text) (r r' : Redis)
    → lookup (manifest_key owner) r'.hashes ≡ lookup (manifest_key owner) r.hashes
    → lookup (app_state_key owner (current_run owner r)) r'.strings
      ≡ lookup (app_state_key owner (current_run owner r)) r.strings
    → read_app_state codec quiet owner r' r' ≡ read_app_state codec quiet owner r r
unfolding read_app_state read_manifest manifest_of get
read_unswitched codec owner r r' h s = ground arith
