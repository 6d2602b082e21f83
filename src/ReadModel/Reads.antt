-- ===== src/ReadModel/Reads.antt =====
-- The reads of rediscache. A read is several commands, and other clients may write between them:
-- the manifest is read in one state of the store and the payload in a later one. `net` says which
-- commands fail.
use second_brain.Prelude.{
  Dict, List, Option, Outcome, Text, [], codes, err, fallback, if◌then◌else◌, is_blank, is_nil,
  length, lookup, ltb, map_err, negsuc, none, ok, or_else, pos, some, take, ℤ, ◌>>=◌, ◌||◌, ◌&&◌,
}
use second_brain.Models.{DigestIssue, RefreshStatus, items}
use second_brain.Graph.Response.{InsightGraphResponse, limit_insight_graph_response}
use second_brain.ReadModel.State.{AppState, AppStateGraph, AppStateManifest}
use second_brain.ReadModel.Redis.{CacheError, Redis, failed, get, hash_at, miss}
use second_brain.ReadModel.Keys.{
  app_state_key, digests_key, graph_key, manifest_key, refresh_status_key,
}
use second_brain.ReadModel.Publish.{Codec, app_state_schema_version}

-- `fields[name]`, blank where it is missing.
abbrev pub field : Text → Dict Text → Text
field name fields = or_else (lookup name fields) []

-- `if limit > 0 && len(digests) > limit { digests = digests[:limit] }`.
unfoldable pub cut_digests : ℤ → List DigestIssue → List DigestIssue
cut_digests (pos n) digests = if ltb 0 n && ltb n (length digests) then take n digests else digests
cut_digests (negsuc n) digests = digests

-- A graph without nodes of insights is a miss.
unfoldable pub served_graph : ℤ → AppStateGraph → Outcome CacheError InsightGraphResponse
served_graph limit graph = elim graph.insight_graph [
  | none ↦ err miss
  | some insight_graph ↦ ok (limit_insight_graph_response insight_graph limit)
]

module _ (codec : Codec) (net : Text → Option Text) where
  unfoldable pub manifest_of : Dict Text → AppStateManifest
  manifest_of fields = record {
    schema_version = fallback (field (codes "schema_version") fields) app_state_schema_version;
    run_id = field (codes "current_run_id") fields;
    generated_at = or_else (codec.parse_time (field (codes "generated_at") fields)) 0;
    published_at = or_else (codec.parse_time (field (codes "published_at") fields)) 0;
    etag = field (codes "etag") fields;
    graph_status = field (codes "graph_status") fields;
    digest_status = field (codes "digest_status") fields;
  }

  unfoldable pub read_manifest : Text → Redis → Outcome CacheError AppStateManifest
  read_manifest owner_id redis = elim (net (manifest_key owner_id)) [
    | some e ↦ err (failed e)
    | none ↦
        let fields = hash_at (manifest_key owner_id) redis in
        if is_nil fields || is_blank (field (codes "current_run_id") fields)
        then err miss
        else ok (manifest_of fields)
  ]

  unfoldable pub read_app_state : Text → Redis → Redis → Outcome CacheError AppState
  read_app_state owner_id redis later = do
    manifest ← read_manifest owner_id redis
    raw ← get net (app_state_key owner_id manifest.run_id) later
    state ← map_err failed (codec.decode_state raw)
    ok (record state { manifest = manifest })

  unfoldable pub read_digests : Text → ℤ → Redis → Redis → Outcome CacheError (List DigestIssue)
  read_digests owner_id limit redis later = do
    manifest ← read_manifest owner_id redis
    raw ← get net (digests_key owner_id manifest.run_id) later
    digests ← map_err failed (codec.decode_digests raw)
    ok (cut_digests limit (items digests))

  unfoldable pub read_insight_graph :
      Text → ℤ → Redis → Redis → Outcome CacheError InsightGraphResponse
  read_insight_graph owner_id limit redis later = do
    manifest ← read_manifest owner_id redis
    raw ← get net (graph_key owner_id manifest.run_id) later
    graph ← map_err failed (codec.decode_graph raw)
    served_graph limit graph

  unfoldable pub read_refresh_status : Text → Redis → Outcome CacheError RefreshStatus
  read_refresh_status owner_id redis = do
    raw ← get net (refresh_status_key owner_id) redis
    map_err failed (codec.decode_status raw)
