-- ===== src/Lib.antt =====
-- Second Brain collects X bookmarks and YouTube videos, has a model summarise them, keeps what it
-- learned in a store, and sends a daily digest. This library models the Go code under
-- backend/internal that decides what is kept, claimed, served and sent.
--
-- How the parts work together: a refresh, one at a time (Refresh), fetches sources, selects
-- those that have not been synthesised and merges what it has with the last run (Run, Material);
-- the text of a source is written to object storage (Storage); the run is saved to the store
-- (LocalStore), which also counts the paid transcript requests, and published to a cache from
-- which readers are served views of it (ReadModel) and the graph of insights (Graph); a digest
-- is composed of what is new since the last one (Digest) and mailed (Delivery). X is read with a
-- token that a browser authorises (OAuth).
--
-- Files:
-- - Prelude, with Prelude/: tests, lists, integers, texts as code points, maps as association lists,
--   results of calls that fail, stable sorting, and splitting at a separator.
-- - Models, with Models/: the records of backend/internal/knowledge/models.go, source_material.go and
--   source_candidate.go and of backend/internal/config/config.go, with the names of the source in
--   snake case. A time is a number of nanoseconds since the zero time, a float its bit pattern, and
--   a slice may be nil. Models/Persisted is what encoding/json keeps of a run.
-- - Storage: backend/internal/knowledge/artifacts.go. ObjectPath has safeStoragePathPart and
--   filesystemObjectPath, Upload has writeEvidenceArtifact down to the rename of the temporary file.
-- - LocalStore: backend/internal/store/localfile/store.go. Files holds the reads and replacements of
--   files, Latest the run, its digests and feedback, Requests the transcript requests, and Calls a
--   sequence of calls of the store.
-- - Digest: backend/internal/knowledge/service.go from digestInputsForLatest to digestSourceKey.
-- - Material: source_material.go, source_candidate.go, refresh_material.go and
--   source_material_cache.go of backend/internal/knowledge.
-- - Graph: backend/internal/knowledge/insight_graph.go.
-- - Refresh: StartRefresh, setRefreshStage and RefreshStatus of backend/internal/knowledge/service.go.
--   Refresh/Flight has the steps that calls and goroutines take under the mutex.
-- - ReadModel: Limits and Views have read_model_cache.go of backend/internal/knowledge from
--   CompactAppStateForView to youtubeItemURLs. Redis, Keys, Publish and Reads have
--   backend/internal/cache/rediscache/read_model_cache.go over the commands of the client, where a
--   pipeline may fail after any of its commands.
-- - Run: RunCycle of service.go with processedSourcesFromResult and appendProcessedOutput of
--   refresh_material.go (Output) and fetchYouTubeTranscriptsForNewMaterials of youtube_source.go
--   (Transcripts). Prepare goes down to the selection of candidates, Cycle has the decisions and the
--   save, Validation the list that a run carries, and Process is processSourceCandidates. LocalLedger
--   makes the local store a Ledger.
-- - Delivery: GenerateDigest of service.go (Generate) and deliverDigest of digest_delivery.go (Send).
--   LocalDigests makes the local store a DigestStore.
-- - OAuth: xOAuthStates of backend/internal/knowledge/x_oauth.go, as a sequence of calls.
-- - Tests: the theorems at concrete inputs.
--
-- Parameters: the hash, case folding, the working directory, the parser and the format of times
-- and numbers, and the JSON codec are arguments, since they are not part of the repository; of
-- the codec only that what it encodes is decoded again is assumed. What the operating system,
-- the clock, the providers and the Redis connection answer in a call is an argument of the call,
-- so that the theorems hold for every answer. Two promises of a store, that a transcript request
-- is granted once (Run/FetchOnce) and that a saved digest is remembered (Delivery/Daily), are
-- interfaces, which the local store fills. All loops are structural recursion, so no fuel is
-- needed.
--
-- Not modelled: network calls and the prompts; the SQL of the Postgres store, which a database
-- runs; logging and tracing; embeddings and rankings, which stand on floating point; the
-- commands, which wire these parts together; the functions of learning.go, which are arguments
-- of RunCycle and of GenerateDigest; how a state is built from a run; the HTTP routes; and the
-- text of the mails. RunCycle takes any function in place of processSourceCandidates.
pub mod Prelude
pub mod Models
pub mod Storage
pub mod LocalStore
pub mod Digest
pub mod Material
pub mod Graph
pub mod Refresh
pub mod OAuth
pub mod ReadModel
pub mod Run
pub mod Delivery
pub mod Tests
