-- ===== src/ReadModel.antt =====
-- The read model: backend/internal/knowledge/read_model_cache.go, the Redis cache of
-- backend/internal/cache/rediscache/read_model_cache.go, and its publication by service.go.
pub mod State
pub mod Limits
pub mod Views
pub mod Newest
pub mod Redis
pub mod Keys
pub mod Publish
pub mod Reads
pub mod Stored
pub mod Distinct
pub mod Isolation
pub mod Manifest
pub mod Switch
pub mod Atomic
