-- ===== src/Run.antt =====
-- A refresh as a whole: backend/internal/knowledge/service.go from RunCycle to
-- publishAppStateBestEffort, with refresh_material.go and youtube_source.go where it calls them.
pub mod Output
pub mod Sources
pub mod Transcripts
pub mod FetchOnce
pub mod LocalLedger
pub mod Validation
pub mod Prepare
pub mod Process
pub mod Reused
pub mod Cycle
pub mod Guarded
pub mod Outage
pub mod Merged
pub mod Kept
pub mod Saves
pub mod Preserved
pub mod Forgotten
