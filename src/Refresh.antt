-- ===== src/Refresh.antt =====
-- The refresh that a service runs in the background (backend/internal/knowledge/service.go,
-- `StartRefresh`, `setRefreshStage`, `RefreshStatus`). `Status` holds the operations, `Flight`
-- the steps of a service and what is invariant under them.
pub mod Status
pub mod Flight
