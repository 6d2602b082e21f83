-- ===== src/LocalStore.antt =====
-- backend/internal/store/localfile/store.go: the store that keeps the latest run and the
-- transcript requests in JSON files. `Files` reads and replaces a file, `Latest` and `Requests`
-- hold the store's methods, and the other children prove.
pub mod Files
pub mod Latest
pub mod Requests
pub mod Replacement
pub mod Illustrations
pub mod Calls
pub mod Claims
pub mod Quota
pub mod Granted
