-- ===== src/Storage.antt =====
-- backend/internal/knowledge/artifacts.go: where an artifact is stored, and how it is written.
-- `ObjectPath` builds object paths, `Upload` writes them, and the other children prove.
pub mod ObjectPath
pub mod Containment
pub mod SlashRoot
pub mod Upload
pub mod Atomicity
