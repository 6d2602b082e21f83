-- ===== src/Delivery.antt =====
-- The daily digest: GenerateDigest of backend/internal/knowledge/service.go with the delivery of
-- digest_delivery.go.
pub mod Send
pub mod Generate
pub mod Daily
pub mod LocalDigests
