-- ===== src/Digest.antt =====
-- Which sources, summaries and insights a daily digest is made of
-- (backend/internal/knowledge/service.go, `digestInputsForLatest` and what it calls).
-- `Refs` finds the new sources, `Inputs` selects what belongs to them, the others prove.
pub mod Refs
pub mod Inputs
pub mod Freshness
pub mod Referred
pub mod Grounding
