-- ===== src/Material.antt =====
-- The sources' material and what is already known of it: backend/internal/knowledge/
-- source_candidate.go, source_material.go, source_material_cache.go and refresh_material.go.
pub mod Keys
pub mod Candidates
pub mod Merge
pub mod Selection
pub mod Cache
pub mod Union
pub mod VideoUnion
pub mod Skipping
pub mod ReadThrough
