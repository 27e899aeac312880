-- ===== src/Definition.antt =====
-- The definition model of the pipelines, its expansion and its validation
-- (apps/backend/app/domain/pipelines/definition.py).
pub mod Model
pub mod Flatten
pub mod Validate
pub mod Inlining
pub mod Names
pub mod Fuel
pub mod CallGraph
pub mod Visits
pub mod Callers
pub mod Candidates
pub mod Stable
pub mod Store
pub mod Deleted
pub mod Kept
