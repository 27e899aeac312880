-- ===== src/Engine.antt =====
-- The run engine: apps/backend/app/domain/pipelines/engine.py, escalation.py and the run lifecycle of
-- service.py.
pub mod Rows
pub mod World
pub mod Promotion
pub mod Terminal
pub mod Context
pub mod Dispatch
pub mod StartStage
pub mod Review
pub mod Pause
pub mod Returns
pub mod Route
pub mod Events
pub mod Queue
pub mod Oldest
pub mod Promoted
pub mod Routed
pub mod SentBack
pub mod Recovered
pub mod Bounded
pub mod Answered
pub mod Requests
pub mod Start
pub mod Sweeps
pub mod Resumed
pub mod Remains
pub mod Outcome
pub mod Decided
