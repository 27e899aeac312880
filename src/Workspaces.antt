-- ===== src/Workspaces.antt =====
-- The workspaces (apps/backend/app/core/workspace): the single-flight claim and the dispatch through
-- it, the loss of an agent, what the agents report, and the reaper.
pub mod Claims
pub mod Loss
pub mod Sink
pub mod Reaper
pub mod Rows
pub mod Lock
pub mod Destroyed
