-- ===== src/Gateway.antt =====
-- The gateway of the workspace agents (apps/backend/app/core/agent_gateway): its rows, the durable
-- queue of commands, the ledger of bearers, the life of an agent and the reports of the agents.
pub mod Rows
pub mod Queue
pub mod Claim
pub mod Lease
pub mod Bearers
pub mod Agents
pub mod Heartbeats
pub mod Reports
pub mod Oldest
pub mod Selection
pub mod Evolution
pub mod Unique
pub mod Delivery
pub mod Claimed
pub mod Materialised
pub mod Reported
pub mod Drained
pub mod Trace
pub mod Refusals
pub mod Answers
pub mod Ledger
pub mod Revoked
pub mod Moved
pub mod Aged
pub mod Swept
pub mod Envelope
pub mod Untouched
