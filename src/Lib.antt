-- ===== src/Lib.antt =====
-- The pipelines of yaaos: how a change request is driven through the stages of a pipeline, with
-- reviews, pauses for a human, send-backs and cleanup.
--
-- The parts, and the files that model them (paths below apps/backend/app):
--   * domain/pipelines/definition.py: Definition. Authored stages (Definition.Model), `flatten`
--     (Definition.Flatten), `_transitive_callers` and `validate_definition` (Definition.Validate).
--     The store of definitions in service.py there: Definition.Store.
--   * domain/pipelines/boundary.py: Boundary. domain/pipelines/contracts.py: Contracts.
--   * domain/findings: Findings. domain/artifacts: Artifacts. The status of a ticket in
--     domain/tickets/service.py: Tickets. core/audit_log/actor.py: Actor.
--   * domain/pipelines/engine.py, escalation.py and the run lifecycle of service.py: Engine. The rows
--     are in Engine.Rows, the state of a transaction in Engine.World. Queue and promotion:
--     Engine.Promotion; ends of runs and cleanup: Engine.Terminal; ROUTE_RUN: Engine.Route;
--     START_STAGE: Engine.Context, Engine.Dispatch and Engine.StartStage; HANDLE_AGENT_EVENT:
--     Engine.Review, Engine.Pause, Engine.Returns and Engine.Events; what users and intake ask:
--     Engine.Requests and Engine.Start.
--   * core/agent_gateway: Gateway. The rows of the gateway and of the workspaces, and the state of a
--     transaction on them, are in Gateway.Rows; the queue of commands in Gateway.Queue, Gateway.Claim
--     and Gateway.Lease; bearers.py in Gateway.Bearers; agents, heartbeats and `deregister_identity`
--     in Gateway.Agents and Gateway.Heartbeats; events of agents in Gateway.Reports.
--   * core/workspace: Workspaces. dispatch.py is Workspaces.Claims, agent_report.py Workspaces.Sink;
--     of service.py, agent loss is Workspaces.Loss and the reaper Workspaces.Reaper.
--   * core/identity/sessions.py: Sessions. The table is in Sessions.Rows, its operations in
--     Sessions.Access.
-- Proofs stand in the modules below these parts; Scenarios applies the theorems to small pipelines
-- and runs.
--
-- How the state corresponds. A transaction of the engine works on the rows of one ticket; `World`
-- holds them: the run in hand, the other runs of the ticket, the stage executions and pauses (newest
-- first), findings, artifacts and the ticket, with the tasks of the outbox, the agent commands and
-- the audit rows, events and notifications in the order in which they are left. Loading another
-- run is `focus`. An operation that may raise returns a `Result`; a raised exception rolls the
-- transaction back, so the error holds no world. UUIDs are numbers that rise, as uuid7 does; times
-- are numbers. What lies outside these files is the record `Services` or a parameter:
-- workspaces, what a dispatch raises, memberships, protected paths, actions, the parsing of returns,
-- the text of a fix, and the search of an error message for an expired credential.
--
-- The gateway and the workspaces have a state of their own, `Fleet`: the tables of commands, agents,
-- bearers and workspaces, the outbox, the audit rows, the events for the dashboard, and the clock.
-- Transactions on it follow one another, so that no row is locked by another one; the claim that waits
-- is a claim in a later state. What they call is the record `Platform`: tokens and digests, hydrators,
-- the run sink, the configuration of an organisation and the workspace provider.
--
-- Recursion. `flatten` has two units of fuel more than there are pipelines, since the definition
-- that is flattened may stand outside the mapping; the cycle check ends it earlier. The search for
-- callers has a unit for each round that finds a new pipeline. The loop of a claim counts the rows
-- that it may still retire, five at the start. The other functions recur on lists.
--
-- Not modelled: storage, transport and HTTP, log lines, templates, schedules, the exchange of an
-- agent's identity, listings, and the dispatch of a provision, which fetches credentials. Checks that
-- the caller's organisation owns a row come before these calls and are left out.
mod Prelude
mod Scenarios
pub mod Definition
pub mod Actor
pub mod Findings
pub mod Tickets
pub mod Artifacts
pub mod Contracts
pub mod Boundary
pub mod Engine
pub mod Gateway
pub mod Workspaces
pub mod Sessions
