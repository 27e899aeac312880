-- ===== src/Scenarios/Gateways.antt =====
-- The theorems on the gateway of the agents and on workspaces at a small fleet.
use yaaos.Prelude.{
  String, or_else, ◌∷◌, ℕ, ◌<◌, ◌+◌, ◌≤◌, true, false, ◌≡◌, ◌≢◌, refl, ◌↔◌, ◌⊎◌, none, some, [], ok,
  err, ltb, if◌then◌else◌, arith, get,
}
use yaaos.Gateway.Rows.{
  Fleet, CommandRow, EventKind, delivered, is_provision, is_unconfigured, WorkspaceRow, stale_claim,
  CommandKind, new_id, text, uuid, null,
}
use yaaos.Gateway.Queue.{
  get_command, get_command_status, AgentCommand, pending_row, kind_str, uuid_or_null,
}
use yaaos.Gateway.Envelope.{pending_row-envelope}
use yaaos.Gateway.Claim.{
  Claimed, claim_next, select_eligible_row_nowait, is_positive, outbound, stamp_claim, claim_row,
  hydrate_next, oldest_where,
}
use yaaos.Gateway.Lease.{requeue_row}
use yaaos.Gateway.Bearers.{issue, verify, revoke, issued_row, revoke_where}
use yaaos.Gateway.Reports.{AgentEvent, record_agent_event}
use yaaos.Gateway.Evolution.{Evolves}
use yaaos.Gateway.Unique.{Unique}
use yaaos.Gateway.Selection.{Selects, rank, select_eligible_row_nowait-Selects}
use yaaos.Gateway.Trace.{Step, Steps, Steps-Evolves}
use yaaos.Gateway.Answers.{
  requeue_row-rank, record_agent_event-claim_next, record_agent_event-stale,
}
use yaaos.Gateway.Ledger.{verify-issue}
use yaaos.Gateway.Revoked.{LedgerStep, LedgerSteps, verify-revoke}
use yaaos.Workspaces.Claims.{get_workspace, try_claim, release_claim}
use yaaos.Workspaces.Rows.{UniqueWorkspaces}
use yaaos.Workspaces.Lock.{
  Refines, on_lock, lock_of, acquire, release, try_claim-Refines, release_claim-Refines,
}
use yaaos.Workspaces.Destroyed.{keep_destroying, is_settled_workspace, keep_destroying-final}
use yaaos.Gateway.Rows.{AgentRow, Liveness}
use yaaos.Scenarios.Fleets.{worker, fleet, stubborn, request, pending_command}

select_eligible_row_nowait-Selects_example :
    Selects request fleet.commands (select_eligible_row_nowait request fleet.commands)
select_eligible_row_nowait-Selects_example =
    select_eligible_row_nowait-Selects request fleet.commands

fleet-Unique : Unique fleet
fleet-Unique = (refl, (refl, (refl, tt)))

fleet-UniqueWorkspaces : UniqueWorkspaces fleet
fleet-UniqueWorkspaces = (refl, (refl, tt))

-- The agent claims, and the reaper sweeps long after.
abbrev after_claim : Fleet
after_claim = (claim_next stubborn request fleet).1

abbrev much_later : Fleet
much_later = record after_claim { now = after_claim.now + 100 }

claim_and_wait : Steps fleet much_later
claim_and_wait =
    Steps.next (Step.claimed stubborn request) (Steps.next (Step.passed 100) Steps.stop)

abbrev configuration : CommandRow
configuration = pending_command 52 CommandKind.config_update none (some 7)

Steps-Evolves_example :
    (d : CommandRow) × (get_command 52 much_later ≡ some d) × Evolves configuration d
Steps-Evolves_example = Steps-Evolves 52 fleet-Unique claim_and_wait refl

requeue_row-rank_example :
    (rank request
        (requeue_row (pending_command 51 CommandKind.invoke_claude_code (some 80) (some 7)))
      < 3)
    ↔ ((is_provision CommandKind.invoke_claude_code ≡ true)
        × (is_unconfigured request.lifecycle ≡ false)
        × (is_positive request.new_workspaces ≡ true))
requeue_row-rank_example =
    requeue_row-rank request (pending_command 51 CommandKind.invoke_claude_code (some 80) (some 7))
      (omega arith)

-- The receipt of the configuration.
abbrev receipt : AgentEvent
receipt = record {
  command_id = 52;
  kind = EventKind.received;
  outcome_label = none;
  outputs = [];
  failure_reason = none;
  traceparent = "";
  completion_token = some "token";
  artifact = none;
  artifact_error = none;
}

abbrev claimed_configuration : Claimed
claimed_configuration = outbound stubborn request configuration fleet []

claims_configuration : (claim_next stubborn request fleet).0 ≡ some claimed_configuration
unfolding claim_next hydrate_next select_eligible_row_nowait oldest_where outbound stamp_claim
    claim_row
claims_configuration = refl

record_agent_event-claim_next_example :
    (t : Fleet) × (record_agent_event stubborn receipt
        (some 7)
        (claim_next stubborn request fleet).1
      ≡ ok t)
    × (get_command_status 52 t ≡ some delivered)
unfolding outbound stamp_claim
record_agent_event-claim_next_example =
    record_agent_event-claim_next stubborn request receipt (some 7) fleet fleet-Unique
      claims_configuration refl refl refl

-- The command was claimed again, under another token.
abbrev reclaimed : Fleet
reclaimed = record fleet {
  commands =
      record (pending_command 52 CommandKind.config_update none (some 7)) {
        completion_token_hash = some "other";
      }
      ∷ [];
}

record_agent_event-stale_example :
    (record_agent_event stubborn receipt (some 7) reclaimed ≡ err stale_claim) ↔ (
      (get_command 52 reclaimed ≡ none)
      ⊎ ((c : CommandRow) × (hash : String) × (get_command 52 reclaimed ≡ some c)
          × (c.completion_token_hash ≡ some hash)
          × (stubborn.sha256 (or_else receipt.completion_token "") ≢ hash)))
record_agent_event-stale_example = record_agent_event-stale stubborn receipt (some 7) reclaimed

verify-issue_example :
    let (token, t) = issue stubborn 7 1 none 3600 none fleet in
    (verify stubborn token (record t { now = 1000 + 60 })).0
    ≡ (if ltb 60 3600 then some (record { bearer_id = 100; agent_id = 7; org_id = 1 }) else none)
verify-issue_example = verify-issue stubborn 7 1 3600 none none fleet 60 refl refl

-- A bearer is issued and revoked, and then another one is issued, which verifies.
abbrev issued_once : Fleet
issued_once = (issue stubborn 7 1 none 3600 none fleet).1

abbrev reissued : Fleet
reissued = (issue stubborn 7 1 none 3600 none (revoke 100 "manual_rotate" issued_once)).1

reissue : LedgerSteps (revoke 100 "manual_rotate" issued_once) reissued
reissue = LedgerSteps.next (LedgerStep.issued stubborn 7 1 3600 none none) LedgerSteps.stop

reissued_verifies :
    (verify stubborn "other" reissued).0
    ≡ some (record { bearer_id = 101; agent_id = 7; org_id = 1 })
unfolding verify issue issued_row revoke revoke_where new_id
reissued_verifies = refl

issued_id : 100 < issued_once.next_id
unfolding issue new_id
issued_id = omega arith

verify-revoke_example : ◌≢◌ {A = ℕ} 101 100
verify-revoke_example =
    verify-revoke 100 "manual_rotate" stubborn "other" issued_once issued_id reissue
      reissued_verifies

try_claim-Refines_example :
    Refines (try_claim 80 51 none fleet) (on_lock (acquire 51) 80 (lock_of fleet))
try_claim-Refines_example = try_claim-Refines 80 51 none fleet fleet-UniqueWorkspaces

release_claim-Refines_example :
    Refines (release_claim 80 51 fleet) (on_lock (release 51) 80 (lock_of fleet))
release_claim-Refines_example = release_claim-Refines 80 51 fleet fleet-UniqueWorkspaces

keep_destroying-final_example :
    (r : WorkspaceRow) × (get_workspace 81 (keep_destroying 3 stubborn 81 fleet) ≡ some r)
    × (is_settled_workspace r.status ≡ true)
    × (r.destroy_attempts ≤ 3)
keep_destroying-final_example =
    keep_destroying-final 3 stubborn 81 fleet fleet-UniqueWorkspaces refl refl (omega arith)

-- The agent has just been disconnected, ten seconds after a heartbeat.
abbrev disconnected : AgentRow
disconnected = record worker { state = Liveness.offline; last_shutdown_at = some 1000 }

abbrev deserted : Fleet
deserted = record fleet { agents = disconnected ∷ [] }

-- A caller that gives the fields of the envelope itself.
abbrev spoofed : AgentCommand
spoofed = record {
  command_id = 60;
  kind = CommandKind.invoke_codex;
  workspace_id = some 80;
  fields =
      ("completion_token", text "mine")
      ∷ ("prompt", text "review")
      ∷ ("kind", text "Shutdown")
      ∷ [];
  traceparent = "00-trace";
}

pending_row-envelope_example :
    let row = pending_row stubborn 1 spoofed (some 20) in
    (get "kind" row.payload ≡ some (text (kind_str row.command_kind)))
    × (get "command_id" row.payload ≡ some (uuid row.id))
    × (get "run_id" row.payload ≡ some (uuid_or_null row.run_id))
    × (get "completion_token" row.payload ≡ some null)
pending_row-envelope_example = pending_row-envelope stubborn 1 spoofed (some 20)
