-- ===== src/Workspaces/Sink.antt =====
-- What the agents report of workspaces: apps/backend/app/core/workspace/agent_report.py.
use yaaos.Prelude.{
  ℕ, suc, ◌+◌, String, Bool, true, false, not, Option, none, some, [], ◌∷◌, ◌++◌, Result, ok, err,
  ◌>>=◌, ◌==◌, if◌then◌else◌, is_id, first_where, get,
}
use yaaos.Gateway.Rows.{
  WorkspaceRow, WorkspaceState, active, destroyed, destroy_failed, Fleet, FleetError, value_error,
  integrity_error, Platform, Payload, Json, number, uuid, object, null,
}
use yaaos.Gateway.Queue.{get_command_org_and_payload}
use yaaos.Workspaces.Claims.{get_workspace, release_claim, update_workspace_status}

-- `WorkspaceEventKind`
pub data ReportKind : Type 0 where
  created ready exited destroyed_report failed : ReportKind

pub record WorkspaceReport : Type 0 where
  pub workspace_id : ℕ
  pub command_id : ℕ
  pub kind : ReportKind
  pub agent_id : Option ℕ

-- `WorkspaceEventOutcome`
pub record ReportOutcome : Type 0 where
  pub resolved_status : Option WorkspaceState
  pub accepted : Bool

-- `_DEFAULT_TTL_SECONDS` and `_FALLBACK_PROVIDER_ID`
abbrev pub fallback_ttl_seconds : ℕ
fallback_ttl_seconds = 600

abbrev fallback_provider_id : String
fallback_provider_id = "remote_agent"

abbrev resolve_provider_id : Platform → String
resolve_provider_id p = elim p.workspace_providers [ [] ↦ fallback_provider_id | i ∷ is ↦ i ]

-- `payload.get(key) or _DEFAULT_TTL_SECONDS`
abbrev pub seconds_of : String → Payload → ℕ
seconds_of k d = elim (get k d) [ some (number (suc n)) ↦ suc n | _ ↦ fallback_ttl_seconds ]

-- `payload.get("repo", {}).get("head_sha")`
abbrev head_sha_of : Payload → Option String
head_sha_of d = elim (get "repo" d) [ some (object repo) ↦ get "head_sha" repo | _ ↦ none ]

abbrev pub lean_row : Platform → ℕ → ℕ → ℕ → Payload → ℕ → WorkspaceRow
lean_row p i org agent d now = record {
  id = i;
  org_id = org;
  owning_agent_id = agent;
  provider_id = resolve_provider_id p;
  sha = head_sha_of d;
  status = active;
  current_command_id = none;
  max_idle_seconds = seconds_of "max_idle_seconds" d;
  activated_at = some now;
  expires_at = now + seconds_of "ttl_seconds" d;
  destroyed_at = none;
  destroy_attempts = 0;
  last_destroy_attempt_at = none;
  last_destroy_error = none;
}

-- The column of the owning agent is not nullable.
unfoldable pub insert_lean_workspace_row :
    Platform → ℕ → ℕ → Option ℕ → Payload → Fleet → Result FleetError Fleet
insert_lean_workspace_row p i org none d s = err integrity_error
insert_lean_workspace_row p i org (some agent) d s =
    ok (record s { workspaces = s.workspaces ++ lean_row p i org agent d s.now ∷ [] })

-- Whether the row was made.
unfoldable pub create_lean_workspace_row :
    Platform → WorkspaceReport → Fleet → Result FleetError (Bool × Fleet)
create_lean_workspace_row p r s = elim (get_command_org_and_payload r.command_id s) [
  | none ↦ ok (false, s)
  | some (org, d) ↦
      insert_lean_workspace_row p r.workspace_id org r.agent_id d s >>= λ t. ok (true, t)
]

-- `_ROW_CREATE_KINDS` and `_KIND_TO_STATUS`
abbrev pub creates_row : ReportKind → Bool
creates_row created = true
creates_row ready = true
creates_row _ = false

abbrev pub kind_to_status : ReportKind → Option WorkspaceState
kind_to_status ready = some active
kind_to_status destroyed_report = some destroyed
kind_to_status failed = some destroy_failed
kind_to_status _ = none

-- Another command holds the workspace.
abbrev pub is_held_by_other : ℕ → Option ℕ → Bool
is_held_by_other c none = false
is_held_by_other c (some d) = not (d == c)

abbrev outcome_of : Option WorkspaceState → Bool → ReportOutcome
outcome_of status accepted = record { resolved_status = status; accepted = accepted }

unfoldable pub apply_workspace_event :
    Platform → WorkspaceReport → Fleet → Result FleetError (ReportOutcome × Fleet)
apply_workspace_event p r s = elim (get_workspace r.workspace_id s) [
  | none ↦
      if creates_row r.kind
      then (create_lean_workspace_row p r s >>= λ (made, t).
          ok (if made then outcome_of (some active) true else outcome_of none false, t))
      else ok (outcome_of none false, s)
  | some w ↦
      if is_held_by_other r.command_id w.current_command_id
      then ok (outcome_of (some w.status) false, s)
      else elim (kind_to_status r.kind) [
        | none ↦ ok (outcome_of none true, s)
        | some to ↦ ok (outcome_of (some to) true, update_workspace_status r.workspace_id to s)
      ]
]

-- `UUID(str(value))`
abbrev pub uuid_of : Json → Result FleetError ℕ
uuid_of (uuid i) = ok i
uuid_of _ = err value_error

-- A null or missing workspace id is passed over.
abbrev pub get_id : String → Payload → Option Json
get_id k d = elim (get k d) [ none ↦ none | some null ↦ none | some v ↦ some v ]

-- The row of a workspace that has none.
unfoldable pub insert_if_absent : Platform → ℕ → ℕ → ℕ → Payload → Fleet → Result FleetError Fleet
insert_if_absent p i org agent d s = elim (get_workspace i s) [
  | some _ ↦ ok s
  | none ↦ insert_lean_workspace_row p i org (some agent) d s
]

unfoldable pub materialise_row :
    Platform → ℕ → ℕ → Payload → Option Json → Fleet → Result FleetError Fleet
materialise_row p org agent d none s = ok s
materialise_row p org agent d (some raw) s = uuid_of raw >>= λ i. insert_if_absent p i org agent d s

unfoldable pub materialise_provision_success : Platform → ℕ → ℕ → Fleet → Result FleetError Fleet
materialise_provision_success p command agent s = elim (get_command_org_and_payload command s) [
  | none ↦ ok s
  | some (org, d) ↦ materialise_row p org agent d (get_id "workspace_id" d) s
]

-- The workspace that the command holds, if it holds one.
abbrev pub holder_of : ℕ → Fleet → Option WorkspaceRow
holder_of command s =
    first_where (λ (w : WorkspaceRow). is_id command w.current_command_id) s.workspaces

unfoldable pub release_command_claim : ℕ → Fleet → Fleet
release_command_claim command s = elim (holder_of command s) [
  | none ↦ s
  | some w ↦ (release_claim w.id command s).1
]

abbrev pub owning_agent_for_workspace : ℕ → Fleet → Option ℕ
owning_agent_for_workspace i s = elim (get_workspace i s) [
  | none ↦ none
  | some w ↦ some w.owning_agent_id
]

abbrev pub owning_agent_for_command : ℕ → Fleet → Option ℕ
owning_agent_for_command c s = elim (holder_of c s) [
  | none ↦ none
  | some w ↦ some w.owning_agent_id
]
