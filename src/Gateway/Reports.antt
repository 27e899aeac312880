-- ===== src/Gateway/Reports.antt =====
-- The reports of the agents: `record_agent_event` and `record_workspace_event` of
-- apps/backend/app/core/agent_gateway/service.py.
use yaaos.Prelude.{
  ℕ, zero, String, Bool, true, false, not, ◌&&◌, ◌||◌, Option, none, some, [], Result, ok, err,
  ◌>>=◌, if◌then◌else◌, str_eq, is_some, get, put, pop, merge, or_else,
}
use yaaos.Gateway.Rows.{
  CommandRow, EventKind, received, progress, completed_success, completed_failure, Fleet,
  FleetError, stale_claim, Platform, Payload, Json, null, text, number, object, is_config_update,
  is_provision,
}
use yaaos.Gateway.Queue.{get_command, enqueue_agent_event}
use yaaos.Gateway.Lease.{acknowledge_command_received, retire_command}
use yaaos.Gateway.Agents.{mark_agent_configured}
use yaaos.Workspaces.Sink.{
  WorkspaceReport, apply_workspace_event, materialise_provision_success, release_command_claim,
}
use yaaos.Engine.World.{or_text, is_blank}

-- What an agent reports of a command.
pub record AgentEvent : Type 0 where
  pub command_id : ℕ
  pub kind : EventKind
  pub outcome_label : Option String
  pub outputs : Payload
  pub failure_reason : Option String
  pub traceparent : String
  pub completion_token : Option String
  pub artifact : Option Json
  pub artifact_error : Option String

abbrev pub is_completed_success : EventKind → Bool
is_completed_success completed_success = true
is_completed_success _ = false

-- `TERMINAL_EVENT_KINDS`
abbrev pub is_terminal_event : EventKind → Bool
is_terminal_event received = false
is_terminal_event progress = false
is_terminal_event _ = true

-- The presented token against the stored hash; a row without a hash takes any.
abbrev pub is_authorized : Platform → AgentEvent → CommandRow → Bool
is_authorized p e c = elim c.completion_token_hash [
  | none ↦ true
  | some h ↦ str_eq (p.sha256 (or_else e.completion_token "")) h
]

abbrev pub is_falsy : Option Json → Bool
is_falsy none = true
is_falsy (some null) = true
is_falsy (some (text t)) = str_eq t ""
is_falsy (some (number zero)) = true
is_falsy (some (object [])) = true
is_falsy (some _) = false

abbrev put_some : String → Option Json → Payload → Payload
put_some k none d = d
put_some k (some v) d = put k v d

abbrev text_of : Option String → Option Json
text_of none = none
text_of (some t) = some (text t)

-- The sink's additions win.
abbrev enrich : Option Payload → Payload → Payload
enrich none d = d
enrich (some extras) d = merge d extras

abbrev add_reason : Option String → Payload → Payload
add_reason reason d =
    if is_blank reason || not (is_falsy (get "error_message" d))
    then d
    else put "error_message" (text (or_else reason "")) d

-- The outputs that ride to the run.
unfoldable pub forwarded : Platform → AgentEvent → CommandRow → Payload
forwarded p e c =
    let enriched =
      enrich (p.handle_terminal_event c.id c.command_kind e.kind e.outputs) e.outputs in
    pop "stdout" (
      put_some "artifact_error" (text_of e.artifact_error)
        (put_some "artifact" e.artifact (add_reason e.failure_reason enriched)))

abbrev default_label : EventKind → String
default_label completed_failure = "failure"
default_label _ = "success"

-- A config update that succeeded configures its agent.
unfoldable pub configure : AgentEvent → CommandRow → Fleet → Fleet
configure e c s =
    if is_completed_success e.kind && is_config_update c.command_kind
    then elim c.agent_id [ none ↦ s | some a ↦ mark_agent_configured a s ]
    else s

-- A provision that succeeded has its workspace row.
unfoldable pub materialise :
    Platform → AgentEvent → CommandRow → Option ℕ → Fleet → Result FleetError Fleet
materialise p e c none s = ok s
materialise p e c (some agent) s =
    if is_provision c.command_kind && is_some c.workspace_id && is_completed_success e.kind
    then materialise_provision_success p c.id agent s
    else ok s

unfoldable pub resume_run : Platform → AgentEvent → CommandRow → Fleet → Fleet
resume_run p e c s = elim c.run_id [
  | none ↦ s
  | some run ↦
      enqueue_agent_event p run c.id (or_text e.outcome_label (default_label e.kind))
        (forwarded p e c) (some e.traceparent) s
]

unfoldable pub record_terminal_event :
    Platform → AgentEvent → CommandRow → Option ℕ → Fleet → Result FleetError Fleet
record_terminal_event p e c agent s =
    materialise p e c agent (retire_command c.id (release_command_claim c.id (configure e c s)))
    >>= λ t. ok (resume_run p e c t)

-- What an event of a kind does, once its token is checked.
unfoldable pub record_kind :
    EventKind → Platform → AgentEvent → CommandRow → Option ℕ → Fleet → Result FleetError Fleet
record_kind received p e c agent s = ok (acknowledge_command_received c.id s)
record_kind progress p e c agent s = ok s
record_kind _ p e c agent s = record_terminal_event p e c agent s

-- `agent` is the `workspace_agents.id` of the reporting bearer.
unfoldable pub record_agent_event :
    Platform → AgentEvent → Option ℕ → Fleet → Result FleetError Fleet
record_agent_event p e agent s = elim (get_command e.command_id s) [
  | none ↦ err stale_claim
  | some c ↦ if not (is_authorized p e c) then err stale_claim else record_kind e.kind p e c agent s
]

unfoldable pub record_workspace_event : Platform → WorkspaceReport → Fleet → Result FleetError Fleet
record_workspace_event p r s = apply_workspace_event p r s >>= λ (outcome, t).
    if outcome.accepted then ok t else err stale_claim
