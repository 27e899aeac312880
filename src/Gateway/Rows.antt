-- ===== src/Gateway/Rows.antt =====
-- The rows that the agent gateway and the workspaces keep (models.py and types.py of
-- apps/backend/app/core/agent_gateway and apps/backend/app/core/workspace), the state that their
-- transactions read and write, and what they call of the platform.
use yaaos.Prelude.{ℕ, suc, String, Bool, true, false, Option, List, [], ◌∷◌, ◌++◌, Result}

pub data CommandKind : Type 0 where
  provision_workspace write_files refresh_workspace_auth : CommandKind
  invoke_claude_code invoke_codex cleanup_workspace : CommandKind
  push_branch config_update shutdown cancel_shutdown : CommandKind

pub data CommandStatus : Type 0 where
  pending claimed delivered done : CommandStatus

-- A value of a JSON object, as deep as the source reads one.
pub data Json : Type 0 where
  null : Json
  text : String → Json
  number : ℕ → Json
  uuid : ℕ → Json
  object : List (String × String) → Json

abbrev pub Payload : Type 0
Payload = List (String × Json)

-- `AgentCommandRow`
pub record CommandRow : Type 0 where
  pub id : ℕ
  pub org_id : ℕ
  pub workspace_id : Option ℕ
  pub run_id : Option ℕ
  pub command_kind : CommandKind
  pub payload : Payload
  pub status : CommandStatus
  pub agent_id : Option ℕ
  pub completion_token_hash : Option String
  pub claimed_at : Option ℕ
  pub attempt : ℕ

pub data Liveness : Type 0 where
  reachable stale offline : Liveness

pub data Lifecycle : Type 0 where
  unconfigured active draining shutdown : Lifecycle

-- `WorkspaceAgentRow`
pub record AgentRow : Type 0 where
  pub id : ℕ
  pub org_id : ℕ
  pub instance_id : String
  pub iam_arn : String
  pub version : Option String
  pub os : Option String
  pub cpu_count : Option ℕ
  pub memory_bytes : Option ℕ
  pub last_heartbeat_at : Option ℕ
  pub last_shutdown_at : Option ℕ
  pub claimed_workspace_count : ℕ
  pub state : Liveness
  pub lifecycle : Lifecycle

-- `BearerTokenRow`
pub record BearerRow : Type 0 where
  pub id : ℕ
  pub org_id : ℕ
  pub agent_id : ℕ
  pub token_hash : String
  pub issued_at : ℕ
  pub expires_at : ℕ
  pub revoked_at : Option ℕ
  pub revoked_reason : Option String
  pub last_seen_at : Option ℕ
  pub source_ip : Option String
  pub issued_iam_arn : Option String

-- `WorkspaceStatus` of apps/backend/app/core/workspace/types.py
pub data WorkspaceState : Type 0 where
  active expired destroying destroyed destroy_failed : WorkspaceState

pub record WorkspaceRow : Type 0 where
  pub id : ℕ
  pub org_id : ℕ
  pub owning_agent_id : ℕ
  pub provider_id : String
  pub sha : Option String
  pub status : WorkspaceState
  pub current_command_id : Option ℕ
  pub max_idle_seconds : ℕ
  pub activated_at : Option ℕ
  pub expires_at : ℕ
  pub destroyed_at : Option ℕ
  pub destroy_attempts : ℕ
  pub last_destroy_attempt_at : Option ℕ
  pub last_destroy_error : Option String

-- The arguments of a task that resumes a run, for one consumer.
pub record ResumeTask : Type 0 where
  pub consumer : String
  pub run_id : ℕ
  pub agent_command_id : ℕ
  pub outcome_label : String
  pub outputs : Payload
  pub traceparent : Option String

pub data Audit : Type 0 where
  shutdown_complete : ℕ → Audit
  disconnected : ℕ → Lifecycle → Audit
  shutdown_requested : ℕ → Lifecycle → Audit
  cancel_shutdown_requested : ℕ → Lifecycle → Audit
  transitioned : ℕ → WorkspaceState → WorkspaceState → String → Audit

-- The tables, the outbox, the events published after the commit, and what numbers the new ids and
-- tokens.
pub record Fleet : Type 0 where
  pub commands : List CommandRow
  pub agents : List AgentRow
  pub bearers : List BearerRow
  pub workspaces : List WorkspaceRow
  pub outbox : List ResumeTask
  pub audits : List Audit
  pub agent_changed : List ℕ
  pub next_id : ℕ
  pub next_token : ℕ
  pub now : ℕ

-- An exception that aborts the transaction.
pub data FleetError : Type 0 where
  stale_claim integrity_error value_error lookup_error runtime_error : FleetError
  workspace_not_found workspace_claim_failed : FleetError

pub data EventKind : Type 0 where
  received progress completed_success completed_failure completed_skipped : EventKind

-- What the code under the model calls, each part as documented there.
pub record Platform : Type 0 where
  -- the token that `secrets.token_urlsafe` gives at its nth call, and a digest of it
  pub token_urlsafe : ℕ → String
  pub sha256 : String → String
  -- the dispatch span's traceparent
  pub current_traceparent : Option String
  -- the registered hydrator of a kind: from a payload and an org, the message of a
  -- `CredentialHydrationError` or the payload with credentials
  pub hydrator : CommandKind → Option (Payload → ℕ → Result String Payload)
  pub agent_event_consumers : List String
  -- the run sink's answer to a terminal event
  pub handle_terminal_event : ℕ → CommandKind → EventKind → Payload → Option Payload
  -- `_build_agent_config`
  pub build_agent_config : ℕ → Result FleetError Payload
  -- the registered providers, and what `destroy` raises, if it does
  pub workspace_providers : List String
  pub destroy_error : WorkspaceRow → Option String

abbrev pub is_pending_command : CommandStatus → Bool
is_pending_command pending = true
is_pending_command _ = false

abbrev pub is_claimed : CommandStatus → Bool
is_claimed claimed = true
is_claimed _ = false

abbrev pub is_done : CommandStatus → Bool
is_done done = true
is_done _ = false

abbrev pub is_config_update : CommandKind → Bool
is_config_update config_update = true
is_config_update _ = false

abbrev pub is_provision : CommandKind → Bool
is_provision provision_workspace = true
is_provision _ = false

-- The kinds of the first bucket of `_select_eligible_row_nowait`.
abbrev pub is_agent_scoped : CommandKind → Bool
is_agent_scoped config_update = true
is_agent_scoped shutdown = true
is_agent_scoped cancel_shutdown = true
is_agent_scoped _ = false

-- `RUN_BEARING_KINDS`
abbrev pub is_run_bearing : CommandKind → Bool
is_run_bearing invoke_claude_code = true
is_run_bearing invoke_codex = true
is_run_bearing _ = false

abbrev pub is_unconfigured : Lifecycle → Bool
is_unconfigured unconfigured = true
is_unconfigured _ = false

abbrev pub is_draining : Lifecycle → Bool
is_draining draining = true
is_draining _ = false

-- `uuid7()`: ids rise with time.
unfoldable pub new_id : Fleet → Fleet
new_id s = record s { next_id = suc s.next_id }

-- `publish_general_after_commit` of an agent that changed
unfoldable pub publish_agent_changed : ℕ → Fleet → Fleet
publish_agent_changed a s = record s { agent_changed = s.agent_changed ++ a ∷ [] }

unfoldable pub audit : Audit → Fleet → Fleet
audit a s = record s { audits = s.audits ++ a ∷ [] }
