-- ===== src/Scenarios/Fleets.antt =====
-- A gateway on which the theorems are applied.
use yaaos.Prelude.{ℕ, zero, suc, String, none, some, Option, [], ◌∷◌, ok}
use yaaos.Gateway.Rows.{
  CommandKind, CommandStatus, CommandRow, AgentRow, Liveness, Lifecycle, WorkspaceState,
  WorkspaceRow, Fleet, Platform,
}
use yaaos.Gateway.Claim.{ClaimRequest}

-- A gateway with an agent, a provision that waits, a skill that waits for its workspace, and a
-- configuration for the agent.
abbrev pub pending_command : ℕ → CommandKind → Option ℕ → Option ℕ → CommandRow
pending_command id kind workspace agent = record {
  id = id;
  org_id = 1;
  workspace_id = workspace;
  run_id = some 20;
  command_kind = kind;
  payload = [];
  status = CommandStatus.pending;
  agent_id = agent;
  completion_token_hash = none;
  claimed_at = none;
  attempt = 0;
}

abbrev pub worker : AgentRow
worker = record {
  id = 7;
  org_id = 1;
  instance_id = "pod";
  iam_arn = "arn";
  version = none;
  os = none;
  cpu_count = none;
  memory_bytes = none;
  last_heartbeat_at = some 990;
  last_shutdown_at = none;
  claimed_workspace_count = 0;
  state = Liveness.reachable;
  lifecycle = Lifecycle.active;
}

abbrev pub workspace_of : ℕ → WorkspaceState → WorkspaceRow
workspace_of id status = record {
  id = id;
  org_id = 1;
  owning_agent_id = 7;
  provider_id = "remote_agent";
  sha = none;
  status = status;
  current_command_id = none;
  max_idle_seconds = 600;
  activated_at = some 900;
  expires_at = 2000;
  destroyed_at = none;
  destroy_attempts = 0;
  last_destroy_attempt_at = none;
  last_destroy_error = none;
}

abbrev pub fleet : Fleet
fleet = record {
  commands =
      pending_command 50 CommandKind.provision_workspace none none
      ∷ pending_command 51 CommandKind.invoke_claude_code (some 80) (some 7)
      ∷ pending_command 52 CommandKind.config_update none (some 7)
      ∷ [];
  agents = worker ∷ [];
  bearers = [];
  workspaces = workspace_of 80 WorkspaceState.active ∷ workspace_of 81 WorkspaceState.expired ∷ [];
  outbox = [];
  audits = [];
  agent_changed = [];
  next_id = 100;
  next_token = 0;
  now = 1000;
}

-- The first token, and the later ones.
abbrev nth_token : ℕ → String
nth_token zero = "token"
nth_token (suc n) = "other"

-- A platform with two tokens, whose digests are the tokens, and whose provider never
-- manages to destroy a workspace.
abbrev pub stubborn : Platform
stubborn = record {
  token_urlsafe = nth_token;
  sha256 = λ t. t;
  current_traceparent = none;
  hydrator = λ kind. none;
  agent_event_consumers = "pipelines.handle_agent_event" ∷ [];
  handle_terminal_event = λ id kind event outputs. none;
  build_agent_config = λ org. ok [];
  workspace_providers = "remote_agent" ∷ [];
  destroy_error = λ w. some "timeout";
}

abbrev pub request : ClaimRequest
request = record {
  agent_id = 7;
  lifecycle = Lifecycle.active;
  new_workspaces = 1;
  workspace_ids = 80 ∷ [];
}
