-- ===== src/Scenarios.antt =====
-- Small pipelines and runs on which the theorems are applied.
mod Definitions
mod Records
mod Runs
mod Fleets
mod Gateways
mod Editing
mod Stalls
mod Logins
use yaaos.Prelude.{ℕ, String, false, true, Option, none, some, List, [], ◌∷◌}
use yaaos.Definition.Model.{
  BoundaryControl, BoundaryMode, SkillStage, PipelineCallStage, Stage, ExecutableStage,
  PipelineDefinition,
}
use yaaos.Actor.{Actor, ActorKind}
use yaaos.Findings.{FindingSpec, Finding, FindingStatus, Origin, blocker, opened, new_row}
use yaaos.Tickets.{Ticket, TicketStatus}
use yaaos.Engine.Rows.{Run, RunState, RunPhase, StageExecution, StageKind, StageStatus, StagePhase}
use yaaos.Engine.World.{World, Services, Role, WorkspaceStatus, ActionOutcome, invalid}

abbrev pub proceeding : BoundaryControl
proceeding = record {
  mode = BoundaryMode.always_proceed;
  on_blocker_residuals = false;
  on_should_fix_residuals = false;
  on_nit_residuals = false;
  on_protected_code = false;
  on_confidence_below = none;
}

abbrev pub skill_stage : ℕ → String → SkillStage
skill_stage id name = record {
  id = id;
  name = name;
  description = "";
  skill_name = name;
  coding_agent_plugin_id = "claude_code";
  model = "opus";
  effort = "high";
  review = none;
  context_stages = none;
  wallclock_seconds = 3600;
  boundary = proceeding;
}

abbrev pub base_pipeline : PipelineDefinition
base_pipeline = record {
  id = 1;
  name = "base";
  description = "";
  stages = Stage.skill (skill_stage 10 "build") ∷ [];
}

abbrev pub two_stages : List ExecutableStage
two_stages =
    ExecutableStage.skill (skill_stage 10 "build")
    ∷ ExecutableStage.skill (skill_stage 12 "ship")
    ∷ []

abbrev pub call_base : PipelineCallStage
call_base = record { id = 11; description = ""; pipeline_id = 1 }

-- It calls the first pipeline, and goes on with a stage of its own.
abbrev pub calling_pipeline : PipelineDefinition
calling_pipeline = record {
  id = 2;
  name = "calling";
  description = "";
  stages = Stage.call call_base ∷ Stage.skill (skill_stage 12 "ship") ∷ [];
}

abbrev pub tester : Actor
tester = record {
  kind = ActorKind.user;
  login = none;
  agent_id = none;
  user_id = some 70;
  workspace_id = none;
}

abbrev pub new_spec : ℕ → FindingSpec
new_spec id = record {
  id = id;
  severity = blocker;
  body = "unchecked input";
  code_file = none;
  code_line = none;
  artifact_section = none;
  defect_in_artifact = none;
  display_prefix = "SEC";
}

abbrev pub review_origin : Origin
review_origin = record {
  org_id = 1;
  ticket_id = 5;
  run_id = 20;
  stage_name = "build";
  stage_execution_id = 30;
  iteration = 1;
}

-- The first finding of the ticket.
abbrev pub first_finding : FindingStatus → Finding
first_finding status = record (new_row review_origin (new_spec 40) 1) { status = status }

abbrev pub ticket_of : TicketStatus → Ticket
ticket_of status = record {
  id = 5;
  org_id = 1;
  status = status;
  plugin_id = "github";
  repo_external_id = "9";
  pr_id = none;
  current_run_id = some 20;
  branch_name = "ticket-5";
  changes = [];
}

-- A run of the two stages, at its first.
abbrev pub run_of : ℕ → RunState → Run
run_of id state = record {
  id = id;
  pipeline_id = some 2;
  pipeline_name = "calling";
  definition_snapshot = record { stages = two_stages };
  state = state;
  phase = RunPhase.stages;
  current_stage_index = some 0;
  workspace_id = none;
  pending_agent_command_id = none;
  cancel_requested = false;
  kickoff = record {
    intake_point_id = "ui";
    actor = tester;
    input_text = some "do it";
    pr_base_sha = none;
    pr_head_sha = none;
    notify_user_ids = [];
    revision = none;
  };
  sendback_counts = [];
  failure_reason = none;
  triggered_by_user_id = some 70;
  completed_at = none;
}

abbrev pub stage_row : StageExecution
stage_row = record {
  id = 30;
  run_id = 20;
  stage_index = some 0;
  kind = StageKind.skill;
  stage_name = "build";
  skill_name = some "build";
  status = StageStatus.running;
  phase = some StagePhase.main;
  iteration = 0;
  confidence = none;
  loop_state = [];
  boundary_outcome = none;
  boundary_detail = none;
  action_result = none;
  revision = none;
  failure_reason = none;
  completed_at = none;
}

-- A running run, and one that waits behind it.
abbrev pub two_runs : World
two_runs = record {
  run = run_of 20 RunState.running;
  siblings = run_of 21 RunState.queued ∷ [];
  execs = stage_row ∷ [];
  pauses = [];
  findings = record { rows = first_finding opened ∷ []; audits = [] };
  artifacts = [];
  ticket = ticket_of TicketStatus.running;
  outbox = [];
  commands = [];
  effects = [];
  next_id = 100;
  now = 1000;
}

-- Services of an organisation with one admin, no credentials to lack and no hooks.
abbrev pub quiet_services : Services
quiet_services = record {
  workspace_status = λ id. some WorkspaceStatus.active;
  invocation_error = λ i. none;
  provision_error = λ c. none;
  token_error = none;
  find_oauth_identity = λ login. none;
  memberships = (71, Role.admin) ∷ [];
  evaluate_protected = λ paths. record { matched = true; owner_user_ids = 72 ∷ [] };
  execute_action = λ name context. ActionOutcome.action_result "ok";
  parse_skill_return = λ text. invalid "not read";
  parse_review_return = λ text. invalid "not read";
  comment_finding_ids = λ run. [];
  terminal_hooks = [];
  render_findings_for_fix = λ fs. "";
  pull_request = λ id. "";
}
