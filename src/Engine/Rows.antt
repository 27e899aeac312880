-- ===== src/Engine/Rows.antt =====
-- The rows of the run engine: apps/backend/app/domain/pipelines/models.py and types.py. The columns
-- that only serve other tables (organisation and ticket of a row) are those of the ticket in hand.
use yaaos.Prelude.{ℕ, String, Bool, Option, List}
use yaaos.Actor.{Actor}
use yaaos.Contracts.{Confidence, PriorFindingVerdict, PriorFindingRef}
use yaaos.Boundary.{Tripped}
use yaaos.Definition.Model.{FlattenedDefinition}

pub data RunState : Type 0 where
  queued running paused completed failed killed cancelled : RunState

pub data RunPhase : Type 0 where
  provision stages cleanup : RunPhase

pub data StageKind : Type 0 where
  skill review action system : StageKind

pub data StageStatus : Type 0 where
  running completed failed : StageStatus

pub data StagePhase : Type 0 where
  main review fix : StagePhase

pub data BoundaryOutcome : Type 0 where
  proceeded paused sent_back : BoundaryOutcome

pub data RevisionSource : Type 0 where
  instruction send_back fix : RevisionSource

pub record RevisionContext : Type 0 where
  pub source : RevisionSource
  pub text : String
  pub prior_artifact : String

pub record Kickoff : Type 0 where
  pub intake_point_id : String
  pub actor : Actor
  pub input_text : Option String
  pub pr_base_sha : Option String
  pub pr_head_sha : Option String
  pub notify_user_ids : List ℕ
  pub revision : Option RevisionContext

pub record Run : Type 0 where
  pub id : ℕ
  pub pipeline_id : Option ℕ
  pub pipeline_name : String
  pub definition_snapshot : FlattenedDefinition
  pub state : RunState
  pub phase : RunPhase
  pub current_stage_index : Option ℕ
  pub workspace_id : Option ℕ
  pub pending_agent_command_id : Option ℕ
  pub cancel_requested : Bool
  pub kickoff : Kickoff
  pub sendback_counts : List (String × ℕ)
  pub failure_reason : Option String
  pub triggered_by_user_id : Option ℕ
  pub completed_at : Option ℕ

-- An entry of `loop_state`: of a main or fix pass (its artifact, confidence and paths), or of a
-- review pass (its number, confidence, the findings it recorded, those left open, its verdicts).
pub data LoopEntry : Type 0 where
  produced : StagePhase → ℕ → ℕ → List String → LoopEntry
  reviewed : ℕ → ℕ → List ℕ → List ℕ → List PriorFindingVerdict → LoopEntry

pub record StageExecution : Type 0 where
  pub id : ℕ
  pub run_id : ℕ
  pub stage_index : Option ℕ
  pub kind : StageKind
  pub stage_name : String
  pub skill_name : Option String
  pub status : StageStatus
  pub phase : Option StagePhase
  pub iteration : ℕ
  pub confidence : Option Confidence
  pub loop_state : List LoopEntry
  pub boundary_outcome : Option BoundaryOutcome
  pub boundary_detail : Option (List Tripped)
  pub action_result : Option String
  pub revision : Option RevisionContext
  pub failure_reason : Option String
  pub completed_at : Option ℕ

pub data PauseAction : Type 0 where
  approve instruct send_back kill : PauseAction

pub record RunPause : Type 0 where
  pub id : ℕ
  pub run_id : ℕ
  pub stage_execution_id : ℕ
  pub tripped : List Tripped
  pub escalation_user_ids : List ℕ
  pub resolution : Option PauseAction
  pub instruction : Option String
  pub send_back_to_stage : Option String
  pub resolved_by : Option ℕ
  pub resolved_at : Option ℕ

-- The context of an invocation.
pub record PrContext : Type 0 where
  pub pr_external_id : String
  pub head_sha : String
  pub base_sha : String
  pub prev_reviewed_head_sha : Option String

pub data OutputSchema : Type 0 where
  skill_return skill_review_return : OutputSchema

pub record StageInvocationContext : Type 0 where
  pub stage_name : String
  pub branch_name : String
  pub input : String
  pub pr : Option PrContext
  pub revision : Option RevisionContext
  pub prior_findings : List PriorFindingRef
  -- the command id in `$TMPDIR/{command_id}.md`
  pub artifact_path : ℕ

pub record Invocation : Type 0 where
  pub workspace_id : ℕ
  pub plugin : String
  pub skill : String
  pub model : String
  pub effort : String
  pub context : StageInvocationContext
  pub output_schema : OutputSchema
  pub wallclock_seconds : ℕ

pub data Checkout : Type 0 where
  pinned : String → Option String → Checkout
  branch : String → Checkout

pub data Command : Type 0 where
  provision : ℕ → Checkout → Command
  cleanup : ℕ → Command
  auth_refresh : ℕ → Command
  invoke : Invocation → Command

-- What a task is enqueued with.
pub data RouteOutcome : Type 0 where
  success failure : RouteOutcome

pub data Task : Type 0 where
  route_run : ℕ → Option ℕ → Option RouteOutcome → Option String → Task
  start_stage : ℕ → Option ℕ → Task
  terminal_hook : ℕ → Task

pub data AuditKind : Type 0 where
  run_started run_paused run_cancelled pause_resolved : AuditKind
  run_terminal : RunState → AuditKind

pub data Notification : Type 0 where
  pipeline_run_paused pipeline_run_failed : Notification

-- What else a transaction leaves behind.
pub data Effect : Type 0 where
  run_state_changed : ℕ → RunState → Effect
  stage_state_changed : ℕ → Effect
  artifact_stored : Effect
  audited : ℕ → AuditKind → Effect
  notified : ℕ → Notification → Effect
  expiry_extended : ℕ → ℕ → Effect
