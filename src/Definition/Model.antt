-- ===== src/Definition/Model.antt =====
-- The authored pipelines: apps/backend/app/domain/pipelines/definition.py, the pydantic models.
-- A UUID is a native number; texts are strings. The bounds that pydantic checks on single fields
-- (the pattern of a name, `min_length`) are not part of the types.
use yaaos.Prelude.{ℕ, String, Bool, Option, List}

pub data BoundaryMode : Type 0 where
  always_hitl always_proceed conditional : BoundaryMode

-- `Literal["medium", "high"]`
pub data ConfidenceBelow : Type 0 where
  medium high : ConfidenceBelow

pub record BoundaryControl : Type 0 where
  pub mode : BoundaryMode
  pub on_blocker_residuals : Bool
  pub on_should_fix_residuals : Bool
  pub on_nit_residuals : Bool
  pub on_protected_code : Bool
  pub on_confidence_below : Option ConfidenceBelow

pub record ReviewConfig : Type 0 where
  pub skill_name : String
  pub max_iterations : ℕ

pub record SkillStage : Type 0 where
  pub id : ℕ
  pub name : String
  pub description : String
  pub skill_name : String
  pub coding_agent_plugin_id : String
  pub model : String
  pub effort : String
  pub review : Option ReviewConfig
  pub context_stages : Option (List String)
  pub wallclock_seconds : ℕ
  pub boundary : BoundaryControl

pub record ReviewSkillStage : Type 0 where
  pub id : ℕ
  pub name : String
  pub description : String
  pub skill_name : String
  pub coding_agent_plugin_id : String
  pub model : String
  pub effort : String
  pub context_stages : Option (List String)
  pub wallclock_seconds : ℕ
  pub boundary : BoundaryControl

pub record ActionStage : Type 0 where
  pub id : ℕ
  pub description : String
  pub action_id : String

pub record PipelineCallStage : Type 0 where
  pub id : ℕ
  pub description : String
  pub pipeline_id : ℕ

pub data Stage : Type 0 where
  skill : SkillStage → Stage
  review : ReviewSkillStage → Stage
  action : ActionStage → Stage
  call : PipelineCallStage → Stage

-- The kinds that survive a flatten.
pub data ExecutableStage : Type 0 where
  skill : SkillStage → ExecutableStage
  review : ReviewSkillStage → ExecutableStage
  action : ActionStage → ExecutableStage

pub record PipelineDefinition : Type 0 where
  pub id : ℕ
  pub name : String
  pub description : String
  pub stages : List Stage

pub record FlattenedDefinition : Type 0 where
  pub stages : List ExecutableStage
