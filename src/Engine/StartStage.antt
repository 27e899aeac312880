-- ===== src/Engine/StartStage.antt =====
-- The rest of START_STAGE (apps/backend/app/domain/pipelines/engine.py): review-only and action
-- stages, and the dispatch by the kind of the stage.
use yaaos.Prelude.{ℕ, not, Option, none, some, ok, err, ◌>>=◌, if◌then◌else◌, get_elem?}
use yaaos.Definition.Model.{ExecutableStage, ReviewSkillStage, ActionStage}
use yaaos.Engine.Rows.{
  Kickoff, RevisionContext, StageExecution, StageKind, StageStatus, StagePhase, BoundaryOutcome,
  OutputSchema, Invocation, Task, RouteOutcome,
}
use yaaos.Engine.World.{
  World, Done, assertion_error, index_error, type_error, action_crashed, Services, ActionOutcome,
  action_result, action_error, action_raised, is_running, save_exec, add_exec, mint, enqueue,
}
use yaaos.Engine.Context.{
  resolve_stage_input, build_pr_context, resolve_prior_findings, build_action_context,
}
use yaaos.Engine.Dispatch.{
  dispatch_invocation, dispatch_provision_stage, dispatch_skill_stage, stage_exec,
  workspace_is_live,
}

module _ (services : Services) where
  open services use {execute_action}

  unfoldable pub dispatch_review_only_stage :
      ReviewSkillStage → ℕ → Kickoff → Option RevisionContext → World → Done
  unfolding stage_exec add_exec mint
  dispatch_review_only_stage s stage_index k revision w =
      let x =
        stage_exec StageKind.review stage_index s.name (some s.skill_name) (some StagePhase.review)
          1 revision w in
      let w₁ = mint (add_exec x w) in
      let command_id = w₁.next_id in
      let w₂ = mint w₁ in
      resolve_prior_findings services x w₂ >>= λ prior. elim w.run.workspace_id [
        | none ↦ err assertion_error
        | some workspace ↦
            let invocation : Invocation = record {
              workspace_id = workspace;
              plugin = s.coding_agent_plugin_id;
              skill = s.skill_name;
              model = s.model;
              effort = s.effort;
              context = record {
                stage_name = s.name;
                branch_name = w.ticket.branch_name;
                input = resolve_stage_input stage_index k w₂;
                pr = build_pr_context services k w₂;
                revision = revision;
                prior_findings = prior;
                artifact_path = command_id;
              };
              output_schema = OutputSchema.skill_review_return;
              wallclock_seconds = s.wallclock_seconds;
            } in
            dispatch_invocation services invocation command_id x (some stage_index) x w₂
      ]

  -- The row of an action after its execution, and what is routed on.
  unfoldable pub settle_action : StageExecution → ℕ → ActionOutcome → World → Done
  unfolding save_exec enqueue
  settle_action x stage_index (action_result result) w =
      let x' = record x {
        status = StageStatus.completed;
        action_result = some result;
        boundary_outcome = some BoundaryOutcome.proceeded;
        completed_at = some w.now;
      } in
      ok (
        enqueue (Task.route_run w.run.id (some stage_index) (some RouteOutcome.success) none)
          (save_exec x' w))
  settle_action x stage_index (action_error reason) w =
      let x' = record x {
        status = StageStatus.failed;
        failure_reason = some reason;
        completed_at = some w.now;
      } in
      ok (
        enqueue
          (Task.route_run w.run.id (some stage_index) (some RouteOutcome.failure) (some reason))
          (save_exec x' w))
  settle_action x stage_index action_raised w = err action_crashed

  unfoldable pub run_action_stage : ActionStage → ℕ → Kickoff → World → Done
  unfolding stage_exec add_exec mint settle_action
  run_action_stage s stage_index k w =
      let x = stage_exec StageKind.action stage_index s.action_id none none 0 none w in
      let w₁ = mint (add_exec x w) in
      build_action_context services k stage_index w₁ >>= λ ctx.
      settle_action x stage_index (execute_action s.action_id ctx) w₁

  -- `run.kickoff = kickoff.model_copy(update={"revision": None})`, if there is one
  unfoldable pub clear_revision : World → World
  clear_revision w = record w {
    run = record w.run { kickoff = record w.run.kickoff { revision = none } };
  }

  unfoldable pub start_kind : ExecutableStage → ℕ → World → Done
  unfolding clear_revision
  start_kind (ExecutableStage.action s) stage_index w =
      run_action_stage s stage_index w.run.kickoff w
  start_kind (ExecutableStage.skill s) stage_index w =
      if not (workspace_is_live services w.run.workspace_id)
      then dispatch_provision_stage services w.run.kickoff w
      else dispatch_skill_stage services s stage_index w.run.kickoff w.run.kickoff.revision
          (clear_revision w)
  start_kind (ExecutableStage.review s) stage_index w =
      if not (workspace_is_live services w.run.workspace_id)
      then dispatch_provision_stage services w.run.kickoff w
      else dispatch_review_only_stage s stage_index w.run.kickoff w.run.kickoff.revision
          (clear_revision w)

  -- `_start_stage_impl`, at the run in hand. A missing index is `None` in the source.
  unfoldable pub start_stage_impl : Option ℕ → World → Done
  start_stage_impl index w = if not (is_running w.run.state) then ok w else elim index [
    | none ↦ err type_error
    | some stage_index ↦ elim (get_elem? w.run.definition_snapshot.stages stage_index) [
      | none ↦ err index_error
      | some stage ↦ start_kind stage stage_index w
    ]
  ]
