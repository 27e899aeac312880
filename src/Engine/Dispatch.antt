-- ===== src/Engine/Dispatch.antt =====
-- START_STAGE of apps/backend/app/domain/pipelines/engine.py: the dispatch of one stage, of a review
-- or fix pass within it, and of the system stages before it. An operation that may raise returns a
-- `Done`; a stage execution that it has in hand is a parameter, written back where it changes.
use yaaos.Prelude.{ℕ, ◌+◌, String, Bool, true, false, Option, none, some, List, [], ok, err, ◌>>=◌}
use yaaos.Findings.{Finding}
use yaaos.Definition.Model.{SkillStage, ReviewConfig}
use yaaos.Engine.Rows.{
  RunPhase, Kickoff, RevisionContext, RevisionSource, StageExecution, StageKind, StageStatus,
  StagePhase, OutputSchema, Invocation, Checkout, Command, Task, RouteOutcome,
}
use yaaos.Engine.World.{
  World, Done, DispatchError, credential_unavailable, workspace_not_found, assertion_error,
  dispatch_error, Services, active, save_exec, add_exec, mint, enqueue, send_command,
  publish_stage_state,
}
use yaaos.Engine.Terminal.{system_exec, provision_stage}
use yaaos.Engine.Context.{resolve_stage_input, build_pr_context, resolve_prior_findings}

-- `_fail_stage`
unfoldable pub fail_stage : StageExecution → Option ℕ → String → World → World
unfolding save_exec enqueue publish_stage_state
fail_stage x stage_index reason w =
    let x' = record x {
      status = StageStatus.failed;
      failure_reason = some reason;
      completed_at = some w.now;
    } in
    enqueue (Task.route_run w.run.id stage_index (some RouteOutcome.failure) (some reason))
      (publish_stage_state (save_exec x' w))

-- A row of a stage of the definition.
unfoldable pub stage_exec :
    StageKind
    → ℕ
    → String
    → Option String
    → Option StagePhase
    → ℕ
    → Option RevisionContext
    → World
    → StageExecution
stage_exec kind stage_index name skill phase iteration revision w = record {
  id = w.next_id;
  run_id = w.run.id;
  stage_index = some stage_index;
  kind = kind;
  stage_name = name;
  skill_name = skill;
  status = StageStatus.running;
  phase = phase;
  iteration = iteration;
  confidence = none;
  loop_state = [];
  boundary_outcome = none;
  boundary_detail = none;
  action_result = none;
  revision = revision;
  failure_reason = none;
  completed_at = none;
}

-- `run.pending_agent_command_id = command_id`
unfoldable pub park : ℕ → World → World
park command_id w = record w { run = record w.run { pending_agent_command_id = some command_id } }

module _ (services : Services) where
  open services use {invocation_error, provision_error, workspace_status, render_findings_for_fix}

  unfoldable pub workspace_is_live : Option ℕ → Bool
  workspace_is_live none = false
  workspace_is_live (some id) = elim (workspace_status id) [
    | none ↦ false
    | some active ↦ true
    | _ ↦ false
  ]

  -- What the callers make of the outcome of `dispatch_invocation`: parked on the command, or the
  -- stage failed for want of a credential. No other exception is caught.
  unfoldable pub settle_invocation :
      Option DispatchError
      → Invocation
      → ℕ
      → StageExecution
      → Option ℕ
      → StageExecution
      → World
      → Done
  unfolding park save_exec send_command
  settle_invocation none invocation command_id x stage_index dispatched w = ok (
      park command_id
        (save_exec dispatched (send_command command_id (Command.invoke invocation) w)))
  settle_invocation (some (credential_unavailable message)) invocation command_id x stage_index
        dispatched w =
      ok (fail_stage x stage_index message w)
  settle_invocation (some e) invocation command_id x stage_index dispatched w =
      err (dispatch_error e)

  unfoldable pub dispatch_invocation :
      Invocation → ℕ → StageExecution → Option ℕ → StageExecution → World → Done
  dispatch_invocation invocation command_id x stage_index dispatched w =
      elim (workspace_status invocation.workspace_id) [
        | none ↦ err (dispatch_error workspace_not_found)
        | some _ ↦
            settle_invocation (invocation_error invocation) invocation command_id x stage_index
              dispatched w
      ]

  abbrev pub checkout_of : Kickoff → World → Checkout
  checkout_of k w = elim k.pr_head_sha [
    | none ↦ Checkout.branch w.ticket.branch_name
    | some head ↦ Checkout.pinned head k.pr_base_sha
  ]

  -- The provision of a workspace that is minted here; its row comes with the agent's report.
  unfoldable pub park_provision : Kickoff → World → World
  unfolding system_exec add_exec mint send_command
  park_provision k w =
      let w₁ = mint (add_exec (system_exec provision_stage w) w) in
      let workspace_id = w₁.next_id in
      let w₂ = mint w₁ in
      let command_id = w₂.next_id in
      let w₃ =
        send_command command_id (Command.provision workspace_id (checkout_of k w)) (mint w₂) in
      record w₃ {
        run = record w₃.run {
          workspace_id = some workspace_id;
          phase = RunPhase.provision;
          pending_agent_command_id = some command_id;
        };
      }

  unfoldable pub dispatch_provision_stage : Kickoff → World → Done
  dispatch_provision_stage k w = elim (provision_error (checkout_of k w)) [
    | none ↦ ok (park_provision k w)
    | some e ↦ err (dispatch_error e)
  ]

  unfoldable pub skill_invocation :
      SkillStage → ℕ → ℕ → ℕ → Kickoff → Option RevisionContext → World → Invocation
  skill_invocation s workspace command_id stage_index k revision w = record {
    workspace_id = workspace;
    plugin = s.coding_agent_plugin_id;
    skill = s.skill_name;
    model = s.model;
    effort = s.effort;
    context = record {
      stage_name = s.name;
      branch_name = w.ticket.branch_name;
      input = resolve_stage_input stage_index k w;
      pr = build_pr_context services k w;
      revision = revision;
      prior_findings = [];
      artifact_path = command_id;
    };
    output_schema = OutputSchema.skill_return;
    wallclock_seconds = s.wallclock_seconds;
  }

  unfoldable pub dispatch_skill_stage :
      SkillStage → ℕ → Kickoff → Option RevisionContext → World → Done
  unfolding stage_exec add_exec mint
  dispatch_skill_stage s stage_index k revision w =
      let x =
        stage_exec StageKind.skill stage_index s.name (some s.skill_name) (some StagePhase.main) 0
          revision w in
      let w₁ = mint (add_exec x w) in
      let command_id = w₁.next_id in
      let w₂ = mint w₁ in
      elim w.run.workspace_id [
        | none ↦ err assertion_error
        | some workspace ↦
            dispatch_invocation (skill_invocation s workspace command_id stage_index k revision w₂)
              command_id x (some stage_index) x w₂
      ]

  -- `_dispatch_review_invocation`, at the review configuration of the stage
  unfoldable pub dispatch_review_invocation :
      SkillStage → ReviewConfig → StageExecution → String → World → Done
  unfolding mint
  dispatch_review_invocation s review x₀ artifact_body w =
      let x = record x₀ { iteration = x₀.iteration + 1 } in
      let command_id = w.next_id in
      let w₁ = mint w in
      resolve_prior_findings services x w₁ >>= λ prior. elim w.run.workspace_id [
        | none ↦ err assertion_error
        | some workspace ↦
            let invocation : Invocation = record {
              workspace_id = workspace;
              plugin = s.coding_agent_plugin_id;
              skill = review.skill_name;
              model = s.model;
              effort = s.effort;
              context = record {
                stage_name = s.name;
                branch_name = w.ticket.branch_name;
                input = artifact_body;
                pr = build_pr_context services w.run.kickoff w₁;
                revision = none;
                prior_findings = prior;
                artifact_path = command_id;
              };
              output_schema = OutputSchema.skill_review_return;
              wallclock_seconds = s.wallclock_seconds;
            } in
            dispatch_invocation invocation command_id x x.stage_index
              (record x { phase = some StagePhase.review }) w₁
      ]

  unfoldable pub dispatch_fix_invocation :
      SkillStage → StageExecution → ℕ → Kickoff → String → List Finding → World → Done
  unfolding mint
  dispatch_fix_invocation s x stage_index k prior_artifact_body residuals w =
      let command_id = w.next_id in
      let w₁ = mint w in
      let revision : RevisionContext = record {
        source = RevisionSource.fix;
        text = render_findings_for_fix residuals;
        prior_artifact = prior_artifact_body;
      } in
      elim w.run.workspace_id [
        | none ↦ err assertion_error
        | some workspace ↦
            dispatch_invocation
              (skill_invocation s workspace command_id stage_index k (some revision) w₁) command_id
              x (some stage_index)
              (record x { revision = some revision; phase = some StagePhase.fix }) w₁
      ]
