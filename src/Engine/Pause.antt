-- ===== src/Engine/Pause.antt =====
-- What happens when the work of a stage is settled (apps/backend/app/domain/pipelines/engine.py):
-- pauses, send-backs and the boundary.
use yaaos.Prelude.{ℕ, String, Option, none, some, List, [], ◌∷◌, ok, err, if◌then◌else◌, leb}
use Prim.Native.String.{◌++◌ as append_text}
use yaaos.Findings.{Finding}
use yaaos.Tickets
use yaaos.Boundary.{BoundaryDecision, proceed, pause, sendback_loop, evaluate_boundary}
use yaaos.Definition.Model.{SkillStage, BoundaryControl}
use yaaos.Engine.Rows.{
  RunState, Kickoff, RevisionContext, RevisionSource, StageExecution, StageStatus, BoundaryOutcome,
  RunPause, Task, RouteOutcome, Effect, AuditKind, Notification,
}
use yaaos.Engine.World.{
  World, Done, assertion_error, Services, save_exec, mint, enqueue, leave, publish_run_state,
  publish_stage_state, get_count, set_count,
}
use yaaos.Engine.Terminal.{notify}
use yaaos.Engine.Promotion.{resolve_escalation_targets, union_ids}
use yaaos.Engine.Context.{final_of, prior_body, residuals_of}
use yaaos.Engine.StartStage.{start_stage_impl}
use yaaos.Engine.Review.{resolve_residual_send_back}

-- `PAUSED_RUN_WORKSPACE_GRACE_SECONDS`
abbrev pub paused_run_workspace_grace_seconds : ℕ
paused_run_workspace_grace_seconds = 1800

-- What an agent command returns: `outputs` of the terminal event. `artifact` is the body, where the
-- payload is a dictionary with a text under `body`.
pub record Outputs : Type 0 where
  pub error_message : Option String
  pub output : Option String
  pub artifact : Option String
  pub artifact_error : Option String

-- `repr` of an optional text that holds no quote
abbrev pub repr_text : Option String → String
repr_text none = "None"
repr_text (some s) = append_text (append_text "'" s) "'"

unfoldable pub extend_expiry : World → World
unfolding leave
extend_expiry w = elim w.run.workspace_id [
  | none ↦ w
  | some id ↦ leave (Effect.expiry_extended id paused_run_workspace_grace_seconds) w
]

-- The row of a stage whose own work is done.
abbrev pub settled : StageExecution → World → StageExecution
settled x w = record x { status = StageStatus.completed; completed_at = some w.now }

module _ (services : Services) where
  open services use {parse_skill_return, parse_review_return, evaluate_protected}

  -- The row of a pause.
  unfoldable pub new_pause : StageExecution → BoundaryDecision → Kickoff → World → RunPause
  new_pause x decision k w = record {
    id = w.next_id;
    run_id = w.run.id;
    stage_execution_id = x.id;
    tripped = decision.tripped;
    escalation_user_ids =
        union_ids decision.protected_owner_user_ids (resolve_escalation_targets services k);
    resolution = none;
    instruction = none;
    send_back_to_stage = none;
    resolved_by = none;
    resolved_at = none;
  }

  -- `_enter_pause`
  unfoldable pub enter_pause : StageExecution → BoundaryDecision → Kickoff → World → World
  unfolding new_pause save_exec mint extend_expiry publish_run_state leave notify
  enter_pause x decision k w =
      let x' = record x {
        boundary_outcome = some BoundaryOutcome.paused;
        boundary_detail = some decision.tripped;
      } in
      let p = new_pause x decision k w in
      let w₁ = mint (record (save_exec x' w) { pauses = p ∷ w.pauses }) in
      let w₂ = extend_expiry (record w₁ { run = record w₁.run { state = RunState.paused } }) in
      let w₃ = record w₂ { ticket = Tickets.transition_ticket_on_run_paused w₂.run.id w₂.ticket } in
      notify Notification.pipeline_run_paused p.escalation_user_ids
        (leave (Effect.audited w₃.run.id AuditKind.run_paused) (publish_run_state w₃))

  -- `_send_back_to_stage`
  unfoldable pub send_back_to_stage :
      StageExecution → ℕ → SkillStage → String → Kickoff → World → Done
  unfolding save_exec publish_stage_state
  send_back_to_stage x target_index target gap_text k w =
      if leb 1 (get_count target.name w.run.sendback_counts)
      then ok (
          enter_pause x
            (record {
              outcome = pause;
              tripped = sendback_loop target.name ∷ [];
              protected_owner_user_ids = [];
            })
            k w)
      else (let counts = set_count target.name 1 w.run.sendback_counts in
          let x' = record x { boundary_outcome = some BoundaryOutcome.sent_back } in
          let w₁ =
            publish_stage_state
              (save_exec x' (record w { run = record w.run { sendback_counts = counts } })) in
          let revision : RevisionContext = record {
            source = RevisionSource.send_back;
            text = gap_text;
            prior_artifact = prior_body (final_of target.name w₁);
          } in
          start_stage_impl services (some target_index) (record w₁ {
            run = record w₁.run {
              kickoff = record k { revision = some revision };
              current_stage_index = some target_index;
            };
          }))

  -- `_settle_stage_boundary`, once nothing is sent back
  unfoldable pub decide_boundary :
      StageExecution → BoundaryControl → List Finding → List String → ℕ → Kickoff → World → Done
  unfolding save_exec enqueue publish_stage_state
  decide_boundary x boundary residuals paths stage_index k w = elim x.confidence [
    | none ↦ err assertion_error
    | some confidence ↦
        let decision = evaluate_boundary evaluate_protected boundary residuals paths confidence in
        elim decision.outcome [
          | pause ↦ ok (enter_pause (settled x w) decision k w)
          | proceed ↦ ok (
              enqueue (Task.route_run w.run.id (some stage_index) (some RouteOutcome.success) none)
                (publish_stage_state (
                  save_exec
                    (record (settled x w) { boundary_outcome = some BoundaryOutcome.proceeded })
                    w)))
        ]
  ]

  -- `_settle_stage_boundary`, at the `context_stages` and the boundary of the stage
  unfoldable pub settle_stage_boundary :
      Option (List String)
      → BoundaryControl
      → StageExecution
      → Kickoff
      → List String
      → ℕ
      → World
      → Done
  settle_stage_boundary context_stages boundary x k paths stage_index w =
      let residuals = residuals_of x w in
      elim (resolve_residual_send_back w.run.definition_snapshot.stages context_stages stage_index
        residuals) [
          | some (target_index, target, gap_text) ↦
              send_back_to_stage (settled x w) target_index target gap_text k w
          | none ↦ decide_boundary x boundary residuals paths stage_index k w
        ]
