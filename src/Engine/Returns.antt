-- ===== src/Engine/Returns.antt =====
-- What the return of a skill or a review does (apps/backend/app/domain/pipelines/engine.py): its
-- validation, and the loop of reviews and fixes.
use yaaos.Prelude.{
  ℕ, String, Bool, true, false, ◌&&◌, none, some, List, [], ◌∷◌, ◌++◌, Result, ok, err, ◌>>=◌,
  if◌then◌else◌, map, ltb, or_else,
}
use Prim.Native.String.{◌++◌ as append_text}
use yaaos.Findings.{Finding}
use yaaos.Artifacts
use yaaos.Artifacts.{Artifact}
use yaaos.Contracts.{SkillReturn, SkillOutcome, SkillReviewReturn, bucket_confidence}
use yaaos.Definition.Model.{SkillStage, ReviewSkillStage, ReviewConfig}
use yaaos.Engine.Rows.{Kickoff, StageExecution, StagePhase, produced, reviewed, Effect}
use yaaos.Engine.World.{
  World, Done, Raised, assertion_error, key_error, Services, valid, invalid, save_exec, mint, leave,
  publish_stage_state, is_blank, or_text,
}
use yaaos.Engine.Context.{residuals_of, last_artifact_id, last_paths_affected}
use yaaos.Engine.Dispatch.{fail_stage, dispatch_review_invocation, dispatch_fix_invocation}
use yaaos.Engine.Review.{record_and_apply_review, resolve_send_back_target}
use yaaos.Engine.Pause.{Outputs, repr_text, send_back_to_stage, settle_stage_boundary, settled}

module _ (services : Services) where
  open services use {parse_skill_return, parse_review_return}

  -- A validated return, with its artifact; or the world in which the stage has ended otherwise.
  pub data Validated : Type 0 where
    artifact : SkillReturn → ℕ → String → World → Validated
    ended : World → Validated

  abbrev end_with : Done → Result Raised Validated
  end_with d = d >>= λ w. ok (ended w)

  -- `outcome == "send_back"`
  unfoldable pub ask_send_back :
      SkillStage → StageExecution → ℕ → Kickoff → SkillReturn → World → Done
  ask_send_back s x stage_index k r w =
      let refused = ok (
        fail_stage x (some stage_index)
          (append_text (append_text "send_back_to_stage " (repr_text r.send_back_to_stage))
            " is not a valid upstream stage")
          w) in
      elim r.send_back_to_stage [
        | none ↦ refused
        | some name ↦
            if is_blank (some name)
            then refused
            else elim (resolve_send_back_target w.run.definition_snapshot.stages s.context_stages
                stage_index name) [
                  | none ↦ refused
                  | some (i, target) ↦
                      send_back_to_stage services (settled x w) i target
                        (or_else r.outcome_reason "") k w
                ]
      ]

  -- `outcome == "completed"`
  unfoldable pub take_artifact :
      StageExecution → ℕ → SkillReturn → Outputs → World → Result Raised Validated
  unfolding mint
  take_artifact x stage_index r outputs w =
      if is_blank outputs.artifact
      then ok (
          ended (
            fail_stage x (some stage_index)
              (or_text outputs.artifact_error
                "outcome=completed requires an artifact but none was provided")
              w))
      else (let body = or_else outputs.artifact "" in
          let id = w.next_id in
          let stored =
            Artifacts.store id
              (record {
                org_id = w.ticket.org_id;
                ticket_id = w.ticket.id;
                run_id = w.run.id;
                stage_execution_id = x.id;
                stage_name = x.stage_name;
                body = body;
                iteration = x.iteration;
              })
              w.artifacts in
          ok (artifact r id body (mint (record w { artifacts = Artifacts.mark_final id stored }))))

  unfoldable pub by_outcome :
      SkillOutcome
      → SkillStage
      → StageExecution
      → ℕ
      → Kickoff
      → SkillReturn
      → Outputs
      → World
      → Result Raised Validated
  by_outcome SkillOutcome.cannot_complete s x stage_index k r outputs w = ok (
      ended (
        fail_stage x (some stage_index) (or_text r.outcome_reason "stage reported cannot_complete")
          w))
  by_outcome SkillOutcome.send_back s x stage_index k r outputs w =
      end_with (ask_send_back s x stage_index k r w)
  by_outcome SkillOutcome.completed s x stage_index k r outputs w =
      take_artifact x stage_index r outputs w

  -- `_validate_skill_return_and_artifact`
  unfoldable pub validate_skill_return :
      SkillStage → StageExecution → ℕ → Kickoff → Outputs → World → Result Raised Validated
  validate_skill_return s x stage_index k outputs w =
      elim (parse_skill_return (or_else outputs.output "")) [
        | invalid message ↦ ok (
            ended (
              fail_stage x (some stage_index) (append_text "SkillReturn schema violation: " message)
                w))
        | valid r ↦ by_outcome r.outcome s x stage_index k r outputs w
      ]

  -- The row after a main or fix pass.
  unfoldable pub after_pass : StagePhase → SkillReturn → ℕ → StageExecution → StageExecution
  after_pass phase r id x = record x {
    loop_state = x.loop_state ++ produced phase id r.confidence r.paths_affected ∷ [];
    confidence = some (bucket_confidence r.confidence);
  }

  unfoldable pub publish_artifact_stored : World → World
  unfolding leave
  publish_artifact_stored w = leave Effect.artifact_stored w

  -- `_handle_main_return`, once validated
  unfoldable pub continue_main : SkillStage → StageExecution → ℕ → Kickoff → Validated → Done
  continue_main s x stage_index k (ended w) = ok w
  continue_main s x stage_index k (artifact r id body w) =
      let x' = after_pass StagePhase.main r id x in
      let w₁ = publish_artifact_stored (save_exec x' w) in
      elim s.review [
        | none ↦
            settle_stage_boundary services s.context_stages s.boundary x' k r.paths_affected
              stage_index w₁
        | some review ↦ dispatch_review_invocation services s review x' body w₁
      ]

  unfoldable pub handle_main_return :
      SkillStage → StageExecution → ℕ → Kickoff → Outputs → World → Done
  handle_main_return s x stage_index k outputs w =
      validate_skill_return s x stage_index k outputs w >>= continue_main s x stage_index k

  -- `_handle_fix_return`, once validated; `assert stage.review is not None` is in the dispatch
  unfoldable pub continue_fix : SkillStage → StageExecution → Validated → Done
  continue_fix s x (ended w) = ok w
  continue_fix s x (artifact r id body w) =
      let x' = after_pass StagePhase.fix r id x in
      let w₁ = publish_artifact_stored (save_exec x' w) in
      elim s.review [
        | none ↦ err assertion_error
        | some review ↦ dispatch_review_invocation services s review x' body w₁
      ]

  unfoldable pub handle_fix_return :
      SkillStage → StageExecution → ℕ → Kickoff → Outputs → World → Done
  handle_fix_return s x stage_index k outputs w =
      validate_skill_return s x stage_index k outputs w >>= continue_fix s x

  -- The row after a review pass.
  unfoldable pub after_review :
      ℕ → SkillReviewReturn → List Finding → StageExecution → World → StageExecution
  after_review iteration r recorded x w = record x {
    loop_state =
        x.loop_state
        ++ reviewed iteration r.confidence (map (λ (f : Finding). f.id) recorded)
            (map (λ (f : Finding). f.id) (residuals_of x w)) r.prior_finding_verdicts
          ∷ [];
  }

  abbrev pub nonempty {ℓ} : {A : Type ℓ} → List A → Bool
  nonempty [] = false
  nonempty (x ∷ xs) = true

  -- The end of `_handle_review_return`: another fix, or the boundary.
  unfoldable pub continue_loop :
      SkillStage → ReviewConfig → StageExecution → ℕ → Kickoff → World → Done
  continue_loop s review x stage_index k w =
      if nonempty (residuals_of x w) && ltb x.iteration review.max_iterations
      then (last_artifact_id x >>= λ id. elim (Artifacts.get w.ticket.org_id id w.artifacts) [
        | none ↦ err key_error
        | some a ↦ dispatch_fix_invocation services s x stage_index k a.body (residuals_of x w) w
      ])
      else settle_stage_boundary services s.context_stages s.boundary x k (last_paths_affected x)
          stage_index w

  unfoldable pub handle_review_return :
      SkillStage → StageExecution → ℕ → Kickoff → Outputs → World → Done
  unfolding save_exec publish_stage_state
  handle_review_return s x stage_index k outputs w = elim s.review [
    | none ↦ err assertion_error
    | some review ↦ elim (parse_review_return (or_else outputs.output "")) [
      | invalid message ↦ ok (
          fail_stage x (some stage_index)
            (append_text "SkillReviewReturn schema violation: " message) w)
      | valid r ↦ record_and_apply_review x r x.iteration w >>= λ done.
          (let x' = after_review x.iteration r done.0 x done.1 in
            continue_loop s review x' stage_index k (publish_stage_state (save_exec x' done.1)))
    ]
  ]

  -- The success path of `_handle_review_stage_event`.
  unfoldable pub handle_review_stage_return :
      ReviewSkillStage → StageExecution → ℕ → Kickoff → Outputs → World → Done
  unfolding save_exec
  handle_review_stage_return s x stage_index k outputs w =
      elim (parse_review_return (or_else outputs.output "")) [
        | invalid message ↦ ok (
            fail_stage x (some stage_index)
              (append_text "SkillReviewReturn schema violation: " message) w)
        | valid r ↦ record_and_apply_review x r 1 w >>= λ done.
            (let x' = record (after_review 1 r done.0 x done.1) {
              confidence = some (bucket_confidence r.confidence);
            } in
              settle_stage_boundary services s.context_stages s.boundary x' k [] stage_index
                (save_exec x' done.1))
      ]
