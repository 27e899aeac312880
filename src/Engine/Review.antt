-- ===== src/Engine/Review.antt =====
-- The findings of a review pass (apps/backend/app/domain/pipelines/engine.py): recording them, the
-- verdict matrix, and the send-back that a residual asks for.
use yaaos.Prelude.{
  ℕ, zero, suc, String, Bool, true, Option, none, some, List, [], ◌∷◌, Result, ok, err, ◌>>=◌,
  if◌then◌else◌, str_eq, ◌==◌, any,
}
use yaaos.Actor.{system_actor}
use yaaos.Findings
use yaaos.Findings.{
  Finding, FindingStatus, opened, resolved, dismissed, FindingSpec, FindingStatusEvent,
  StatusEventMethod, FindingStore, FindingError, is_resolved,
}
use yaaos.Contracts.{
  SkillReviewReturn, SkillReviewFinding, PriorFindingVerdict, VerdictStatus, fixed, still_present,
  user_overrode,
}
use yaaos.Definition.Model.{ExecutableStage, SkillStage}
use yaaos.Engine.Rows.{StageExecution}
use yaaos.Engine.World.{World, Done, Raised, finding_error, is_blank}

-- `own_status_by_id.get(finding_id, "open")`
unfoldable pub own_status : ℕ → List Finding → FindingStatus
own_status id [] = opened
own_status id (f ∷ fs) = if f.id == id then f.status else own_status id fs

abbrev verdict_event :
    FindingStatus → StatusEventMethod → StageExecution → World → FindingStatusEvent
verdict_event status method x w = record {
  status = status;
  method = method;
  actor = system_actor;
  run_id = some w.run.id;
  stage_execution_id = some x.id;
  comment_external_id = none;
  at = w.now;
}

unfoldable pub raise_finding : Result FindingError FindingStore → World → Done
raise_finding (ok s) w = ok (record w { findings = s })
raise_finding (err e) w = err (finding_error e)

unfoldable pub apply_verdict : StageExecution → List Finding → ℕ → VerdictStatus → World → Done
unfolding raise_finding own_status
apply_verdict x own id fixed w =
    raise_finding
      (Findings.resolve id (verdict_event resolved StatusEventMethod.review_verdict x w) w.findings)
      w
apply_verdict x own id still_present w =
    let event = verdict_event opened StatusEventMethod.review_verdict x w in
    if is_resolved (own_status id own)
    then raise_finding (Findings.reopen id event w.findings) w
    else raise_finding (Findings.reflag id event w.findings) w
apply_verdict x own id user_overrode w =
    raise_finding
      (Findings.dismiss id (verdict_event dismissed StatusEventMethod.user_overrode x w) w.findings)
      w

-- `_apply_verdicts`; `own` are the findings of the stage execution, as they were before the loop
unfoldable pub apply_verdicts :
    StageExecution → List Finding → List PriorFindingVerdict → World → Done
apply_verdicts x own [] w = ok w
apply_verdicts x own (v ∷ vs) w =
    (elim v.status [ none ↦ ok w | some s ↦ apply_verdict x own v.finding_id s w ])
    >>= apply_verdicts x own vs

-- The specs of the reported findings, each with a fresh id.
unfoldable pub specs_of : ℕ → List SkillReviewFinding → List FindingSpec
specs_of id [] = []
specs_of id (f ∷ fs) =
    record {
      id = id;
      severity = f.severity;
      body = f.body;
      code_file = f.code_file;
      code_line = f.code_line;
      artifact_section = f.artifact_section;
      defect_in_artifact = f.defect_in_artifact;
      display_prefix = f.category;
    }
    ∷ specs_of (suc id) fs

abbrev after_ids : ℕ → List SkillReviewFinding → ℕ
after_ids id [] = id
after_ids id (f ∷ fs) = after_ids (suc id) fs

-- The findings that `record_findings` returns, and the world with them.
unfoldable pub record_review : StageExecution → SkillReviewReturn → ℕ → World → List Finding × World
unfolding specs_of
record_review x r iteration w =
    let origin : Findings.Origin = record {
      org_id = w.ticket.org_id;
      ticket_id = w.ticket.id;
      run_id = w.run.id;
      stage_name = x.stage_name;
      stage_execution_id = x.id;
      iteration = iteration;
    } in
    let (rows, recorded) =
      Findings.record_findings origin (specs_of w.next_id r.new_findings) w.findings.rows in
    (
      recorded,
      record w {
        findings = record w.findings { rows = rows };
        next_id = after_ids w.next_id r.new_findings;
      },
    )

-- `_record_and_apply_review`
unfoldable pub record_and_apply_review :
    StageExecution → SkillReviewReturn → ℕ → World → Result Raised (List Finding × World)
unfolding record_review
record_and_apply_review x r iteration w =
    let (recorded, w₁) = record_review x r iteration w in
    let own = Findings.list_for_stage_execution x.id w₁.findings.rows in
    apply_verdicts x own r.prior_finding_verdicts w₁ >>= λ w₂. ok (recorded, w₂)

-- `name in stage.context_stages`, where `None` shows every upstream stage
abbrev pub shows : Option (List String) → String → Bool
shows none name = true
shows (some names) name = any (λ n. str_eq n name) names

-- The first of `stages`, counted from `index` and before `before`, that is a skill stage of the name.
unfoldable pub find_skill_stage : ℕ → ℕ → String → List ExecutableStage → Option (ℕ × SkillStage)
find_skill_stage zero index name stages = none
find_skill_stage (suc before) index name [] = none
find_skill_stage (suc before) index name (ExecutableStage.skill s ∷ ss) =
    let rest = find_skill_stage before (suc index) name ss in
    if str_eq s.name name then some (index, s) else rest
find_skill_stage (suc before) index name (_ ∷ ss) = find_skill_stage before (suc index) name ss

-- `resolve_send_back_target`, at the `context_stages` of the stage that asks
unfoldable pub resolve_send_back_target :
    List ExecutableStage → Option (List String) → ℕ → String → Option (ℕ × SkillStage)
unfolding find_skill_stage
resolve_send_back_target stages context_stages before_index target_name =
    elim (find_skill_stage before_index 0 target_name stages) [
      | none ↦ none
      | some (i, s) ↦ if shows context_stages target_name then some (i, s) else none
    ]

-- `_resolve_residual_send_back`
unfoldable pub resolve_residual_send_back :
    List ExecutableStage
    → Option (List String)
    → ℕ
    → List Finding
    → Option (ℕ × SkillStage × String)
resolve_residual_send_back stages context_stages before_index [] = none
resolve_residual_send_back stages context_stages before_index (f ∷ fs) =
    let rest = resolve_residual_send_back stages context_stages before_index fs in
    elim f.defect_in_artifact [
      | none ↦ rest
      | some name ↦
          if is_blank (some name)
          then rest
          else elim (resolve_send_back_target stages context_stages before_index name) [
            | none ↦ rest
            | some (i, s) ↦ some (i, s, f.body)
          ]
    ]
