-- ===== src/Engine/Context.antt =====
-- What the engine hands to an invocation or an action
-- (apps/backend/app/domain/pipelines/engine.py): the input of a stage, the pull request, the prior
-- findings, the text of a fix.
use yaaos.Prelude.{
  ℕ, zero, suc, String, Bool, true, false, ◌&&◌, ◌||◌, Option, none, some, List, [], ◌∷◌, Result,
  ok, err, ◌>>=◌, keep, ltb, ◌==◌, if◌then◌else◌, is_some, or_else, take,
}
use mathlib.Core.List.{reverse}
use yaaos.Findings
use yaaos.Findings.{Finding, FindingError, is_open}
use yaaos.Artifacts
use yaaos.Artifacts.{Artifact}
use yaaos.Contracts.{PriorFindingVerdict, PriorFindingRef, merge_prior_findings}
use yaaos.Definition.Model.{ExecutableStage}
use yaaos.Engine.Rows.{
  RunState, completed, Kickoff, Run, StageExecution, StageKind, LoopEntry, produced, reviewed,
  PrContext,
}
use yaaos.Engine.World.{World, Raised, assertion_error, finding_error, Services, ActionContext}

abbrev pub final_of : String → World → Option Artifact
final_of name w = Artifacts.latest_final w.ticket.org_id w.ticket.id name w.artifacts

abbrev pub prior_body : Option Artifact → String
prior_body none = ""
prior_body (some a) = a.body

-- The walk back over the upstream stages, nearest first.
unfoldable pub nearest_final : List ExecutableStage → World → Option Artifact
nearest_final [] w = none
nearest_final (ExecutableStage.skill s ∷ ss) w =
    let rest = nearest_final ss w in elim (final_of s.name w) [ none ↦ rest | some a ↦ some a ]
nearest_final (_ ∷ ss) w = nearest_final ss w

unfoldable pub resolve_stage_input : ℕ → Kickoff → World → String
unfolding nearest_final
resolve_stage_input stage_index k w =
    if stage_index == 0
    then or_else k.input_text ""
    else elim (nearest_final (reverse (take stage_index w.run.definition_snapshot.stages)) w) [
      | none ↦ or_else k.input_text ""
      | some a ↦ a.body
    ]

abbrev is_completed : RunState → Bool
is_completed completed = true
is_completed _ = false

abbrev finished_later : Run → Run → Bool
finished_later a b =
    let x = or_else a.completed_at 0 in
    let y = or_else b.completed_at 0 in ltb y x || ((y == x) && ltb b.id a.id)

-- The best of the rows by `(completed_at desc, id desc)` that pin a head.
abbrev later_head : Run → Option Run → Option Run
later_head a none = some a
later_head a (some b) = if finished_later a b then some a else some b

unfoldable pub last_reviewed_run : List Run → Option Run
last_reviewed_run [] = none
last_reviewed_run (r ∷ rs) =
    let rest = last_reviewed_run rs in
    if is_completed r.state && is_some r.kickoff.pr_head_sha then later_head r rest else rest

-- `_prev_reviewed_head_sha`: the run in hand is excluded.
unfoldable pub prev_reviewed_head_sha : World → Option String
unfolding last_reviewed_run
prev_reviewed_head_sha w = elim (last_reviewed_run w.siblings) [
  | none ↦ none
  | some r ↦ r.kickoff.pr_head_sha
]

module _ (services : Services) where
  open services use {pull_request, comment_finding_ids}

  unfoldable pub build_pr_context : Kickoff → World → Option PrContext
  unfolding prev_reviewed_head_sha
  build_pr_context k w = elim w.ticket.pr_id [
    | none ↦ none
    | some pr ↦ elim k.pr_head_sha [
      | none ↦ none
      | some head ↦ some (record {
        pr_external_id = pull_request pr;
        head_sha = head;
        base_sha = or_else k.pr_base_sha "";
        prev_reviewed_head_sha = prev_reviewed_head_sha w;
      })
    ]
  ]

-- `get_finding` for each id; `none` if one is missing
unfoldable pub get_findings : List ℕ → List Finding → Result Raised (List Finding)
get_findings [] rows = ok []
get_findings (i ∷ is) rows = elim (Findings.get_row i rows) [
  | none ↦ err (finding_error (FindingError.finding_not_found i))
  | some f ↦ get_findings is rows >>= λ fs. ok (f ∷ fs)
]

module _ (services : Services) where
  open services use {comment_finding_ids}

  unfoldable pub resolve_prior_findings :
      StageExecution → World → Result Raised (List PriorFindingRef)
  unfolding get_findings
  resolve_prior_findings x w =
      get_findings (comment_finding_ids w.run.id) w.findings.rows >>= λ comment_findings. ok (
        merge_prior_findings (Findings.list_for_stage_execution x.id w.findings.rows)
          (Findings.list_open_for_ticket w.ticket.org_id w.ticket.id w.findings.rows)
          comment_findings)

-- `_last_artifact_id` and `_last_paths_affected`, over the reversed `loop_state`
unfoldable pub first_artifact_id : List LoopEntry → Option ℕ
first_artifact_id [] = none
first_artifact_id (produced p a c paths ∷ es) = some a
first_artifact_id (_ ∷ es) = first_artifact_id es

unfoldable pub last_artifact_id : StageExecution → Result Raised ℕ
unfolding first_artifact_id
last_artifact_id x = elim (first_artifact_id (reverse x.loop_state)) [
  | none ↦ err assertion_error
  | some a ↦ ok a
]

unfoldable pub first_paths : List LoopEntry → List String
first_paths [] = []
first_paths (produced p a c paths ∷ es) = paths
first_paths (_ ∷ es) = first_paths es

unfoldable pub last_paths_affected : StageExecution → List String
unfolding first_paths
last_paths_affected x = first_paths (reverse x.loop_state)

unfoldable pub first_verdicts : List LoopEntry → List PriorFindingVerdict
first_verdicts [] = []
first_verdicts (reviewed i c new left verdicts ∷ es) = verdicts
first_verdicts (_ ∷ es) = first_verdicts es

unfoldable pub last_review_verdicts : StageExecution → List PriorFindingVerdict
unfolding first_verdicts
last_review_verdicts x = first_verdicts (reverse x.loop_state)

-- The residuals of a stage execution: its own findings that are open.
unfoldable pub residuals_of : StageExecution → World → List Finding
residuals_of x w =
    keep (λ f. is_open f.status) (Findings.list_for_stage_execution x.id w.findings.rows)

abbrev index_is : ℕ → Option ℕ → Bool
index_is i none = false
index_is i (some j) = j == i

unfoldable pub latest_stage_execution : ℕ → ℕ → List StageExecution → Option StageExecution
latest_stage_execution run_id i [] = none
latest_stage_execution run_id i (x ∷ xs) =
    let rest = latest_stage_execution run_id i xs in
    if (x.run_id == run_id) && index_is i x.stage_index then some x else rest

abbrev is_skill_kind : StageKind → Bool
is_skill_kind StageKind.skill = true
is_skill_kind _ = false

-- The part of an `ActionContext` that comes from the preceding stage.
pub record Preceding : Type 0 where
  pub residuals : List Finding
  pub verdicts : List PriorFindingVerdict
  pub artifact_id : Option ℕ

abbrev nothing_precedes : Preceding
nothing_precedes = record { residuals = []; verdicts = []; artifact_id = none }

unfoldable pub preceding_of : StageExecution → World → Result Raised Preceding
preceding_of x w =
    let found : Preceding = record {
      residuals = residuals_of x w;
      verdicts = last_review_verdicts x;
      artifact_id = none;
    } in
    if is_skill_kind x.kind
    then (last_artifact_id x >>= λ a. ok (record found { artifact_id = some a }))
    else ok found

unfoldable pub preceding : ℕ → World → Result Raised Preceding
unfolding preceding_of latest_stage_execution
preceding zero w = ok nothing_precedes
preceding (suc i) w = elim (latest_stage_execution w.run.id i w.execs) [
  | none ↦ ok nothing_precedes
  | some x ↦ preceding_of x w
]

module _ (services : Services) where
  open services use {pull_request}

  unfoldable pub build_action_context : Kickoff → ℕ → World → Result Raised ActionContext
  unfolding preceding
  build_action_context k stage_index w = preceding stage_index w >>= λ before. ok (record {
    run_id = w.run.id;
    pr_external_id = elim w.ticket.pr_id [ none ↦ none | some pr ↦ some (pull_request pr) ];
    branch_name = w.ticket.branch_name;
    intake_point_id = k.intake_point_id;
    kickoff_input = k.input_text;
    preceding_residuals = before.residuals;
    preceding_verdicts = before.verdicts;
    preceding_artifact_id = before.artifact_id;
  })
