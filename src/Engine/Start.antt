-- ===== src/Engine/Start.antt =====
-- Starting runs: `start_run`, `start_rerun`, `start_rerun_from_stage` and `has_run_in_flight` of
-- apps/backend/app/domain/pipelines/service.py, and the sweep of orphaned queued runs of
-- scheduler_jobs.py, for one ticket. The rows that the ticket has already are a parameter, so that
-- the first run of a ticket is covered too.
use yaaos.Prelude.{
  ℕ, suc, String, Bool, true, false, ◌||◌, not, Option, none, some, List, [], ◌∷◌, Result, ok, err,
  ◌>>=◌, if◌then◌else◌, str_eq, ◌==◌, any, is_some, take,
}
use mathlib.Core.List.{reverse}
use yaaos.Actor.{Actor}
use yaaos.Definition.Model.{ExecutableStage, FlattenedDefinition}
use yaaos.Definition.Flatten.{ValidationError, Definitions, lookup, flatten}
use yaaos.Engine.Rows.{
  RunState, queued, failed, cancelled, killed, RunPhase, Run, Kickoff, RevisionSource,
}
use yaaos.Engine.World.{World, is_queued, in_flight, focus}
use yaaos.Engine.Promotion.{attempt_promotion, promote_oldest_queued}
use yaaos.Engine.Context.{final_of, prior_body}
use yaaos.Engine.Requests.{
  RequestError, run_not_found, run_not_rerunnable, pipeline_not_found, stage_not_in_definition,
  missing_inherited_artifact, validation_error, Answer, named,
}

-- The row that a new run is inserted with.
unfoldable pub queued_run :
    ℕ → ℕ → String → FlattenedDefinition → Option ℕ → Kickoff → Option ℕ → Run
queued_run id pipeline_id name snapshot start kickoff user = record {
  id = id;
  pipeline_id = some pipeline_id;
  pipeline_name = name;
  definition_snapshot = snapshot;
  state = queued;
  phase = RunPhase.stages;
  current_stage_index = start;
  workspace_id = none;
  pending_agent_command_id = none;
  cancel_requested = false;
  kickoff = kickoff;
  sendback_counts = [];
  failure_reason = none;
  triggered_by_user_id = user;
  completed_at = none;
}

-- `session.add(row)`, `session.flush()`, `attempt_promotion(row)`
unfoldable pub insert_run : Run → List Run → World → World
insert_run row rows w =
    attempt_promotion (record w { run = row; siblings = rows; next_id = suc w.next_id })

abbrev pub or_invalid {ℓ} : {A : Type ℓ} → Result ValidationError A → Result RequestError A
or_invalid (ok a) = ok a
or_invalid (err e) = err (validation_error e)

unfoldable pub start_run : Definitions → ℕ → Kickoff → Option ℕ → List Run → World → Answer
unfolding queued_run
start_run org pipeline_id kickoff user rows w = elim (lookup pipeline_id org) [
  | none ↦ err pipeline_not_found
  | some d ↦ or_invalid (flatten d org) >>= λ flat.
      ok (insert_run (queued_run w.next_id pipeline_id d.name flat none kickoff user) rows w)
]

-- `_RERUNNABLE_RUN_STATES`
abbrev pub is_rerunnable : RunState → Bool
is_rerunnable failed = true
is_rerunnable cancelled = true
is_rerunnable killed = true
is_rerunnable _ = false

abbrev is_current : ℕ → Option ℕ → Bool
is_current id none = false
is_current id (some c) = c == id

unfoldable pub rerun : Definitions → Actor → Option ℕ → World → Answer
rerun org actor user w =
    if not (is_current w.run.id w.ticket.current_run_id)
    then err run_not_rerunnable
    else if not (is_rerunnable w.run.state)
    then err run_not_rerunnable
    else elim w.run.pipeline_id [
      | none ↦ err pipeline_not_found
      | some pipeline_id ↦
          start_run org pipeline_id
            (record w.run.kickoff { actor = actor; intake_point_id = "rerun"; revision = none })
            user (w.run ∷ w.siblings) w
    ]

unfoldable pub start_rerun : Definitions → ℕ → Actor → Option ℕ → World → Answer
start_rerun org run_id actor user w = elim (focus run_id w) [
  | none ↦ err run_not_found
  | some w' ↦ rerun org actor user w'
]

abbrev is_named : String → ExecutableStage → Bool
is_named name stage = elim (named stage) [ none ↦ false | some (n, shown) ↦ str_eq n name ]

-- The index of the first skill or review stage of the name.
unfoldable pub stage_index_of : String → ℕ → List ExecutableStage → Option ℕ
stage_index_of name i [] = none
stage_index_of name i (s ∷ ss) =
    let rest = stage_index_of name (suc i) ss in if is_named name s then some i else rest

-- `_nearest_upstream_skill_stage_resolvable`: over the upstream stages, nearest first
unfoldable pub has_skill_stage : List ExecutableStage → Bool
has_skill_stage [] = false
has_skill_stage (ExecutableStage.skill s ∷ ss) = true
has_skill_stage (_ ∷ ss) = has_skill_stage ss

unfoldable pub has_final : List ExecutableStage → World → Bool
has_final [] w = false
has_final (ExecutableStage.skill s ∷ ss) w = is_some (final_of s.name w) || has_final ss w
has_final (_ ∷ ss) w = has_final ss w

unfoldable pub upstream_resolvable : List ExecutableStage → ℕ → World → Bool
unfolding has_skill_stage has_final
upstream_resolvable stages from_index w =
    let upstream = reverse (take from_index stages) in
    not (has_skill_stage upstream) || has_final upstream w

unfoldable pub rerun_flattened :
    ℕ → String → FlattenedDefinition → String → String → Actor → Option ℕ → World → Answer
unfolding queued_run stage_index_of
rerun_flattened pipeline_id name flat from_stage text actor user w =
    elim (stage_index_of from_stage 0 flat.stages) [
      | none ↦ err stage_not_in_definition
      | some from_index ↦
          if not (upstream_resolvable flat.stages from_index w)
          then err missing_inherited_artifact
          else (let kickoff : Kickoff = record {
            intake_point_id = "rerun";
            actor = actor;
            input_text = none;
            pr_base_sha = none;
            pr_head_sha = none;
            notify_user_ids = [];
            revision = some (record {
              source = RevisionSource.instruction;
              text = text;
              prior_artifact = prior_body (final_of from_stage w);
            });
          } in
              ok (
                insert_run
                  (queued_run w.next_id pipeline_id name flat (some from_index) kickoff user)
                  (w.run ∷ w.siblings) w))
    ]

-- `start_rerun_from_stage`: the prior run is the ticket's current one
unfoldable pub rerun_from_stage : Definitions → String → String → Actor → Option ℕ → World → Answer
rerun_from_stage org from_stage text actor user w = elim w.run.pipeline_id [
  | none ↦ err stage_not_in_definition
  | some pipeline_id ↦ elim (lookup pipeline_id org) [
    | none ↦ err stage_not_in_definition
    | some d ↦ or_invalid (flatten d org) >>= λ flat.
        rerun_flattened pipeline_id d.name flat from_stage text actor user w
  ]
]

unfoldable pub start_rerun_from_stage :
    Definitions → String → String → Actor → Option ℕ → World → Answer
start_rerun_from_stage org from_stage text actor user w = elim w.ticket.current_run_id [
  | none ↦ err run_not_found
  | some run_id ↦ elim (focus run_id w) [
    | none ↦ err run_not_found
    | some w' ↦ rerun_from_stage org from_stage text actor user w'
  ]
]

abbrev pub any_in_flight : World → Bool
any_in_flight w = any (λ (r : Run). in_flight r.state) (w.run ∷ w.siblings)

abbrev pub any_queued : World → Bool
any_queued w = any (λ (r : Run). is_queued r.state) (w.run ∷ w.siblings)

unfoldable pub has_run_in_flight : World → Bool
has_run_in_flight w = any (λ (r : Run). is_queued r.state || in_flight r.state) (w.run ∷ w.siblings)

-- `_reconcile_orphaned_queued`, at one ticket with a queued run
unfoldable pub reconcile_orphaned_queued : World → World
reconcile_orphaned_queued w =
    if not (any_queued w) then w else if any_in_flight w then w else promote_oldest_queued w
