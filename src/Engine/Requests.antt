-- ===== src/Engine/Requests.antt =====
-- What users and intake ask of the engine: `resolve_pause`, `request_cancel`, `start_run` and the
-- re-runs of apps/backend/app/domain/pipelines/service.py, with the resumptions of engine.py. That the
-- caller belongs to the organisation is checked before these calls.
use yaaos.Prelude.{
  ℕ, String, Bool, true, false, ◌&&◌, ◌||◌, not, Option, none, some, List, [], ◌∷◌, Result, ok, err,
  ◌>>=◌, if◌then◌else◌, ◌==◌, mem, or_else, get_elem?, is_some, keep,
}
use yaaos.Actor.{Actor}
use yaaos.Tickets
use yaaos.Definition.Model.{ExecutableStage, SkillStage}
use yaaos.Definition.Flatten.{ValidationError}
use yaaos.Engine.Rows.{
  running, cancelled, killed, RevisionContext, RevisionSource, StageExecution, RunPause,
  PauseAction, approve, instruct, send_back, kill, Task, RouteOutcome, Effect, AuditKind,
}
use yaaos.Engine.World.{
  World, Done, Raised, assertion_error, multiple_results_found, Services, Role, owner, admin,
  is_queued, is_running, is_terminal, get_exec, save_pause, focus, enqueue, leave,
  publish_run_state, is_blank,
}
use yaaos.Engine.Terminal.{cancel_queued, finish_or_cleanup}
use yaaos.Engine.Context.{final_of, prior_body}
use yaaos.Engine.StartStage.{start_stage_impl}
use yaaos.Engine.Review.{resolve_send_back_target}
use yaaos.Engine.Pause.{send_back_to_stage}

pub record PauseResolution : Type 0 where
  pub action : PauseAction
  pub instruction : Option String
  pub send_back_to_stage : Option String

-- The exceptions of service.py; `raised` is one of the engine's.
pub data RequestError : Type 0 where
  pause_not_found run_not_found not_escalation_target pause_already_resolved
        invalid_pause_resolution run_already_terminal run_not_rerunnable pipeline_not_found
        stage_not_in_definition missing_inherited_artifact :
      RequestError
  validation_error : ValidationError → RequestError
  raised : Raised → RequestError

abbrev pub Answer : Type 0
Answer = Result RequestError World

unfoldable pub lift_raised : Done → Answer
lift_raised (ok w) = ok w
lift_raised (err e) = err (raised e)

-- `run.state = "running"`, as the resumptions do it
abbrev set_running : World → World
set_running w = record w { run = record w.run { state = running } }

unfoldable pub resume : World → World
unfolding publish_run_state
resume w =
    let w₁ = set_running w in
    publish_run_state
      (record w₁ { ticket = Tickets.transition_ticket_on_run_resumed w₁.run.id w₁.ticket })

unfoldable pub resume_from_pause : RunPause → World → Done
unfolding enqueue
resume_from_pause p w = elim (get_exec p.stage_execution_id w.execs) [
  | none ↦ err assertion_error
  | some x ↦
      ok (
        enqueue (Task.route_run w.run.id x.stage_index (some RouteOutcome.success) none) (resume w))
]

abbrev pub named : ExecutableStage → Option (String × Option (List String))
named (ExecutableStage.skill s) = some (s.name, s.context_stages)
named (ExecutableStage.review s) = some (s.name, s.context_stages)
named (ExecutableStage.action s) = none

-- The stage of a pause: its index, name and `context_stages`; the source asserts that they are there.
unfoldable pub paused_stage : RunPause → World → Option (ℕ × String × Option (List String))
paused_stage p w = elim (get_exec p.stage_execution_id w.execs) [
  | none ↦ none
  | some x ↦ elim x.stage_index [
    | none ↦ none
    | some i ↦ elim (get_elem? w.run.definition_snapshot.stages i) [
      | none ↦ none
      | some stage ↦ elim (named stage) [
        | none ↦ none
        | some (name, context_stages) ↦ some (i, name, context_stages)
      ]
    ]
  ]
]

abbrev pub find_pause : ℕ → List RunPause → Option RunPause
find_pause id [] = none
find_pause id (p ∷ ps) = if p.id == id then some p else find_pause id ps

-- `scalar_one_or_none` raises on several rows.
abbrev pub scalar_one_or_none : List RunPause → Result Raised (Option RunPause)
scalar_one_or_none [] = ok none
scalar_one_or_none (p ∷ []) = ok (some p)
scalar_one_or_none (p ∷ q ∷ ps) = err multiple_results_found

-- `get_open_pause_for_run`
unfoldable pub open_pause : ℕ → List RunPause → Result Raised (Option RunPause)
open_pause run_id ps =
    scalar_one_or_none (keep (λ p. (p.run_id == run_id) && not (is_some p.resolved_at)) ps)

abbrev covers_admin : Role → Bool
covers_admin owner = true
covers_admin admin = true
covers_admin _ = false

unfoldable pub member_role : ℕ → List (ℕ × Role) → Option Role
member_role user [] = none
member_role user ((u, r) ∷ ms) =
    let rest = member_role user ms in if u == user then some r else rest

module _ (services : Services) where
  open services use {memberships}

  unfoldable pub resume_with_instruction : RunPause → String → World → Done
  resume_with_instruction p text w = elim (paused_stage p w) [
    | none ↦ err assertion_error
    | some (i, name, context_stages) ↦
        let revision : RevisionContext = record {
          source = RevisionSource.instruction;
          text = text;
          prior_artifact = prior_body (final_of name w);
        } in
        start_stage_impl services (some i) (
          resume (record w {
            run = record w.run {
              kickoff = record w.run.kickoff { revision = some revision };
              current_stage_index = some i;
            };
          }))
  ]

  unfoldable pub resume_with_send_back : StageExecution → ℕ → SkillStage → World → Done
  resume_with_send_back x target_index target w =
      send_back_to_stage services x target_index target "" w.run.kickoff (resume w)

  unfoldable pub kill_run : World → Done
  kill_run w = finish_or_cleanup services killed none (set_running w)

  unfoldable pub cancel_paused : RunPause → World → Done
  unfolding save_pause
  cancel_paused p w =
      let w₁ = set_running (save_pause (record p { resolved_at = some w.now }) w) in
      finish_or_cleanup services cancelled none
        (record w₁ { run = record w₁.run { cancel_requested = true } })

  -- `request_cancel`, at the run in hand
  unfoldable pub cancel_run : World → Answer
  cancel_run w =
      if is_terminal w.run.state
      then err run_already_terminal
      else if is_queued w.run.state
      then ok (cancel_queued w)
      else if is_running w.run.state
      then ok (record w { run = record w.run { cancel_requested = true } })
      else elim (open_pause w.run.id w.pauses) [
        | err e ↦ err (raised e)
        | ok none ↦ err (raised assertion_error)
        | ok (some p) ↦ lift_raised (cancel_paused p w)
      ]

  unfoldable pub request_cancel : ℕ → World → Answer
  request_cancel run_id w = elim (focus run_id w) [
    | none ↦ err run_not_found
    | some w' ↦ cancel_run w'
  ]

  unfoldable pub is_pause_responder : ℕ → List ℕ → Bool
  unfolding member_role
  is_pause_responder user escalation =
      mem user escalation
      || (elim (member_role user memberships) [ none ↦ false | some r ↦ covers_admin r ])

  -- The target of a `send_back`: the paused row, with the stage that it goes back to.
  pub record Target : Type 0 where
    pub exec : StageExecution
    pub index : ℕ
    pub stage : SkillStage

  unfoldable pub send_back_target : RunPause → PauseResolution → World → Result RequestError Target
  send_back_target p r w =
      if is_blank r.send_back_to_stage
      then err invalid_pause_resolution
      else elim (get_exec p.stage_execution_id w.execs) [
        | none ↦ err (raised assertion_error)
        | some x ↦ elim (paused_stage p w) [
          | none ↦ err (raised assertion_error)
          | some (i, name, context_stages) ↦
              elim (resolve_send_back_target w.run.definition_snapshot.stages context_stages i
                (or_else r.send_back_to_stage "")) [
                  | none ↦ err invalid_pause_resolution
                  | some (j, s) ↦ ok (record { exec = x; index = j; stage = s })
                ]
        ]
      ]

  -- The pause is stamped as resolved.
  unfoldable pub stamp : RunPause → PauseResolution → ℕ → World → World
  unfolding save_pause leave
  stamp p r user w = leave (Effect.audited w.run.id AuditKind.pause_resolved) (
      save_pause
        (record p {
          resolution = some r.action;
          instruction = r.instruction;
          send_back_to_stage = r.send_back_to_stage;
          resolved_by = some user;
          resolved_at = some w.now;
        })
        w)

  unfoldable pub act : PauseAction → RunPause → PauseResolution → ℕ → World → Answer
  act approve p r user w = lift_raised (resume_from_pause p (stamp p r user w))
  act instruct p r user w =
      if is_blank r.instruction
      then err invalid_pause_resolution
      else lift_raised (resume_with_instruction p (or_else r.instruction "") (stamp p r user w))
  act send_back p r user w = send_back_target p r w >>= λ t.
      lift_raised (resume_with_send_back t.exec t.index t.stage (stamp p r user w))
  act kill p r user w = lift_raised (kill_run (stamp p r user w))

  -- `resolve_pause`: the pause, the right of the actor, and that it is open; then the action.
  unfoldable pub resolve_pause : ℕ → PauseResolution → Actor → World → Answer
  resolve_pause pause_id r actor w = elim (find_pause pause_id w.pauses) [
    | none ↦ err pause_not_found
    | some p ↦ elim actor.user_id [
      | none ↦ err not_escalation_target
      | some user ↦
          if not (is_pause_responder user p.escalation_user_ids)
          then err not_escalation_target
          else if is_some p.resolved_at
          then err pause_already_resolved
          else elim (focus p.run_id w) [
            | none ↦ err run_not_found
            | some w' ↦ act r.action p r user w'
          ]
    ]
  ]
