-- ===== src/Engine/Terminal.antt =====
-- How runs end: terminal states and the cleanup before them
-- (apps/backend/app/domain/pipelines/engine.py).
use yaaos.Prelude.{
  ℕ, String, Bool, true, false, ◌&&◌, not, Option, none, some, List, [], ◌∷◌, ok, err, any, ◌==◌,
  if◌then◌else◌, is_some,
}
use yaaos.Tickets
use yaaos.Tickets.{TicketStatus}
use yaaos.Engine.Rows.{
  RunState, completed, failed, killed, cancelled, RunPhase, StageExecution, RunPause, PauseAction,
  StageKind, StageStatus, Command, Task, Effect, AuditKind, Notification,
}
use yaaos.Engine.World.{
  World, Done, key_error, dispatch_error, workspace_not_found, Services, add_exec, mint, enqueue,
  leave, send_command, publish_run_state,
}
use yaaos.Engine.Promotion.{promote_oldest_queued, resolve_escalation_targets}

-- `cancel_queued`
unfoldable pub cancel_queued : World → World
unfolding leave publish_run_state
cancel_queued w =
    let r = record w.run { state = cancelled; completed_at = some w.now } in
    leave (Effect.audited r.id AuditKind.run_cancelled) (publish_run_state (record w { run = r }))

-- `_RUN_STATE_TO_TICKET_STATUS`
unfoldable pub ticket_status_of : RunState → Option TicketStatus
ticket_status_of completed = some TicketStatus.done
ticket_status_of failed = some TicketStatus.failed
ticket_status_of cancelled = some TicketStatus.cancelled
ticket_status_of killed = some TicketStatus.cancelled
ticket_status_of _ = none

abbrev pub is_failed : RunState → Bool
is_failed failed = true
is_failed _ = false

unfoldable pub enqueue_hooks : List ℕ → World → World
unfolding enqueue
enqueue_hooks [] w = w
enqueue_hooks (h ∷ hs) w = enqueue_hooks hs (enqueue (Task.terminal_hook h) w)

unfoldable pub notify : Notification → List ℕ → World → World
unfolding leave
notify n [] w = w
notify n (u ∷ us) w = notify n us (leave (Effect.notified u n) w)

abbrev pub is_cleanup : RunPhase → Bool
is_cleanup RunPhase.cleanup = true
is_cleanup _ = false

-- A row of `kind="system"`.
unfoldable pub system_exec : String → World → StageExecution
system_exec name w = record {
  id = w.next_id;
  run_id = w.run.id;
  stage_index = none;
  kind = StageKind.system;
  stage_name = name;
  skill_name = none;
  status = StageStatus.running;
  phase = none;
  iteration = 0;
  confidence = none;
  loop_state = [];
  boundary_outcome = none;
  boundary_detail = none;
  action_result = none;
  revision = none;
  failure_reason = none;
  completed_at = none;
}

abbrev pub cleanup_stage : String
cleanup_stage = "cleanup-workspace"

abbrev pub provision_stage : String
provision_stage = "provision-workspace"

abbrev pub refresh_auth_stage : String
refresh_auth_stage = "refresh-auth"

-- `_dispatch_cleanup_stage`, at the id of the workspace
-- where its row is there
unfoldable pub park_cleanup : ℕ → World → World
unfolding system_exec add_exec mint send_command
park_cleanup workspace w =
    let w₁ = mint (add_exec (system_exec cleanup_stage w) w) in
    let command_id = w₁.next_id in
    let w₂ = send_command command_id (Command.cleanup workspace) (mint w₁) in
    record w₂ {
      run = record w₂.run { phase = RunPhase.cleanup; pending_agent_command_id = some command_id };
    }

abbrev pub is_kill : Option PauseAction → Bool
is_kill (some PauseAction.kill) = true
is_kill _ = false

unfoldable pub run_was_killed : World → Bool
run_was_killed w = any (λ (p : RunPause). (p.run_id == w.run.id) && is_kill p.resolution) w.pauses

-- The state that `_finalize_after_cleanup` re-derives.
unfoldable pub rederived_state : World → RunState
unfolding run_was_killed
rederived_state w =
    if is_some w.run.failure_reason
    then failed
    else if w.run.cancel_requested
    then cancelled
    else if run_was_killed w
    then killed
    else completed

module _ (services : Services) where
  open services use {terminal_hooks, workspace_status}

  -- `_dispatch_cleanup_stage`; the dispatch of the command raises if the workspace has no row.
  unfoldable pub dispatch_cleanup_stage : ℕ → World → Done
  dispatch_cleanup_stage workspace w = elim (workspace_status workspace) [
    | none ↦ err (dispatch_error workspace_not_found)
    | some _ ↦ ok (park_cleanup workspace w)
  ]

  -- What `_enter_terminal` writes before the next run is promoted.
  unfoldable pub close_run : RunState → TicketStatus → Option String → World → World
  unfolding publish_run_state leave notify enqueue_hooks
  close_run state to_status reason w =
      let r = record w.run { state = state; failure_reason = reason; completed_at = some w.now } in
      let w₁ = publish_run_state (record w { run = r }) in
      let w₂ = record w₁ {
        ticket = Tickets.transition_ticket_on_run_terminal r.id to_status reason w₁.ticket;
      } in
      let w₃ = leave (Effect.audited r.id (AuditKind.run_terminal state)) w₂ in
      let w₄ =
        if is_failed state
        then notify Notification.pipeline_run_failed (resolve_escalation_targets services r.kickoff)
            w₃
        else w₃ in
      enqueue_hooks terminal_hooks w₄

  unfoldable pub enter_terminal : RunState → Option String → World → Done
  unfolding ticket_status_of
  enter_terminal state reason w = elim (ticket_status_of state) [
    | none ↦ err key_error
    | some to_status ↦ ok (promote_oldest_queued (close_run state to_status reason w))
  ]

  unfoldable pub finish_or_cleanup : RunState → Option String → World → Done
  finish_or_cleanup target reason w =
      let w₁ = record w { run = record w.run { failure_reason = reason } } in
      elim w.run.workspace_id [
        | none ↦ enter_terminal target reason w₁
        | some workspace ↦
            if not (is_cleanup w.run.phase)
            then dispatch_cleanup_stage workspace w₁
            else enter_terminal target reason w₁
      ]

  unfoldable pub finalize_after_cleanup : World → Done
  finalize_after_cleanup w = enter_terminal (rederived_state w) w.run.failure_reason w
