-- ===== src/Engine/Events.antt =====
-- HANDLE_AGENT_EVENT of apps/backend/app/domain/pipelines/engine.py, and the task bodies
-- that load the run first. `is_auth_expired` searches the message without regard to case, by Python's
-- `str.lower` and `in`: it is a parameter.
use yaaos.Prelude.{
  ℕ, String, Bool, true, false, ◌&&◌, not, Option, none, some, List, [], ◌∷◌, ok, err,
  if◌then◌else◌, str_eq, ◌==◌, ltb, get_elem?,
}
use Prim.Native.String.{◌++◌ as append_text}
use yaaos.Definition.Model.{ExecutableStage, SkillStage}
use yaaos.Engine.Rows.{
  failed, RunPhase, StageExecution, StageKind, StageStatus, StagePhase, Task, RouteOutcome, Command,
}
use yaaos.Engine.World.{
  World, Done, assertion_error, index_error, type_error, dispatch_error, workspace_not_found,
  Services, is_running, focus, save_exec, add_exec, mint, enqueue, send_command,
  publish_stage_state, get_count, set_count, or_text,
}
use yaaos.Engine.Terminal.{
  system_exec, cleanup_stage, provision_stage, refresh_auth_stage, finish_or_cleanup,
  finalize_after_cleanup,
}
use yaaos.Engine.Dispatch.{fail_stage, dispatch_skill_stage}
use yaaos.Engine.StartStage.{start_stage_impl}
use yaaos.Engine.Returns.{
  handle_main_return, handle_fix_return, handle_review_return, handle_review_stage_return,
}
use yaaos.Engine.Pause.{Outputs}
use yaaos.Engine.Route.{route_run_impl}

-- The label of an event, `success` or what went wrong.
abbrev pub is_success : String → Bool
is_success label = str_eq label "success"

-- The newest stage execution of the run in hand that is running.
abbrev is_live : StageStatus → Bool
is_live StageStatus.running = true
is_live _ = false

unfoldable pub newest_running : ℕ → List StageExecution → Option StageExecution
newest_running run_id [] = none
newest_running run_id (x ∷ xs) =
    let rest = newest_running run_id xs in
    if (x.run_id == run_id) && is_live x.status then some x else rest

abbrev pub retry_key : StageExecution → String
retry_key x = append_text "auth_retry:" x.stage_name

abbrev pub is_main : Option StagePhase → Bool
is_main (some StagePhase.main) = true
is_main _ = false

module _ (services : Services) (is_auth_expired : String → Bool) where
  -- `cleanup` ends the run whatever became of it.
  unfoldable pub system_failed : StageExecution → Outputs → String → World → Done
  unfolding save_exec
  system_failed x outputs label w =
      let reason = or_text outputs.error_message label in
      let x' = record x {
        status = StageStatus.failed;
        failure_reason = some reason;
        completed_at = some w.now;
      } in
      if str_eq x.stage_name cleanup_stage
      then finalize_after_cleanup services (save_exec x' w)
      else finish_or_cleanup services failed (some reason) (save_exec x' w)

  -- The retry after a refreshed credential.
  unfoldable pub retry_skill : World → Done
  retry_skill w = elim w.run.current_stage_index [
    | none ↦ err type_error
    | some i ↦ elim (get_elem? w.run.definition_snapshot.stages i) [
      | none ↦ err index_error
      | some (ExecutableStage.skill s) ↦ dispatch_skill_stage services s i w.run.kickoff none w
      | some _ ↦
          finish_or_cleanup services failed (some "refresh-auth recovery reached a non-skill stage")
            w
    ]
  ]

  unfoldable pub system_succeeded : StageExecution → World → Done
  unfolding save_exec enqueue
  system_succeeded x w =
      let w₁ =
        save_exec (record x { status = StageStatus.completed; completed_at = some w.now }) w in
      if str_eq x.stage_name provision_stage
      then ok (
          enqueue (Task.start_stage w₁.run.id w₁.run.current_stage_index)
            (record w₁ { run = record w₁.run { phase = RunPhase.stages } }))
      else if str_eq x.stage_name cleanup_stage
      then finalize_after_cleanup services w₁
      else if str_eq x.stage_name refresh_auth_stage
      then retry_skill w₁
      else ok w₁

  unfoldable pub handle_system_stage_event : StageExecution → String → Outputs → World → Done
  handle_system_stage_event x label outputs w =
      if not (is_success label) then system_failed x outputs label w else system_succeeded x w

  -- A new token is fetched before the workspace is looked up.
  unfoldable pub send_auth_refresh : ℕ → World → Done
  unfolding mint send_command
  send_auth_refresh workspace w = elim services.token_error [
    | some e ↦ err (dispatch_error e)
    | none ↦ elim (services.workspace_status workspace) [
      | none ↦ err (dispatch_error workspace_not_found)
      | some _ ↦
          let command_id = w.next_id in
          let v = send_command command_id (Command.auth_refresh workspace) (mint w) in
          ok (record v { run = record v.run { pending_agent_command_id = some command_id } })
    ]
  ]

  -- The recovery from an expired credential.
  unfoldable pub refresh_auth : StageExecution → String → World → Done
  unfolding save_exec publish_stage_state system_exec add_exec mint
  refresh_auth x reason w =
      let counts = set_count (retry_key x) 1 w.run.sendback_counts in
      let x' = record x {
        status = StageStatus.failed;
        failure_reason = some reason;
        completed_at = some w.now;
      } in
      let w₁ =
        publish_stage_state
          (save_exec x' (record w { run = record w.run { sendback_counts = counts } })) in
      let w₂ = mint (add_exec (system_exec refresh_auth_stage w₁) w₁) in
      elim w₂.run.workspace_id [
        | none ↦ err assertion_error
        | some workspace ↦ send_auth_refresh workspace w₂
      ]

  unfoldable pub skill_failed : StageExecution → String → World → Done
  skill_failed x reason w =
      if (is_auth_expired reason && is_main x.phase)
        && ltb (get_count (retry_key x) w.run.sendback_counts) 1
      then refresh_auth x reason w
      else ok (fail_stage x x.stage_index reason w)

  -- A successful return, by the phase of the row.
  unfoldable pub by_phase :
      Option StagePhase → SkillStage → StageExecution → ℕ → Outputs → World → Done
  by_phase (some StagePhase.review) s x i outputs w =
      handle_review_return services s x i w.run.kickoff outputs w
  by_phase (some StagePhase.fix) s x i outputs w =
      handle_fix_return services s x i w.run.kickoff outputs w
  by_phase _ s x i outputs w = handle_main_return services s x i w.run.kickoff outputs w

  unfoldable pub skill_returned : StageExecution → Outputs → World → Done
  skill_returned x outputs w = elim x.stage_index [
    | none ↦ err type_error
    | some i ↦ elim (get_elem? w.run.definition_snapshot.stages i) [
      | none ↦ err index_error
      | some (ExecutableStage.skill s) ↦ by_phase x.phase s x i outputs w
      | some _ ↦ err assertion_error
    ]
  ]

  unfoldable pub handle_skill_stage_event : StageExecution → String → Outputs → World → Done
  handle_skill_stage_event x label outputs w =
      if not (is_success label)
      then skill_failed x (or_text outputs.error_message label) w
      else skill_returned x outputs w

  unfoldable pub review_returned : StageExecution → Outputs → World → Done
  review_returned x outputs w = elim x.stage_index [
    | none ↦ err type_error
    | some i ↦ elim (get_elem? w.run.definition_snapshot.stages i) [
      | none ↦ err index_error
      | some (ExecutableStage.review s) ↦
          handle_review_stage_return services s x i w.run.kickoff outputs w
      | some _ ↦ err assertion_error
    ]
  ]

  unfoldable pub handle_review_stage_event : StageExecution → String → Outputs → World → Done
  handle_review_stage_event x label outputs w =
      if not (is_success label)
      then ok (fail_stage x x.stage_index (or_text outputs.error_message label) w)
      else review_returned x outputs w

  unfoldable pub by_kind : StageKind → StageExecution → String → Outputs → World → Done
  by_kind StageKind.system = handle_system_stage_event
  by_kind StageKind.review = handle_review_stage_event
  by_kind _ = handle_skill_stage_event

  abbrev pub awaits : ℕ → World → Bool
  awaits command_id w = elim w.run.pending_agent_command_id [
    | none ↦ false
    | some c ↦ c == command_id
  ]

  -- `_handle_agent_event_impl`, at the run in hand
  unfoldable pub handle_agent_event_impl : ℕ → String → Outputs → World → Done
  unfolding newest_running
  handle_agent_event_impl command_id label outputs w =
      if not (is_running w.run.state)
      then ok w
      else if not (awaits command_id w)
      then ok w
      else elim (newest_running w.run.id w.execs) [
        | none ↦ ok w
        | some x ↦
            by_kind x.kind x label outputs
              (record w { run = record w.run { pending_agent_command_id = none } })
      ]

  -- The task bodies: a run that is not there is no error.
  unfoldable pub route_run : ℕ → Option ℕ → Option RouteOutcome → Option String → World → Done
  route_run run_id completed_stage_index outcome reason w = elim (focus run_id w) [
    | none ↦ ok w
    | some w' ↦ route_run_impl services completed_stage_index outcome reason w'
  ]

  unfoldable pub start_stage : ℕ → Option ℕ → World → Done
  start_stage run_id stage_index w = elim (focus run_id w) [
    | none ↦ ok w
    | some w' ↦ start_stage_impl services stage_index w'
  ]

  unfoldable pub handle_agent_event : ℕ → ℕ → String → Outputs → World → Done
  handle_agent_event run_id command_id label outputs w = elim (focus run_id w) [
    | none ↦ ok w
    | some w' ↦ handle_agent_event_impl command_id label outputs w'
  ]
