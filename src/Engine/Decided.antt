-- ===== src/Engine/Decided.antt =====
-- How a cleanup ends: `_finish_or_cleanup`, and the event of the cleanup command in
-- `_handle_agent_event_impl` (apps/backend/app/domain/pipelines/engine.py).
use yaaos.Prelude.{
  ◌==◌, arith, ap, ℕ, suc, String, Bool, true, false, not, ◌≡◌, refl, sym, ◌∙◌, ap, Option, none,
  some, ok, err, arith, ◌==◌, Bool-cases, Option-cases, inl, inr, ok-injective, if◌then◌else◌,
}
use mathlib.Core.List.{Memᴰ}
use mathlib.Core.Path.{subst}
use yaaos.Tickets.{TicketStatus}
use yaaos.Engine.Rows.{
  Run, RunState, completed, failed, cancelled, killed, StageExecution, StageStatus,
}
use yaaos.Engine.World.{
  World, Done, dispatch_error, workspace_not_found, is_queued, Services, or_text, is_running,
  save_exec,
}
use yaaos.Engine.Terminal.{
  close_run, ticket_status_of, enter_terminal, finish_or_cleanup, finalize_after_cleanup,
  dispatch_cleanup_stage, park_cleanup, system_exec, run_was_killed, rederived_state, cleanup_stage,
  is_cleanup,
}
use yaaos.Engine.Promotion.{promote_oldest_queued}
use yaaos.Engine.Queue.{runs_of}
use yaaos.Engine.Promoted.{run-close_run}
use yaaos.Engine.Remains.{promote_oldest_queued-Memᴰ}
use yaaos.Engine.Pause.{Outputs}
use yaaos.Engine.Events.{
  handle_agent_event_impl, newest_running, by_kind, handle_system_stage_event, system_failed,
  system_succeeded, is_success,
}
use yaaos.Engine.Outcome.{
  Recorded, run_was_killed-IsKilled, run_was_killed-IsSpared, by_failure, by_request, by_kill,
  by_end,
}

-- The world after the cleanup was dispatched and its row was settled.
cleaned_up : ℕ → Option String → StageExecution → World → World
unfolding save_exec park_cleanup
cleaned_up workspace reason x w =
    let v = park_cleanup workspace (record w { run = record w.run { failure_reason = reason } }) in
    save_exec x (record v { run = record v.run { pending_agent_command_id = none } })

finalize-Recorded :
    (services : Services) (workspace : ℕ) (x : StageExecution) (w : World) {state : RunState}
    {reason : Option String}
    → Recorded w state reason
    → finalize_after_cleanup services (cleaned_up workspace reason x w)
      ≡ enter_terminal services state reason (cleaned_up workspace reason x w)
unfolding cleaned_up finalize_after_cleanup rederived_state save_exec park_cleanup run_was_killed
finalize-Recorded services workspace x w (by_failure reason) = refl
finalize-Recorded services workspace x w (by_request c) = rw c refl
finalize-Recorded services workspace x w (by_kill c k) = rw (c, run_was_killed-IsKilled w k) refl
finalize-Recorded services workspace x w (by_end c k) = rw (c, run_was_killed-IsSpared w k) refl

-- The event of the cleanup settles its row, and goes on to the end of the run.
handle_agent_event_impl-finalize :
    (services : Services) (is_auth_expired : String → Bool) (workspace : ℕ) (reason : Option String)
    (label : String) (outputs : Outputs) (w : World)
    → is_running w.run.state ≡ true
    → let v =
        park_cleanup workspace (record w { run = record w.run { failure_reason = reason } }) in
      (x : StageExecution) × (handle_agent_event_impl services is_auth_expired
          (suc w.next_id)
          label
          outputs
          v
        ≡ finalize_after_cleanup services (cleaned_up workspace reason x w))
unfolding handle_agent_event_impl park_cleanup newest_running by_kind handle_system_stage_event
    system_failed system_succeeded system_exec cleaned_up save_exec
handle_agent_event_impl-finalize services is_auth_expired workspace reason label outputs w r =
    let same : (w.run.id == w.run.id) ≡ true = ground arith in
    let own : (suc w.next_id == suc w.next_id) ≡ true = ground arith in
    let x₀ = system_exec cleanup_stage w in
    elim (Bool-cases (is_success label)) [
      | inl y ↦ (
        record x₀ { status = StageStatus.completed; completed_at = some w.now },
        rw (r, own, same, y) refl,
      )
      | inr n ↦ (
        record x₀ {
          status = StageStatus.failed;
          failure_reason = some (or_text outputs.error_message label);
          completed_at = some w.now;
        },
        rw (r, own, same, n) refl,
      )
    ]

-- A run of the ticket has the id, the state and the reason.
abbrev pub Ends : ℕ → RunState → Option String → Done → Type 0
Ends id state reason d =
    (u : World) × (d ≡ ok u)
    × (q : Run) × Memᴰ q (runs_of u)
    × (q.id ≡ id)
    × (q.state ≡ state)
    × (q.failure_reason ≡ reason)

enter_terminal-Ends :
    (services : Services) (state : RunState) {to_status : TicketStatus} (reason : Option String)
    (w : World)
    → ticket_status_of state ≡ some to_status
    → is_queued state ≡ false
    → Ends w.run.id state reason (enter_terminal services state reason w)
unfolding enter_terminal
enter_terminal-Ends services state {to_status} reason w t s =
    let c = close_run services state to_status reason w in
    let r = run-close_run services state to_status reason w in
    let waits : is_queued c.run.state ≡ false = ap (λ (q : Run). is_queued q.state) r ∙ s in
    (
      promote_oldest_queued c,
      rw (enter_terminal, t) refl,
      c.run,
      promote_oldest_queued-Memᴰ c.run c waits (Memᴰ.head refl),
      ap (λ (q : Run). q.id) r,
      ap (λ (q : Run). q.state) r,
      ap (λ (q : Run). q.failure_reason) r,
    )

Recorded-Ends :
    (services : Services) (v w : World) {state : RunState} {reason : Option String}
    → Recorded w state reason
    → Ends v.run.id state reason (enter_terminal services state reason v)
unfolding ticket_status_of
Recorded-Ends services v w (by_failure reason) =
    enter_terminal-Ends services failed {to_status = TicketStatus.failed} (some reason) v refl refl
Recorded-Ends services v w (by_request c) =
    enter_terminal-Ends services cancelled {to_status = TicketStatus.cancelled} none v refl refl
Recorded-Ends services v w (by_kill c k) =
    enter_terminal-Ends services killed {to_status = TicketStatus.cancelled} none v refl refl
Recorded-Ends services v w (by_end c k) =
    enter_terminal-Ends services completed {to_status = TicketStatus.done} none v refl refl

-- The world that a dispatched cleanup leaves.
finish_or_cleanup-park_cleanup :
    (services : Services) (state : RunState) (reason : Option String) (w : World) (id : ℕ)
    {v : World}
    → w.run.workspace_id ≡ some id
    → is_cleanup w.run.phase ≡ false
    → finish_or_cleanup services state reason w ≡ ok v
    → park_cleanup id (record w { run = record w.run { failure_reason = reason } }) ≡ v
unfolding finish_or_cleanup dispatch_cleanup_stage
finish_or_cleanup-park_cleanup services state reason w id {v} i p h =
    let w₁ : World = record w { run = record w.run { failure_reason = reason } } in
    let by_workspace : Option ℕ → Done = λ o. elim o [
      | none ↦ enter_terminal services state reason w₁
      | some j ↦
          if not (is_cleanup w.run.phase)
          then dispatch_cleanup_stage services j w₁
          else enter_terminal services state reason w₁
    ] in
    let dispatched : dispatch_cleanup_stage services id w₁ ≡ ok v =
      sym (ap by_workspace i ∙ (rw p refl)) ∙ h in
    elim (Option-cases (services.workspace_status id)) [
      | inl n ↦
          let k : ◌≡◌ {A = Done} (err (dispatch_error workspace_not_found)) (ok v) =
            sym (rw (dispatch_cleanup_stage, n) refl) ∙ dispatched in
          cc
      | inr (at, m) ↦
          let k : ◌≡◌ {A = Done} (ok (park_cleanup id w₁)) (ok v) =
            sym (rw (dispatch_cleanup_stage, m) refl) ∙ dispatched in
          ok-injective k
    ]

-- An outcome survives the cleanup. Where a running run with a workspace is to end, not in its cleanup, in
-- a state that its rows bear out (failed with a reason; or else without one, cancelled if that was
-- requested, killed if a pause of the run was answered by a kill, and completed if neither), and the
-- cleanup was dispatched, then the event of the cleanup command, whether it is a success or a failure,
-- ends the run in this state and for this reason.
pub handle_agent_event_impl-finish_or_cleanup :
    (services : Services) (is_auth_expired : String → Bool) (label : String) (outputs : Outputs)
    (w : World) (id : ℕ) {state : RunState} {reason : Option String} {v : World}
    → Recorded w state reason
    → is_running w.run.state ≡ true
    → w.run.workspace_id ≡ some id
    → is_cleanup w.run.phase ≡ false
    → finish_or_cleanup services state reason w ≡ ok v
    → (command : ℕ) × (v.run.pending_agent_command_id ≡ some command)
      × Ends w.run.id state reason
          (handle_agent_event_impl services is_auth_expired command label outputs v)
unfolding park_cleanup cleaned_up save_exec
handle_agent_event_impl-finish_or_cleanup services is_auth_expired label outputs w id {state}
      {reason} {v} d r i p h =
    let parked = finish_or_cleanup-park_cleanup services state reason w id i p h in
    let (x, e) =
      handle_agent_event_impl-finalize services is_auth_expired id reason label outputs w r in
    let ends : Ends w.run.id state reason (
        handle_agent_event_impl services is_auth_expired (suc w.next_id) label outputs
          (park_cleanup id (record w { run = record w.run { failure_reason = reason } }))) =
      subst (Ends w.run.id state reason) (sym (e ∙ finalize-Recorded services id x w d))
        (Recorded-Ends services (cleaned_up id reason x w) w d) in
    (
      suc w.next_id,
      ap (λ (z : World). z.run.pending_agent_command_id) (sym parked),
      subst
          (λ z.
            Ends w.run.id state reason
              (handle_agent_event_impl services is_auth_expired (suc w.next_id) label outputs z))
          parked ends,
    )
