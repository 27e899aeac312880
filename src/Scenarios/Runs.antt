-- ===== src/Scenarios/Runs.antt =====
-- The theorems on the run engine at a ticket with a running run and a queued one.
use yaaos.Prelude.{ℕ, false, true, ◌≡◌, refl, none, some, [], ◌∷◌, ok, err, arith}
use yaaos.Boundary.{BoundaryDecision, pause, hitl}
use yaaos.Engine.Rows.{failed, RunPause, approve, RunState, completed, RouteOutcome}
use yaaos.Engine.World.{World, focus}
use yaaos.Engine.Terminal.{dispatch_cleanup_stage, enter_terminal}
use yaaos.Engine.Promotion.{resolve_escalation_targets, oldest_queued}
use yaaos.Engine.Review.{resolve_send_back_target}
use yaaos.Engine.Pause.{send_back_to_stage, enter_pause}
use yaaos.Engine.Requests.{
  is_pause_responder, act, lift_raised, resume_from_pause, stamp, PauseResolution,
  pause_already_resolved, open_pause, resolve_pause,
}
use yaaos.Engine.Answered.{resolve_pause_once}
use yaaos.Engine.Queue.{runs_of}
use yaaos.Engine.Oldest.{IsOldest, oldest_queued-IsOldest}
use yaaos.Engine.Promoted.{Moving, enter_terminal-Moving}
use yaaos.Engine.Bounded.{Bounded, send_back_to_stage-Bounded}
use yaaos.Engine.Routed.{Halts, Routes, route_run_impl-Routes, route_run_impl_cancelled}
use yaaos.Engine.Route.{route_run_impl}
use yaaos.Engine.Outcome.{by_failure}
use yaaos.Engine.Decided.{Ends, handle_agent_event_impl-finish_or_cleanup}
use yaaos.Engine.Events.{handle_agent_event_impl}
use yaaos.Engine.Terminal.{finish_or_cleanup}
use yaaos.Engine.Pause.{Outputs}
use yaaos.Engine.SentBack.{Resolves, resolve_send_back_target_exact}
use yaaos.Engine.Recovered.{enter_pause_waits}
use yaaos.Scenarios.{tester, two_runs, two_stages, skill_stage, quiet_services, stage_row}

oldest_queued-IsOldest_example : IsOldest (runs_of two_runs) (some 21)
unfolding oldest_queued
oldest_queued-IsOldest_example = oldest_queued-IsOldest (runs_of two_runs)

route_run_impl-Routes_example :
    Routes quiet_services two_runs
      (route_run_impl quiet_services (some 0) (some RouteOutcome.success) none two_runs)
route_run_impl-Routes_example =
    route_run_impl-Routes quiet_services two_runs (some 0) (some RouteOutcome.success) none

-- The running run, with its cancellation requested.
abbrev cancelling : World
cancelling = record two_runs { run = record two_runs.run { cancel_requested = true } }

route_run_impl_cancelled_example :
    Halts quiet_services cancelling
      (route_run_impl quiet_services (some 0) (some RouteOutcome.success) none cancelling)
route_run_impl_cancelled_example =
    route_run_impl_cancelled quiet_services cancelling 0 (some RouteOutcome.success) none refl

resolve_send_back_target_exact_example :
    Resolves two_stages none 1 "build" (resolve_send_back_target two_stages none 1 "build")
resolve_send_back_target_exact_example = resolve_send_back_target_exact two_stages none 1 "build"

abbrev asking : BoundaryDecision
asking = record { outcome = pause; tripped = hitl ∷ []; protected_owner_user_ids = [] }

abbrev paused_world : World
paused_world = enter_pause quiet_services stage_row asking two_runs.run.kickoff two_runs

enter_pause_waits_example :
    (paused_world.run.state ≡ RunState.paused)
    × (paused_world.outbox ≡ [])
    × (paused_world.commands ≡ [])
    × (p : RunPause) × (open_pause 20 paused_world.pauses ≡ ok (some p))
    × (p.run_id ≡ 20)
    × (p.stage_execution_id ≡ 30)
    × (p.tripped ≡ hitl ∷ [])
    × (p.resolution ≡ none)
unfolding open_pause
enter_pause_waits_example =
    enter_pause_waits quiet_services stage_row asking two_runs.run.kickoff two_runs refl

-- The running run with a workspace.
abbrev provisioned : World
provisioned = record two_runs { run = record two_runs.run { workspace_id = some 60 } }

ended : (v : World) × (enter_terminal quiet_services completed none two_runs ≡ ok v)
unfolding enter_terminal
ended = (_, refl)

enter_terminal-Moving_example : Moving ended.0
enter_terminal-Moving_example =
    enter_terminal-Moving quiet_services completed none two_runs (refl, (refl, tt)) (omega arith)
      ended.1

-- The run was sent back to its first stage before.
abbrev sent_back_before : World
sent_back_before = record provisioned {
  run = record provisioned.run { sendback_counts = ("build", 1) ∷ [] };
}

sent_back :
    (v : World) × (send_back_to_stage quiet_services stage_row 0
        (skill_stage 10 "build")
        "redo"
        two_runs.run.kickoff
        sent_back_before
      ≡ ok v)
unfolding send_back_to_stage
sent_back = (_, refl)

send_back_to_stage-Bounded_example : Bounded "build" sent_back_before sent_back.0
send_back_to_stage-Bounded_example =
    send_back_to_stage-Bounded quiet_services stage_row 0 (skill_stage 10 "build") "redo"
      two_runs.run.kickoff sent_back_before sent_back.1

abbrev approval : PauseResolution
approval = record { action = approve; instruction = none; send_back_to_stage = none }

approved : (v : World) × (resolve_pause quiet_services 100 approval tester paused_world ≡ ok v)
unfolding resolve_pause enter_pause resolve_escalation_targets is_pause_responder focus act
    lift_raised resume_from_pause stamp
approved = (_, refl)

resolve_pause_once_example :
    resolve_pause quiet_services 100 approval tester approved.0 ≡ err pause_already_resolved
resolve_pause_once_example =
    resolve_pause_once quiet_services 100 approval approval tester paused_world refl approved.1

-- The run has failed, and its cleanup was dispatched.
failing : (v : World) × (finish_or_cleanup quiet_services failed (some "boom") provisioned ≡ ok v)
unfolding finish_or_cleanup dispatch_cleanup_stage
failing = (_, refl)

abbrev unreachable : Outputs
unreachable = record {
  error_message = some "agent is gone";
  output = none;
  artifact = none;
  artifact_error = none;
}

handle_agent_event_impl-finish_or_cleanup_example :
    (command : ℕ) × (failing.0.run.pending_agent_command_id ≡ some command)
    × Ends 20 failed (some "boom") (
        handle_agent_event_impl quiet_services
          (λ reason. false)
          command
          "failure"
          unreachable
          failing.0)
handle_agent_event_impl-finish_or_cleanup_example =
    handle_agent_event_impl-finish_or_cleanup quiet_services (λ reason. false) "failure" unreachable
      provisioned 60 (by_failure "boom") refl refl refl failing.1
