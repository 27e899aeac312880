-- ===== src/Engine/Sweeps.antt =====
-- The sweeps over stalled runs at one ticket: `_reconcile_stale_running` and `_reconcile_lost_resume`
-- of apps/backend/app/domain/pipelines/scheduler_jobs.py. Which runs were last updated before the
-- cutoff is a parameter, as is the status that the gateway has of a command.
use yaaos.Prelude.{
  ℕ, String, Bool, true, false, not, ◌&&◌, Option, none, some, List, [], ◌∷◌, ◌==◌, if◌then◌else◌,
  is_some, keep,
}
use yaaos.Engine.Rows.{Run, StageExecution, StageKind, StageStatus, system, RouteOutcome, Task}
use yaaos.Engine.World.{World, is_running, enqueue}
use yaaos.Engine.Pause.{Outputs}
use yaaos.Engine.Queue.{runs_of}
use yaaos.Gateway.Rows.{CommandStatus, is_done}

abbrev is_system : StageKind → Bool
is_system system = true
is_system _ = false

-- The latest stage execution of the run that is not a system stage; rows stand newest first.
abbrev pub latest_stage : ℕ → List StageExecution → Option StageExecution
latest_stage run [] = none
latest_stage run (x ∷ xs) =
    if (x.run_id == run) && not (is_system x.kind) then some x else latest_stage run xs

-- The task that goes on with a run whose latest stage has the status; a stage that still runs has none.
abbrev pub recovery_task : ℕ → StageExecution → StageStatus → Option Task
recovery_task run x StageStatus.running = none
recovery_task run x StageStatus.completed =
    some (Task.route_run run x.stage_index (some RouteOutcome.success) none)
recovery_task run x _ =
    some (Task.route_run run x.stage_index (some RouteOutcome.failure) x.failure_reason)

abbrev pub recover_run : ℕ → Option StageExecution → Option Task
recover_run run none = some (Task.route_run run none none none)
recover_run run (some x) = recovery_task run x x.status

abbrev pub is_stale_running : (ℕ → Bool) → Run → Bool
is_stale_running stale r =
    is_running r.state && not (is_some r.pending_agent_command_id) && stale r.id

abbrev enqueue_some : Option Task → World → World
enqueue_some none w = w
enqueue_some (some t) w = enqueue t w

unfoldable pub recover_runs : List Run → World → World
recover_runs [] w = w
recover_runs (r ∷ rs) w =
    recover_runs rs (enqueue_some (recover_run r.id (latest_stage r.id w.execs)) w)

unfoldable pub reconcile_stale_running : (ℕ → Bool) → World → World
reconcile_stale_running stale w = recover_runs (keep (is_stale_running stale) (runs_of w)) w

-- The arguments of the HANDLE_AGENT_EVENT that the sweep enqueues.
pub record Resumption : Type 0 where
  pub run_id : ℕ
  pub agent_command_id : ℕ
  pub outcome_label : String
  pub outputs : Outputs

abbrev lost_message : String
lost_message =
    "agent command completed and its terminal event was recorded, but the engine resume was never processed (lost after outbox drain) — the original outcome could not be recovered"

abbrev pub resumption : ℕ → ℕ → Resumption
resumption run command = record {
  run_id = run;
  agent_command_id = command;
  outcome_label = "failure";
  outputs = record {
    error_message = some lost_message;
    output = none;
    artifact = none;
    artifact_error = none;
  };
}

abbrev pub is_status_done : Option CommandStatus → Bool
is_status_done none = false
is_status_done (some c) = is_done c

-- The command that a stalled run waits for, if the gateway has it as done.
abbrev pub lost_command : (ℕ → Option CommandStatus) → Option ℕ → Option ℕ
lost_command status none = none
lost_command status (some c) = if is_status_done (status c) then some c else none

unfoldable pub reconcile_lost_resume :
    (ℕ → Bool) → (ℕ → Option CommandStatus) → List Run → List Resumption
reconcile_lost_resume stale status [] = []
reconcile_lost_resume stale status (r ∷ rs) =
    let rest = reconcile_lost_resume stale status rs in
    if is_running r.state && stale r.id
    then elim (lost_command status r.pending_agent_command_id) [
      | none ↦ rest
      | some c ↦ resumption r.id c ∷ rest
    ]
    else rest
