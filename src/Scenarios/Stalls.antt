-- ===== src/Scenarios/Stalls.antt =====
-- The theorem on stalled runs at a command that ran out of attempts.
use yaaos.Prelude.{ℕ, Bool, true, refl, some, [], ◌∷◌, arith}
use mathlib.Core.List.{Memᴰ}
use yaaos.Gateway.Rows.{CommandRow, CommandKind, CommandStatus, Fleet}
use yaaos.Gateway.Queue.{get_command_status}
use yaaos.Gateway.Lease.{requeue_stale_claimed}
use yaaos.Engine.Rows.{Run, RunState}
use yaaos.Engine.Sweeps.{resumption, reconcile_lost_resume}
use yaaos.Engine.Resumed.{reconcile_lost_resume-requeue_stale_claimed}
use yaaos.Scenarios.{run_of}
use yaaos.Scenarios.Fleets.{fleet, pending_command}

-- Claimed for the fifth time, a hundred seconds ago.
abbrev exhausted : CommandRow
exhausted = record (pending_command 51 CommandKind.invoke_claude_code (some 80) (some 7)) {
  status = CommandStatus.claimed;
  claimed_at = some 900;
  attempt = 4;
}

abbrev strained : Fleet
strained = record fleet { commands = exhausted ∷ [] }

abbrev waiting : Run
waiting = record (run_of 20 RunState.running) { pending_agent_command_id = some 51 }

abbrev long_ago : ℕ → Bool
long_ago run = true

reconcile_lost_resume-requeue_stale_claimed_example : Memᴰ (resumption 20 51) (
    reconcile_lost_resume long_ago
      (λ j. get_command_status j (requeue_stale_claimed strained))
      (waiting ∷ []))
reconcile_lost_resume-requeue_stale_claimed_example =
    reconcile_lost_resume-requeue_stale_claimed long_ago (waiting ∷ []) waiting 51 strained
      (Memᴰ.head refl) refl refl refl refl refl (omega arith)
