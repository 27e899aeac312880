-- ===== src/Workspaces/Loss.antt =====
-- The loss of an agent: `failsafe_agent_loss` of apps/backend/app/core/workspace/service.py.
use yaaos.Prelude.{ℕ, String, Bool, ◌&&◌, Option, none, some, List, [], ◌∷◌, mem, keep}
use yaaos.Gateway.Rows.{WorkspaceRow, expired, Fleet, Platform, audit, Audit}
use yaaos.Gateway.Queue.{get_command_run_id, enqueue_agent_event}
use yaaos.Gateway.Bearers.{revoke_all_for_agent}
use yaaos.Workspaces.Claims.{is_workspace, is_active, update_workspaces, set_status}

-- A row is expired, under an audit.
unfoldable pub expire : String → WorkspaceRow → Fleet → Fleet
expire reason w s =
    audit (Audit.transitioned w.id w.status expired reason)
      (update_workspaces (is_workspace w.id) (set_status expired) s)

unfoldable pub expire_all : String → List WorkspaceRow → Fleet → Fleet
expire_all reason [] s = s
expire_all reason (w ∷ ws) s = expire_all reason ws (expire reason w s)

-- The failure that resumes the run of a command in flight.
unfoldable pub fail_command : Platform → Option ℕ → Fleet → Fleet
fail_command p none s = s
fail_command p (some c) s = elim (get_command_run_id c s) [
  | none ↦ s
  | some run ↦ enqueue_agent_event p run c "failure" [] none s
]

abbrev pub is_orphan : List ℕ → WorkspaceRow → Bool
is_orphan lost w = mem w.owning_agent_id lost && is_active w.status

unfoldable pub lose_workspaces : Platform → List WorkspaceRow → Fleet → Fleet
lose_workspaces p [] s = s
lose_workspaces p (w ∷ ws) s =
    lose_workspaces p ws (fail_command p w.current_command_id (expire "agent_loss" w s))

unfoldable pub revoke_lost : List ℕ → Fleet → Fleet
revoke_lost [] s = s
revoke_lost (a ∷ lost) s = revoke_lost lost (revoke_all_for_agent a "agent_loss" s).1

unfoldable pub failsafe_agent_loss : Platform → List ℕ → Fleet → Fleet
failsafe_agent_loss p lost s =
    revoke_lost lost (lose_workspaces p (keep (is_orphan lost) s.workspaces) s)
