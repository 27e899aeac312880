-- ===== src/Workspaces/Reaper.antt =====
-- The reaper of the workspaces: `_reaper_sweep_once` and `_attempt_destroy` of
-- apps/backend/app/core/workspace/service.py.
use yaaos.Prelude.{
  ℕ, suc, ◌+◌, String, Bool, true, false, not, ◌&&◌, Option, none, some, List, [], ◌∷◌,
  if◌then◌else◌, str_eq, is_some, keep, any, ltb, leb, take,
}
use Prim.Native.String.{◌++◌ as str_append}
use yaaos.Gateway.Rows.{
  WorkspaceRow, WorkspaceState, expired, destroying, destroyed, destroy_failed, Fleet, Platform,
  audit, Audit,
}
use yaaos.Gateway.Heartbeats.{compute_agent_liveness_transitions}
use yaaos.Gateway.Lease.{requeue_stale_claimed}
use yaaos.Workspaces.Claims.{is_workspace, is_active, update_workspaces, get_workspace}
use yaaos.Workspaces.Loss.{expire_all, failsafe_agent_loss}

abbrev pub is_over_budget : ℕ → WorkspaceRow → Bool
is_over_budget now w = is_active w.status && ltb w.expires_at now

abbrev pub idle_since : ℕ → ℕ → Option ℕ → Bool
idle_since now limit none = false
idle_since now limit (some t) = ltb (t + limit) now

abbrev pub is_idle : ℕ → WorkspaceRow → Bool
is_idle now w =
    is_active w.status
    && not (is_some w.current_command_id)
    && idle_since now w.max_idle_seconds w.activated_at

abbrev pub is_expired : WorkspaceState → Bool
is_expired expired = true
is_expired _ = false

abbrev pub max_destroy_attempts : ℕ
max_destroy_attempts = 3

abbrev pub is_destroyable : WorkspaceRow → Bool
is_destroyable w = is_expired w.status && ltb w.destroy_attempts max_destroy_attempts

unfoldable pub fail_lost : Platform → List ℕ × Fleet → Fleet
fail_lost p ([], s) = s
fail_lost p (a ∷ lost, s) = failsafe_agent_loss p (a ∷ lost) s

-- The steps of the sweep up to the commit.
unfoldable pub expire_sweep : Platform → Fleet → Fleet
expire_sweep p s =
    let t = expire_all "ttl_expired" (keep (is_over_budget s.now) s.workspaces) s in
    let u = expire_all "idle_timeout" (keep (is_idle s.now) t.workspaces) t in
    requeue_stale_claimed (fail_lost p (compute_agent_liveness_transitions s.now u))

abbrev pub is_registered : Platform → String → Bool
is_registered p i = any (λ j. str_eq j i) p.workspace_providers

abbrev pub start_destroy : ℕ → WorkspaceRow → WorkspaceRow
start_destroy now w = record w {
  status = destroying;
  destroy_attempts = suc w.destroy_attempts;
  last_destroy_attempt_at = some now;
}

abbrev pub no_provider : WorkspaceRow → WorkspaceRow
no_provider w = record w {
  status = destroy_failed;
  last_destroy_error = some (str_append "provider " (str_append w.provider_id " not registered"));
}

abbrev pub after_failure : ℕ → WorkspaceState
after_failure attempts = if leb max_destroy_attempts attempts then destroy_failed else expired

abbrev pub fail_destroy : ℕ → String → WorkspaceRow → WorkspaceRow
fail_destroy attempts error w = record w {
  status = after_failure attempts;
  last_destroy_error = some error;
}

abbrev pub finish_destroy : ℕ → WorkspaceRow → WorkspaceRow
finish_destroy now w = record w {
  status = destroyed;
  destroyed_at = some now;
  last_destroy_error = none;
}

abbrev pub is_row_expired : ℕ → WorkspaceRow → Bool
is_row_expired i w = is_workspace i w && is_expired w.status

-- `RETURNING destroy_attempts`; `w` is the row as selected.
abbrev pub attempts_of : WorkspaceRow → Fleet → ℕ
attempts_of w s = elim (get_workspace w.id s) [
  | none ↦ suc w.destroy_attempts
  | some r ↦ r.destroy_attempts
]

-- The end of an attempt that this reaper has started.
unfoldable pub settle_destroy : Platform → WorkspaceRow → Fleet → Fleet
settle_destroy p w s =
    let attempts = attempts_of w s in
    elim (p.destroy_error w) [
      | some error ↦
          audit (Audit.transitioned w.id destroying (after_failure attempts) "destroy_failed")
            (update_workspaces (is_workspace w.id) (fail_destroy attempts error) s)
      | none ↦
          audit (Audit.transitioned w.id destroying destroyed "destroyed")
            (update_workspaces (is_workspace w.id) (finish_destroy s.now) s)
    ]

unfoldable pub attempt_destroy : Platform → WorkspaceRow → Fleet → Fleet
attempt_destroy p w s =
    if not (is_registered p w.provider_id)
    then audit (Audit.transitioned w.id w.status destroy_failed "provider_not_registered")
        (update_workspaces (is_workspace w.id) no_provider s)
    else if any (is_row_expired w.id) s.workspaces
    then settle_destroy p w (
        audit (Audit.transitioned w.id w.status destroying "destroy_attempt")
          (update_workspaces (is_row_expired w.id) (start_destroy s.now) s))
    else s

unfoldable pub destroy_all : Platform → List WorkspaceRow → Fleet → Fleet
destroy_all p [] s = s
destroy_all p (w ∷ ws) s = destroy_all p ws (attempt_destroy p w s)

-- At most fifty rows are destroyed in a sweep.
unfoldable pub reaper_sweep_once : Platform → Fleet → Fleet
reaper_sweep_once p s =
    let t = expire_sweep p s in destroy_all p (take 50 (keep is_destroyable t.workspaces)) t
