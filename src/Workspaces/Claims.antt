-- ===== src/Workspaces/Claims.antt =====
-- The single-flight claim of a workspace and the dispatch of a command through it
-- (apps/backend/app/core/workspace/dispatch.py), and the plain writes of
-- apps/backend/app/core/workspace/service.py.
use yaaos.Prelude.{
  ℕ, ◌+◌, String, Bool, true, false, not, ◌&&◌, Option, none, some, [], ◌∷◌, Result, ok, err, ◌>>=◌,
  ◌==◌, if◌then◌else◌, any, is_some, is_id, update_where, first_where, or_else,
}
use yaaos.Gateway.Rows.{
  WorkspaceRow, WorkspaceState, active, expired, Fleet, FleetError, workspace_not_found,
  workspace_claim_failed, Platform, Payload, CommandKind, new_id, audit, Audit, cleanup_workspace,
  refresh_workspace_auth, push_branch, text,
}
use yaaos.Gateway.Queue.{AgentCommand, enqueue_command, pin_command_to_agent}

abbrev pub is_workspace : ℕ → WorkspaceRow → Bool
is_workspace i w = w.id == i

abbrev pub is_active : WorkspaceState → Bool
is_active active = true
is_active _ = false

abbrev pub get_workspace : ℕ → Fleet → Option WorkspaceRow
get_workspace i s = first_where (is_workspace i) s.workspaces

abbrev pub update_workspaces : (WorkspaceRow → Bool) → (WorkspaceRow → WorkspaceRow) → Fleet → Fleet
update_workspaces p f s = record s { workspaces = update_where p f s.workspaces }

abbrev pub is_free : WorkspaceRow → Bool
is_free w = not (is_some w.current_command_id) && is_active w.status

abbrev pub is_claimable : ℕ → WorkspaceRow → Bool
is_claimable i w = is_workspace i w && is_free w

abbrev pub claimed_by : ℕ → Option ℕ → WorkspaceRow → WorkspaceRow
claimed_by command agent w = record w {
  current_command_id = some command;
  owning_agent_id = or_else agent w.owning_agent_id;
}

unfoldable pub try_claim : ℕ → ℕ → Option ℕ → Fleet → Bool × Fleet
try_claim i command agent s = (
  any (is_claimable i) s.workspaces,
  update_workspaces (is_claimable i) (claimed_by command agent) s,
)

abbrev pub is_held_by : ℕ → ℕ → WorkspaceRow → Bool
is_held_by i command w = is_workspace i w && is_id command w.current_command_id

unfoldable pub release_claim : ℕ → ℕ → Fleet → Bool × Fleet
release_claim i command s = (
  any (is_held_by i command) s.workspaces,
  update_workspaces (is_held_by i command)
      (λ (w : WorkspaceRow). record w { current_command_id = none }) s,
)

-- The claim of the workspace, where the caller wants one.
unfoldable pub claim_if : Bool → ℕ → ℕ → Fleet → Result FleetError Fleet
claim_if false i command s = ok s
claim_if true i command s =
    let (claimed, t) = try_claim i command none s in
    if claimed then ok t else err workspace_claim_failed

unfoldable pub dispatch_via_workspace :
    Platform → AgentCommand → ℕ → Option ℕ → Bool → Fleet → Result FleetError Fleet
dispatch_via_workspace p c i run claim_workspace s = elim (get_workspace i s) [
  | none ↦ err workspace_not_found
  | some w ↦ enqueue_command p w.org_id c run s >>= λ t.
      claim_if claim_workspace i c.command_id
        (pin_command_to_agent c.command_id w.owning_agent_id t)
]

-- The command that a dispatch function mints, and its id.
unfoldable pub dispatch_minted :
    Platform → CommandKind → Payload → ℕ → Option ℕ → String → Fleet → Result FleetError (ℕ × Fleet)
dispatch_minted p kind fields i run traceparent s =
    let c : AgentCommand = record {
      command_id = s.next_id;
      kind = kind;
      workspace_id = some i;
      fields = fields;
      traceparent = traceparent;
    } in
    dispatch_via_workspace p c i run false (new_id s) >>= λ t. ok (s.next_id, t)

unfoldable pub dispatch_cleanup :
    Platform → ℕ → Option ℕ → String → Fleet → Result FleetError (ℕ × Fleet)
dispatch_cleanup p i run traceparent s = dispatch_minted p cleanup_workspace [] i run traceparent s

-- `new_token` is the installation token of the version control system.
unfoldable pub dispatch_auth_refresh :
    Platform → String → ℕ → Option ℕ → String → Fleet → Result FleetError (ℕ × Fleet)
dispatch_auth_refresh p new_token i run traceparent s =
    dispatch_minted p refresh_workspace_auth (("new_token", text new_token) ∷ []) i run traceparent
      s

unfoldable pub dispatch_push :
    Platform → ℕ → Option ℕ → String → Fleet → Result FleetError (ℕ × Fleet)
dispatch_push p i run traceparent s = dispatch_minted p push_branch [] i run traceparent s

unfoldable pub set_status : WorkspaceState → WorkspaceRow → WorkspaceRow
set_status to w = record w { status = to }

unfoldable pub update_workspace_status : ℕ → WorkspaceState → Fleet → Fleet
update_workspace_status i to s = update_workspaces (is_workspace i) (set_status to) s

unfoldable pub extend_expiry : ℕ → ℕ → Fleet → Fleet
extend_expiry i seconds s =
    update_workspaces (is_workspace i)
      (λ (w : WorkspaceRow). record w { expires_at = s.now + seconds }) s

unfoldable pub close_workspace : ℕ → Fleet → Fleet
close_workspace i s =
    let p : WorkspaceRow → Bool = λ w. is_workspace i w && is_active w.status in
    if any p s.workspaces
    then audit (Audit.transitioned i active expired "closed")
        (update_workspaces p (set_status expired) s)
    else s
