-- ===== src/Gateway/Heartbeats.antt =====
-- Heartbeats, the liveness sweep and the farewell of an agent: `record_heartbeat` and
-- `compute_agent_liveness_transitions` of apps/backend/app/core/agent_gateway/service.py, and
-- `deregister_identity` of web.py there.
use yaaos.Prelude.{
  Option, ℕ, ◌+◌, Bool, true, false, not, ◌&&◌, none, some, List, [], ◌∷◌, ◌==◌, if◌then◌else◌,
  is_some, is_id, update_where, keep, any, ltb, length,
}
use yaaos.Gateway.Rows.{
  AgentRow, CommandRow, Lifecycle, active, draining, shutdown, Liveness, reachable, stale, offline,
  Fleet, Platform, publish_agent_changed, is_provision, is_done, WorkspaceState,
}
use yaaos.Gateway.Agents.{
  is_agent, get_agent, mark_agent_shutdown_complete, mark_agent_disconnected,
}
use yaaos.Workspaces.Claims.{get_workspace}
use yaaos.Workspaces.Loss.{failsafe_agent_loss}

abbrev pub same_liveness : Liveness → Liveness → Bool
same_liveness reachable reachable = true
same_liveness stale stale = true
same_liveness offline offline = true
same_liveness _ _ = false

abbrev heartbeat_of : ℕ → ℕ → AgentRow → AgentRow
heartbeat_of now n a = record a {
  last_heartbeat_at = some now;
  state = reachable;
  claimed_workspace_count = n;
}

-- The SPA renders the state and the count, and hears of a change in these.
unfoldable pub beat : ℕ → List ℕ → Fleet → Fleet
beat i reported s = elim (get_agent i s) [
  | none ↦ s
  | some a ↦
      let n = length reported in
      let t = record s { agents = update_where (is_agent i) (heartbeat_of s.now n) s.agents } in
      if same_liveness a.state reachable && (a.claimed_workspace_count == n)
      then t
      else publish_agent_changed i t
]

-- A workspace whose row is still to come.
abbrev pub is_provisioning : ℕ → CommandRow → Bool
is_provisioning w c =
    is_id w c.workspace_id && is_provision c.command_kind && not (is_done c.status)

abbrev is_destroyed : WorkspaceState → Bool
is_destroyed WorkspaceState.destroyed = true
is_destroyed _ = false

-- What `reconcile_heartbeat` tells an agent to forget.
abbrev pub is_forgotten : Fleet → ℕ → Bool
is_forgotten s w = elim (get_workspace w s) [ none ↦ true | some r ↦ is_destroyed r.status ]

unfoldable pub reconcile_heartbeat : Fleet → List ℕ → List ℕ
reconcile_heartbeat s ids = keep (is_forgotten s) ids

-- The workspaces to forget, and the state.
unfoldable pub record_heartbeat : ℕ → List ℕ → Fleet → List ℕ × Fleet
unfolding beat
record_heartbeat i reported s =
    let t = beat i reported s in
    (reconcile_heartbeat t (keep (λ w. not (any (is_provisioning w) t.commands)) reported), t)

abbrev pub stale_threshold_seconds : ℕ
stale_threshold_seconds = 60

abbrev pub offline_threshold_seconds : ℕ
offline_threshold_seconds = 300

-- `now - last_heartbeat_at` against the thresholds.
abbrev pub target_state : ℕ → ℕ → Liveness
target_state now beat =
    if ltb (beat + offline_threshold_seconds) now
    then offline
    else if ltb (beat + stale_threshold_seconds) now
    then stale
    else reachable

abbrev pub is_shut_down : Lifecycle → Bool
is_shut_down shutdown = true
is_shut_down _ = false

abbrev pub set_state : Liveness → AgentRow → AgentRow
set_state l a = record a { state = l }

-- The change of a row that is not in its target state; the second part says whether it went offline.
unfoldable pub move_agent : Liveness → AgentRow → Fleet → Fleet × Bool
move_agent target a s =
    let t = record s { agents = update_where (is_agent a.id) (set_state target) s.agents } in
    if same_liveness target offline
    then (publish_agent_changed a.id (mark_agent_shutdown_complete a.id t).1, true)
    else (publish_agent_changed a.id t, false)

-- The sweep of one row, as it was selected, by its last heartbeat.
unfoldable pub sweep_agent : ℕ → Option ℕ → AgentRow → Fleet → Fleet × Bool
sweep_agent now none a s = (s, false)
sweep_agent now (some at) a s =
    if same_liveness a.state (target_state now at)
    then (s, false)
    else move_agent (target_state now at) a s

unfoldable pub sweep_agents : ℕ → List AgentRow → Fleet → List ℕ × Fleet
sweep_agents now [] s = ([], s)
sweep_agents now (a ∷ rows) s =
    let (t, lost) = sweep_agent now a.last_heartbeat_at a s in
    let (ids, u) = sweep_agents now rows t in (if lost then a.id ∷ ids else ids, u)

abbrev pub is_swept : AgentRow → Bool
is_swept a = is_some a.last_heartbeat_at && not (is_shut_down a.lifecycle)

unfoldable pub compute_agent_liveness_transitions : ℕ → Fleet → List ℕ × Fleet
compute_agent_liveness_transitions now s = sweep_agents now (keep is_swept s.agents) s

-- The lifecycle that the handler reads; a missing row counts as active.
abbrev pub lifecycle_of : ℕ → Fleet → Lifecycle
lifecycle_of i s = elim (get_agent i s) [ none ↦ active | some a ↦ a.lifecycle ]

unfoldable pub deregister_identity : Platform → ℕ → ℕ → Fleet → Fleet
deregister_identity p i bearer s = elim (lifecycle_of i s) [
  | shutdown ↦ s
  | draining ↦ failsafe_agent_loss p (i ∷ []) (mark_agent_shutdown_complete i s).1
  | l ↦ mark_agent_disconnected p i bearer l s
]
