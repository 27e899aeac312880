-- ===== src/Gateway/Untouched.antt =====
-- The operations that leave the queue of commands alone: those on agents, bearers and workspaces
-- (apps/backend/app/core/agent_gateway/service.py, apps/backend/app/core/workspace).
use yaaos.Prelude.{
  ℕ, ◌≡◌, refl, ◌∙◌, Option, none, some, List, [], ◌∷◌, Bool-cases, Option-cases, inl, inr, String,
  first_where, arith, keep,
}
use yaaos.Gateway.Rows.{
  Fleet, Platform, publish_agent_changed, audit, WorkspaceRow, new_id, Lifecycle, AgentRow, offline,
  Liveness,
}
use yaaos.Gateway.Queue.{enqueue_agent_event, get_command_run_id}
use yaaos.Gateway.Bearers.{revoke_where, revoke, revoke_all_for_agent}
use yaaos.Gateway.Agents.{
  compare_and_set, mark_agent_configured, mark_agent_shutdown_complete, mark_agent_offline,
  mark_agent_disconnected, Identity, ensure_agent_row, is_instance, get_agent,
}
use yaaos.Gateway.Heartbeats.{
  beat, record_heartbeat, sweep_agent, move_agent, sweep_agents, is_swept, deregister_identity,
  lifecycle_of, compute_agent_liveness_transitions, same_liveness, target_state,
}
use yaaos.Workspaces.Loss.{
  expire, expire_all, fail_command, lose_workspaces, revoke_lost, failsafe_agent_loss,
}

commands-revoke_all_for_agent :
    (a : ℕ) (r : String) (s : Fleet) → (revoke_all_for_agent a r s).1.commands ≡ s.commands
unfolding revoke_all_for_agent revoke_where
commands-revoke_all_for_agent a r s = refl

pub commands-mark_agent_configured :
    (a : ℕ) (s : Fleet) → (mark_agent_configured a s).commands ≡ s.commands
unfolding mark_agent_configured compare_and_set publish_agent_changed
commands-mark_agent_configured a s = ground arith

commands-mark_agent_shutdown_complete :
    (a : ℕ) (s : Fleet) → (mark_agent_shutdown_complete a s).1.commands ≡ s.commands
unfolding mark_agent_shutdown_complete compare_and_set publish_agent_changed audit
    revoke_all_for_agent revoke_where
commands-mark_agent_shutdown_complete a s = ground arith

commands-fail_command :
    (p : Platform) (c : Option ℕ) (s : Fleet) → (fail_command p c s).commands ≡ s.commands
unfolding fail_command enqueue_agent_event
commands-fail_command p none s = refl
commands-fail_command p (some c) s = elim (Option-cases (get_command_run_id c s)) [
  | inl e ↦ rw (fail_command, e) refl
  | inr (run, e) ↦ rw (fail_command, e) refl
]

commands-lose_workspaces :
    (p : Platform) (ws : List WorkspaceRow) (s : Fleet)
    → (lose_workspaces p ws s).commands ≡ s.commands
unfolding lose_workspaces expire audit
commands-lose_workspaces p [] s = refl
commands-lose_workspaces p (w ∷ ws) s =
    commands-lose_workspaces p ws (fail_command p w.current_command_id (expire "agent_loss" w s))
    ∙ commands-fail_command p w.current_command_id (expire "agent_loss" w s)

commands-revoke_lost : (lost : List ℕ) (s : Fleet) → (revoke_lost lost s).commands ≡ s.commands
unfolding revoke_lost
commands-revoke_lost [] s = refl
commands-revoke_lost (a ∷ lost) s =
    commands-revoke_lost lost (revoke_all_for_agent a "agent_loss" s).1
    ∙ commands-revoke_all_for_agent a "agent_loss" s

pub commands-failsafe_agent_loss :
    (p : Platform) (lost : List ℕ) (s : Fleet)
    → (failsafe_agent_loss p lost s).commands ≡ s.commands
unfolding failsafe_agent_loss
commands-failsafe_agent_loss p lost s =
    commands-revoke_lost lost (lose_workspaces p _ s) ∙ commands-lose_workspaces p _ s

pub commands-expire_all :
    (r : String) (ws : List WorkspaceRow) (s : Fleet) → (expire_all r ws s).commands ≡ s.commands
unfolding expire_all expire audit
commands-expire_all r [] s = refl
commands-expire_all r (w ∷ ws) s = commands-expire_all r ws (expire r w s)

commands-mark_agent_disconnected :
    (p : Platform) (i b : ℕ) (l : Lifecycle) (s : Fleet)
    → (mark_agent_disconnected p i b l s).commands ≡ s.commands
unfolding mark_agent_disconnected revoke revoke_where mark_agent_offline publish_agent_changed audit
commands-mark_agent_disconnected p i b l s =
    commands-failsafe_agent_loss p (i ∷ []) (revoke b "graceful_shutdown" (mark_agent_offline i s))

farewell :
    (p : Platform) (i b : ℕ) (s : Fleet) (l : Lifecycle)
    → lifecycle_of i s ≡ l
    → (deregister_identity p i b s).commands ≡ s.commands
unfolding deregister_identity
farewell p i b s Lifecycle.shutdown e = rw (deregister_identity, e) refl
farewell p i b s Lifecycle.draining e =
    rw (deregister_identity, e)
      (commands-failsafe_agent_loss p (i ∷ []) (mark_agent_shutdown_complete i s).1
        ∙ commands-mark_agent_shutdown_complete i s)
farewell p i b s Lifecycle.active e =
    rw (deregister_identity, e) (commands-mark_agent_disconnected p i b _ s)
farewell p i b s Lifecycle.unconfigured e =
    rw (deregister_identity, e) (commands-mark_agent_disconnected p i b _ s)

pub commands-deregister_identity :
    (p : Platform) (i b : ℕ) (s : Fleet) → (deregister_identity p i b s).commands ≡ s.commands
commands-deregister_identity p i b s = farewell p i b s (lifecycle_of i s) refl

pub commands-ensure_agent_row :
    (x : Identity) (s : Fleet) → (ensure_agent_row x s).1.commands ≡ s.commands
unfolding ensure_agent_row publish_agent_changed new_id
commands-ensure_agent_row x s = elim (Option-cases (first_where (is_instance x) s.agents)) [
  | inl e ↦ rw (ensure_agent_row, e) refl
  | inr (a, e) ↦ rw (ensure_agent_row, e) refl
]

pub commands-record_heartbeat :
    (i : ℕ) (reported : List ℕ) (s : Fleet)
    → (record_heartbeat i reported s).1.commands ≡ s.commands
unfolding record_heartbeat beat publish_agent_changed
commands-record_heartbeat i reported s = elim (Option-cases (get_agent i s)) [
  | inl e ↦ rw (beat, e) refl
  | inr (a, e) ↦ rw (beat, e) (ground arith)
]

commands-move_agent :
    (target : Liveness) (a : AgentRow) (s : Fleet) → (move_agent target a s).0.commands ≡ s.commands
unfolding move_agent publish_agent_changed
commands-move_agent target a s = elim (Bool-cases (same_liveness target offline)) [
  | inl o ↦ rw (move_agent, o) (commands-mark_agent_shutdown_complete a.id _)
  | inr o ↦ rw (move_agent, o) refl
]

commands-sweep_agent :
    (now : ℕ) (at : Option ℕ) (a : AgentRow) (s : Fleet)
    → (sweep_agent now at a s).0.commands ≡ s.commands
unfolding sweep_agent
commands-sweep_agent now none a s = refl
commands-sweep_agent now (some at) a s =
    elim (Bool-cases (same_liveness a.state (target_state now at))) [
      | inl y ↦ rw (sweep_agent, y) refl
      | inr n ↦ rw (sweep_agent, n) (commands-move_agent (target_state now at) a s)
    ]

commands-sweep_agents :
    (now : ℕ) (rows : List AgentRow) (s : Fleet) → (sweep_agents now rows s).1.commands ≡ s.commands
unfolding sweep_agents
commands-sweep_agents now [] s = refl
commands-sweep_agents now (a ∷ rows) s =
    commands-sweep_agents now rows (sweep_agent now a.last_heartbeat_at a s).0
    ∙ commands-sweep_agent now a.last_heartbeat_at a s

pub commands-compute_agent_liveness_transitions :
    (now : ℕ) (s : Fleet) → (compute_agent_liveness_transitions now s).1.commands ≡ s.commands
unfolding compute_agent_liveness_transitions
commands-compute_agent_liveness_transitions now s =
    commands-sweep_agents now (keep is_swept s.agents) s
