-- ===== src/Gateway/Drained.antt =====
-- What the drains of agents and the reaper do to the queue of commands
-- (apps/backend/app/core/agent_gateway/service.py, apps/backend/app/core/workspace/service.py).
use yaaos.Prelude.{
  ℕ, Bool, ◌≡◌, refl, sym, ◌∙◌, List, [], ◌∷◌, Bool-cases, Option-cases, inl, inr, Result, ok,
  ◌>>=◌, >>=-eq-ok, ok-injective, any, keep, take,
}
use mathlib.Core.Path.{subst}
use yaaos.Gateway.Rows.{
  Fleet, FleetError, Platform, CommandKind, Lifecycle, publish_agent_changed, audit, Audit,
  AgentRow, WorkspaceRow, is_draining,
}
use yaaos.Gateway.Queue.{enqueue_for_agent}
use yaaos.Gateway.Lease.{requeue_stale_claimed}
use yaaos.Gateway.Agents.{
  shutdown_agent, shutdown_agents, cancel_shutdown_agent, cancel_shutdown_agents, signal_agent,
  compare_and_set, DrainOutcome, is_startable, swap_and_signal, drain_by, cancel_by, get_org_agent,
  bulk,
}
use yaaos.Gateway.Heartbeats.{compute_agent_liveness_transitions}
use yaaos.Gateway.Unique.{Unique}
use yaaos.Gateway.Delivery.{
  Sound, Sound-refl, Sound-trans, Sound-same, requeue_stale_claimed-Sound, enqueue_for_agent-Sound,
}
use yaaos.Gateway.Untouched.{
  commands-failsafe_agent_loss, commands-expire_all, commands-compute_agent_liveness_transitions,
}
use yaaos.Workspaces.Loss.{expire_all}
use yaaos.Workspaces.Reaper.{
  reaper_sweep_once, expire_sweep, fail_lost, is_over_budget, is_idle, settle_destroy,
  attempt_destroy, destroy_all, is_registered, is_row_expired, is_destroyable,
}

signal_agent-Sound :
    (p : Platform) (org i : ℕ) (kind : CommandKind) (a : Audit) (s : Fleet) {t : Fleet}
    → Unique s
    → signal_agent p org i kind a s ≡ ok t
    → Sound s t
unfolding signal_agent publish_agent_changed audit
signal_agent-Sound p org i kind a s {t} u h =
    let finish : Fleet → Result FleetError Fleet = λ v. ok (publish_agent_changed i (audit a v)) in
    let (v, e, f) = >>=-eq-ok (enqueue_for_agent p org i kind [] s) finish h in
    subst (Sound s) (ok-injective f) (enqueue_for_agent-Sound p org i kind [] s u e)

-- The second half of a drain or of its cancellation: the swap, and the signal if it was won.
swap_and_signal-Sound :
    (p : Platform) (org i : ℕ) (kind : CommandKind) (a : Audit) (q : Lifecycle → Bool)
    (f : AgentRow → AgentRow) (won lost : DrainOutcome) (s : Fleet) {r : DrainOutcome × Fleet}
    → Unique s
    → swap_and_signal p org i kind a q f won lost s ≡ ok r
    → Sound s r.1
unfolding swap_and_signal compare_and_set
swap_and_signal-Sound p org i kind a q f won lost s {r} u h =
    elim (Bool-cases (compare_and_set i q f s).0) [
      | inl y ↦
          let finish : Fleet → Result FleetError (DrainOutcome × Fleet) = λ v. ok (won, v) in
          let k : (signal_agent p org i kind a (compare_and_set i q f s).1 >>= finish) ≡ ok r =
            sym (rw (swap_and_signal, y) refl) ∙ h in
          let (v, e, g) =
            >>=-eq-ok (signal_agent p org i kind a (compare_and_set i q f s).1) finish k in
          subst (λ (x : DrainOutcome × Fleet). Sound s x.1) (ok-injective g)
            (signal_agent-Sound p org i kind a (compare_and_set i q f s).1 u e)
      | inr n ↦
          let k : ◌≡◌ {A = Result FleetError (DrainOutcome × Fleet)}
              (ok (lost, (compare_and_set i q f s).1)) (ok r) =
            sym (rw (swap_and_signal, n) refl) ∙ h in
          subst (λ (x : DrainOutcome × Fleet). Sound s x.1) (ok-injective k) (Sound-refl s u)
    ]

unchanged :
    (o : DrainOutcome) (s : Fleet) {r : DrainOutcome × Fleet}
    → Unique s
    → ◌≡◌ {A = Result FleetError (DrainOutcome × Fleet)} (ok (o, s)) (ok r)
    → Sound s r.1
unchanged o s u h =
    subst (λ (x : DrainOutcome × Fleet). Sound s x.1) (ok-injective h) (Sound-refl s u)

drain_by-Sound :
    (l : Lifecycle) (p : Platform) (org i : ℕ) (s : Fleet) {r : DrainOutcome × Fleet}
    → Unique s
    → drain_by l p org i s ≡ ok r
    → Sound s r.1
unfolding drain_by
drain_by-Sound Lifecycle.shutdown p org i s u h = unchanged DrainOutcome.already_shutdown s u h
drain_by-Sound Lifecycle.draining p org i s u h = unchanged DrainOutcome.already_draining s u h
drain_by-Sound Lifecycle.active p org i s u h =
    swap_and_signal-Sound p org i CommandKind.shutdown _ is_startable _ _ _ s u h
drain_by-Sound Lifecycle.unconfigured p org i s u h =
    swap_and_signal-Sound p org i CommandKind.shutdown _ is_startable _ _ _ s u h

cancel_by-Sound :
    (l : Lifecycle) (p : Platform) (org i : ℕ) (s : Fleet) {r : DrainOutcome × Fleet}
    → Unique s
    → cancel_by l p org i s ≡ ok r
    → Sound s r.1
unfolding cancel_by
cancel_by-Sound Lifecycle.shutdown p org i s u h = unchanged DrainOutcome.already_shutdown s u h
cancel_by-Sound Lifecycle.active p org i s u h = unchanged DrainOutcome.not_draining s u h
cancel_by-Sound Lifecycle.unconfigured p org i s u h = unchanged DrainOutcome.not_draining s u h
cancel_by-Sound Lifecycle.draining p org i s u h =
    swap_and_signal-Sound p org i CommandKind.cancel_shutdown _ is_draining _ _ _ s u h

shutdown_agent-Sound :
    (p : Platform) (org i : ℕ) (s : Fleet) {r : DrainOutcome × Fleet}
    → Unique s
    → shutdown_agent p org i s ≡ ok r
    → Sound s r.1
unfolding shutdown_agent
shutdown_agent-Sound p org i s u h = elim (Option-cases (get_org_agent org i s)) [
  | inl e ↦ unchanged DrainOutcome.not_found s u (sym (rw (shutdown_agent, e) refl) ∙ h)
  | inr (a, e) ↦ drain_by-Sound a.lifecycle p org i s u (sym (rw (shutdown_agent, e) refl) ∙ h)
]

cancel_shutdown_agent-Sound :
    (p : Platform) (org i : ℕ) (s : Fleet) {r : DrainOutcome × Fleet}
    → Unique s
    → cancel_shutdown_agent p org i s ≡ ok r
    → Sound s r.1
unfolding cancel_shutdown_agent
cancel_shutdown_agent-Sound p org i s u h = elim (Option-cases (get_org_agent org i s)) [
  | inl e ↦ unchanged DrainOutcome.not_found s u (sym (rw (cancel_shutdown_agent, e) refl) ∙ h)
  | inr (a, e) ↦
      cancel_by-Sound a.lifecycle p org i s u (sym (rw (cancel_shutdown_agent, e) refl) ∙ h)
]

-- A bulk request is the requests for one agent after another.
bulk-Sound :
    (f : ℕ → Fleet → Result FleetError (DrainOutcome × Fleet)) (is : List ℕ) (s : Fleet)
    {r : List (ℕ × DrainOutcome) × Fleet}
    → ((i : ℕ) (s : Fleet) (r : DrainOutcome × Fleet) → Unique s → f i s ≡ ok r → Sound s r.1)
    → Unique s
    → bulk f is s ≡ ok r
    → Sound s r.1
unfolding bulk
bulk-Sound f [] s g u h =
    subst (λ (x : List (ℕ × DrainOutcome) × Fleet). Sound s x.1) (ok-injective h) (Sound-refl s u)
bulk-Sound f (i ∷ is) s {r} g u h =
    let rest : DrainOutcome × Fleet → Result FleetError (List (ℕ × DrainOutcome) × Fleet) =
      λ (o, t). bulk f is t >>= λ (os, v). ok ((i, o) ∷ os, v) in
    let ((o, t), e, k) = >>=-eq-ok (f i s) rest h in
    let first : Sound s t = g i s (o, t) u e in
    let finish : List (ℕ × DrainOutcome) × Fleet
        → Result FleetError (List (ℕ × DrainOutcome) × Fleet) =
      λ (os, v). ok ((i, o) ∷ os, v) in
    let ((os, v), e', k') = >>=-eq-ok (bulk f is t) finish k in
    subst (λ (x : List (ℕ × DrainOutcome) × Fleet). Sound s x.1) (ok-injective k')
      (Sound-trans s t v first (bulk-Sound f is t g first.1 e'))

pub shutdown_agents-Sound :
    (p : Platform) (org : ℕ) (is : List ℕ) (s : Fleet) {r : List (ℕ × DrainOutcome) × Fleet}
    → Unique s
    → shutdown_agents p org is s ≡ ok r
    → Sound s r.1
unfolding shutdown_agents
shutdown_agents-Sound p org is s u h =
    bulk-Sound (shutdown_agent p org) is s (λ i s r u e. shutdown_agent-Sound p org i s u e) u h

pub cancel_shutdown_agents-Sound :
    (p : Platform) (org : ℕ) (is : List ℕ) (s : Fleet) {r : List (ℕ × DrainOutcome) × Fleet}
    → Unique s
    → cancel_shutdown_agents p org is s ≡ ok r
    → Sound s r.1
unfolding cancel_shutdown_agents
cancel_shutdown_agents-Sound p org is s u h =
    bulk-Sound (cancel_shutdown_agent p org) is s
      (λ i s r u e. cancel_shutdown_agent-Sound p org i s u e) u h

commands-fail_lost :
    (p : Platform) (lost : List ℕ) (s : Fleet) → (fail_lost p (lost, s)).commands ≡ s.commands
unfolding fail_lost
commands-fail_lost p [] s = refl
commands-fail_lost p (a ∷ lost) s = commands-failsafe_agent_loss p (a ∷ lost) s

-- The sweep up to its commit changes the queue by the requeue alone.
expire_sweep-Sound : (p : Platform) (s : Fleet) → Unique s → Sound s (expire_sweep p s)
unfolding expire_sweep
expire_sweep-Sound p s u =
    let a = expire_all "ttl_expired" (keep (is_over_budget s.now) s.workspaces) s in
    let b = expire_all "idle_timeout" (keep (is_idle s.now) a.workspaces) a in
    let c = compute_agent_liveness_transitions s.now b in
    let d = fail_lost p c in
    let same : d.commands ≡ s.commands =
      commands-fail_lost p c.0 c.1
      ∙ commands-compute_agent_liveness_transitions s.now b
      ∙ commands-expire_all "idle_timeout" (keep (is_idle s.now) a.workspaces) a
      ∙ commands-expire_all "ttl_expired" (keep (is_over_budget s.now) s.workspaces) s in
    let first : Sound s d = Sound-same s d u (sym same) in
    Sound-trans s d (requeue_stale_claimed d) first (requeue_stale_claimed-Sound d first.1)

commands-settle_destroy :
    (p : Platform) (w : WorkspaceRow) (s : Fleet) → (settle_destroy p w s).commands ≡ s.commands
unfolding settle_destroy audit
commands-settle_destroy p w s = elim (Option-cases (p.destroy_error w)) [
  | inl e ↦ rw (settle_destroy, e) refl
  | inr (error, e) ↦ rw (settle_destroy, e) refl
]

commands-attempt_destroy :
    (p : Platform) (w : WorkspaceRow) (s : Fleet) → (attempt_destroy p w s).commands ≡ s.commands
unfolding attempt_destroy audit
commands-attempt_destroy p w s = elim (Bool-cases (is_registered p w.provider_id)) [
  | inr n ↦ rw (attempt_destroy, n) refl
  | inl y ↦ elim (Bool-cases (any (is_row_expired w.id) s.workspaces)) [
    | inr n ↦ rw (attempt_destroy, y, n) refl
    | inl e ↦ rw (attempt_destroy, y, e) (commands-settle_destroy p w _)
  ]
]

commands-destroy_all :
    (p : Platform) (ws : List WorkspaceRow) (s : Fleet) → (destroy_all p ws s).commands ≡ s.commands
unfolding destroy_all
commands-destroy_all p [] s = refl
commands-destroy_all p (w ∷ ws) s =
    commands-destroy_all p ws (attempt_destroy p w s) ∙ commands-attempt_destroy p w s

pub reaper_sweep_once-Sound :
    (p : Platform) (s : Fleet) → Unique s → Sound s (reaper_sweep_once p s)
unfolding reaper_sweep_once
reaper_sweep_once-Sound p s u =
    let t = expire_sweep p s in
    let first : Sound s t = expire_sweep-Sound p s u in
    let ws = take 50 (keep is_destroyable t.workspaces) in
    Sound-trans s t (destroy_all p ws t) first
      (Sound-same t (destroy_all p ws t) first.1 (sym (commands-destroy_all p ws t)))
