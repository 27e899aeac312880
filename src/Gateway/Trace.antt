-- ===== src/Gateway/Trace.antt =====
-- The transactions on the state of the gateway and the workspaces, one after another
-- (apps/backend/app/core/agent_gateway, apps/backend/app/core/workspace), and what any sequence of
-- them does to the commands.
use yaaos.Prelude.{
  ℕ, ◌+◌, Bool, ◌&&◌, ◌≡◌, refl, sym, Option, some, List, Bool-cases, inl, inr, Result, ok,
  >>=-eq-ok, any,
}
use yaaos.Gateway.Rows.{CommandRow, Fleet, FleetError, Platform, Payload, audit, config_update}
use yaaos.Gateway.Queue.{
  AgentCommand, get_command, enqueue_command, enqueue_for_agent, enqueue_config_update_for_agent,
}
use yaaos.Gateway.Claim.{ClaimRequest, claim_next}
use yaaos.Gateway.Agents.{
  Identity, ensure_agent_row, shutdown_agents, cancel_shutdown_agents, DrainOutcome,
}
use yaaos.Gateway.Heartbeats.{record_heartbeat, deregister_identity}
use yaaos.Gateway.Reports.{AgentEvent, record_agent_event}
use yaaos.Gateway.Evolution.{Evolves, lookup-Evolution}
use yaaos.Gateway.Unique.{Unique, ids}
use yaaos.Gateway.Delivery.{
  Sound, Sound-refl, Sound-trans, Sound-same, enqueue_command-Sound, enqueue_for_agent-Sound,
}
use yaaos.Gateway.Untouched.{
  commands-deregister_identity, commands-ensure_agent_row, commands-record_heartbeat,
}
use yaaos.Gateway.Reported.{record_agent_event-Sound}
use yaaos.Gateway.Materialised.{dispatch_via_workspace-Sound}
use yaaos.Gateway.Drained.{
  shutdown_agents-Sound, cancel_shutdown_agents-Sound, reaper_sweep_once-Sound,
}
use yaaos.Gateway.Claimed.{claim_next-Sound}
use yaaos.Workspaces.Claims.{
  dispatch_via_workspace, close_workspace, extend_expiry, is_workspace, is_active,
}
use yaaos.Workspaces.Reaper.{reaper_sweep_once}

-- One transaction that commits, or time that passes.
pub data Step : Fleet → Fleet → Type 0 where
  dispatched :
      {s t : Fleet} (p : Platform) (c : AgentCommand) (w : ℕ) (run : Option ℕ) (b : Bool)
      → dispatch_via_workspace p c w run b s ≡ ok t
      → Step s t
  enqueued :
      {s t : Fleet} (p : Platform) (org : ℕ) (c : AgentCommand) (run : Option ℕ)
      → enqueue_command p org c run s ≡ ok t
      → Step s t
  configured :
      {s t : Fleet} (p : Platform) (a org : ℕ)
      → enqueue_config_update_for_agent p a org s ≡ ok t
      → Step s t
  claimed : {s : Fleet} (p : Platform) (q : ClaimRequest) → Step s (claim_next p q s).1
  reported :
      {s t : Fleet} (p : Platform) (e : AgentEvent) (agent : Option ℕ)
      → record_agent_event p e agent s ≡ ok t
      → Step s t
  reaped : {s : Fleet} (p : Platform) → Step s (reaper_sweep_once p s)
  exchanged : {s : Fleet} (x : Identity) → Step s (ensure_agent_row x s).1
  beaten : {s : Fleet} (a : ℕ) (reported : List ℕ) → Step s (record_heartbeat a reported s).1
  left : {s : Fleet} (p : Platform) (a bearer : ℕ) → Step s (deregister_identity p a bearer s)
  drained :
      {s : Fleet} (p : Platform) (org : ℕ) (agents : List ℕ) (r : List (ℕ × DrainOutcome) × Fleet)
      → shutdown_agents p org agents s ≡ ok r
      → Step s r.1
  resumed :
      {s : Fleet} (p : Platform) (org : ℕ) (agents : List ℕ) (r : List (ℕ × DrainOutcome) × Fleet)
      → cancel_shutdown_agents p org agents s ≡ ok r
      → Step s r.1
  closed : {s : Fleet} (w : ℕ) → Step s (close_workspace w s)
  extended : {s : Fleet} (w seconds : ℕ) → Step s (extend_expiry w seconds s)
  passed : {s : Fleet} (seconds : ℕ) → Step s (record s { now = s.now + seconds })

-- Any number of them.
pub data Steps : Fleet → Fleet → Type 0 where
  stop : {s : Fleet} → Steps s s
  next : {s t v : Fleet} → Step s t → Steps t v → Steps s v

Step-Sound : {s t : Fleet} → Step s t → Unique s → Sound s t
unfolding close_workspace extend_expiry enqueue_config_update_for_agent audit
Step-Sound {s} (Step.dispatched p c w run b h) u = dispatch_via_workspace-Sound p c w run b s u h
Step-Sound {s} (Step.enqueued p org c run h) u = enqueue_command-Sound p org c run s u h
Step-Sound {s} (Step.configured p a org h) u =
    let finish : Payload → Result FleetError Fleet =
      λ config. enqueue_for_agent p org a config_update config s in
    let (config, e, f) = >>=-eq-ok (p.build_agent_config org) finish h in
    enqueue_for_agent-Sound p org a config_update config s u f
Step-Sound {s} (Step.claimed p q) u = claim_next-Sound p q s u
Step-Sound {s} (Step.reported p e agent h) u = record_agent_event-Sound p e agent s u h
Step-Sound {s} (Step.reaped p) u = reaper_sweep_once-Sound p s u
Step-Sound {s} (Step.exchanged x) u =
    Sound-same s (ensure_agent_row x s).1 u (sym (commands-ensure_agent_row x s))
Step-Sound {s} (Step.beaten a ids) u =
    Sound-same s (record_heartbeat a ids s).1 u (sym (commands-record_heartbeat a ids s))
Step-Sound {s} (Step.left p a bearer) u =
    Sound-same s (deregister_identity p a bearer s) u
      (sym (commands-deregister_identity p a bearer s))
Step-Sound {s} (Step.drained p org agents r h) u = shutdown_agents-Sound p org agents s u h
Step-Sound {s} (Step.resumed p org agents r h) u = cancel_shutdown_agents-Sound p org agents s u h
Step-Sound {s} (Step.closed w) u =
    Sound-same s (close_workspace w s) u
      (elim (Bool-cases (any (λ v. is_workspace w v && is_active v.status) s.workspaces)) [
        | inl y ↦ rw (close_workspace, y) refl
        | inr n ↦ rw (close_workspace, n) refl
      ])
Step-Sound {s} (Step.extended w seconds) u = Sound-same s (extend_expiry w seconds s) u refl
Step-Sound {s} (Step.passed seconds) u = Sound-refl s u

Steps-Sound : {s t : Fleet} → Steps s t → Unique s → Sound s t
Steps-Sound {s} Steps.stop u = Sound-refl s u
Steps-Sound {s} {t = v} (Steps.next {t = t} h k) u =
    let first : Sound s t = Step-Sound h u in Sound-trans s t v first (Steps-Sound k first.1)

-- Through any of these transactions a command stays in the table, under its key, its run and its kind; its
-- progress, which counts four stages in each of at most five attempts, never falls, and once it is
-- done it is done for good.
pub Steps-Evolves :
    {s t : Fleet} (i : ℕ) {c : CommandRow}
    → Unique s
    → Steps s t
    → get_command i s ≡ some c
    → (d : CommandRow) × (get_command i t ≡ some d) × Evolves c d
Steps-Evolves {s} i u h e = lookup-Evolution i s.commands (Steps-Sound h u).0 e
