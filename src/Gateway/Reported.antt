-- ===== src/Gateway/Reported.antt =====
-- What the transactions around the queue do to its commands: dispatches, reports, drains and the reaper
-- (apps/backend/app/core/agent_gateway/service.py, apps/backend/app/core/workspace).
use yaaos.Prelude.{
  ℕ, ◌&&◌, ◌≡◌, refl, sym, ◌∙◌, ap, Option, none, some, Bool-cases, Option-cases, inl, inr, Result,
  ok, err, >>=-eq-ok, ok-injective, is_some,
}
use mathlib.Core.Path.{subst}
use yaaos.Gateway.Rows.{
  CommandRow, Fleet, FleetError, Platform, stale_claim, is_provision, EventKind,
}
use yaaos.Gateway.Queue.{get_command, enqueue_agent_event}
use yaaos.Gateway.Lease.{retire_command}
use yaaos.Gateway.Reports.{
  AgentEvent, is_authorized, configure, materialise, resume_run, record_terminal_event,
  record_agent_event, is_completed_success, record_kind,
}
use yaaos.Gateway.Unique.{Unique}
use yaaos.Gateway.Delivery.{
  Sound, Sound-refl, Sound-trans, Sound-same, acknowledge_command_received-Sound,
  retire_command-Sound,
}
use yaaos.Workspaces.Sink.{release_command_claim}
use yaaos.Gateway.Materialised.{
  configure-Sound, commands-release_command_claim, commands-materialise_provision_success,
}

pub retire_command-release :
    (i c : ℕ) (s : Fleet) → Unique s → Sound s (retire_command i (release_command_claim c s))
retire_command-release i c s u =
    let t = release_command_claim c s in
    let first : Sound s t = Sound-same s t u (sym (commands-release_command_claim c s)) in
    Sound-trans s t (retire_command i t) first (retire_command-Sound i t first.1)

commands-resume_run :
    (p : Platform) (e : AgentEvent) (c : CommandRow) (s : Fleet)
    → (resume_run p e c s).commands ≡ s.commands
unfolding resume_run enqueue_agent_event
commands-resume_run p e c s = elim (Option-cases c.run_id) [
  | inl g ↦ rw (resume_run, g) refl
  | inr (run, g) ↦ rw (resume_run, g) refl
]

commands-materialise :
    (p : Platform) (e : AgentEvent) (c : CommandRow) (agent : Option ℕ) (s : Fleet) {t : Fleet}
    → materialise p e c agent s ≡ ok t
    → s.commands ≡ t.commands
unfolding materialise
commands-materialise p e c none s h = ap (λ (v : Fleet). v.commands) (ok-injective h)
commands-materialise p e c (some agent) s {t} h =
    elim (Bool-cases
      (is_provision c.command_kind && is_some c.workspace_id && is_completed_success e.kind)) [
        | inl y ↦
            commands-materialise_provision_success p c.id agent s
              (sym (rw (materialise, y) refl) ∙ h)
        | inr n ↦
            let k : ◌≡◌ {A = Result FleetError Fleet} (ok s) (ok t) =
              sym (rw (materialise, n) refl) ∙ h in
            ap (λ (v : Fleet). v.commands) (ok-injective k)
      ]

record_terminal_event-Sound :
    (p : Platform) (e : AgentEvent) (c : CommandRow) (agent : Option ℕ) (s : Fleet) {t : Fleet}
    → Unique s
    → record_terminal_event p e c agent s ≡ ok t
    → Sound s t
unfolding record_terminal_event
record_terminal_event-Sound p e c agent s {t} u h =
    let a = configure e c s in
    let b = retire_command c.id (release_command_claim c.id a) in
    let first : Sound s a = configure-Sound e c s u in
    let second : Sound s b = Sound-trans s a b first (retire_command-release c.id c.id a first.1) in
    let finish : Fleet → Result FleetError Fleet = λ v. ok (resume_run p e c v) in
    let (v, m, f) = >>=-eq-ok (materialise p e c agent b) finish h in
    let third : Sound s v =
      Sound-trans s b v second (Sound-same b v second.1 (commands-materialise p e c agent b m)) in
    let fourth : Sound v (resume_run p e c v) =
      Sound-same v (resume_run p e c v) third.1 (sym (commands-resume_run p e c v)) in
    subst (Sound s) (ok-injective f) (Sound-trans s v (resume_run p e c v) third fourth)

record_kind-Sound :
    (k : EventKind) (p : Platform) (e : AgentEvent) (c : CommandRow) (agent : Option ℕ) (s : Fleet)
    {t : Fleet}
    → Unique s
    → record_kind k p e c agent s ≡ ok t
    → Sound s t
unfolding record_kind
record_kind-Sound EventKind.received p e c agent s u h =
    subst (Sound s) (ok-injective h) (acknowledge_command_received-Sound c.id s u)
record_kind-Sound EventKind.progress p e c agent s u h =
    subst (Sound s) (ok-injective h) (Sound-refl s u)
record_kind-Sound EventKind.completed_success p e c agent s u h =
    record_terminal_event-Sound p e c agent s u h
record_kind-Sound EventKind.completed_failure p e c agent s u h =
    record_terminal_event-Sound p e c agent s u h
record_kind-Sound EventKind.completed_skipped p e c agent s u h =
    record_terminal_event-Sound p e c agent s u h

pub record_agent_event-Sound :
    (p : Platform) (e : AgentEvent) (agent : Option ℕ) (s : Fleet) {t : Fleet}
    → Unique s
    → record_agent_event p e agent s ≡ ok t
    → Sound s t
unfolding record_agent_event
record_agent_event-Sound p e agent s {t} u h = elim (Option-cases (get_command e.command_id s)) [
  | inl g ↦
      let k : ◌≡◌ {A = Result FleetError Fleet} (err stale_claim) (ok t) =
        sym (rw (record_agent_event, g) refl) ∙ h in
      cc
  | inr (c, g) ↦ elim (Bool-cases (is_authorized p e c)) [
    | inr n ↦
        let k : ◌≡◌ {A = Result FleetError Fleet} (err stale_claim) (ok t) =
          sym (rw (record_agent_event, g, n) refl) ∙ h in
        cc
    | inl y ↦
        record_kind-Sound e.kind p e c agent s u (sym (rw (record_agent_event, g, y) refl) ∙ h)
  ]
]
