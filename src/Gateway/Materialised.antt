-- ===== src/Gateway/Materialised.antt =====
-- The commands while a dispatch through a workspace, or the workspace of a report, is stored
-- (apps/backend/app/core/agent_gateway/service.py, apps/backend/app/core/workspace).
use yaaos.Prelude.{
  ℕ, Bool, true, false, ◌&&◌, ◌≡◌, refl, sym, ◌∙◌, ap, Option, none, some, Bool-cases, Option-cases,
  inl, inr, Result, ok, err, ◌>>=◌, >>=-eq-ok, ok-injective,
}
use yaaos.Gateway.Rows.{
  CommandRow, Fleet, FleetError, Platform, Payload, workspace_not_found, workspace_claim_failed,
  integrity_error, Json, is_config_update,
}
use yaaos.Gateway.Queue.{
  AgentCommand, enqueue_command, pin_command_to_agent, get_command_org_and_payload,
}
use yaaos.Gateway.Agents.{mark_agent_configured}
use yaaos.Gateway.Reports.{AgentEvent, configure, is_completed_success}
use yaaos.Gateway.Unique.{Unique}
use yaaos.Gateway.Delivery.{
  Sound, Sound-refl, Sound-trans, Sound-same, pin_command_to_agent-Sound, enqueue_command-Sound,
}
use yaaos.Gateway.Untouched.{commands-mark_agent_configured}
use yaaos.Workspaces.Claims.{
  dispatch_via_workspace, claim_if, try_claim, release_claim, get_workspace,
}
use yaaos.Workspaces.Sink.{
  materialise_provision_success, release_command_claim, insert_lean_workspace_row, holder_of,
  insert_if_absent, materialise_row, uuid_of, get_id,
}

commands-claim_if :
    (b : Bool) (i c : ℕ) (s : Fleet) {t : Fleet} → claim_if b i c s ≡ ok t → s.commands ≡ t.commands
unfolding claim_if try_claim
commands-claim_if false i c s h = ap (λ (v : Fleet). v.commands) (ok-injective h)
commands-claim_if true i c s {t} h = elim (Bool-cases (try_claim i c none s).0) [
  | inl y ↦
      let k : ◌≡◌ {A = Result FleetError Fleet} (ok (try_claim i c none s).1) (ok t) =
        sym (rw (claim_if, y) refl) ∙ h in
      ap (λ (v : Fleet). v.commands) (ok-injective k)
  | inr n ↦
      let k : ◌≡◌ {A = Result FleetError Fleet} (err workspace_claim_failed) (ok t) =
        sym (rw (claim_if, n) refl) ∙ h in
      cc
]

pub dispatch_via_workspace-Sound :
    (p : Platform) (c : AgentCommand) (i : ℕ) (run : Option ℕ) (b : Bool) (s : Fleet) {t : Fleet}
    → Unique s
    → dispatch_via_workspace p c i run b s ≡ ok t
    → Sound s t
unfolding dispatch_via_workspace
dispatch_via_workspace-Sound p c i run b s {t} u h = elim (Option-cases (get_workspace i s)) [
  | inl e ↦
      let k : ◌≡◌ {A = Result FleetError Fleet} (err workspace_not_found) (ok t) =
        sym (rw (dispatch_via_workspace, e) refl) ∙ h in
      cc
  | inr (w, e) ↦
      let finish : Fleet → Result FleetError Fleet =
        λ v. claim_if b i c.command_id (pin_command_to_agent c.command_id w.owning_agent_id v) in
      let k : (enqueue_command p w.org_id c run s >>= finish) ≡ ok t =
        sym (rw (dispatch_via_workspace, e) refl) ∙ h in
      let (v, a, f) = >>=-eq-ok (enqueue_command p w.org_id c run s) finish k in
      let first : Sound s v = enqueue_command-Sound p w.org_id c run s u a in
      let pinned = pin_command_to_agent c.command_id w.owning_agent_id v in
      let second : Sound v pinned =
        pin_command_to_agent-Sound c.command_id w.owning_agent_id v first.1 in
      let third : Sound pinned t =
        Sound-same pinned t second.1 (commands-claim_if b i c.command_id pinned f) in
      Sound-trans s v t first (Sound-trans v pinned t second third)
]

pub configure-Sound :
    (e : AgentEvent) (c : CommandRow) (s : Fleet) → Unique s → Sound s (configure e c s)
unfolding configure
configure-Sound e c s u =
    elim (Bool-cases (is_completed_success e.kind && is_config_update c.command_kind)) [
      | inr n ↦ rw (configure, n) (Sound-refl s u)
      | inl y ↦ elim (Option-cases c.agent_id) [
        | inl g ↦ rw (configure, y, g) (Sound-refl s u)
        | inr (a, g) ↦
            rw (configure, y, g)
              (Sound-same s (mark_agent_configured a s) u
                (sym (commands-mark_agent_configured a s)))
      ]
    ]

pub commands-release_command_claim :
    (c : ℕ) (s : Fleet) → (release_command_claim c s).commands ≡ s.commands
unfolding release_command_claim release_claim
commands-release_command_claim c s = elim (Option-cases (holder_of c s)) [
  | inl e ↦ rw (release_command_claim, e) refl
  | inr (w, e) ↦ rw (release_command_claim, e) refl
]

commands-insert_lean_workspace_row :
    (p : Platform) (i org : ℕ) (agent : Option ℕ) (d : Payload) (s : Fleet) {t : Fleet}
    → insert_lean_workspace_row p i org agent d s ≡ ok t
    → s.commands ≡ t.commands
unfolding insert_lean_workspace_row
commands-insert_lean_workspace_row p i org none d s {t} h =
    let k : ◌≡◌ {A = Result FleetError Fleet} (err integrity_error) (ok t) = h in cc
commands-insert_lean_workspace_row p i org (some a) d s h =
    ap (λ (v : Fleet). v.commands) (ok-injective h)

commands-insert_if_absent :
    (p : Platform) (i org agent : ℕ) (d : Payload) (s : Fleet) {t : Fleet}
    → insert_if_absent p i org agent d s ≡ ok t
    → s.commands ≡ t.commands
unfolding insert_if_absent
commands-insert_if_absent p i org agent d s {t} h = elim (Option-cases (get_workspace i s)) [
  | inl e ↦
      commands-insert_lean_workspace_row p i org (some agent) d s
        (sym (rw (insert_if_absent, e) refl) ∙ h)
  | inr (w, e) ↦
      let k : ◌≡◌ {A = Result FleetError Fleet} (ok s) (ok t) =
        sym (rw (insert_if_absent, e) refl) ∙ h in
      ap (λ (v : Fleet). v.commands) (ok-injective k)
]

commands-materialise_row :
    (p : Platform) (org agent : ℕ) (d : Payload) (raw : Option Json) (s : Fleet) {t : Fleet}
    → materialise_row p org agent d raw s ≡ ok t
    → s.commands ≡ t.commands
unfolding materialise_row
commands-materialise_row p org agent d none s h = ap (λ (v : Fleet). v.commands) (ok-injective h)
commands-materialise_row p org agent d (some raw) s h =
    let finish : ℕ → Result FleetError Fleet = λ i. insert_if_absent p i org agent d s in
    let (i, a, f) = >>=-eq-ok (uuid_of raw) finish h in
    commands-insert_if_absent p i org agent d s f

pub commands-materialise_provision_success :
    (p : Platform) (c agent : ℕ) (s : Fleet) {t : Fleet}
    → materialise_provision_success p c agent s ≡ ok t
    → s.commands ≡ t.commands
unfolding materialise_provision_success
commands-materialise_provision_success p c agent s {t} h =
    elim (Option-cases (get_command_org_and_payload c s)) [
      | inl e ↦
          let k : ◌≡◌ {A = Result FleetError Fleet} (ok s) (ok t) =
            sym (rw (materialise_provision_success, e) refl) ∙ h in
          ap (λ (v : Fleet). v.commands) (ok-injective k)
      | inr ((org, d), e) ↦
          commands-materialise_row p org agent d (get_id "workspace_id" d) s
            (sym (rw (materialise_provision_success, e) refl) ∙ h)
    ]
