-- ===== src/Gateway/Refusals.antt =====
-- The errors of a report whose token is right: `record_terminal_event` and what it calls in
-- apps/backend/app/core/agent_gateway/service.py.
use yaaos.Prelude.{
  ℕ, ◌&&◌, ◌≡◌, refl, sym, ◌∙◌, ap, Option, none, some, Bool-cases, Option-cases, inl, inr, Result,
  ok, err, Result-cases, [], ◌∷◌, is_some, ◌≢◌, ◌++◌,
}
use yaaos.Gateway.Rows.{
  CommandRow, Fleet, FleetError, stale_claim, Platform, Payload, is_provision, Json, EventKind,
}
use yaaos.Gateway.Queue.{get_command_org_and_payload}
use yaaos.Gateway.Lease.{retire_command}
use yaaos.Gateway.Reports.{
  AgentEvent, record_kind, record_terminal_event, materialise, is_completed_success, configure,
  resume_run,
}
use yaaos.Workspaces.Claims.{get_workspace}
use yaaos.Workspaces.Sink.{
  insert_if_absent, insert_lean_workspace_row, materialise_row, materialise_provision_success,
  get_id, release_command_claim, lean_row,
}

-- The errors of a report whose token is right.
insert_if_absent-ok :
    (p : Platform) (i org agent : ℕ) (d : Payload) (s : Fleet)
    → (t : Fleet) × (insert_if_absent p i org agent d s ≡ ok t)
unfolding insert_if_absent insert_lean_workspace_row
insert_if_absent-ok p i org agent d s = elim (Option-cases (get_workspace i s)) [
  | inl e ↦ (
    record s { workspaces = s.workspaces ++ lean_row p i org agent d s.now ∷ [] },
    rw (insert_if_absent, e) refl,
  )
  | inr (w, e) ↦ (s, rw (insert_if_absent, e) refl)
]

materialise_row-err :
    (p : Platform) (org agent : ℕ) (d : Payload) (raw : Option Json) (s : Fleet)
    → materialise_row p org agent d raw s ≢ err stale_claim
unfolding materialise_row
materialise_row-err p org agent d none s h = cc
materialise_row-err p org agent d (some (Json.uuid i)) s h =
    let (t, e) = insert_if_absent-ok p i org agent d s in
    let k : ◌≡◌ {A = Result FleetError Fleet} (ok t) (err stale_claim) = sym e ∙ h in cc
materialise_row-err p org agent d (some Json.null) s h = cc
materialise_row-err p org agent d (some (Json.text x)) s h = cc
materialise_row-err p org agent d (some (Json.number x)) s h = cc
materialise_row-err p org agent d (some (Json.object x)) s h = cc

materialise_provision_success-err :
    (p : Platform) (c agent : ℕ) (s : Fleet)
    → materialise_provision_success p c agent s ≢ err stale_claim
unfolding materialise_provision_success
materialise_provision_success-err p c agent s h =
    elim (Option-cases (get_command_org_and_payload c s)) [
      | inl e ↦
          let k : ◌≡◌ {A = Result FleetError Fleet} (ok s) (err stale_claim) =
            sym (rw (materialise_provision_success, e) refl) ∙ h in
          cc
      | inr ((org, d), e) ↦
          materialise_row-err p org agent d (get_id "workspace_id" d) s
            (sym (rw (materialise_provision_success, e) refl) ∙ h)
    ]

materialise-err :
    (p : Platform) (e : AgentEvent) (c : CommandRow) (agent : Option ℕ) (s : Fleet)
    → materialise p e c agent s ≢ err stale_claim
unfolding materialise
materialise-err p e c none s h = cc
materialise-err p e c (some agent) s h =
    elim (Bool-cases
      (is_provision c.command_kind && is_some c.workspace_id && is_completed_success e.kind)) [
        | inl y ↦
            materialise_provision_success-err p c.id agent s (sym (rw (materialise, y) refl) ∙ h)
        | inr n ↦
            let k : ◌≡◌ {A = Result FleetError Fleet} (ok s) (err stale_claim) =
              sym (rw (materialise, n) refl) ∙ h in
            cc
      ]

record_terminal_event-err :
    (p : Platform) (e : AgentEvent) (c : CommandRow) (agent : Option ℕ) (s : Fleet)
    → record_terminal_event p e c agent s ≢ err stale_claim
unfolding record_terminal_event
record_terminal_event-err p e c agent s h =
    let t = retire_command c.id (release_command_claim c.id (configure e c s)) in
    elim (Result-cases (materialise p e c agent t)) [
      | inl (v, g) ↦
          let k : ◌≡◌ {A = Result FleetError Fleet} (ok (resume_run p e c v)) (err stale_claim) =
            sym (rw (record_terminal_event, g) refl) ∙ h in
          cc
      | inr (x, g) ↦
          let k : ◌≡◌ {A = Result FleetError Fleet} (err x) (err stale_claim) =
            sym (rw (record_terminal_event, g) refl) ∙ h in
          let k' : x ≡ stale_claim = cc in
          materialise-err p e c agent t (g ∙ ap (λ (y : FleetError). err y) k')
    ]

pub record_kind-err :
    (k : EventKind) (p : Platform) (e : AgentEvent) (c : CommandRow) (agent : Option ℕ) (s : Fleet)
    → record_kind k p e c agent s ≢ err stale_claim
unfolding record_kind
record_kind-err EventKind.received p e c agent s h = cc
record_kind-err EventKind.progress p e c agent s h = cc
record_kind-err EventKind.completed_success p e c agent s h =
    record_terminal_event-err p e c agent s h
record_kind-err EventKind.completed_failure p e c agent s h =
    record_terminal_event-err p e c agent s h
record_kind-err EventKind.completed_skipped p e c agent s h =
    record_terminal_event-err p e c agent s h
