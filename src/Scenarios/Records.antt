-- ===== src/Scenarios/Records.antt =====
-- The theorems on findings, artifacts, tickets, prior findings and boundaries at concrete records.
use yaaos.Prelude.{ℕ, true, ◌≡◌, refl, ◌↔◌, none, some, List, [], ◌∷◌, ◌||◌, ok, err, mem, IsNodup}
use yaaos.Findings.{
  with_row, move_row, legal, append_event, save_row, Finding, opened, resolved, dismissed,
  review_verdict, FindingStatusEvent, FindingStore, invalid_transition, get_row, new_row, resolve,
  reopen, dismiss, reflag, record_findings,
}
use yaaos.Findings.Handles.{handles, Increasing, record_findings-Increasing}
use yaaos.Findings.Moves.{At, to_resolved, moves_idempotent, dismissed_absorbing}
use yaaos.Artifacts.{ArtifactSpec, store, mark_final, latest_final}
use yaaos.Artifacts.Versions.{final_version, latest_final-mark_final-store}
use yaaos.Contracts.{Confidence, merge_prior_findings}
use yaaos.Contracts.Prior.{ids, ref_ids, merge_prior_findings_exact}
use yaaos.Boundary.{pause, evaluate_boundary}
use yaaos.Boundary.Exact.{Asks, evaluate_boundary_exact}
use yaaos.Definition.Model.{BoundaryControl, BoundaryMode, ConfidenceBelow}
use yaaos.Scenarios.{tester, new_spec, review_origin, first_finding, proceeding, quiet_services}

abbrev one_row : List Finding
one_row = first_finding opened ∷ []

record_findings-Increasing_example :
    Increasing 5
      (handles (record_findings review_origin (new_spec 41 ∷ new_spec 42 ∷ []) one_row).0)
record_findings-Increasing_example =
    record_findings-Increasing 5 review_origin (new_spec 41 ∷ new_spec 42 ∷ []) one_row
      ((λ e. tt), tt)

abbrev verdict : FindingStatusEvent
verdict = record {
  status = resolved;
  method = review_verdict;
  actor = tester;
  run_id = some 20;
  stage_execution_id = some 30;
  comment_external_id = none;
  at = 1000;
}

abbrev open_store : FindingStore
open_store = record { rows = one_row; audits = [] }

abbrev dismissed_store : FindingStore
dismissed_store = record { rows = first_finding dismissed ∷ []; audits = [] }

resolved_store : (s : FindingStore) × (resolve 40 verdict open_store ≡ ok s)
unfolding resolve with_row get_row new_row move_row legal append_event save_row
resolved_store = (_, refl)

moves_idempotent_example :
    At 40 resolved resolved_store.0 × (resolve 40 verdict resolved_store.0 ≡ ok resolved_store.0)
moves_idempotent_example =
    moves_idempotent to_resolved 40 open_store resolved_store.0 verdict verdict resolved_store.1

dismissed_row : At 40 dismissed dismissed_store
unfolding get_row new_row
dismissed_row = (first_finding dismissed, refl, refl)

dismissed_absorbing_example :
    (resolve 40 verdict dismissed_store ≡ err (invalid_transition 40 dismissed))
    × (reopen 40 verdict dismissed_store ≡ err (invalid_transition 40 dismissed))
    × (reflag 40 verdict dismissed_store ≡ err (invalid_transition 40 dismissed))
    × (dismiss 40 verdict dismissed_store ≡ ok dismissed_store)
dismissed_absorbing_example = dismissed_absorbing 40 dismissed_store verdict dismissed_row

abbrev plan_artifact : ArtifactSpec
plan_artifact = record {
  org_id = 1;
  ticket_id = 5;
  run_id = 20;
  stage_execution_id = 30;
  stage_name = "build";
  body = "# Plan";
  iteration = 0;
}

latest_final-mark_final-store_example :
    latest_final 1 5 "build"
      (mark_final 51 (store 51 plan_artifact (final_version 50 plan_artifact [] ∷ [])))
    ≡ some (final_version 51 plan_artifact (final_version 50 plan_artifact [] ∷ []))
latest_final-mark_final-store_example =
    latest_final-mark_final-store 51 plan_artifact (final_version 50 plan_artifact [] ∷ []) refl

merge_prior_findings_exact_example :
    IsNodup (ref_ids (merge_prior_findings one_row one_row []))
    × ((i : ℕ)
        → mem i (ref_ids (merge_prior_findings one_row one_row []))
          ≡ (mem i (ids one_row) || (mem i (ids one_row) || mem i (ids []))))
merge_prior_findings_exact_example = merge_prior_findings_exact one_row one_row []

abbrev careful : BoundaryControl
careful = record proceeding {
  mode = BoundaryMode.conditional;
  on_blocker_residuals = true;
  on_protected_code = true;
  on_confidence_below = some ConfidenceBelow.high;
}

evaluate_boundary_exact_example :
    ((evaluate_boundary quiet_services.evaluate_protected careful one_row
        ("a.py" ∷ [])
        Confidence.medium).outcome
      ≡ pause)
    ↔ Asks quiet_services.evaluate_protected careful one_row ("a.py" ∷ []) Confidence.medium
evaluate_boundary_exact_example =
    evaluate_boundary_exact quiet_services.evaluate_protected careful one_row ("a.py" ∷ [])
      Confidence.medium
