-- ===== src/Boundary.antt =====
-- Pause or proceed: apps/backend/app/domain/pipelines/boundary.py. `evaluate_protected` of
-- apps/backend/app/domain/repos/service.py is a parameter, a function of the affected paths. The
-- dictionary of tripped conditions is the list of its keys in the order of their insertion.
pub mod Exact
use yaaos.Prelude.{
  ℕ, String, Bool, true, false, ◌&&◌, not, none, some, List, [], ◌∷◌, ◌++◌, any, ltb, if◌then◌else◌,
}
use yaaos.Findings.{Severity, blocker, should_fix, nit, Finding, same_severity}
use yaaos.Contracts.{Confidence, low, medium, high}
use yaaos.Definition.Model.{
  BoundaryMode, always_hitl, always_proceed, conditional, ConfidenceBelow, BoundaryControl,
}

pub record ProtectedMatch : Type 0 where
  pub matched : Bool
  pub owner_user_ids : List ℕ

-- `sendback_loop` is tripped by the engine, not by the evaluator.
pub data Tripped : Type 0 where
  hitl blocker_residuals should_fix_residuals nit_residuals protected_code : Tripped
  confidence_below : ConfidenceBelow → Tripped
  sendback_loop : String → Tripped

pub data BoundaryVerdict : Type 0 where
  proceed pause : BoundaryVerdict

pub record BoundaryDecision : Type 0 where
  pub outcome : BoundaryVerdict
  pub tripped : List Tripped
  pub protected_owner_user_ids : List ℕ

-- `_CONFIDENCE_RANK`
unfoldable pub confidence_rank : Confidence → ℕ
confidence_rank low = 0
confidence_rank medium = 1
confidence_rank high = 2

abbrev pub threshold : ConfidenceBelow → Confidence
threshold ConfidenceBelow.medium = medium
threshold ConfidenceBelow.high = high

abbrev pub has_severity : Severity → List Finding → Bool
has_severity s = any (λ f. same_severity s f.severity)

abbrev pub trip : Bool → Tripped → List Tripped
trip b t = if b then t ∷ [] else []

abbrev pub is_empty {ℓ} : {A : Type ℓ} → List A → Bool
is_empty [] = true
is_empty (x ∷ xs) = false

module _ (evaluate_protected : List String → ProtectedMatch) where
  -- `on_protected_code and paths_affected`, and the match
  unfoldable pub protects : BoundaryControl → List String → Bool
  protects c paths =
      (c.on_protected_code && not (is_empty paths)) && (evaluate_protected paths).matched

  unfoldable pub unsure : BoundaryControl → Confidence → List Tripped
  unfolding confidence_rank
  unsure c confidence = elim c.on_confidence_below [
    | none ↦ []
    | some below ↦
        trip (ltb (confidence_rank confidence) (confidence_rank (threshold below)))
          (confidence_below below)
  ]

  -- The conditions in the order in which the source tests them.
  unfoldable pub conditions :
      BoundaryControl → List Finding → List String → Confidence → List Tripped
  unfolding protects unsure
  conditions c residuals paths confidence =
      trip (c.on_blocker_residuals && has_severity blocker residuals) blocker_residuals
      ++ (trip (c.on_should_fix_residuals && has_severity should_fix residuals) should_fix_residuals
          ++ (trip (c.on_nit_residuals && has_severity nit residuals) nit_residuals
              ++ (trip (protects c paths) protected_code ++ unsure c confidence)))

  unfoldable pub decide : BoundaryControl → List String → List Tripped → BoundaryDecision
  unfolding protects
  decide c paths [] = record { outcome = proceed; tripped = []; protected_owner_user_ids = [] }
  decide c paths (t ∷ ts) = record {
    outcome = pause;
    tripped = t ∷ ts;
    protected_owner_user_ids =
        if protects c paths then (evaluate_protected paths).owner_user_ids else [];
  }

  unfoldable pub evaluate_mode :
      BoundaryMode → BoundaryControl → List Finding → List String → Confidence → BoundaryDecision
  unfolding conditions decide
  evaluate_mode always_proceed c residuals paths confidence = record {
    outcome = proceed;
    tripped = [];
    protected_owner_user_ids = [];
  }
  evaluate_mode always_hitl c residuals paths confidence = record {
    outcome = pause;
    tripped = hitl ∷ [];
    protected_owner_user_ids = [];
  }
  evaluate_mode conditional c residuals paths confidence =
      decide c paths (conditions c residuals paths confidence)

  unfoldable pub evaluate_boundary :
      BoundaryControl → List Finding → List String → Confidence → BoundaryDecision
  unfolding evaluate_mode
  evaluate_boundary c = evaluate_mode c.mode c
