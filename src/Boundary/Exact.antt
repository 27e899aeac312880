-- ===== src/Boundary/Exact.antt =====
-- When a boundary pauses (apps/backend/app/domain/pipelines/boundary.py).
use yaaos.Prelude.{
  ◌<◌, String, Bool, true, false, ◌&&◌, ◌||◌, not, ◌≡◌, ◌≢◌, refl, sym, ◌∙◌, Option-cases, ◌↔◌,
  some, List, [], ◌∷◌, ◌++◌, ltb, arith, Bool-cases, inl, inr,
}
use yaaos.Findings.{Severity, blocker, should_fix, nit, Finding, same_severity}
use yaaos.Contracts.{Confidence}
use yaaos.Definition.Model.{
  BoundaryMode, always_hitl, always_proceed, conditional, ConfidenceBelow, BoundaryControl,
}
use yaaos.Boundary.{
  ProtectedMatch, Tripped, pause, confidence_rank, threshold, has_severity, trip, is_empty,
  protects, unsure, conditions, decide, evaluate_mode, evaluate_boundary,
}

-- A residual of the severity stands in the list.
pub data Holds (s : Severity) : List Finding → Type 0 where
  here : {f : Finding} {fs : List Finding} → f.severity ≡ s → Holds s (f ∷ fs)
  there : {f : Finding} {fs : List Finding} → Holds s fs → Holds s (f ∷ fs)

-- Why a boundary asks for a human, read off its configuration.
pub data Asks (evaluate_protected : List String → ProtectedMatch) (c : BoundaryControl)
    (residuals : List Finding) (paths : List String) (confidence : Confidence) : Type 0 where
  always : c.mode ≡ always_hitl → Asks evaluate_protected c residuals paths confidence
  on_blocker :
      c.mode ≡ conditional
      → c.on_blocker_residuals ≡ true
      → Holds blocker residuals
      → Asks evaluate_protected c residuals paths confidence
  on_should_fix :
      c.mode ≡ conditional
      → c.on_should_fix_residuals ≡ true
      → Holds should_fix residuals
      → Asks evaluate_protected c residuals paths confidence
  on_nit :
      c.mode ≡ conditional
      → c.on_nit_residuals ≡ true
      → Holds nit residuals
      → Asks evaluate_protected c residuals paths confidence
  on_protected :
      c.mode ≡ conditional
      → c.on_protected_code ≡ true
      → paths ≢ []
      → (evaluate_protected paths).matched ≡ true
      → Asks evaluate_protected c residuals paths confidence
  on_low :
      c.mode ≡ conditional
      → (below : ConfidenceBelow) → c.on_confidence_below ≡ some below
      → confidence_rank confidence < confidence_rank (threshold below)
      → Asks evaluate_protected c residuals paths confidence

same_severity_eq : (a b : Severity) → same_severity a b ≡ true → b ≡ a
same_severity_eq blocker blocker h = refl
same_severity_eq blocker should_fix h = cc
same_severity_eq blocker nit h = cc
same_severity_eq should_fix blocker h = cc
same_severity_eq should_fix should_fix h = refl
same_severity_eq should_fix nit h = cc
same_severity_eq nit blocker h = cc
same_severity_eq nit should_fix h = cc
same_severity_eq nit nit h = refl

same_severity_refl : (a : Severity) → same_severity a a ≡ true
same_severity_refl blocker = refl
same_severity_refl should_fix = refl
same_severity_refl nit = refl

Holds-intro : (s : Severity) (fs : List Finding) → has_severity s fs ≡ true → Holds s fs
Holds-intro s [] h = cc
Holds-intro s (f ∷ fs) h = elim (Bool-cases (same_severity s f.severity)) [
  | inl y ↦ here (same_severity_eq s f.severity y)
  | inr n ↦ there (Holds-intro s fs (ground (arith, h)))
]

Holds-elim : (s : Severity) {fs : List Finding} → Holds s fs → has_severity s fs ≡ true
Holds-elim s (here {f} e) =
    let r : same_severity s f.severity ≡ true = rw e (same_severity_refl s) in ground (arith, r)
Holds-elim s (there h) = ground (arith, Holds-elim s h)

is_empty_ne : {ps : List String} → is_empty ps ≡ false → ps ≢ []
is_empty_ne h e = cc

is_empty-false : (ps : List String) → ps ≢ [] → is_empty ps ≡ false
is_empty-false [] h = elim (h refl) [ ]
is_empty-false (p ∷ ps) h = refl

four-trips :
    (b₁ b₂ b₃ b₄ : Bool) (t₁ t₂ t₃ t₄ : Tripped) (ts : List Tripped)
    → is_empty (trip b₁ t₁ ++ (trip b₂ t₂ ++ (trip b₃ t₃ ++ (trip b₄ t₄ ++ ts))))
      ≡ not (b₁ || (b₂ || (b₃ || (b₄ || not (is_empty ts)))))
four-trips true b₂ b₃ b₄ t₁ t₂ t₃ t₄ ts = refl
four-trips false true b₃ b₄ t₁ t₂ t₃ t₄ ts = refl
four-trips false false true b₄ t₁ t₂ t₃ t₄ ts = refl
four-trips false false false true t₁ t₂ t₃ t₄ ts = refl
four-trips false false false false t₁ t₂ t₃ t₄ [] = refl
four-trips false false false false t₁ t₂ t₃ t₄ (t ∷ ts) = refl

proceed_ne_hitl : ◌≢◌ {A = BoundaryMode} always_proceed always_hitl
proceed_ne_hitl e = cc

proceed_ne_conditional : ◌≢◌ {A = BoundaryMode} always_proceed conditional
proceed_ne_conditional e = cc

module _ (ep : List String → ProtectedMatch) (c : BoundaryControl) (rs : List Finding)
    (ps : List String) (conf : Confidence) where
  decide-pause : (ts : List Tripped) → (decide ep c ps ts).outcome ≡ pause → is_empty ts ≡ false
  unfolding decide
  decide-pause [] h = cc
  decide-pause (t ∷ ts) h = refl

  pause-decide : (ts : List Tripped) → is_empty ts ≡ false → (decide ep c ps ts).outcome ≡ pause
  unfolding decide
  pause-decide [] h = cc
  pause-decide (t ∷ ts) h = refl

  -- The five conditions as one Boolean.
  abbrev trips : Bool
  trips =
      (c.on_blocker_residuals && has_severity blocker rs)
      || ((c.on_should_fix_residuals && has_severity should_fix rs)
          || ((c.on_nit_residuals && has_severity nit rs)
              || (protects ep c ps || not (is_empty (unsure ep c conf)))))

  is_empty-conditions : is_empty (conditions ep c rs ps conf) ≡ not trips
  unfolding conditions
  is_empty-conditions =
      let b₁ = c.on_blocker_residuals && has_severity blocker rs in
      let b₂ = c.on_should_fix_residuals && has_severity should_fix rs in
      let b₃ = c.on_nit_residuals && has_severity nit rs in
      let b₄ = protects ep c ps in four-trips b₁ b₂ b₃ b₄ _ _ _ _ (unsure ep c conf)

  unsure-low :
      (below : ConfidenceBelow)
      → c.on_confidence_below ≡ some below
      → confidence_rank conf < confidence_rank (threshold below)
      → is_empty (unsure ep c conf) ≡ false
  unfolding unsure
  unsure-low below e l =
      let b : ltb (confidence_rank conf) (confidence_rank (threshold below)) ≡ true =
        ground arith in
      rw (e, b) refl

  low-unsure :
      is_empty (unsure ep c conf) ≡ false
      → (below : ConfidenceBelow) × (c.on_confidence_below ≡ some below)
        × (confidence_rank conf < confidence_rank (threshold below))
  unfolding unsure
  low-unsure h = elim (Option-cases c.on_confidence_below) [
    | inl n ↦ let k : is_empty (unsure ep c conf) ≡ true = rw (n, unsure) refl in cc
    | inr (below, e) ↦ (
      below,
      e,
      elim (Bool-cases (ltb (confidence_rank conf) (confidence_rank (threshold below)))) [
        | inl y ↦ ground (arith, y)
        | inr n ↦ let k : is_empty (unsure ep c conf) ≡ true = rw (e, n) refl in cc
      ],
    )
  ]

  trips-Asks : c.mode ≡ conditional → trips ≡ true → Asks ep c rs ps conf
  unfolding protects
  trips-Asks m h = elim (Bool-cases (c.on_blocker_residuals && has_severity blocker rs)) [
    | inl y ↦ on_blocker m (ground arith) (Holds-intro blocker rs (ground arith))
    | inr n₁ ↦ elim (Bool-cases (c.on_should_fix_residuals && has_severity should_fix rs)) [
      | inl y ↦ on_should_fix m (ground arith) (Holds-intro should_fix rs (ground arith))
      | inr n₂ ↦ elim (Bool-cases (c.on_nit_residuals && has_severity nit rs)) [
        | inl y ↦ on_nit m (ground arith) (Holds-intro nit rs (ground arith))
        | inr n₃ ↦ elim (Bool-cases (protects ep c ps)) [
          | inl y ↦ on_protected m (ground arith) (is_empty_ne (ground arith)) (ground arith)
          | inr n₄ ↦ let (below, e, l) = low-unsure (ground arith) in on_low m below e l
        ]
      ]
    ]
  ]

  Asks-trips : c.mode ≡ conditional → Asks ep c rs ps conf → trips ≡ true
  unfolding protects
  Asks-trips m (always e) = let k : ◌≡◌ {A = BoundaryMode} conditional always_hitl = sym m ∙ e in cc
  Asks-trips m (on_blocker e h r) = ground (arith, Holds-elim blocker r)
  Asks-trips m (on_should_fix e h r) = ground (arith, Holds-elim should_fix r)
  Asks-trips m (on_nit e h r) = ground (arith, Holds-elim nit r)
  Asks-trips m (on_protected e h n r) = ground (arith, is_empty-false ps n)
  Asks-trips m (on_low e below h l) = ground (arith, unsure-low below h l)

  not-proceed : c.mode ≡ always_proceed → Asks ep c rs ps conf → ⊥
  not-proceed e (always m) = proceed_ne_hitl (sym e ∙ m)
  not-proceed e (on_blocker m h r) = proceed_ne_conditional (sym e ∙ m)
  not-proceed e (on_should_fix m h r) = proceed_ne_conditional (sym e ∙ m)
  not-proceed e (on_nit m h r) = proceed_ne_conditional (sym e ∙ m)
  not-proceed e (on_protected m h n r) = proceed_ne_conditional (sym e ∙ m)
  not-proceed e (on_low m below h l) = proceed_ne_conditional (sym e ∙ m)

  mode-Asks :
      (m : BoundaryMode)
      → c.mode ≡ m
      → (evaluate_mode ep m c rs ps conf).outcome ≡ pause
      → Asks ep c rs ps conf
  unfolding evaluate_mode
  mode-Asks always_hitl e h = always e
  mode-Asks always_proceed e h = cc
  mode-Asks conditional e h =
      let k = decide-pause (conditions ep c rs ps conf) h in
      trips-Asks e (ground (arith, is_empty-conditions))

  Asks-mode :
      (m : BoundaryMode)
      → c.mode ≡ m
      → Asks ep c rs ps conf
      → (evaluate_mode ep m c rs ps conf).outcome ≡ pause
  unfolding evaluate_mode
  Asks-mode always_hitl e h = refl
  Asks-mode always_proceed e h = elim (not-proceed e h) [ ]
  Asks-mode conditional e h =
      let t = Asks-trips e h in
      pause-decide (conditions ep c rs ps conf) (ground (arith, is_empty-conditions))

-- A boundary pauses exactly where its configuration asks for a human: always, or by one of its
-- conditions on the residuals, the affected paths and the confidence.
pub evaluate_boundary_exact :
    (evaluate_protected : List String → ProtectedMatch) (c : BoundaryControl)
    (residuals : List Finding) (paths : List String) (confidence : Confidence)
    → ((evaluate_boundary evaluate_protected c residuals paths confidence).outcome ≡ pause)
      ↔ Asks evaluate_protected c residuals paths confidence
unfolding evaluate_boundary
evaluate_boundary_exact ep c rs ps conf =
    (mode-Asks ep c rs ps conf c.mode refl, Asks-mode ep c rs ps conf c.mode refl)
