-- ===== src/Definition/Deleted.antt =====
-- What a deletion leaves (apps/backend/app/domain/pipelines/service.py): the pipelines that can be
-- flattened with the deleted one can be without it.
use yaaos.Prelude.{
  ℕ, zero, suc, ◌≤◌, true, false, ◌≡◌, ◌≢◌, refl, sym, ◌∙◌, Option, none, some, List, [], ◌∷◌, ◌++◌,
  arith, ok, err, ◌==◌, mem, length, Bool-cases, Option-cases, Result-cases, inl, inr, >>=-eq-ok,
}
use mathlib.Core.Path.{subst}
use yaaos.Definition.Model.{Stage, PipelineDefinition}
use yaaos.Definition.Flatten.{
  out_of_fuel, Definitions, lookup, Flat, Expanded, expand_stage, expand_stages, expand, flatten,
}
use yaaos.Definition.Validate.{calls}
use yaaos.Definition.Fuel.{flatten_ends}
use yaaos.Definition.Candidates.{Flattens, AllFlatten}
use yaaos.Definition.Stable.{expand-carry, Spares}
use yaaos.Definition.Store.{pipeline_referenced_by_call, without}

-- More fuel changes no result but a lack of fuel.
module _ (defs : Definitions) where
  abbrev Agrees :
      (PipelineDefinition → Flat → Expanded) → (PipelineDefinition → Flat → Expanded) → Type 0
  Agrees r r' =
      (d : PipelineDefinition) (acc : Flat) → r d acc ≢ err out_of_fuel → r' d acc ≡ r d acc

  expand_stage-Agrees :
      (r r' : PipelineDefinition → Flat → Expanded)
      → Agrees r r'
      → (s : Stage) (acc : Flat) → expand_stage r defs s acc ≢ err out_of_fuel
      → expand_stage r' defs s acc ≡ expand_stage r defs s acc
  unfolding expand_stage
  expand_stage-Agrees r r' agree (Stage.call s) acc h =
      elim (Option-cases (lookup s.pipeline_id defs)) [
        | inl e ↦ rw (expand_stage, e) refl
        | inr (callee, e) ↦
            rw (expand_stage, e) (agree callee acc (λ k. h (rw (expand_stage, e) k)))
      ]
  expand_stage-Agrees r r' agree (Stage.skill s) acc h = refl
  expand_stage-Agrees r r' agree (Stage.review s) acc h = refl
  expand_stage-Agrees r r' agree (Stage.action s) acc h = refl

  expand_stages-Agrees :
      (r r' : PipelineDefinition → Flat → Expanded)
      → Agrees r r'
      → (ss : List Stage) (acc : Flat) → expand_stages r defs ss acc ≢ err out_of_fuel
      → expand_stages r' defs ss acc ≡ expand_stages r defs ss acc
  unfolding expand_stages
  expand_stages-Agrees r r' agree [] acc h = refl
  expand_stages-Agrees r r' agree (s ∷ ss) acc h = elim (Result-cases (expand_stage r defs s acc)) [
    | inl (mid, e) ↦
        let same : expand_stage r' defs s acc ≡ expand_stage r defs s acc =
          expand_stage-Agrees r r' agree s acc
            (λ k. let bad : ◌≡◌ {A = Expanded} (ok mid) (err out_of_fuel) = sym e ∙ k in cc) in
        rw (expand_stages, same, e)
          (expand_stages-Agrees r r' agree ss mid (λ k. h (rw (expand_stages, e) k)))
    | inr (x, e) ↦
        let same : expand_stage r' defs s acc ≡ expand_stage r defs s acc =
          expand_stage-Agrees r r' agree s acc (λ k. h (rw (expand_stages, e) (sym e ∙ k))) in
        rw (expand_stages, same, e) refl
  ]

  expand-Agrees :
      (n m : ℕ) (chain : List ℕ) → n ≤ m → Agrees (expand n defs chain) (expand m defs chain)
  unfolding expand
  expand-Agrees zero m chain l d acc h = elim (h refl) [ ]
  expand-Agrees (suc n) zero chain l d acc h = absurd (omega arith)
  expand-Agrees (suc n) (suc m) chain l d acc h = elim (Bool-cases (mem d.id chain)) [
    | inl y ↦ rw (expand, y) refl
    | inr f ↦
        let next = chain ++ d.id ∷ [] in
        rw (expand, f)
          (expand_stages-Agrees (λ c a. expand n defs next c a) (λ c a. expand m defs next c a)
            (expand-Agrees n m next (omega arith)) d.stages acc (λ k. h (rw (expand, f) k)))
  ]

lookup-without :
    (i k : ℕ) (defs : Definitions) → (k == i) ≡ false → lookup k (without i defs) ≡ lookup k defs
unfolding lookup without
lookup-without i k [] n = refl
lookup-without i k ((j, d) ∷ ds) n = ground (arith, lookup-without i k ds n)

lookup-without-gone : (i : ℕ) (defs : Definitions) → lookup i (without i defs) ≡ none
unfolding lookup without
lookup-without-gone i [] = refl
lookup-without-gone i ((j, d) ∷ ds) = ground (arith, lookup-without-gone i ds)

length-without : (i : ℕ) (defs : Definitions) → length (without i defs) ≤ length defs
unfolding without
length-without i [] = omega arith
length-without i ((j, d) ∷ ds) = ground (arith, length-without i ds)

-- A stored pipeline other than the one that no call references does not call it.
uncalled :
    (i k : ℕ) (d : PipelineDefinition) (defs : Definitions)
    → pipeline_referenced_by_call i defs ≡ false
    → lookup k defs ≡ some d
    → (k == i) ≡ false
    → calls i d.stages ≡ false
unfolding lookup
uncalled i k d [] h e n = cc
uncalled i k d ((j, c) ∷ ds) h e n = ground (arith, uncalled i k d ds)

module _ (i : ℕ) (defs : Definitions) (free : pipeline_referenced_by_call i defs ≡ false) where
  abbrev rest : Definitions
  rest = without i defs

  same : (k : ℕ) → mem k (i ∷ []) ≡ false → lookup k rest ≡ lookup k defs
  same k out = lookup-without i k defs (ground (arith, out))

  spared :
      (k : ℕ) (d : PipelineDefinition)
      → mem k (i ∷ []) ≡ false
      → lookup k defs ≡ some d
      → Spares (i ∷ []) defs rest d.stages
  unfolding Spares
  spared k d out e t c =
      let no_call : calls i d.stages ≡ false = uncalled i k d defs free e (ground (arith, out)) in
      elim (Bool-cases (i == t)) [
        | inr n ↦ ground (arith, n)
        | inl y ↦
            let eq : i ≡ t = ground (arith, y) in
            let bad : true ≡ false =
              sym c ∙ subst (λ (x : ℕ). calls x d.stages ≡ false) eq no_call in
            cc
      ]

  -- The expansion succeeds with the old fuel, and so with the fuel that is left.
  Flattens-without :
      (k : ℕ) (d : PipelineDefinition)
      → (k == i) ≡ false
      → lookup k defs ≡ some d
      → Flattens d defs
      → Flattens d rest
  unfolding flatten
  Flattens-without k d n e (f, flat) =
      let start : Flat = record { stages = []; seen_names = [] } in
      let out : mem k (i ∷ []) ≡ false = ground (arith, n) in
      let old = suc (suc (length defs)) in
      let new = suc (suc (length rest)) in
      let (acc, whole, done) = >>=-eq-ok (expand old defs [] d start) _ flat in
      let carried : expand old rest [] d start ≡ ok acc =
        expand-carry (i ∷ []) defs rest same spared old old [] (omega arith) d start acc
          (spared k d out e) whole in
      let agreed : expand old rest [] d start ≡ expand new rest [] d start =
        expand-Agrees rest new old [] (omega (arith, length-without i defs)) d start
          (λ z. flatten_ends d rest (rw (flatten, z) refl)) in
      (f, rw (flatten, sym agreed ∙ carried) done)

  pub AllFlatten-without : AllFlatten defs → AllFlatten rest
  AllFlatten-without before = record {
    flattens = λ k d e. elim (Bool-cases (k == i)) [
      | inl y ↦
          let eq : k ≡ i = ground (arith, y) in
          let bad : ◌≡◌ {A = Option PipelineDefinition} none (some d) =
            sym (lookup-without-gone i defs) ∙ subst (λ (x : ℕ). lookup x rest ≡ some d) eq e in
          cc
      | inr n ↦
          let e' = sym (lookup-without i k defs n) ∙ e in
          Flattens-without k d n e' (before.flattens k d e')
    ];
  }
