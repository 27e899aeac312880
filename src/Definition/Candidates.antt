-- ===== src/Definition/Candidates.antt =====
-- The definitions with an edit put into them, and the flattening of each candidate:
-- `validate_definition` of apps/backend/app/domain/pipelines/definition.py.
use yaaos.Prelude.{
  ℕ, ◌≤◌, true, ◌≡◌, refl, ap, sym, ◌∙◌, some, List, [], ◌∷◌, arith, mem, length, ok, ◌>>=◌,
  >>=-eq-ok, Bool-cases, inl, inr, ◌==◌, if◌then◌else◌,
}
use yaaos.Definition.Model.{Stage, PipelineCallStage, PipelineDefinition, FlattenedDefinition}
use yaaos.Definition.Flatten.{Definitions, lookup, put, Flat, Expanded, expand_stage, flatten}
use yaaos.Definition.Validate.{calls, direct_callers, flatten_each}

abbrev pub Flattens : PipelineDefinition → Definitions → Type 0
Flattens d defs = (f : FlattenedDefinition) × (flatten d defs ≡ ok f)

-- Every pipeline that the mapping holds can be flattened against it.
pub record AllFlatten (defs : Definitions) : Type 0 where
  pub flattens : (k : ℕ) (d : PipelineDefinition) → lookup k defs ≡ some d → Flattens d defs

pub lookup-put :
    (k j : ℕ) (d : PipelineDefinition) (defs : Definitions)
    → lookup j (put k d defs) ≡ (if k == j then some d else lookup j defs)
unfolding lookup put
lookup-put k j d [] = refl
lookup-put k j d ((i, e) ∷ ds) = ground (arith, lookup-put k j d ds)

pub length-put :
    (k : ℕ) (d : PipelineDefinition) (defs : Definitions) → length defs ≤ length (put k d defs)
unfolding put
length-put k d [] = omega arith
length-put k d ((i, e) ∷ ds) = ground (arith, length-put k d ds)

pub direct_callers-lookup :
    (k t : ℕ) (d : PipelineDefinition) (defs : Definitions)
    → lookup k defs ≡ some d
    → calls t d.stages ≡ true
    → mem k (direct_callers defs t) ≡ true
unfolding lookup direct_callers
direct_callers-lookup k t d [] h c = cc
direct_callers-lookup k t d ((j, e) ∷ ds) h c = ground (arith, direct_callers-lookup k t d ds)

flatten_each-head :
    (defs : Definitions) (p : ℕ) (ps : List ℕ)
    → flatten_each defs (p ∷ ps) ≡ ok tt
    → (d : PipelineDefinition) × (lookup p defs ≡ some d)
      × ((flatten d defs >>= λ _. flatten_each defs ps) ≡ ok tt)
unfolding flatten_each
flatten_each-head defs p ps h = ground arith

pub flatten_each-eq-ok :
    (defs : Definitions) (ps : List ℕ) (p : ℕ)
    → flatten_each defs ps ≡ ok tt
    → mem p ps ≡ true
    → (d : PipelineDefinition) × (lookup p defs ≡ some d) × Flattens d defs
flatten_each-eq-ok defs [] p h m = cc
flatten_each-eq-ok defs (q ∷ ps) p h m =
    let (d, found, e) = flatten_each-head defs q ps h in
    let (f, flat, rest) = >>=-eq-ok (flatten d defs) _ e in
    elim (Bool-cases (q == p)) [
      | inl here ↦
          let same : q ≡ p = ground arith in
          (d, ap (λ x. lookup x defs) (sym same) ∙ found, (f, flat))
      | inr there ↦ flatten_each-eq-ok defs ps p rest (ground arith)
    ]

pub expand_call-found :
    (r : PipelineDefinition → Flat → Expanded) (defs : Definitions) (s : PipelineCallStage)
    (callee : PipelineDefinition) (acc : Flat)
    → lookup s.pipeline_id defs ≡ some callee
    → expand_stage r defs (Stage.call s) acc ≡ r callee acc
unfolding expand_stage
expand_call-found r defs s callee acc found = rw (found, expand_stage)

-- A set of ids, given by its test, outside which nothing was edited.
