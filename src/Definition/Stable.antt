-- ===== src/Definition/Stable.antt =====
-- What `validate_definition` (apps/backend/app/domain/pipelines/definition.py) protects.
use mathlib.Core.Path.{subst}
use yaaos.Prelude.{
  ℕ, zero, suc, ◌≤◌, true, false, ◌≡◌, refl, sym, ◌∙◌, some, List, [], ◌∷◌, ◌++◌, arith, mem,
  length, ok, >>=-eq-ok, guard-eq-ok, Bool-cases, inl, inr, ◌↔◌, ◌==◌,
}
use yaaos.Definition.Model.{Stage, PipelineCallStage, PipelineDefinition}
use yaaos.Definition.Flatten.{
  call_cycle, Definitions, lookup, put, Flat, Expanded, expand_stage, expand_stages, expand,
  flatten,
}
use yaaos.Definition.Validate.{calls, transitive_callers, flatten_each, validate_definition}
use yaaos.Definition.Names.{expand_call-eq-ok}
use yaaos.Definition.Callers.{transitive_callers-IsClosed, transitive_callers_exact}
use yaaos.Definition.CallGraph.{
  CallsDirectly, direct_callers-CallsDirectly, Reaches, direct, through, keys,
}
use yaaos.Definition.Candidates.{
  Flattens, AllFlatten, lookup-put, length-put, direct_callers-lookup, flatten_each-eq-ok,
  expand_call-found,
}

module _ (edited : List ℕ) (org cand : Definitions) where
  -- No stage calls an edited pipeline.
  unfoldable pub Spares : List Stage → Type 0
  Spares ss = (t : ℕ) → calls t ss ≡ true → mem t edited ≡ false

  module _ (same : (k : ℕ) → mem k edited ≡ false → lookup k cand ≡ lookup k org)
      (spares : (k : ℕ) (d : PipelineDefinition)
        → mem k edited ≡ false
        → lookup k org ≡ some d
        → Spares d.stages) where
    abbrev pub Carries :
        (PipelineDefinition → Flat → Expanded) → (PipelineDefinition → Flat → Expanded) → Type 0
    Carries r r' =
        (d : PipelineDefinition) (acc acc' : Flat)
        → Spares d.stages
        → r d acc ≡ ok acc'
        → r' d acc ≡ ok acc'

    Spares-tail : (s : Stage) (ss : List Stage) → Spares (s ∷ ss) → Spares ss
    unfolding Spares calls
    Spares-tail (Stage.call s) ss h t c = h t (ground arith)
    Spares-tail _ ss h t c = h t c

    Spares-call :
        (s : PipelineCallStage) (ss : List Stage)
        → Spares (Stage.call s ∷ ss)
        → mem s.pipeline_id edited ≡ false
    unfolding Spares calls
    Spares-call s ss h = h s.pipeline_id (ground arith)

    expand_stage-carry :
        (r r' : PipelineDefinition → Flat → Expanded)
        → Carries r r'
        → (s : Stage) (ss : List Stage) (acc acc' : Flat) → Spares (s ∷ ss)
        → expand_stage r org s acc ≡ ok acc'
        → expand_stage r' cand s acc ≡ ok acc'
    unfolding expand_stage
    expand_stage-carry r r' carry (Stage.call s) ss acc acc' h e =
        let (callee, found, nested) = expand_call-eq-ok org r s acc acc' e in
        let spared = Spares-call s ss h in
        expand_call-found r' cand s callee acc (same s.pipeline_id spared ∙ found)
        ∙ carry callee acc acc' (spares s.pipeline_id callee spared found) nested
    expand_stage-carry r r' carry (Stage.skill s) ss acc acc' h e = e
    expand_stage-carry r r' carry (Stage.review s) ss acc acc' h e = e
    expand_stage-carry r r' carry (Stage.action s) ss acc acc' h e = e

    expand_stages-carry :
        (r r' : PipelineDefinition → Flat → Expanded)
        → Carries r r'
        → (ss : List Stage) (acc acc' : Flat) → Spares ss
        → expand_stages r org ss acc ≡ ok acc'
        → expand_stages r' cand ss acc ≡ ok acc'
    unfolding expand_stages
    expand_stages-carry r r' carry [] acc acc' h e = e
    expand_stages-carry r r' carry (s ∷ ss) acc acc' h e =
        let (mid, one, rest) = >>=-eq-ok (expand_stage r org s acc) _ e in
        rw (expand_stage-carry r r' carry s ss acc mid h one)
          (expand_stages-carry r r' carry ss mid acc' (Spares-tail s ss h) rest)

    pub expand-carry :
        (n m : ℕ) (chain : List ℕ) → n ≤ m → Carries (expand n org chain) (expand m cand chain)
    unfolding expand
    expand-carry zero m chain le d acc acc' h e = cc
    expand-carry (suc n) zero chain le d acc acc' h e = absurd (omega arith)
    expand-carry (suc n) (suc m) chain le d acc acc' h e =
        let next = chain ++ d.id ∷ [] in
        let (fresh, rest) = guard-eq-ok (mem d.id chain) (call_cycle next) _ e in
        rw fresh (
          expand_stages-carry (λ c a. expand n org next c a) (λ c a. expand m cand next c a)
            (expand-carry n m next (omega arith)) d.stages acc acc' h rest)

module _ (d : PipelineDefinition) (org : Definitions) where
  abbrev candidates : Definitions
  candidates = put d.id d org

  validate_definition-eq-ok :
      (callers : List ℕ)
      → transitive_callers d.id candidates ≡ some callers
      → validate_definition d org ≡ ok tt
      → flatten_each candidates (d.id ∷ callers) ≡ ok tt
  unfolding validate_definition
  validate_definition-eq-ok callers found h = ground arith

  lookup-candidates :
      (callers : List ℕ) (k : ℕ)
      → mem k (d.id ∷ callers) ≡ false
      → lookup k candidates ≡ lookup k org
  lookup-candidates callers k out = rw lookup-put (ground arith)

  -- Pipelines that are neither the edited one nor among its callers call neither.
  spared :
      (callers : List ℕ)
      → ((a : ℕ) → (mem a callers ≡ true) ↔ Reaches candidates d.id a)
      → (k : ℕ) (e : PipelineDefinition) → mem k (d.id ∷ callers) ≡ false
      → lookup k org ≡ some e
      → Spares (d.id ∷ callers) org candidates e.stages
  unfolding Spares
  spared callers exact k e out found t c = elim (Bool-cases (mem t (d.id ∷ callers))) [
    | inr free ↦ free
    | inl hit ↦
        let entry =
          direct_callers-lookup k t e candidates (lookup-candidates callers k out ∙ found) c in
        let calling = direct_callers-CallsDirectly candidates t k entry in
        let called : mem k callers ≡ true = (exact k).1 (elim (Bool-cases (d.id == t)) [
          | inl here ↦ direct (subst (CallsDirectly candidates k) (sym (ground arith)) calling)
          | inr there ↦ through ((exact t).0 (ground arith)) calling
        ]) in
        absurd (ground arith)
  ]

  Flattens-candidates :
      (callers : List ℕ)
      → ((a : ℕ) → (mem a callers ≡ true) ↔ Reaches candidates d.id a)
      → (k : ℕ) (e : PipelineDefinition) → mem k (d.id ∷ callers) ≡ false
      → lookup k org ≡ some e
      → Flattens e org
      → Flattens e candidates
  unfolding flatten
  Flattens-candidates callers exact k e out found (f, flat) =
      let start : Flat = record { stages = []; seen_names = [] } in
      let (acc, whole, same) = >>=-eq-ok (expand (suc (suc (length org))) org [] e start) _ flat in
      let carried =
        expand-carry (d.id ∷ callers) org candidates (λ j m. lookup-candidates callers j m)
          (spared callers exact) (suc (suc (length org))) (suc (suc (length candidates))) []
          (omega (arith, length-put d.id d org)) e start acc (spared callers exact k e out found)
          whole in
      (f, rw carried same)

  pub AllFlatten-of_accepted :
      validate_definition d org ≡ ok tt → AllFlatten org → AllFlatten candidates
  AllFlatten-of_accepted accepted before =
      let (callers, found, exact) = transitive_callers_exact d.id candidates in
      let each = validate_definition-eq-ok callers found accepted in
      record {
        flattens = λ k e at. elim (Bool-cases (mem k (d.id ∷ callers))) [
          | inl edited ↦
              let (e', at', flat) = flatten_each-eq-ok candidates (d.id ∷ callers) k each edited in
              let same : e' ≡ e = cc in subst (λ x. Flattens x candidates) same flat
          | inr out ↦
              Flattens-candidates callers exact k e out (sym (lookup-candidates callers k out) ∙ at)
                (before.flattens k e (sym (lookup-candidates callers k out) ∙ at))
        ];
      }

lookup-mem :
    (k : ℕ) (defs : Definitions)
    → mem k (keys defs) ≡ true
    → (d : PipelineDefinition) × (lookup k defs ≡ some d)
unfolding lookup
lookup-mem k [] h = cc
lookup-mem k ((j, d) ∷ ds) h = elim (Bool-cases (j == k)) [
  | inl here ↦ (d, ground arith)
  | inr there ↦ let (e, found) = lookup-mem k ds (ground arith) in (e, rw there found)
]

flatten_each_ok :
    (defs : Definitions) (ps : List ℕ)
    → AllFlatten defs
    → ((p : ℕ) → mem p ps ≡ true → (d : PipelineDefinition) × (lookup p defs ≡ some d))
    → flatten_each defs ps ≡ ok tt
unfolding flatten_each
flatten_each_ok defs [] all known = refl
flatten_each_ok defs (p ∷ ps) all known =
    let (d, found) = known p (ground arith) in
    let (f, flat) = all.flattens p d found in
    let rest = flatten_each_ok defs ps all (λ q m. known q (ground arith)) in
    rw (found, flatten_each) (rw flat rest)

-- Where every pipeline of the organisation can be flattened, an edit is accepted exactly when every
-- pipeline can still be flattened after it: the edited one, those that call it at any depth and all
-- others.
pub validate_definition_exact :
    (d : PipelineDefinition) (org : Definitions)
    → AllFlatten org
    → (validate_definition d org ≡ ok tt) ↔ AllFlatten (put d.id d org)
unfolding validate_definition
validate_definition_exact d org before =
    let cand = put d.id d org in
    let (callers, found, closed, known) = transitive_callers-IsClosed d.id cand in
    let self : lookup d.id cand ≡ some d = rw lookup-put (ground arith) in
    (
      λ accepted. AllFlatten-of_accepted d org accepted before,
      λ after.
          rw (found, validate_definition)
            (flatten_each_ok cand (d.id ∷ callers) after (λ p m. elim (Bool-cases (d.id == p)) [
              | inl here ↦
                  let same : d.id ≡ p = ground arith in
                  (d, subst (λ x. lookup x cand ≡ some d) same self)
              | inr there ↦ lookup-mem p cand (known p (ground arith)).0
            ])),
    )
