-- ===== src/Definition/Fuel.antt =====
-- The recursion of `_expand` in `flatten`
-- (apps/backend/app/domain/pipelines/definition.py): its chain against the definitions at hand.
use yaaos.Prelude.{
  ℕ, zero, suc, ◌+◌, ◌≤◌, Bool, true, false, ◌≡◌, ◌≢◌, refl, ap, some, List, [], ◌∷◌, ◌++◌, Result,
  ok, err, ◌>>=◌, arith, mem, mem-append, IsNodup, IsNodup-snoc, length, length-append, pigeonhole,
  Bool-cases, Option-cases, inl, inr, if◌then◌else◌,
}
use mathlib.Core.Path.{subst}
use yaaos.Definition.Model.{Stage, PipelineDefinition, FlattenedDefinition}
use yaaos.Definition.Flatten.{
  ValidationError, out_of_fuel, call_cycle, Definitions, lookup, Flat, Expanded, expand_stage,
  expand_stages, expand, flatten,
}

abbrev def_ids : Definitions → List ℕ
def_ids [] = []
def_ids ((k, d) ∷ ds) = d.id ∷ def_ids ds

length-def_ids : (defs : Definitions) → length (def_ids defs) ≡ length defs
length-def_ids [] = refl
length-def_ids ((k, d) ∷ ds) = ap suc (length-def_ids ds)

mem-lookup :
    (k : ℕ) (defs : Definitions) {d : PipelineDefinition}
    → lookup k defs ≡ some d
    → mem d.id (def_ids defs) ≡ true
unfolding lookup
mem-lookup k [] h = cc
mem-lookup k ((j, e) ∷ ds) {d} h = ground (arith, mem-lookup k ds {d = d})

return-ne :
    (m : Expanded)
    → m ≢ err out_of_fuel
    → ◌≢◌ {A = Result ValidationError FlattenedDefinition}
        (m >>= λ acc. ok (record { stages = acc.stages }))
        (err out_of_fuel)
return-ne (ok a) h = λ e. cc
return-ne (err x) h = λ e. h (cc)

module _ (defs : Definitions) where
  -- The nested expansions of pipelines that the mapping holds do not run out of fuel.
  Ends : (PipelineDefinition → Flat → Expanded) → Type 0
  Ends recur =
      (callee : PipelineDefinition) (acc : Flat)
      → mem callee.id (def_ids defs) ≡ true
      → recur callee acc ≢ err out_of_fuel

  expand_stage-Ends :
      (recur : PipelineDefinition → Flat → Expanded)
      → Ends recur
      → (s : Stage) (acc : Flat) → expand_stage recur defs s acc ≢ err out_of_fuel
  unfolding Ends expand_stage
  expand_stage-Ends recur ends (Stage.call s) acc =
      elim (Option-cases (lookup s.pipeline_id defs)) [
        | inl missing ↦ rw (missing, expand_stage) (λ h. cc)
        | inr (callee, found) ↦
            rw (found, expand_stage) (ends callee acc (mem-lookup s.pipeline_id defs found))
      ]
  expand_stage-Ends recur ends _ acc = λ h. ground arith

  >>=-ne :
      (m : Expanded) (f : Flat → Expanded)
      → m ≢ err out_of_fuel
      → ((a : Flat) → f a ≢ err out_of_fuel)
      → (m >>= f) ≢ err out_of_fuel
  >>=-ne (ok a) f hm hf = hf a
  >>=-ne (err e) f hm hf = λ h. hm (cc)

  expand_stages-Ends :
      (recur : PipelineDefinition → Flat → Expanded)
      → Ends recur
      → (ss : List Stage) (acc : Flat) → expand_stages recur defs ss acc ≢ err out_of_fuel
  unfolding expand_stages
  expand_stages-Ends recur ends [] acc = λ h. cc
  expand_stages-Ends recur ends (s ∷ ss) acc =
      >>=-ne (expand_stage recur defs s acc) _ (expand_stage-Ends recur ends s acc)
        (λ acc'. expand_stages-Ends recur ends ss acc')

  guard-ne :
      (b : Bool) (chain : List ℕ) (m : Expanded)
      → (b ≡ false → m ≢ err out_of_fuel)
      → (if b then err (call_cycle chain) else m) ≢ err out_of_fuel
  guard-ne true chain m hm = λ h. cc
  guard-ne false chain m hm = hm refl

  module _ (root : ℕ) where
    abbrev ids : List ℕ
    ids = root ∷ def_ids defs

    snoc_known :
        (chain : List ℕ) (i : ℕ)
        → ((a : ℕ) → mem a chain ≡ true → mem a ids ≡ true)
        → mem i ids ≡ true
        → (a : ℕ) → mem a (chain ++ i ∷ []) ≡ true
        → mem a ids ≡ true
    snoc_known chain i sub known a h = elim (Bool-cases (mem a chain)) [
      | inl old ↦ sub a old
      | inr new ↦
          let e : i ≡ a = ground (arith, mem-append a chain (i ∷ [])) in
          subst (λ x. mem x ids ≡ true) e known
    ]

    expand-Ends :
        (n : ℕ) (chain : List ℕ) (d : PipelineDefinition) (acc : Flat)
        → IsNodup chain
        → ((a : ℕ) → mem a chain ≡ true → mem a ids ≡ true)
        → mem d.id ids ≡ true
        → suc (length ids) ≤ n + length chain
        → expand n defs chain d acc ≢ err out_of_fuel
    unfolding expand Ends
    expand-Ends zero chain d acc nodup sub known room =
        absurd (omega (arith, pigeonhole chain ids nodup sub))
    expand-Ends (suc n) chain d acc nodup sub known room =
        let next = chain ++ d.id ∷ [] in
        guard-ne (mem d.id chain) next _ (λ fresh.
          expand_stages-Ends (λ callee acc'. expand n defs next callee acc')
            (λ callee acc' mine.
              expand-Ends n next callee acc' (IsNodup-snoc chain d.id nodup fresh)
                (snoc_known chain d.id sub known) (ground (arith, mine))
                (omega (arith, length-append chain (d.id ∷ []), room)))
            d.stages acc)

-- Flattening never recurs without end, whatever calls whatever: it returns the stages or raises one
-- of the errors of the source.
pub flatten_ends : (d : PipelineDefinition) (defs : Definitions) → flatten d defs ≢ err out_of_fuel
unfolding flatten
flatten_ends d defs = return-ne _ (
    expand-Ends defs d.id (suc (suc (length defs))) [] d (record { stages = []; seen_names = [] })
      tt (λ a h. cc) (ground arith) (omega (arith, length-def_ids defs)))
