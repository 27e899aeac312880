-- ===== src/Scenarios/Definitions.antt =====
-- The theorems on definitions at two pipelines, one of which calls the other.
use yaaos.Prelude.{
  ℕ, true, ◌≡◌, ◌≢◌, refl, sym, ◌∙◌, ◌↔◌, Option, none, some, List, [], ◌∷◌, ok, err, mem, ◌==◌,
  Bool-cases, inl, inr,
}
use mathlib.Core.Path.{subst}
use yaaos.Definition.Model.{PipelineDefinition, ExecutableStage}
use yaaos.Definition.Flatten.{
  Definitions, lookup, put, flatten, out_of_fuel, expand, expand_stages, expand_stage, append_named,
}
use yaaos.Definition.Validate.{transitive_callers, validate_definition}
use yaaos.Definition.Names.{flatten-Inlined}
use yaaos.Definition.Inlining.{Inlined, IsDistinct, stage_names}
use yaaos.Definition.Fuel.{flatten_ends}
use yaaos.Definition.Callers.{transitive_callers_exact}
use yaaos.Definition.CallGraph.{Reaches}
use yaaos.Definition.Candidates.{AllFlatten, Flattens}
use yaaos.Definition.Stable.{validate_definition_exact}
use yaaos.Scenarios.{base_pipeline, calling_pipeline, skill_stage, two_stages}

abbrev one : Definitions
one = (1, base_pipeline) ∷ []

abbrev both : Definitions
both = (1, base_pipeline) ∷ (2, calling_pipeline) ∷ []

flatten_calling : flatten calling_pipeline both ≡ ok (record { stages = two_stages })
unfolding flatten lookup expand expand_stages expand_stage append_named
flatten_calling = refl

flatten-Inlined_example :
    Inlined both calling_pipeline.stages two_stages × IsDistinct (stage_names two_stages)
flatten-Inlined_example = flatten-Inlined calling_pipeline both flatten_calling

flatten_ends_example : flatten calling_pipeline both ≢ err out_of_fuel
flatten_ends_example = flatten_ends calling_pipeline both

transitive_callers_exact_example :
    (callers : List ℕ) × (transitive_callers 1 both ≡ some callers)
    × ((a : ℕ) → (mem a callers ≡ true) ↔ Reaches both 1 a)
transitive_callers_exact_example = transitive_callers_exact 1 both

flatten_base : Flattens base_pipeline one
unfolding flatten lookup expand expand_stages expand_stage append_named
flatten_base = (record { stages = ExecutableStage.skill (skill_stage 10 "build") ∷ [] }, refl)

lookup-one : (k : ℕ) (d : PipelineDefinition) → lookup k one ≡ some d → base_pipeline ≡ d
unfolding lookup
lookup-one k d h = elim (Bool-cases (1 == k)) [
  | inl y ↦
      let e : ◌≡◌ {A = Option PipelineDefinition} (some base_pipeline) (some d) =
        sym (rw (y, lookup) refl) ∙ h in
      cc
  | inr n ↦
      let e : ◌≡◌ {A = Option PipelineDefinition} none (some d) = sym (rw (n, lookup) refl) ∙ h in
      cc
]

one-AllFlatten : AllFlatten one
one-AllFlatten = record {
  flattens = λ k d h. subst (λ e. Flattens e one) (lookup-one k d h) flatten_base;
}

validate_definition_exact_example :
    (validate_definition calling_pipeline one ≡ ok tt) ↔ AllFlatten (put 2 calling_pipeline one)
validate_definition_exact_example = validate_definition_exact calling_pipeline one one-AllFlatten
