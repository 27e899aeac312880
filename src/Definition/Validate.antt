-- ===== src/Definition/Validate.antt =====
-- `_transitive_callers` and `validate_definition` of
-- apps/backend/app/domain/pipelines/definition.py. A set is a list without repetitions; the order in
-- which Python walks its sets decides no result. The `while` loop takes fuel.
use yaaos.Prelude.{
  ℕ, zero, suc, Bool, false, ◌||◌, Option, none, some, List, [], ◌∷◌, Result, ok, err, ◌>>=◌,
  length, mem, ◌==◌, if◌then◌else◌,
}
use yaaos.Definition.Model.{Stage, PipelineDefinition}
use yaaos.Definition.Flatten.{
  ValidationError, key_error, out_of_fuel, Definitions, lookup, put, flatten,
}

-- Some stage of the list calls `target`.
unfoldable pub calls : ℕ → List Stage → Bool
calls target [] = false
calls target (Stage.call s ∷ ss) = (s.pipeline_id == target) || calls target ss
calls target (_ ∷ ss) = calls target ss

-- `direct_callers.get(target, ())`
unfoldable pub direct_callers : Definitions → ℕ → List ℕ
unfolding calls
direct_callers [] target = []
direct_callers ((pid, d) ∷ ds) target =
    let rest = direct_callers ds target in if calls target d.stages then pid ∷ rest else rest

-- `callers` and `next_frontier`
pub record Search : Type 0 where
  pub callers : List ℕ
  pub next_frontier : List ℕ

-- `for caller in direct_callers.get(target, ())`
unfoldable pub visit_callers : List ℕ → Search → Search
visit_callers [] s = s
visit_callers (c ∷ cs) s = visit_callers cs (
    if mem c s.callers
    then s
    else record { callers = c ∷ s.callers; next_frontier = c ∷ s.next_frontier })

-- `for target in frontier`
unfoldable pub visit_targets : Definitions → List ℕ → Search → Search
unfolding visit_callers
visit_targets defs [] s = s
visit_targets defs (t ∷ ts) s = visit_targets defs ts (visit_callers (direct_callers defs t) s)

-- `while frontier`; `none` if the fuel runs out
unfoldable pub search_callers : ℕ → Definitions → List ℕ → List ℕ → Option (List ℕ)
unfolding visit_targets
search_callers zero defs frontier callers = none
search_callers (suc n) defs [] callers = some callers
search_callers (suc n) defs (t ∷ ts) callers =
    let s = visit_targets defs (t ∷ ts) (record { callers = callers; next_frontier = [] }) in
    search_callers n defs s.next_frontier s.callers

unfoldable pub transitive_callers : ℕ → Definitions → Option (List ℕ)
unfolding search_callers
transitive_callers pipeline_id defs =
    search_callers (suc (suc (length defs))) defs (pipeline_id ∷ []) []

-- `for pipeline_id in (…): flatten(candidates[pipeline_id], …)`
unfoldable pub flatten_each : Definitions → List ℕ → Result ValidationError (Unit {0})
flatten_each candidates [] = ok tt
flatten_each candidates (p ∷ ps) = elim (lookup p candidates) [
  | none ↦ err (key_error p)
  | some d ↦ flatten d candidates >>= λ _. flatten_each candidates ps
]

unfoldable pub validate_definition :
    PipelineDefinition → Definitions → Result ValidationError (Unit {0})
unfolding flatten_each
validate_definition d org_definitions =
    let candidates = put d.id d org_definitions in
    elim (transitive_callers d.id candidates) [
      | none ↦ err out_of_fuel
      | some callers ↦ flatten_each candidates (d.id ∷ callers)
    ]
