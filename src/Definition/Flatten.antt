-- ===== src/Definition/Flatten.antt =====
-- `flatten` of apps/backend/app/domain/pipelines/definition.py: the recursive expansion of call
-- stages. `_expand` recurs on fuel, one unit for each nested call; the chain of the pipelines that
-- are being expanded holds no id twice, and all but the first stand in the mapping, so two units more
-- than the mapping has entries are enough.
use yaaos.Prelude.{
  ℕ, zero, suc, String, Bool, false, ◌||◌, Option, none, some, List, [], ◌∷◌, ◌++◌, Result, ok, err,
  ◌>>=◌, length, mem, str_eq, ◌==◌, if◌then◌else◌,
}
use yaaos.Definition.Model.{Stage, ExecutableStage, PipelineDefinition, FlattenedDefinition}

-- `PipelineValidationError`, by its message; `key_error` is what `candidates[pipeline_id]` raises on
-- a missing key, and `out_of_fuel` stands for a recursion that does not end.
pub data ValidationError : Type 0 where
  call_cycle : List ℕ → ValidationError
  unknown_pipeline : ℕ → ℕ → ValidationError
  duplicate_name : String → ValidationError
  key_error : ℕ → ValidationError
  out_of_fuel : ValidationError

-- A mapping from ids to definitions, in the order of its entries.
abbrev pub Definitions : Type 0
Definitions = List (ℕ × PipelineDefinition)

unfoldable pub lookup : ℕ → Definitions → Option PipelineDefinition
lookup k [] = none
lookup k ((j, d) ∷ ds) = if j == k then some d else lookup k ds

-- `{**definitions, k: d}`
unfoldable pub put : ℕ → PipelineDefinition → Definitions → Definitions
put k d [] = (k, d) ∷ []
put k d ((j, e) ∷ ds) = if j == k then (k, d) ∷ ds else (j, e) ∷ put k d ds

-- `name in seen_names`
abbrev pub seen : String → List String → Bool
seen n [] = false
seen n (m ∷ ms) = str_eq m n || seen n ms

-- The two accumulators of `flatten`.
pub record Flat : Type 0 where
  pub stages : List ExecutableStage
  pub seen_names : List String

abbrev pub Expanded : Type 0
Expanded = Result ValidationError Flat

unfoldable pub append_named : String → ExecutableStage → Flat → Expanded
append_named name s acc =
    if seen name acc.seen_names
    then err (duplicate_name name)
    else ok (record { stages = acc.stages ++ s ∷ []; seen_names = name ∷ acc.seen_names })

unfoldable pub expand_stage :
    (PipelineDefinition → Flat → Expanded) → Definitions → Stage → Flat → Expanded
unfolding append_named
expand_stage recur defs (Stage.call s) acc = elim (lookup s.pipeline_id defs) [
  | none ↦ err (unknown_pipeline s.id s.pipeline_id)
  | some callee ↦ recur callee acc
]
expand_stage recur defs (Stage.action s) acc =
    ok (record acc { stages = acc.stages ++ ExecutableStage.action s ∷ [] })
expand_stage recur defs (Stage.skill s) acc = append_named s.name (ExecutableStage.skill s) acc
expand_stage recur defs (Stage.review s) acc = append_named s.name (ExecutableStage.review s) acc

unfoldable pub expand_stages :
    (PipelineDefinition → Flat → Expanded) → Definitions → List Stage → Flat → Expanded
expand_stages recur defs [] acc = ok acc
expand_stages recur defs (s ∷ ss) acc =
    expand_stage recur defs s acc >>= λ acc'. expand_stages recur defs ss acc'

unfoldable pub expand : ℕ → Definitions → List ℕ → PipelineDefinition → Flat → Expanded
expand zero defs chain d acc = err out_of_fuel
expand (suc n) defs chain d acc =
    let next_chain = chain ++ d.id ∷ [] in
    let rest =
      expand_stages (λ callee acc'. expand n defs next_chain callee acc') defs d.stages acc in
    if mem d.id chain then err (call_cycle next_chain) else rest

unfoldable pub flatten :
    PipelineDefinition → Definitions → Result ValidationError FlattenedDefinition
unfolding expand
flatten d defs =
    expand (suc (suc (length defs))) defs [] d (record { stages = []; seen_names = [] }) >>= λ acc.
    ok (record { stages = acc.stages })
