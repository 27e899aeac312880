-- ===== src/Definition/Inlining.antt =====
-- Stages with every call replaced, and the names of stages: the vocabulary of `flatten` of
-- apps/backend/app/domain/pipelines/definition.py.
use yaaos.Prelude.{String, false, ◌||◌, ◌≡◌, refl, ap, some, List, [], ◌∷◌, ◌++◌, eq_iff, arith}
use yaaos.Definition.Model.{
  Stage, ExecutableStage, SkillStage, ReviewSkillStage, ActionStage, PipelineCallStage,
  PipelineDefinition,
}
use yaaos.Definition.Flatten.{Definitions, lookup, seen}

-- The names of the name-bearing stages.
abbrev pub stage_names : List ExecutableStage → List String
stage_names [] = []
stage_names (ExecutableStage.skill s ∷ ss) = s.name ∷ stage_names ss
stage_names (ExecutableStage.review s ∷ ss) = s.name ∷ stage_names ss
stage_names (ExecutableStage.action s ∷ ss) = stage_names ss

abbrev pub IsDistinct : List String → Type 0
IsDistinct [] = Unit
IsDistinct (x ∷ xs) = (seen x xs ≡ false) × IsDistinct xs

-- `es` are the stages `ss` with every call replaced by the stages of the pipeline that it names.
pub data Inlined (defs : Definitions) : List Stage → List ExecutableStage → Type 0 where
  done : Inlined defs [] []
  keep_skill :
      (s : SkillStage) {ss : List Stage} {es : List ExecutableStage}
      → Inlined defs ss es
      → Inlined defs (Stage.skill s ∷ ss) (ExecutableStage.skill s ∷ es)
  keep_review :
      (s : ReviewSkillStage) {ss : List Stage} {es : List ExecutableStage}
      → Inlined defs ss es
      → Inlined defs (Stage.review s ∷ ss) (ExecutableStage.review s ∷ es)
  keep_action :
      (s : ActionStage) {ss : List Stage} {es : List ExecutableStage}
      → Inlined defs ss es
      → Inlined defs (Stage.action s ∷ ss) (ExecutableStage.action s ∷ es)
  inline_call :
      (s : PipelineCallStage) (callee : PipelineDefinition) {ss : List Stage}
      {es fs : List ExecutableStage} (gs : List ExecutableStage)
      → lookup s.pipeline_id defs ≡ some callee
      → Inlined defs callee.stages es
      → Inlined defs ss fs
      → gs ≡ es ++ fs
      → Inlined defs (Stage.call s ∷ ss) gs

pub seen-append : (n : String) (xs ys : List String) → seen n (xs ++ ys) ≡ (seen n xs || seen n ys)
seen-append n [] ys = refl
seen-append n (x ∷ xs) ys = ground (arith, seen-append n xs ys)

pub IsDistinct-snoc :
    (xs : List String) (a : String) → IsDistinct xs → seen a xs ≡ false → IsDistinct (xs ++ a ∷ [])
IsDistinct-snoc [] a h m = (refl, tt)
IsDistinct-snoc (x ∷ xs) a h m = (
  ground (arith, seen-append x xs (a ∷ []), eq_iff x a, eq_iff a x),
  IsDistinct-snoc xs a h.1 (ground arith),
)

pub stage_names-append :
    (es fs : List ExecutableStage) → stage_names (es ++ fs) ≡ stage_names es ++ stage_names fs
stage_names-append [] fs = refl
stage_names-append (ExecutableStage.skill s ∷ es) fs =
    ap (λ l. s.name ∷ l) (stage_names-append es fs)
stage_names-append (ExecutableStage.review s ∷ es) fs =
    ap (λ l. s.name ∷ l) (stage_names-append es fs)
stage_names-append (ExecutableStage.action s ∷ es) fs = stage_names-append es fs
