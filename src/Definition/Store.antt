-- ===== src/Definition/Store.antt =====
-- The store of an organisation's pipelines: `create_pipeline`, `update_pipeline` and `delete_pipeline`
-- of apps/backend/app/domain/pipelines/service.py. The rows of one organisation are the mapping that
-- `_load_org_definitions` reads.
use yaaos.Prelude.{
  ℕ, String, Bool, false, not, ◌&&◌, ◌||◌, Option, none, some, List, [], ◌∷◌, ◌++◌, Result, ok, err,
  ◌>>=◌, ◌==◌, if◌then◌else◌, str_eq, length,
}
use yaaos.Definition.Model.{PipelineDefinition}
use yaaos.Definition.Flatten.{ValidationError, Definitions, lookup, put}
use yaaos.Definition.Validate.{calls, validate_definition}

pub data PipelineAudit : Type 0 where
  created updated : ℕ → String → ℕ → PipelineAudit
  deleted : ℕ → String → PipelineAudit

pub record PipelineStore : Type 0 where
  pub definitions : Definitions
  pub audits : List PipelineAudit

-- `integrity_error` is the primary key's refusal.
pub data StoreError : Type 0 where
  invalid : ValidationError → StoreError
  name_taken : String → StoreError
  pipeline_not_found pipeline_referenced integrity_error : ℕ → StoreError

abbrev pub checked : Result ValidationError (Unit {0}) → Result StoreError (Unit {0})
checked (ok u) = ok u
checked (err e) = err (StoreError.invalid e)

-- A row other than the excluded one that fits.
abbrev pub other_where : Option ℕ → (PipelineDefinition → Bool) → Definitions → Bool
other_where x p [] = false
other_where none p ((k, d) ∷ ds) = p d || other_where none p ds
other_where (some i) p ((k, d) ∷ ds) = (not (k == i) && p d) || other_where (some i) p ds

abbrev pub has_name : String → PipelineDefinition → Bool
has_name name d = str_eq d.name name

abbrev pub has_key : ℕ → Definitions → Bool
has_key i [] = false
has_key i ((k, d) ∷ ds) = (k == i) || has_key i ds

unfoldable pub assert_name_available :
    String → Option ℕ → Definitions → Result StoreError (Unit {0})
assert_name_available name exclude ds =
    if other_where exclude (has_name name) ds then err (StoreError.name_taken name) else ok tt

unfoldable pub insert_row : PipelineDefinition → PipelineStore → Result StoreError PipelineStore
insert_row d s =
    if has_key d.id s.definitions
    then err (StoreError.integrity_error d.id)
    else ok (record {
      definitions = s.definitions ++ (d.id, d) ∷ [];
      audits = s.audits ++ PipelineAudit.created d.id d.name (length d.stages) ∷ [];
    })

unfoldable pub create_pipeline :
    PipelineDefinition → PipelineStore → Result StoreError PipelineStore
create_pipeline d s = checked (validate_definition d s.definitions) >>= λ _.
    assert_name_available d.name none s.definitions >>= λ _. insert_row d s

-- The path's id is authoritative.
abbrev pub with_id : ℕ → PipelineDefinition → PipelineDefinition
with_id i d = record d { id = i }

abbrev pub replace_row : PipelineDefinition → PipelineStore → PipelineStore
replace_row d s = record {
  definitions = put d.id d s.definitions;
  audits = s.audits ++ PipelineAudit.updated d.id d.name (length d.stages) ∷ [];
}

unfoldable pub update_pipeline :
    ℕ → PipelineDefinition → PipelineStore → Result StoreError PipelineStore
update_pipeline i d s = elim (lookup i s.definitions) [
  | none ↦ err (StoreError.pipeline_not_found i)
  | some _ ↦ checked (validate_definition (with_id i d) s.definitions) >>= λ _.
      assert_name_available d.name (some i) s.definitions >>= λ _. ok (replace_row (with_id i d) s)
]

abbrev pub calls_pipeline : ℕ → PipelineDefinition → Bool
calls_pipeline i d = calls i d.stages

abbrev pub pipeline_referenced_by_call : ℕ → Definitions → Bool
pipeline_referenced_by_call i ds = other_where (some i) (calls_pipeline i) ds

unfoldable pub without : ℕ → Definitions → Definitions
without i [] = []
without i ((k, d) ∷ ds) = let rest = without i ds in if k == i then rest else (k, d) ∷ rest

abbrev pub remove_row : ℕ → PipelineDefinition → PipelineStore → PipelineStore
remove_row i d s = record {
  definitions = without i s.definitions;
  audits = s.audits ++ PipelineAudit.deleted i d.name ∷ [];
}

-- `bound` is the answer of domain/repos: whether a trigger binding references the pipeline.
unfoldable pub delete_pipeline : (ℕ → Bool) → ℕ → PipelineStore → Result StoreError PipelineStore
delete_pipeline bound i s = elim (lookup i s.definitions) [
  | none ↦ err (StoreError.pipeline_not_found i)
  | some d ↦
      if pipeline_referenced_by_call i s.definitions || bound i
      then err (StoreError.pipeline_referenced i)
      else ok (remove_row i d s)
]
