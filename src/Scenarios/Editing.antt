-- ===== src/Scenarios/Editing.antt =====
-- The theorem on the store of pipelines at a few edits.
use yaaos.Prelude.{false, ◌≡◌, refl, [], ◌∷◌, ok}
use yaaos.Definition.Flatten.{
  lookup, put, flatten, expand, expand_stages, expand_stage, append_named,
}
use yaaos.Definition.Validate.{
  calls, direct_callers, visit_callers, visit_targets, search_callers, transitive_callers,
  flatten_each, validate_definition,
}
use yaaos.Definition.Candidates.{AllFlatten}
use yaaos.Definition.Store.{
  PipelineStore, PipelineAudit, create_pipeline, insert_row, assert_name_available, delete_pipeline,
  without,
}
use yaaos.Definition.Kept.{Edit, Edits, Edits-AllFlatten}
use yaaos.Scenarios.{base_pipeline, calling_pipeline}

abbrev empty_store : PipelineStore
empty_store = record { definitions = []; audits = [] }

abbrev with_base : PipelineStore
with_base = record {
  definitions = (1, base_pipeline) ∷ [];
  audits = PipelineAudit.created 1 "base" 1 ∷ [];
}

abbrev with_both : PipelineStore
with_both = record {
  definitions = (1, base_pipeline) ∷ (2, calling_pipeline) ∷ [];
  audits = PipelineAudit.created 1 "base" 1 ∷ PipelineAudit.created 2 "calling" 2 ∷ [];
}

abbrev without_caller : PipelineStore
without_caller = record {
  definitions = (1, base_pipeline) ∷ [];
  audits =
      PipelineAudit.created 1 "base" 1
      ∷ PipelineAudit.created 2 "calling" 2
      ∷ PipelineAudit.deleted 2 "calling"
      ∷ [];
}

creates_base : create_pipeline base_pipeline empty_store ≡ ok with_base
unfolding create_pipeline insert_row assert_name_available validate_definition flatten_each
    transitive_callers search_callers visit_targets visit_callers direct_callers calls flatten
    expand expand_stages expand_stage append_named lookup put
creates_base = refl

creates_caller : create_pipeline calling_pipeline with_base ≡ ok with_both
unfolding create_pipeline insert_row assert_name_available validate_definition flatten_each
    transitive_callers search_callers visit_targets visit_callers direct_callers calls flatten
    expand expand_stages expand_stage append_named lookup put
creates_caller = refl

deletes_caller : delete_pipeline (λ i. false) 2 with_both ≡ ok without_caller
unfolding delete_pipeline without calls lookup
deletes_caller = refl

three_changes : Edits empty_store without_caller
three_changes = Edits.next (Edit.creation base_pipeline creates_base) (
    Edits.next (Edit.creation calling_pipeline creates_caller)
      (Edits.next (Edit.deletion (λ i. false) 2 deletes_caller) Edits.stop))

nothing_stored : AllFlatten []
unfolding lookup
nothing_stored = record { flattens = λ k d e. cc }

Edits-AllFlatten_example : AllFlatten without_caller.definitions
Edits-AllFlatten_example = Edits-AllFlatten three_changes nothing_stored
