-- ===== src/Definition/Kept.antt =====
-- What the store of an organisation's pipelines keeps through any edits
-- (apps/backend/app/domain/pipelines/service.py).
use yaaos.Prelude.{
  ℕ, Bool, false, ◌||◌, ◌≡◌, refl, sym, ◌∙◌, none, some, [], ◌∷◌, ◌++◌, arith, Result, ok, err,
  ◌>>=◌, ◌==◌, Bool-cases, Option-cases, inl, inr, >>=-eq-ok, guard-eq-ok, ok-injective,
}
use mathlib.Core.Path.{subst}
use yaaos.Definition.Model.{PipelineDefinition}
use yaaos.Definition.Flatten.{ValidationError, Definitions, lookup, put}
use yaaos.Definition.Validate.{validate_definition}
use yaaos.Definition.Candidates.{AllFlatten}
use yaaos.Definition.Stable.{AllFlatten-of_accepted}
use yaaos.Definition.Store.{
  PipelineStore, StoreError, pipeline_not_found, pipeline_referenced, checked, has_key,
  assert_name_available, insert_row, create_pipeline, with_id, replace_row, update_pipeline,
  pipeline_referenced_by_call, delete_pipeline, remove_row,
}
use yaaos.Definition.Deleted.{AllFlatten-without}

-- One accepted edit.
pub data Edit : PipelineStore → PipelineStore → Type 0 where
  creation : {s t : PipelineStore} (d : PipelineDefinition) → create_pipeline d s ≡ ok t → Edit s t
  update :
      {s t : PipelineStore} (i : ℕ) (d : PipelineDefinition)
      → update_pipeline i d s ≡ ok t
      → Edit s t
  deletion :
      {s t : PipelineStore} (bound : ℕ → Bool) (i : ℕ) → delete_pipeline bound i s ≡ ok t → Edit s t

pub data Edits : PipelineStore → PipelineStore → Type 0 where
  stop : {s : PipelineStore} → Edits s s
  next : {s t v : PipelineStore} → Edit s t → Edits t v → Edits s v

accepted : (r : Result ValidationError (Unit {0})) {u : Unit {0}} → checked r ≡ ok u → r ≡ ok tt
accepted (ok u) h = refl
accepted (err e) {u} h =
    let bad : ◌≡◌ {A = Result StoreError (Unit {0})} (err (StoreError.invalid e)) (ok u) = h in cc

put-absent :
    (d : PipelineDefinition) (k : ℕ) (defs : Definitions)
    → has_key k defs ≡ false
    → put k d defs ≡ defs ++ (k, d) ∷ []
unfolding put
put-absent d k [] h = refl
put-absent d k ((j, e) ∷ ds) h =
    let n : (j == k) ≡ false = ground (arith, h) in
    let f : has_key k ds ≡ false = ground (arith, h) in rw (put, n, put-absent d k ds f) refl

create-AllFlatten :
    (d : PipelineDefinition) (s : PipelineStore) {t : PipelineStore}
    → create_pipeline d s ≡ ok t
    → AllFlatten s.definitions
    → AllFlatten t.definitions
unfolding create_pipeline insert_row
create-AllFlatten d s {t} h before =
    let (u, v, k) = >>=-eq-ok (checked (validate_definition d s.definitions)) _ h in
    let (u', n, k') = >>=-eq-ok (assert_name_available d.name none s.definitions) _ k in
    let (fresh, e) = guard-eq-ok (has_key d.id s.definitions) _ _ k' in
    let after : AllFlatten (put d.id d s.definitions) =
      AllFlatten-of_accepted d s.definitions (accepted _ v) before in
    subst (λ (x : PipelineStore). AllFlatten x.definitions) (ok-injective e)
      (subst AllFlatten (put-absent d d.id s.definitions fresh) after)

update-AllFlatten :
    (i : ℕ) (d : PipelineDefinition) (s : PipelineStore) {t : PipelineStore}
    → update_pipeline i d s ≡ ok t
    → AllFlatten s.definitions
    → AllFlatten t.definitions
unfolding update_pipeline
update-AllFlatten i d s {t} h before = elim (Option-cases (lookup i s.definitions)) [
  | inl e ↦
      let bad : ◌≡◌ {A = Result StoreError PipelineStore} (err (pipeline_not_found i)) (ok t) =
        sym (rw (update_pipeline, e) refl) ∙ h in
      cc
  | inr (old, e) ↦
      let d' = with_id i d in
      let write : Unit {0} → Result StoreError PipelineStore = λ _. ok (replace_row d' s) in
      let name : Unit {0} → Result StoreError PipelineStore =
        λ _. assert_name_available d.name (some i) s.definitions >>= write in
      let k : (checked (validate_definition d' s.definitions) >>= name) ≡ ok t =
        sym (rw (update_pipeline, e) refl) ∙ h in
      let (u, v, k') = >>=-eq-ok (checked (validate_definition d' s.definitions)) name k in
      let (u', n, f) = >>=-eq-ok (assert_name_available d.name (some i) s.definitions) write k' in
      subst (λ (x : PipelineStore). AllFlatten x.definitions) (ok-injective f)
        (AllFlatten-of_accepted d' s.definitions (accepted _ v) before)
]

delete-AllFlatten :
    (bound : ℕ → Bool) (i : ℕ) (s : PipelineStore) {t : PipelineStore}
    → delete_pipeline bound i s ≡ ok t
    → AllFlatten s.definitions
    → AllFlatten t.definitions
unfolding delete_pipeline
delete-AllFlatten bound i s {t} h before = elim (Option-cases (lookup i s.definitions)) [
  | inl e ↦
      let bad : ◌≡◌ {A = Result StoreError PipelineStore} (err (pipeline_not_found i)) (ok t) =
        sym (rw (delete_pipeline, e) refl) ∙ h in
      cc
  | inr (d, e) ↦ elim (Bool-cases (pipeline_referenced_by_call i s.definitions || bound i)) [
    | inl y ↦
        let bad : ◌≡◌ {A = Result StoreError PipelineStore} (err (pipeline_referenced i)) (ok t) =
          sym (rw (delete_pipeline, e, y) refl) ∙ h in
        cc
    | inr n ↦
        let free : pipeline_referenced_by_call i s.definitions ≡ false = ground (arith, n) in
        let k : ◌≡◌ {A = Result StoreError PipelineStore} (ok (remove_row i d s)) (ok t) =
          sym (rw (delete_pipeline, e, n) refl) ∙ h in
        subst (λ (x : PipelineStore). AllFlatten x.definitions) (ok-injective k)
          (AllFlatten-without i s.definitions free before)
  ]
]

Edit-AllFlatten :
    {s t : PipelineStore} → Edit s t → AllFlatten s.definitions → AllFlatten t.definitions
Edit-AllFlatten {s} (Edit.creation d h) before = create-AllFlatten d s h before
Edit-AllFlatten {s} (Edit.update i d h) before = update-AllFlatten i d s h before
Edit-AllFlatten {s} (Edit.deletion bound i h) before = delete-AllFlatten bound i s h before

-- After any edits that were accepted, from a store of which every pipeline can be flattened, every
-- pipeline of the store can be: a run of any of them can start.
pub Edits-AllFlatten :
    {s t : PipelineStore} → Edits s t → AllFlatten s.definitions → AllFlatten t.definitions
Edits-AllFlatten Edits.stop before = before
Edits-AllFlatten (Edits.next h k) before = Edits-AllFlatten k (Edit-AllFlatten h before)
