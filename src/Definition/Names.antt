-- ===== src/Definition/Names.antt =====
-- What `flatten` returns (apps/backend/app/domain/pipelines/definition.py).
use yaaos.Prelude.{
  ℕ, zero, suc, String, false, ◌≡◌, refl, ap, sym, ◌∙◌, some, List, [], ◌∷◌, ◌++◌, ok, >>=-eq-ok,
  guard-eq-ok, ok-injective, arith, mem, length,
}
use mathlib.Core.List.{append-nil, append_assoc}
use yaaos.Definition.Model.{
  Stage, ExecutableStage, ActionStage, PipelineCallStage, PipelineDefinition, FlattenedDefinition,
}
use yaaos.Definition.Flatten.{
  call_cycle, Definitions, lookup, seen, Flat, Expanded, append_named, expand_stage, expand_stages,
  expand, flatten,
}
use yaaos.Definition.Inlining.{
  stage_names, IsDistinct, Inlined, done, keep_skill, keep_review, keep_action, inline_call,
  seen-append, IsDistinct-snoc, stage_names-append,
}

-- The accumulators agree: `seen_names` are the names of `stages`, each once.
record Agrees (acc : Flat) : Type 0 where
  distinct : IsDistinct (stage_names acc.stages)
  same : (n : String) → seen n acc.seen_names ≡ seen n (stage_names acc.stages)

-- What an expansion of `ss` does to the accumulators.
record Adds (defs : Definitions) (ss : List Stage) (acc acc' : Flat) : Type 0 where
  added : List ExecutableStage
  inlined : Inlined defs ss added
  stages : acc'.stages ≡ acc.stages ++ added
  agrees : Agrees acc → Agrees acc'

Agrees-action :
    (a : ActionStage) (acc : Flat)
    → Agrees acc
    → Agrees (record acc { stages = acc.stages ++ ExecutableStage.action a ∷ [] })
Agrees-action a acc h =
    let e = stage_names-append acc.stages (ExecutableStage.action a ∷ []) in
    let f = append-nil (stage_names acc.stages) in
    record { distinct = rw (e, f) h.distinct; same = λ n. rw (e, f) (h.same n) }

-- A stage with a fresh name.
Agrees-named :
    (name : String) (s : ExecutableStage) (acc : Flat)
    → stage_names (s ∷ []) ≡ name ∷ []
    → seen name acc.seen_names ≡ false
    → Agrees acc
    → Agrees (record { stages = acc.stages ++ s ∷ []; seen_names = name ∷ acc.seen_names })
Agrees-named name s acc e fresh h =
    let f = stage_names-append acc.stages (s ∷ []) in
    record {
      distinct =
          rw (f, e)
            (IsDistinct-snoc (stage_names acc.stages) name h.distinct (sym (h.same name) ∙ fresh));
      same = λ n.
          rw (f, e) (ground (arith, h.same n, seen-append n (stage_names acc.stages) (name ∷ [])));
    }

append_named-eq-ok :
    (name : String) (s : ExecutableStage) (acc : Flat) {acc' : Flat}
    → append_named name s acc ≡ ok acc'
    → (seen name acc.seen_names ≡ false)
      × (acc' ≡ record { stages = acc.stages ++ s ∷ []; seen_names = name ∷ acc.seen_names })
unfolding append_named
append_named-eq-ok name s acc h = ground arith

Agrees-append_named :
    (name : String) (s : ExecutableStage) (acc mid : Flat)
    → stage_names (s ∷ []) ≡ name ∷ []
    → append_named name s acc ≡ ok mid
    → (mid.stages ≡ acc.stages ++ s ∷ []) × (Agrees acc → Agrees mid)
Agrees-append_named name s acc mid e h =
    let (fresh, eq) = append_named-eq-ok name s acc h in
    (rw eq, λ a. rw eq (Agrees-named name s acc e fresh a))

module _ (defs : Definitions) where
  -- The nested expansions do what they should.
  Sound : (PipelineDefinition → Flat → Expanded) → Type 0
  Sound recur =
      (callee : PipelineDefinition) (acc acc' : Flat)
      → recur callee acc ≡ ok acc'
      → Adds defs callee.stages acc acc'

  Adds-nil : (acc acc' : Flat) → acc ≡ acc' → Adds defs [] acc acc'
  Adds-nil acc acc' e = record {
    added = [];
    inlined = done;
    stages = rw (← e) (sym (append-nil acc.stages));
    agrees = λ a. rw (← e) a;
  }

  Adds-cons :
      (s : Stage) (e : ExecutableStage) (ss : List Stage) (acc mid acc' : Flat)
      → ((es : List ExecutableStage) → Inlined defs ss es → Inlined defs (s ∷ ss) (e ∷ es))
      → (mid.stages ≡ acc.stages ++ e ∷ []) × (Agrees acc → Agrees mid)
      → Adds defs ss mid acc'
      → Adds defs (s ∷ ss) acc acc'
  Adds-cons s e ss acc mid acc' build one rest = record {
    added = e ∷ rest.added;
    inlined = build rest.added rest.inlined;
    stages =
        rest.stages ∙ ap (λ l. l ++ rest.added) one.0 ∙ append_assoc acc.stages (e ∷ []) rest.added;
    agrees = λ a. rest.agrees (one.1 a);
  }

  Adds-call :
      (s : PipelineCallStage) (callee : PipelineDefinition) (ss : List Stage) (acc mid acc' : Flat)
      → lookup s.pipeline_id defs ≡ some callee
      → Adds defs callee.stages acc mid
      → Adds defs ss mid acc'
      → Adds defs (Stage.call s ∷ ss) acc acc'
  Adds-call s callee ss acc mid acc' found one rest = record {
    added = one.added ++ rest.added;
    inlined = inline_call s callee (one.added ++ rest.added) found one.inlined rest.inlined refl;
    stages =
        rest.stages
        ∙ ap (λ l. l ++ rest.added) one.stages
        ∙ append_assoc acc.stages one.added rest.added;
    agrees = λ a. rest.agrees (one.agrees a);
  }

  pub expand_call-eq-ok :
      (recur : PipelineDefinition → Flat → Expanded) (s : PipelineCallStage) (acc mid : Flat)
      → expand_stage recur defs (Stage.call s) acc ≡ ok mid
      → (callee : PipelineDefinition) × (lookup s.pipeline_id defs ≡ some callee)
        × (recur callee acc ≡ ok mid)
  unfolding expand_stage
  expand_call-eq-ok recur s acc mid h = ground arith

  Agrees-expand_action :
      (recur : PipelineDefinition → Flat → Expanded) (s : ActionStage) (acc mid : Flat)
      → expand_stage recur defs (Stage.action s) acc ≡ ok mid
      → (mid.stages ≡ acc.stages ++ ExecutableStage.action s ∷ []) × (Agrees acc → Agrees mid)
  unfolding expand_stage
  Agrees-expand_action recur s acc mid h =
      let e = sym (ok-injective h) in (rw e, λ a. rw e (Agrees-action s acc a))

  expand_stages-Adds :
      (recur : PipelineDefinition → Flat → Expanded)
      → Sound recur
      → (ss : List Stage) (acc acc' : Flat) → expand_stages recur defs ss acc ≡ ok acc'
      → Adds defs ss acc acc'
  unfolding Sound expand_stages
  expand_stages-Adds recur sound [] acc acc' h = Adds-nil acc acc' (cc)
  expand_stages-Adds recur sound (Stage.action s ∷ ss) acc acc' h =
      let (mid, one, rest) = >>=-eq-ok (expand_stage recur defs (Stage.action s) acc) _ h in
      Adds-cons (Stage.action s) (ExecutableStage.action s) ss acc mid acc' (λ es. keep_action s)
        (Agrees-expand_action recur s acc mid one) (expand_stages-Adds recur sound ss mid acc' rest)
  expand_stages-Adds recur sound (Stage.skill s ∷ ss) acc acc' h =
      let (mid, one, rest) = >>=-eq-ok (expand_stage recur defs (Stage.skill s) acc) _ h in
      Adds-cons (Stage.skill s) (ExecutableStage.skill s) ss acc mid acc' (λ es. keep_skill s)
        (Agrees-append_named s.name (ExecutableStage.skill s) acc mid refl
          (unfold expand_stage in one))
        (expand_stages-Adds recur sound ss mid acc' rest)
  expand_stages-Adds recur sound (Stage.review s ∷ ss) acc acc' h =
      let (mid, one, rest) = >>=-eq-ok (expand_stage recur defs (Stage.review s) acc) _ h in
      Adds-cons (Stage.review s) (ExecutableStage.review s) ss acc mid acc' (λ es. keep_review s)
        (Agrees-append_named s.name (ExecutableStage.review s) acc mid refl
          (unfold expand_stage in one))
        (expand_stages-Adds recur sound ss mid acc' rest)
  expand_stages-Adds recur sound (Stage.call s ∷ ss) acc acc' h =
      let (mid, one, rest) = >>=-eq-ok (expand_stage recur defs (Stage.call s) acc) _ h in
      let (callee, found, nested) = expand_call-eq-ok recur s acc mid one in
      Adds-call s callee ss acc mid acc' found (sound callee acc mid nested)
        (expand_stages-Adds recur sound ss mid acc' rest)

  expand-Sound : (n : ℕ) (chain : List ℕ) → Sound (λ callee acc. expand n defs chain callee acc)
  unfolding Sound expand
  expand-Sound zero chain callee acc acc' h = cc
  expand-Sound (suc n) chain callee acc acc' h =
      let next = chain ++ callee.id ∷ [] in
      let rest = expand_stages (λ d a. expand n defs next d a) defs callee.stages acc in
      expand_stages-Adds (λ d a. expand n defs next d a) (expand-Sound n next) callee.stages acc
        acc' (guard-eq-ok (mem callee.id chain) (call_cycle next) rest h).1

-- A successful flatten is the definition with every call replaced by the stages that it names, in
-- order and at any depth, and no two of its skill and review stages have one name.
pub flatten-Inlined :
    (d : PipelineDefinition) (defs : Definitions) {f : FlattenedDefinition}
    → flatten d defs ≡ ok f
    → Inlined defs d.stages f.stages × IsDistinct (stage_names f.stages)
unfolding flatten Sound
flatten-Inlined d defs {f} h =
    let start : Flat = record { stages = []; seen_names = [] } in
    let (acc, found, same) = >>=-eq-ok (expand (suc (suc (length defs))) defs [] d start) _ h in
    let adds = expand-Sound defs (suc (suc (length defs))) [] d start acc found in
    let here : acc.stages ≡ f.stages =
      ap (λ (g : FlattenedDefinition). g.stages) (ok-injective same) in
    (
      rw (← here, adds.stages) adds.inlined,
      rw (← here) (adds.agrees (record { distinct = tt; same = λ n. refl })).distinct,
    )
