-- ===== src/Engine/Bounded.antt =====
-- `sendback_counts` through `_send_back_to_stage` and the dispatch that follows it
-- (apps/backend/app/domain/pipelines/engine.py).
use yaaos.Prelude.{
  ℕ, ◌≤◌, String, ◌≡◌, refl, ap, sym, ◌∙◌, Option, none, some, List, [], ◌∷◌, Result, ok, err,
  ◌>>=◌, arith, Bool-cases, Option-cases, inl, inr, get_elem?, ok-injective, leb, ◌⊎◌,
}
use mathlib.Core.Path.{subst}
use yaaos.Definition.Model.{ExecutableStage, SkillStage, ReviewSkillStage, ActionStage}
use yaaos.Boundary.{BoundaryDecision, pause, sendback_loop}
use yaaos.Engine.Rows.{
  Run, RunState, Kickoff, RevisionContext, StageExecution, StageKind, Invocation,
}
use yaaos.Engine.World.{
  World, Done, DispatchError, credential_unavailable, workspace_not_found, workspace_claim_failed,
  coding_agent_error, vcs_install_not_found, runtime_error, dispatch_error, Raised, assertion_error,
  type_error, index_error, Services, ActionOutcome, action_result, action_error, action_raised,
  get_count, set_count, is_running,
}
use yaaos.Engine.Dispatch.{
  fail_stage, stage_exec, settle_invocation, checkout_of, park_provision, dispatch_invocation,
  dispatch_provision_stage, dispatch_skill_stage, workspace_is_live,
}
use yaaos.Engine.StartStage.{
  dispatch_review_only_stage, settle_action, run_action_stage, clear_revision, start_kind,
  start_stage_impl,
}
use yaaos.Engine.Pause.{enter_pause, send_back_to_stage}
use yaaos.Engine.Recovered.{get_count-set_count, run-enter_pause, enter_pause_idle}

-- The counters of the run in hand.
abbrev pub counts : World → List (String × ℕ)
counts w = w.run.sendback_counts

-- A world, if there is one, has these counters.
abbrev Preserves : List (String × ℕ) → Done → Type 0
Preserves m (ok v) = counts v ≡ m
Preserves m (err e) = Unit

Preserves-bind {ℓ} :
    {A : Type ℓ} (m : List (String × ℕ)) (r : Result Raised A) (f : A → Done)
    → ((a : A) → Preserves m (f a))
    → Preserves m (r >>= f)
Preserves-bind m (ok a) f h = h a
Preserves-bind m (err e) f h = tt

Preserves-some {ℓ} :
    {A : Type ℓ} (m : List (String × ℕ)) (e : Raised) (o : Option A) (f : A → Done)
    → ((a : A) → Preserves m (f a))
    → Preserves m (elim o as (λ k. Done) [ none ↦ err e | some a ↦ f a ])
Preserves-some m e none f h = tt
Preserves-some m e (some a) f h = h a

module _ (services : Services) where
  settle_invocation-Preserves :
      (o : Option DispatchError) (inv : Invocation) (id : ℕ) (x : StageExecution) (i : Option ℕ)
      (d : StageExecution) (w : World)
      → Preserves (counts w) (settle_invocation services o inv id x i d w)
  unfolding settle_invocation fail_stage
  settle_invocation-Preserves none inv id x i d w = refl
  settle_invocation-Preserves (some (credential_unavailable m)) inv id x i d w = refl
  settle_invocation-Preserves (some workspace_not_found) inv id x i d w = tt
  settle_invocation-Preserves (some workspace_claim_failed) inv id x i d w = tt
  settle_invocation-Preserves (some coding_agent_error) inv id x i d w = tt
  settle_invocation-Preserves (some vcs_install_not_found) inv id x i d w = tt
  settle_invocation-Preserves (some runtime_error) inv id x i d w = tt

  dispatch_invocation-Preserves :
      (inv : Invocation) (id : ℕ) (x : StageExecution) (i : Option ℕ) (d : StageExecution)
      (w : World)
      → Preserves (counts w) (dispatch_invocation services inv id x i d w)
  unfolding dispatch_invocation
  dispatch_invocation-Preserves inv id x i d w =
      Preserves-some (counts w) (dispatch_error workspace_not_found)
        (services.workspace_status inv.workspace_id) _
        (λ s. settle_invocation-Preserves (services.invocation_error inv) inv id x i d w)

  dispatch_provision_stage-Preserves :
      (k : Kickoff) (w : World) → Preserves (counts w) (dispatch_provision_stage services k w)
  unfolding dispatch_provision_stage park_provision
  dispatch_provision_stage-Preserves k w =
      elim (Option-cases (services.provision_error (checkout_of services k w))) [
        | inl n ↦ rw (Preserves, dispatch_provision_stage, n) refl
        | inr (e, y) ↦ rw (Preserves, dispatch_provision_stage, y) tt
      ]

  dispatch_skill_stage-Preserves :
      (s : SkillStage) (i : ℕ) (k : Kickoff) (r : Option RevisionContext) (w : World)
      → Preserves (counts w) (dispatch_skill_stage services s i k r w)
  unfolding dispatch_skill_stage
  dispatch_skill_stage-Preserves s i k r w =
      Preserves-some (counts w) assertion_error w.run.workspace_id _
        (λ id. dispatch_invocation-Preserves _ _ _ _ _ _)

  settle_action-Preserves :
      (x : StageExecution) (i : ℕ) (o : ActionOutcome) (w : World)
      → Preserves (counts w) (settle_action services x i o w)
  unfolding settle_action
  settle_action-Preserves x i (action_result r) w = refl
  settle_action-Preserves x i (action_error r) w = refl
  settle_action-Preserves x i action_raised w = tt

  run_action_stage-Preserves :
      (s : ActionStage) (i : ℕ) (k : Kickoff) (w : World)
      → Preserves (counts w) (run_action_stage services s i k w)
  unfolding run_action_stage
  run_action_stage-Preserves s i k w = Preserves-bind (counts w) _ _ (λ ctx.
      settle_action-Preserves (stage_exec StageKind.action i s.action_id none none 0 none w) i
        (services.execute_action s.action_id ctx) _)

  dispatch_review_only_stage-Preserves :
      (s : ReviewSkillStage) (i : ℕ) (k : Kickoff) (r : Option RevisionContext) (w : World)
      → Preserves (counts w) (dispatch_review_only_stage services s i k r w)
  unfolding dispatch_review_only_stage
  dispatch_review_only_stage-Preserves s i k r w = Preserves-bind (counts w) _ _ (λ prior.
      Preserves-some (counts w) assertion_error w.run.workspace_id _
        (λ id. dispatch_invocation-Preserves _ _ _ _ _ _))

  start_kind-Preserves :
      (e : ExecutableStage) (i : ℕ) (w : World) → Preserves (counts w) (start_kind services e i w)
  unfolding start_kind clear_revision
  start_kind-Preserves (ExecutableStage.action s) i w =
      run_action_stage-Preserves s i w.run.kickoff w
  start_kind-Preserves (ExecutableStage.skill s) i w =
      elim (Bool-cases (workspace_is_live services w.run.workspace_id)) [
        | inl y ↦ rw y (
            dispatch_skill_stage-Preserves s i w.run.kickoff w.run.kickoff.revision
              (clear_revision services w))
        | inr n ↦ rw n (dispatch_provision_stage-Preserves w.run.kickoff w)
      ]
  start_kind-Preserves (ExecutableStage.review s) i w =
      elim (Bool-cases (workspace_is_live services w.run.workspace_id)) [
        | inl y ↦ rw y (
            dispatch_review_only_stage-Preserves s i w.run.kickoff w.run.kickoff.revision
              (clear_revision services w))
        | inr n ↦ rw n (dispatch_provision_stage-Preserves w.run.kickoff w)
      ]

  start_stage_impl-Preserves :
      (i : Option ℕ) (w : World) → Preserves (counts w) (start_stage_impl services i w)
  unfolding start_stage_impl
  start_stage_impl-Preserves i w = elim (Bool-cases (is_running w.run.state)) [
    | inr n ↦ rw n refl
    | inl y ↦ rw y (
        Preserves-some (counts w) type_error i _ (λ j.
          Preserves-some (counts w) index_error (get_elem? w.run.definition_snapshot.stages j) _
            (λ e. start_kind-Preserves e j w)))
  ]

ok-Preserves :
    (m : List (String × ℕ)) (d : Done) {v : World} → Preserves m d → d ≡ ok v → counts v ≡ m
ok-Preserves m (ok u) p e = ap counts (sym (ok-injective e)) ∙ p
ok-Preserves m (err x) p e = cc

-- The worlds before and after a send-back to a stage of the name.
abbrev pub Bounded : String → World → World → Type 0
Bounded name w v =
    (1 ≤ get_count name (counts v))
    × ((get_count name (counts w) ≡ 0)
        ⊎ ((v.run.state ≡ RunState.paused) × (v.outbox ≡ w.outbox) × (v.commands ≡ w.commands)))

-- A send-back to a stage that the run was sent back to before pauses the run, with no further task and
-- no further command; one to a new stage counts it, so that the next one pauses. Either way the stage
-- counts as sent back to.
pub send_back_to_stage-Bounded :
    (services : Services) (x : StageExecution) (i : ℕ) (s : SkillStage) (text : String)
    (k : Kickoff) (w : World) {v : World}
    → send_back_to_stage services x i s text k w ≡ ok v
    → Bounded s.name w v
unfolding send_back_to_stage
send_back_to_stage-Bounded services x i s text k w {v} h =
    elim (Bool-cases (leb 1 (get_count s.name w.run.sendback_counts))) [
      | inl y ↦
          let d : BoundaryDecision = record {
            outcome = pause;
            tripped = sendback_loop s.name ∷ [];
            protected_owner_user_ids = [];
          } in
          let e : ◌≡◌ {A = Done} (ok (enter_pause services x d k w)) (ok v) =
            sym (rw (y, send_back_to_stage) refl) ∙ h in
          let q : enter_pause services x d k w ≡ v = ok-injective e in
          let (paused, outbox, commands) = enter_pause_idle services x d k w in
          let same : counts (enter_pause services x d k w) ≡ counts w =
            ap (λ (r : Run). r.sendback_counts) (run-enter_pause services x d k w) in
          subst (λ (u : World). Bounded s.name w u) q
            (ground (arith, same), inr (paused, outbox, commands))
      | inr n ↦
          let p : Preserves (set_count s.name 1 (counts w))
              (send_back_to_stage services x i s text k w) =
            rw (n, send_back_to_stage) (start_stage_impl-Preserves services (some i) _) in
          let c : counts v ≡ set_count s.name 1 (counts w) = ok-Preserves _ _ p h in
          let one : get_count s.name (counts v) ≡ 1 =
            ap (get_count s.name) c ∙ get_count-set_count s.name 1 (counts w) in
          (omega (arith, one), inl (ground (arith, n)))
    ]
