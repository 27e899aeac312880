-- ===== src/Definition/CallGraph.antt =====
-- Which pipelines call which: the index of the direct callers in `_transitive_callers`
-- (apps/backend/app/domain/pipelines/definition.py).
use yaaos.Prelude.{
  ℕ, suc, true, ◌≡◌, refl, ap, List, [], ◌∷◌, arith, mem, length, Bool-cases, inl, inr, ◌==◌,
}
use mathlib.Core.Path.{subst}
use mathlib.Core.List.{Memᴰ}
use yaaos.Definition.Model.{PipelineDefinition, PipelineCallStage, Stage}
use yaaos.Definition.Flatten.{Definitions}
use yaaos.Definition.Validate.{calls, direct_callers}

abbrev pub keys : Definitions → List ℕ
keys [] = []
keys ((k, d) ∷ ds) = k ∷ keys ds

pub length-keys : (defs : Definitions) → length (keys defs) ≡ length defs
length-keys [] = refl
length-keys ((k, d) ∷ ds) = ap suc (length-keys ds)

-- `pid` calls `target`: an entry under the key `pid` has, at any place, a call stage for it.
abbrev pub CallsDirectly : Definitions → ℕ → ℕ → Type 0
CallsDirectly defs pid target =
    (d : PipelineDefinition) × (s : PipelineCallStage) × Memᴰ (pid, d) defs
    × Memᴰ (Stage.call s) d.stages
    × (s.pipeline_id ≡ target)

calls-Memᴰ :
    (target : ℕ) (ss : List Stage)
    → calls target ss ≡ true
    → (s : PipelineCallStage) × Memᴰ (Stage.call s) ss × (s.pipeline_id ≡ target)
unfolding calls
calls-Memᴰ target [] h = cc
calls-Memᴰ target (Stage.call s ∷ ss) h = elim (Bool-cases (s.pipeline_id == target)) [
  | inl y ↦ (s, Memᴰ.head refl, ground (arith, y))
  | inr n ↦ let (t, m, e) = calls-Memᴰ target ss (ground (arith, h, n)) in (t, Memᴰ.tail m, e)
]
calls-Memᴰ target (Stage.skill x ∷ ss) h =
    let (t, m, e) = calls-Memᴰ target ss h in (t, Memᴰ.tail m, e)
calls-Memᴰ target (Stage.review x ∷ ss) h =
    let (t, m, e) = calls-Memᴰ target ss h in (t, Memᴰ.tail m, e)
calls-Memᴰ target (Stage.action x ∷ ss) h =
    let (t, m, e) = calls-Memᴰ target ss h in (t, Memᴰ.tail m, e)

calls-cons :
    (target : ℕ) (x : Stage) (ss : List Stage)
    → calls target ss ≡ true
    → calls target (x ∷ ss) ≡ true
unfolding calls
calls-cons target (Stage.call s) ss h = ground (arith, h)
calls-cons target (Stage.skill x) ss h = h
calls-cons target (Stage.review x) ss h = h
calls-cons target (Stage.action x) ss h = h

calls-call :
    (target : ℕ) (ss : List Stage) (s : PipelineCallStage)
    → Memᴰ (Stage.call s) ss
    → s.pipeline_id ≡ target
    → calls target ss ≡ true
unfolding calls
calls-call target [] s m e = elim m [ ]
calls-call target (x ∷ ss) s (Memᴰ.head q) e =
    let here : calls target (Stage.call s ∷ ss) ≡ true = ground (arith, e) in
    subst (λ y. calls target (y ∷ ss) ≡ true) q here
calls-call target (x ∷ ss) s (Memᴰ.tail m) e = calls-cons target x ss (calls-call target ss s m e)

-- What the index of the direct callers holds.
pub direct_callers-CallsDirectly :
    (defs : Definitions) (target pid : ℕ)
    → mem pid (direct_callers defs target) ≡ true
    → CallsDirectly defs pid target
unfolding direct_callers
direct_callers-CallsDirectly [] target pid h = cc
direct_callers-CallsDirectly ((k, d) ∷ ds) target pid h =
    elim (Bool-cases (calls target d.stages)) [
      | inr n ↦
          let h' : mem pid (direct_callers ds target) ≡ true = ground (arith, h, n) in
          let (c, s, m, i, e) = direct_callers-CallsDirectly ds target pid h' in
          (c, s, Memᴰ.tail m, i, e)
      | inl y ↦ elim (Bool-cases (k == pid)) [
        | inl z ↦
            let (s, i, e) = calls-Memᴰ target d.stages y in
            let same : pid ≡ k = ground (arith, z) in
            (d, s, Memᴰ.head (ap (λ (j : ℕ). (j, d)) same), i, e)
        | inr z ↦
            let h' : mem pid (direct_callers ds target) ≡ true = ground (arith, h, y, z) in
            let (c, s, m, i, e) = direct_callers-CallsDirectly ds target pid h' in
            (c, s, Memᴰ.tail m, i, e)
      ]
    ]

pub CallsDirectly-direct_callers :
    (defs : Definitions) (target pid : ℕ)
    → CallsDirectly defs pid target
    → mem pid (direct_callers defs target) ≡ true
unfolding direct_callers
CallsDirectly-direct_callers [] target pid (d, s, m, i, e) = elim m [ ]
CallsDirectly-direct_callers ((k, c) ∷ ds) target pid (d, s, Memᴰ.head q, i, e) =
    let y : calls target d.stages ≡ true = calls-call target d.stages s i e in
    let at : calls target c.stages ≡ true =
      subst (λ (x : PipelineDefinition). calls target x.stages ≡ true)
        (ap (λ (x : ℕ × PipelineDefinition). x.1) q) y in
    let same : pid ≡ k = ap (λ (x : ℕ × PipelineDefinition). x.0) q in ground (arith, at, same)
CallsDirectly-direct_callers ((k, c) ∷ ds) target pid (d, s, Memᴰ.tail m, i, e) =
    let rest = CallsDirectly-direct_callers ds target pid (d, s, m, i, e) in ground (arith, rest)

-- `a` calls `root`, directly or through other pipelines.
pub data Reaches (defs : Definitions) (root : ℕ) : ℕ → Type 0 where
  direct : {a : ℕ} → CallsDirectly defs a root → Reaches defs root a
  through : {t a : ℕ} → Reaches defs root t → CallsDirectly defs a t → Reaches defs root a

pub keys-direct_callers :
    (defs : Definitions) (target pid : ℕ)
    → mem pid (direct_callers defs target) ≡ true
    → mem pid (keys defs) ≡ true
unfolding direct_callers
keys-direct_callers [] target pid h = cc
keys-direct_callers ((k, d) ∷ ds) target pid h = ground (arith, keys-direct_callers ds target pid)
