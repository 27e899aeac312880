-- ===== src/Engine/SentBack.antt =====
-- Where a stage may be sent back to (apps/backend/app/domain/pipelines/engine.py).
use yaaos.Prelude.{
  ℕ, zero, suc, ◌+◌, ◌<◌, String, true, false, ◌≡◌, refl, ap, sym, ◌∙◌, Option, none, some, List,
  [], ◌∷◌, arith, Bool-cases, Option-cases, inl, inr, get_elem?, str_eq, eq_iff,
}
use mathlib.Core.Path.{subst}
use yaaos.Definition.Model.{ExecutableStage, SkillStage}
use yaaos.Engine.Review.{shows, find_skill_stage, resolve_send_back_target}

find_skill_stage_sound :
    (before index : ℕ) (name : String) (stages : List ExecutableStage) {i : ℕ} {s : SkillStage}
    → find_skill_stage before index name stages ≡ some (i, s)
    → (k : ℕ) × (i ≡ index + k)
      × (k < before)
      × (get_elem? stages k ≡ some (ExecutableStage.skill s))
      × (s.name ≡ name)
unfolding find_skill_stage
find_skill_stage_sound zero index name stages h = cc
find_skill_stage_sound (suc b) index name [] h = cc
find_skill_stage_sound (suc b) index name (ExecutableStage.skill t ∷ ss) {i} {s} h =
    elim (Bool-cases (str_eq t.name name)) [
      | inl y ↦
          let k : ◌≡◌ {A = Option (ℕ × SkillStage)} (some (index, t)) (some (i, s)) =
            sym (rw (y, find_skill_stage) refl) ∙ h in
          let a : index ≡ i = ground arith in
          let e : t ≡ s = cc in
          (
            zero,
            omega (arith, a),
            omega arith,
            ap (λ z. some (ExecutableStage.skill z)) e,
            ap (λ (z : SkillStage). z.name) (sym e) ∙ (eq_iff t.name name).0 y,
          )
      | inr n ↦
          let h' : find_skill_stage b (suc index) name ss ≡ some (i, s) =
            sym (rw (n, find_skill_stage) refl) ∙ h in
          let (k, a, l, g, m) = find_skill_stage_sound b (suc index) name ss h' in
          (suc k, omega (arith, a), omega (arith, l), g, m)
    ]
find_skill_stage_sound (suc b) index name (ExecutableStage.review t ∷ ss) h =
    let (k, a, l, g, m) = find_skill_stage_sound b (suc index) name ss h in
    (suc k, omega (arith, a), omega (arith, l), g, m)
find_skill_stage_sound (suc b) index name (ExecutableStage.action t ∷ ss) h =
    let (k, a, l, g, m) = find_skill_stage_sound b (suc index) name ss h in
    (suc k, omega (arith, a), omega (arith, l), g, m)

find_skill_stage_complete :
    (before index k : ℕ) (stages : List ExecutableStage) (s : SkillStage)
    → k < before
    → get_elem? stages k ≡ some (ExecutableStage.skill s)
    → (i : ℕ) × (t : SkillStage) × (find_skill_stage before index s.name stages ≡ some (i, t))
unfolding find_skill_stage
find_skill_stage_complete zero index k stages s l g = let no : ⊥ = omega (arith, l) in elim no [ ]
find_skill_stage_complete (suc b) index k [] s l g = cc
find_skill_stage_complete (suc b) index zero (ExecutableStage.skill t ∷ ss) s l g =
    let e : ◌≡◌ {A = Option ExecutableStage} (some (ExecutableStage.skill t))
        (some (ExecutableStage.skill s)) =
      g in
    let e' : t ≡ s = cc in
    let y : str_eq t.name s.name ≡ true =
      (eq_iff t.name s.name).1 (ap (λ (z : SkillStage). z.name) e') in
    (index, t, rw (y, find_skill_stage) refl)
find_skill_stage_complete (suc b) index (suc k) (ExecutableStage.skill t ∷ ss) s l g =
    let (i, u, h) = find_skill_stage_complete b (suc index) k ss s (omega (arith, l)) g in
    elim (Bool-cases (str_eq t.name s.name)) [
      | inl y ↦ (index, t, rw (y, find_skill_stage) refl)
      | inr n ↦ (i, u, rw (n, find_skill_stage) h)
    ]
find_skill_stage_complete (suc b) index zero (ExecutableStage.review t ∷ ss) s l g = cc
find_skill_stage_complete (suc b) index (suc k) (ExecutableStage.review t ∷ ss) s l g =
    find_skill_stage_complete b (suc index) k ss s (omega (arith, l)) g
find_skill_stage_complete (suc b) index zero (ExecutableStage.action t ∷ ss) s l g = cc
find_skill_stage_complete (suc b) index (suc k) (ExecutableStage.action t ∷ ss) s l g =
    find_skill_stage_complete b (suc index) k ss s (omega (arith, l)) g

-- A skill stage of the name that stands before the index, at a stage that sees the name.
abbrev pub Upstream :
    List ExecutableStage → Option (List String) → ℕ → String → ℕ → SkillStage → Type 0
Upstream stages context_stages before name i s =
    (i < before)
    × (get_elem? stages i ≡ some (ExecutableStage.skill s))
    × (s.name ≡ name)
    × (shows context_stages name ≡ true)

-- A right answer to where a send-back goes: such a stage, or none where there is none.
pub data Resolves (stages : List ExecutableStage) (context_stages : Option (List String))
    (before : ℕ) (name : String) : Option (ℕ × SkillStage) → Type 0 where
  found :
      (i : ℕ) (s : SkillStage)
      → Upstream stages context_stages before name i s
      → Resolves stages context_stages before name (some (i, s))
  missing :
      ((i : ℕ) (s : SkillStage) → ¬ Upstream stages context_stages before name i s)
      → Resolves stages context_stages before name none

-- A send-back is resolved to a skill stage of the name that stands before the one that asks and is
-- shown to it, and it is refused only where there is no such stage.
pub resolve_send_back_target_exact :
    (stages : List ExecutableStage) (context_stages : Option (List String)) (before : ℕ)
    (name : String)
    → Resolves stages context_stages before name
        (resolve_send_back_target stages context_stages before name)
unfolding resolve_send_back_target
resolve_send_back_target_exact stages ctx before name =
    elim (Option-cases (find_skill_stage before 0 name stages)) [
      | inl n ↦
          subst (λ o. Resolves stages ctx before name o)
            (sym (rw (n, resolve_send_back_target) refl))
            (missing (λ i s (l, g, e, y).
              let (j, t, f) = find_skill_stage_complete before 0 i stages s l g in
              let f' : find_skill_stage before 0 name stages ≡ some (j, t) =
                ap (λ (n : String). find_skill_stage before 0 n stages) (sym e) ∙ f in
              let k : ◌≡◌ {A = Option (ℕ × SkillStage)} none (some (j, t)) = sym n ∙ f' in cc))
      | inr ((j, t), f) ↦ elim (Bool-cases (shows ctx name)) [
        | inl y ↦
            let (m, a, l, g, e) = find_skill_stage_sound before 0 name stages f in
            let a' : j ≡ m = omega (arith, a) in
            subst (λ o. Resolves stages ctx before name o)
              (sym (rw (f, y, resolve_send_back_target) refl))
              (found j t (omega (arith, a, l), ap (get_elem? stages) a' ∙ g, e, y))
        | inr n ↦
            subst (λ o. Resolves stages ctx before name o)
              (sym (rw (f, n, resolve_send_back_target) refl))
              (missing (λ i s (l, g, e, y). let k : true ≡ false = sym y ∙ n in cc))
      ]
    ]
