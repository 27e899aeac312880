-- ===== src/Artifacts/Versions.antt =====
-- The versions of artifacts (apps/backend/app/domain/artifacts/service.py).
use yaaos.Prelude.{
  ℕ, suc, ◌<◌, ◌≤◌, String, true, false, ◌≡◌, refl, ap, ◌∙◌, some, List, [], ◌∷◌, ◌++◌, ◌&&◌, ltb,
  ◌==◌, str_eq, eq_iff, any, arith, Bool-cases, inl, inr,
}
use yaaos.Artifacts.{Artifact, ArtifactSpec, in_group, max_version, store, mark_final, latest_final}

-- The row that `store` adds, once it is final.
abbrev pub final_version : ℕ → ArtifactSpec → List Artifact → Artifact
final_version id s rows = record {
  id = id;
  org_id = s.org_id;
  ticket_id = s.ticket_id;
  stage_name = s.stage_name;
  run_id = s.run_id;
  stage_execution_id = s.stage_execution_id;
  version = suc (max_version s.ticket_id s.stage_name rows);
  iteration = s.iteration;
  is_final = true;
  body = s.body;
}

mark_final-snoc :
    (id : ℕ) (xs : List Artifact) (r : Artifact)
    → any (λ a. a.id == id) xs ≡ false
    → r.id ≡ id
    → mark_final id (xs ++ r ∷ []) ≡ xs ++ record r { is_final = true } ∷ []
unfolding mark_final
mark_final-snoc id [] r h e = let k : (r.id == id) ≡ true = ground arith in rw k refl
mark_final-snoc id (x ∷ xs) r h e =
    let k : (x.id == id) ≡ false = ground arith in
    let rest = mark_final-snoc id xs r (ground arith) e in rw (k, rest) refl

-- All rows of the group have a version below `v`.
abbrev Below : ℕ → String → ℕ → List Artifact → Type 0
Below ticket name v [] = Unit
Below ticket name v (a ∷ as') =
    (in_group ticket name a ≡ true → a.version < v) × Below ticket name v as'

Below-weaken :
    (t : ℕ) (n : String) (u v : ℕ) (xs : List Artifact) → u ≤ v → Below t n u xs → Below t n v xs
Below-weaken t n u v [] l h = tt
Below-weaken t n u v (x ∷ xs) l h =
    ((λ e. let b : x.version < u = h.0 e in omega arith), Below-weaken t n u v xs l h.1)

Below-max : (t : ℕ) (n : String) (xs : List Artifact) → Below t n (suc (max_version t n xs)) xs
unfolding max_version
Below-max t n [] = tt
Below-max t n (x ∷ xs) = (
  (λ e. ground arith),
  Below-weaken t n (suc (max_version t n xs)) _ xs (ground arith) (Below-max t n xs),
)

latest_final-snoc :
    (org t : ℕ) (n : String) (xs : List Artifact) (r : Artifact)
    → Below t n r.version xs
    → (r.org_id == org) && (in_group t n r && r.is_final) ≡ true
    → latest_final org t n (xs ++ r ∷ []) ≡ some r
unfolding latest_final
latest_final-snoc org t n [] r b h = rw h refl
latest_final-snoc org t n (x ∷ xs) r b h =
    let rest = latest_final-snoc org t n xs r b.1 h in
    elim (Bool-cases ((x.org_id == org) && (in_group t n x && x.is_final))) [
      | inl y ↦
          let l : x.version < r.version = b.0 (ground arith) in
          let k : ltb r.version x.version ≡ false = ground arith in rw (y, rest, k) refl
      | inr e ↦ rw (e, rest) refl
    ]

-- An artifact that is stored under a fresh id and marked final is the newest
-- final version of its stage, with the number after all versions of the stage and the body as given.
pub latest_final-mark_final-store :
    (id : ℕ) (s : ArtifactSpec) (rows : List Artifact)
    → any (λ a. a.id == id) rows ≡ false
    → latest_final s.org_id s.ticket_id s.stage_name (mark_final id (store id s rows))
      ≡ some (final_version id s rows)
unfolding store
latest_final-mark_final-store id s rows h =
    let n : str_eq s.stage_name s.stage_name ≡ true = (eq_iff s.stage_name s.stage_name).1 refl in
    ap (latest_final s.org_id s.ticket_id s.stage_name) (mark_final-snoc id rows _ h refl)
    ∙ latest_final-snoc s.org_id s.ticket_id s.stage_name rows (final_version id s rows)
        (Below-max s.ticket_id s.stage_name rows) (ground arith)
