-- ===== src/Engine/Remains.antt =====
-- A run that is not queued, through the promotion of another one
-- (apps/backend/app/domain/pipelines/engine.py).
use yaaos.Prelude.{
  ℕ, true, false, ◌≡◌, refl, sym, ◌∙◌, Option, none, some, List, [], ◌∷◌, Bool-cases, Option-cases,
  inl, inr, any, ◌==◌,
}
use mathlib.Core.List.{Memᴰ}
use mathlib.Core.Path.{subst}
use yaaos.Engine.Rows.{Run}
use yaaos.Engine.World.{World, take_run, focus, is_queued, in_flight}
use yaaos.Engine.Promotion.{
  attempt_promotion, promote, promote_candidate, promote_oldest_queued, oldest_queued,
}
use yaaos.Engine.Queue.{runs_of}

some-eq : {A : Type 0} {a b : A} → some a ≡ some b → a ≡ b
some-eq h = cc

-- The second place is as good as the first.
swapped : {A : Type 0} (q p x : A) (ps : List A) → Memᴰ q (p ∷ ps) → Memᴰ q (p ∷ x ∷ ps)
swapped q p x ps (Memᴰ.head e) = Memᴰ.head e
swapped q p x ps (Memᴰ.tail m) = Memᴰ.tail (Memᴰ.tail m)

take_run-Memᴰ :
    (id : ℕ) (q : Run) (rs : List Run) {taken : Run × List Run}
    → take_run id rs ≡ some taken
    → Memᴰ q rs
    → Memᴰ q (taken.0 ∷ taken.1)
unfolding take_run
take_run-Memᴰ id q [] h m = elim m [ ]
take_run-Memᴰ id q (x ∷ xs) {taken} h m = elim (Bool-cases (x.id == id)) [
  | inl y ↦
      let e : ◌≡◌ {A = Option (Run × List Run)} (some (x, xs)) (some taken) =
        sym (rw (y, take_run) refl) ∙ h in
      subst (λ (t : Run × List Run). Memᴰ q (t.0 ∷ t.1)) (some-eq e) m
  | inr n ↦ elim (Option-cases (take_run id xs)) [
    | inl f ↦
        let k : ◌≡◌ {A = Option (Run × List Run)} none (some taken) =
          sym (rw (n, f, take_run) refl) ∙ h in
        cc
    | inr ((p, ps), f) ↦
        let e : ◌≡◌ {A = Option (Run × List Run)} (some (p, x ∷ ps)) (some taken) =
          sym (rw (n, f, take_run) refl) ∙ h in
        let k : Memᴰ q (p ∷ x ∷ ps) = elim m [
          | Memᴰ.head d ↦ Memᴰ.tail (Memᴰ.head d)
          | Memᴰ.tail m' ↦ swapped q p x ps (take_run-Memᴰ id q xs f m')
        ] in
        subst (λ (t : Run × List Run). Memᴰ q (t.0 ∷ t.1)) (some-eq e) k
  ]
]

focus-Memᴰ :
    (id : ℕ) (q : Run) (w : World) {v : World}
    → focus id w ≡ some v
    → Memᴰ q (runs_of w)
    → Memᴰ q (runs_of v)
unfolding focus
focus-Memᴰ id q w {v} h m = elim (Bool-cases (w.run.id == id)) [
  | inl y ↦
      let e : ◌≡◌ {A = Option World} (some w) (some v) = sym (rw (y, focus) refl) ∙ h in
      subst (λ (z : World). Memᴰ q (runs_of z)) (some-eq e) m
  | inr n ↦ elim (Option-cases (take_run id w.siblings)) [
    | inl e ↦ let k : ◌≡◌ {A = Option World} none (some v) = sym (rw (n, e, focus) refl) ∙ h in cc
    | inr ((p, ps), e) ↦
        let k : ◌≡◌ {A = Option World} (some (record w { run = p; siblings = w.run ∷ ps }))
            (some v) =
          sym (rw (n, e, focus) refl) ∙ h in
        let k' : Memᴰ q (p ∷ w.run ∷ ps) = elim m [
          | Memᴰ.head d ↦ Memᴰ.tail (Memᴰ.head d)
          | Memᴰ.tail m' ↦ swapped q p w.run ps (take_run-Memᴰ id q w.siblings e m')
        ] in
        subst (λ (z : World). Memᴰ q (runs_of z)) (some-eq k) k'
  ]
]

attempt_promotion-Memᴰ :
    (q : Run) (w : World)
    → is_queued q.state ≡ false
    → Memᴰ q (runs_of w)
    → Memᴰ q (runs_of (attempt_promotion w))
unfolding attempt_promotion promote
attempt_promotion-Memᴰ q w s m = elim (Bool-cases (is_queued w.run.state)) [
  | inr n ↦ rw n m
  | inl y ↦ elim (Bool-cases (any (λ (r : Run). in_flight r.state) w.siblings)) [
    | inl f ↦ rw (y, f) m
    | inr f ↦
        rw (y, f)
          (elim m [
            | Memᴰ.head d ↦
                let k : is_queued q.state ≡ true =
                  subst (λ (r : Run). is_queued r.state ≡ true) (sym d) y in
                let c : true ≡ false = sym k ∙ s in cc
            | Memᴰ.tail m' ↦ Memᴰ.tail m'
          ])
  ]
]

-- A run of the ticket that is not queued stays as it is while another one is promoted.
pub promote_oldest_queued-Memᴰ :
    (q : Run) (w : World)
    → is_queued q.state ≡ false
    → Memᴰ q (runs_of w)
    → Memᴰ q (runs_of (promote_oldest_queued w))
unfolding promote_oldest_queued promote_candidate
promote_oldest_queued-Memᴰ q w s m = elim (Option-cases (oldest_queued (runs_of w))) [
  | inl n ↦ rw (promote_oldest_queued, n) m
  | inr (id, e) ↦ elim (Option-cases (focus id w)) [
    | inl n ↦ rw (promote_oldest_queued, e, promote_candidate, n) m
    | inr (v, f) ↦ elim (Option-cases (focus w.run.id (attempt_promotion v))) [
      | inl n ↦ rw (promote_oldest_queued, e, promote_candidate, f, n) m
      | inr (back, g) ↦
          rw (promote_oldest_queued, e, promote_candidate, f, g)
            (focus-Memᴰ w.run.id q (attempt_promotion v) g
              (attempt_promotion-Memᴰ q v s (focus-Memᴰ id q w f m)))
    ]
  ]
]
