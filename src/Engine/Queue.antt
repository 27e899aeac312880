-- ===== src/Engine/Queue.antt =====
-- The queue of a ticket's runs (apps/backend/app/domain/pipelines/engine.py): the index
-- `ux_pipeline_runs_one_in_flight` and the promotion of the oldest queued run.
use yaaos.Prelude.{
  ℕ, ◌+◌, ◌≤◌, Bool, true, false, ◌≡◌, refl, ap, sym, ◌∙◌, Option, none, some, List, [], ◌∷◌, arith,
  any, mem, ◌==◌, if◌then◌else◌, Bool-cases, Option-cases, inl, inr, ◌⊎◌, ◌≢◌,
}
use mathlib.Core.Path.{subst}
use yaaos.Engine.Rows.{Run, RunState}
use yaaos.Engine.World.{World, take_run, focus, in_flight, is_queued}
use yaaos.Engine.Promotion.{promote, attempt_promotion}

-- One for a run in the states.
abbrev pub weight : (RunState → Bool) → Run → ℕ
weight p r = if p r.state then 1 else 0

-- The number of the runs in the states.
abbrev pub count : (RunState → Bool) → List Run → ℕ
count p [] = 0
count p (r ∷ rs) = weight p r + count p rs

abbrev pub runs_of : World → List Run
runs_of w = w.run ∷ w.siblings

abbrev pub run_ids : List Run → List ℕ
run_ids [] = []
run_ids (r ∷ rs) = r.id ∷ run_ids rs

-- At most one run of the ticket is running or paused.
abbrev pub OneInFlight : World → Type 0
OneInFlight w = count in_flight (runs_of w) ≤ 1

pub take_run-cons :
    (id : ℕ) (r : Run) (rs : List Run) {q : Run} {qs : List Run}
    → take_run id (r ∷ rs) ≡ some (q, qs)
    → ((r.id ≡ id) × (r ≡ q) × (rs ≡ qs))
      ⊎ ((ss : List Run) × (take_run id rs ≡ some (q, ss)) × ((r ∷ ss) ≡ qs) × (r.id ≢ id))
unfolding take_run
take_run-cons id r rs {q} {qs} h = elim (Bool-cases (r.id == id)) [
  | inl y ↦
      let e : ◌≡◌ {A = Option (Run × List Run)} (some (r, rs)) (some (q, qs)) =
        sym (rw y refl) ∙ h in
      inl (ground arith, cc, cc)
  | inr n ↦ elim (Option-cases (take_run id rs)) [
    | inl e ↦
        let k : ◌≡◌ {A = Option (Run × List Run)} none (some (q, qs)) = sym (rw (n, e) refl) ∙ h in
        cc
    | inr ((s, ss), e) ↦
        let k : ◌≡◌ {A = Option (Run × List Run)} (some (s, r ∷ ss)) (some (q, qs)) =
          sym (rw (n, e) refl) ∙ h in
        let a : s ≡ q = cc in
        let b : (r ∷ ss) ≡ qs = cc in inr (ss, e ∙ (rw a refl), b, ground arith)
  ]
]

count-take_run :
    (p : RunState → Bool) (id : ℕ) (rs : List Run) {q : Run} {qs : List Run}
    → take_run id rs ≡ some (q, qs)
    → count p rs ≡ weight p q + count p qs
unfolding take_run
count-take_run p id [] h = cc
count-take_run p id (r ∷ rs) {q} {qs} h = elim (take_run-cons id r rs h) [
  | inl (i, e, f) ↦ rw (e, f) refl
  | inr (ss, e, f, n) ↦
      let rest : count p rs ≡ weight p q + count p ss = count-take_run p id rs e in
      subst (λ xs. weight p r + count p rs ≡ weight p q + count p xs) f (omega (arith, rest))
]

pub count-focus :
    (p : RunState → Bool) (id : ℕ) (w : World) {v : World}
    → focus id w ≡ some v
    → count p (runs_of v) ≡ count p (runs_of w)
unfolding focus
count-focus p id w {v} h = elim (Bool-cases (w.run.id == id)) [
  | inl y ↦
      let e : some w ≡ some v = sym (rw y refl) ∙ h in
      let e' : w ≡ v = cc in ap (λ (z : World). count p (runs_of z)) (sym e')
  | inr n ↦ elim (Option-cases (take_run id w.siblings)) [
    | inl e ↦ let k : ◌≡◌ {A = Option World} none (some v) = sym (rw (n, e) refl) ∙ h in cc
    | inr ((q, qs), e) ↦
        let k : ◌≡◌ {A = Option World} (some (record w { run = q; siblings = w.run ∷ qs }))
            (some v) =
          sym (rw (n, e) refl) ∙ h in
        let k' : record w { run = q; siblings = w.run ∷ qs } ≡ v = cc in
        let c : count p w.siblings ≡ weight p q + count p qs = count-take_run p id w.siblings e in
        ap (λ (z : World). count p (runs_of z)) (sym k') ∙ (omega (arith, c))
  ]
]

count-none :
    (p : RunState → Bool) (rs : List Run) → any (λ (r : Run). p r.state) rs ≡ false → count p rs ≡ 0
count-none p [] h = refl
count-none p (r ∷ rs) h = ground (arith, count-none p rs)

pub run_ids-attempt_promotion :
    (w : World) → run_ids (runs_of (attempt_promotion w)) ≡ run_ids (runs_of w)
unfolding attempt_promotion promote
run_ids-attempt_promotion w = elim (Bool-cases (is_queued w.run.state)) [
  | inr n ↦ rw n refl
  | inl y ↦ elim (Bool-cases (any (λ (r : Run). in_flight r.state) w.siblings)) [
    | inl f ↦ rw (y, f) refl
    | inr f ↦ rw (y, f) refl
  ]
]

-- A promotion never leaves two runs of the ticket in flight, where at most one was before.
pub attempt_promotion-OneInFlight : (w : World) → OneInFlight w → OneInFlight (attempt_promotion w)
unfolding attempt_promotion promote
attempt_promotion-OneInFlight w h = elim (Bool-cases (is_queued w.run.state)) [
  | inr n ↦ rw n h
  | inl y ↦ elim (Bool-cases (any (λ (r : Run). in_flight r.state) w.siblings)) [
    | inl f ↦ rw (y, f) h
    | inr f ↦
        let c : count in_flight w.siblings ≡ 0 = count-none in_flight w.siblings f in
        rw (y, f) (omega (arith, c))
  ]
]

any-count :
    (p : RunState → Bool) (rs : List Run) → any (λ (r : Run). p r.state) rs ≡ true → 1 ≤ count p rs
any-count p [] h = cc
any-count p (r ∷ rs) h = ground (arith, any-count p rs)

-- A queued run is promoted, or another one is in flight.
pub attempt_promotion-in_flight :
    (w : World) → is_queued w.run.state ≡ true → 1 ≤ count in_flight (runs_of (attempt_promotion w))
unfolding attempt_promotion promote
attempt_promotion-in_flight w y =
    elim (Bool-cases (any (λ (r : Run). in_flight r.state) w.siblings)) [
      | inl f ↦
          let c : 1 ≤ count in_flight w.siblings = any-count in_flight w.siblings f in
          rw (y, f) (omega (arith, c))
      | inr f ↦ rw (y, f) (omega arith)
    ]

mem-take_run :
    (id : ℕ) (rs : List Run)
    → mem id (run_ids rs) ≡ true
    → (q : Run) × (qs : List Run) × (take_run id rs ≡ some (q, qs))
unfolding take_run
mem-take_run id [] h = cc
mem-take_run id (r ∷ rs) h = elim (Bool-cases (r.id == id)) [
  | inl y ↦ (r, rs, rw y refl)
  | inr n ↦ let (q, qs, e) = mem-take_run id rs (ground arith) in (q, r ∷ qs, rw (n, e) refl)
]

pub mem-focus :
    (id : ℕ) (w : World) → mem id (run_ids (runs_of w)) ≡ true → (v : World) × (focus id w ≡ some v)
unfolding focus
mem-focus id w h = elim (Bool-cases (w.run.id == id)) [
  | inl y ↦ (w, rw y refl)
  | inr n ↦
      let (q, qs, e) = mem-take_run id w.siblings (ground arith) in
      (record w { run = q; siblings = w.run ∷ qs }, rw (n, e) refl)
]
