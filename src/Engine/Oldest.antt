-- ===== src/Engine/Oldest.antt =====
-- The oldest queued run of a ticket (apps/backend/app/domain/pipelines/engine.py): which run
-- `promote_oldest_queued` selects.
use yaaos.Prelude.{
  All, ap, ◌≢◌, ℕ, ◌≤◌, true, false, ◌≡◌, refl, sym, ◌∙◌, Option, none, some, List, [], ◌∷◌, arith,
  mem, IsNodup, ltb, ◌==◌, Bool-cases, Option-cases, inl, inr, ◌⊎◌,
}
use mathlib.Core.Path.{subst}
use mathlib.Core.List.{Memᴰ}
use yaaos.Engine.Rows.{Run, RunState}
use yaaos.Engine.World.{take_run, is_queued}
use yaaos.Engine.Promotion.{oldest_queued}
use yaaos.Engine.Queue.{count, run_ids}

oldest_queued-some :
    (r : Run) (rs : List Run)
    → is_queued r.state ≡ true
    → (oldest_queued (r ∷ rs) ≡ some r.id × ((b : ℕ) → oldest_queued rs ≡ some b → r.id ≤ b))
      ⊎ ((b : ℕ) × (oldest_queued rs ≡ some b) × (oldest_queued (r ∷ rs) ≡ some b) × (b ≤ r.id))
unfolding oldest_queued
oldest_queued-some r rs y = elim (Option-cases (oldest_queued rs)) [
  | inl e ↦ inl (rw (y, e) refl, λ b f. let k : ◌≡◌ {A = Option ℕ} none (some b) = sym e ∙ f in cc)
  | inr (b, e) ↦ elim (Bool-cases (ltb r.id b)) [
    | inl l ↦ inl (
      rw (y, e, l) refl,
      λ c f. let k : ◌≡◌ {A = Option ℕ} (some b) (some c) = sym e ∙ f in ground arith,
    )
    | inr l ↦ inr (b, e, rw (y, e, l) refl, ground arith)
  ]
]

pub none-queued : (rs : List Run) → oldest_queued rs ≡ none → count is_queued rs ≡ 0
unfolding oldest_queued
none-queued [] h = refl
none-queued (r ∷ rs) h = elim (Bool-cases (is_queued r.state)) [
  | inl y ↦ elim (oldest_queued-some r rs y) [
    | inl (e, l) ↦ let k : ◌≡◌ {A = Option ℕ} none (some r.id) = sym h ∙ e in cc
    | inr (b, f, e, l) ↦ let k : ◌≡◌ {A = Option ℕ} none (some b) = sym h ∙ e in cc
  ]
  | inr n ↦ let h' : oldest_queued rs ≡ none = ground (arith, h) in ground (arith, none-queued rs)
]

-- No queued run has an id below this one.
abbrev Least : ℕ → List Run → Type 0
Least id [] = Unit
Least id (r ∷ rs) = (is_queued r.state ≡ true → id ≤ r.id) × Least id rs

Least-weaken : (a b : ℕ) (rs : List Run) → a ≤ b → Least b rs → Least a rs
Least-weaken a b [] l h = tt
Least-weaken a b (r ∷ rs) l h =
    ((λ y. let k : b ≤ r.id = h.0 y in omega arith), Least-weaken a b rs l h.1)

Least-none : (a : ℕ) (rs : List Run) → count is_queued rs ≡ 0 → Least a rs
Least-none a [] h = tt
Least-none a (r ∷ rs) h = ((λ y. ground arith), Least-none a rs (omega arith))

oldest_queued-Least : (rs : List Run) {id : ℕ} → oldest_queued rs ≡ some id → Least id rs
unfolding oldest_queued
oldest_queued-Least [] h = cc
oldest_queued-Least (r ∷ rs) {id} h = elim (Bool-cases (is_queued r.state)) [
  | inl y ↦ elim (oldest_queued-some r rs y) [
    | inl (e, l) ↦
        let k : ◌≡◌ {A = Option ℕ} (some r.id) (some id) = sym e ∙ h in
        let i : id ≤ r.id = ground arith in
        (
          (λ z. i),
          elim (Option-cases (oldest_queued rs)) [
            | inl f ↦ Least-none id rs (none-queued rs f)
            | inr (b, f) ↦
                let j : r.id ≤ b = l b f in
                let j' : id ≤ b = ground arith in Least-weaken id b rs j' (oldest_queued-Least rs f)
          ],
        )
    | inr (b, f, e, l) ↦
        let k : ◌≡◌ {A = Option ℕ} (some b) (some id) = sym e ∙ h in
        let j : b ≡ id = ground arith in ((λ z. omega arith), oldest_queued-Least rs (f ∙ k))
  ]
  | inr n ↦
      let h' : oldest_queued rs ≡ some id = ground (arith, h) in
      ((λ y. cc), oldest_queued-Least rs h')
]

pub mem-oldest_queued :
    (rs : List Run) {id : ℕ} → oldest_queued rs ≡ some id → mem id (run_ids rs) ≡ true
unfolding oldest_queued
mem-oldest_queued [] h = cc
mem-oldest_queued (r ∷ rs) {id} h = elim (Bool-cases (is_queued r.state)) [
  | inl y ↦ elim (oldest_queued-some r rs y) [
    | inl (e, l) ↦ let k : ◌≡◌ {A = Option ℕ} (some r.id) (some id) = sym e ∙ h in ground arith
    | inr (b, f, e, l) ↦
        let k : ◌≡◌ {A = Option ℕ} (some b) (some id) = sym e ∙ h in
        ground (arith, mem-oldest_queued rs (f ∙ k))
  ]
  | inr n ↦
      let h' : oldest_queued rs ≡ some id = ground (arith, h) in
      ground (arith, mem-oldest_queued rs h')
]

-- The run of the id that a queued run has is queued, where ids are distinct.
pub queued-run :
    (rs : List Run) {id : ℕ}
    → oldest_queued rs ≡ some id
    → IsNodup (run_ids rs)
    → (q : Run) × (qs : List Run) × (take_run id rs ≡ some (q, qs)) × (is_queued q.state ≡ true)
unfolding oldest_queued take_run
queued-run [] h d = cc
queued-run (r ∷ rs) {id} h d = elim (Bool-cases (is_queued r.state)) [
  | inl y ↦ elim (Bool-cases (r.id == id)) [
    | inl i ↦ (r, rs, rw i refl, y)
    | inr n ↦ elim (oldest_queued-some r rs y) [
      | inl (e, l) ↦ let k : ◌≡◌ {A = Option ℕ} (some r.id) (some id) = sym e ∙ h in ground arith
      | inr (b, f, e, l) ↦
          let k : ◌≡◌ {A = Option ℕ} (some b) (some id) = sym e ∙ h in
          let (q, qs, g, s) = queued-run rs (f ∙ k) d.1 in (q, r ∷ qs, rw (n, g) refl, s)
    ]
  ]
  | inr z ↦
      let h' : oldest_queued rs ≡ some id = ground (arith, h) in
      let m : mem id (run_ids rs) ≡ true = mem-oldest_queued rs h' in
      elim (Bool-cases (r.id == id)) [
        | inl i ↦
            let e : id ≡ r.id = ground arith in
            let m' : mem r.id (run_ids rs) ≡ true = subst (λ j. mem j (run_ids rs) ≡ true) e m in
            let k : true ≡ false = sym m' ∙ d.0 in cc
        | inr n ↦ let (q, qs, g, s) = queued-run rs h' d.1 in (q, r ∷ qs, rw (n, g) refl, s)
      ]
]

queued-eq : (state : RunState) → is_queued state ≡ true → state ≡ RunState.queued
queued-eq RunState.queued h = refl
queued-eq RunState.running h = cc
queued-eq RunState.paused h = cc
queued-eq RunState.completed h = cc
queued-eq RunState.failed h = cc
queued-eq RunState.cancelled h = cc
queued-eq RunState.killed h = cc

-- A queued run of the list has the id.
queued-Memᴰ :
    (rs : List Run) {id : ℕ}
    → oldest_queued rs ≡ some id
    → (q : Run) × Memᴰ q rs × (q.state ≡ RunState.queued) × (q.id ≡ id)
unfolding oldest_queued
queued-Memᴰ [] h = cc
queued-Memᴰ (r ∷ rs) {id} h = elim (Bool-cases (is_queued r.state)) [
  | inl y ↦ elim (oldest_queued-some r rs y) [
    | inl (e, l) ↦
        let k : ◌≡◌ {A = Option ℕ} (some r.id) (some id) = sym e ∙ h in
        (r, Memᴰ.head refl, queued-eq r.state y, ground arith)
    | inr (b, f, e, l) ↦
        let k : ◌≡◌ {A = Option ℕ} (some b) (some id) = sym e ∙ h in
        let (q, m, s, i) = queued-Memᴰ rs (f ∙ k) in (q, Memᴰ.tail m, s, i)
  ]
  | inr n ↦
      let h' : oldest_queued rs ≡ some id = ground (arith, h) in
      let (q, m, s, i) = queued-Memᴰ rs h' in (q, Memᴰ.tail m, s, i)
]

-- Every run of the list has the id or a later one, or is not queued.
abbrev pub NoneBefore : ℕ → List Run → Type 0
NoneBefore id = All (λ r. (r.state ≢ RunState.queued) ⊎ (id ≤ r.id))

Least-NoneBefore : (id : ℕ) (rs : List Run) → Least id rs → NoneBefore id rs
Least-NoneBefore id [] l = tt
Least-NoneBefore id (r ∷ rs) l = (
  elim (Bool-cases (is_queued r.state)) [
    | inl y ↦ inr (l.0 y)
    | inr n ↦ inl (λ e.
        let k : is_queued r.state ≡ true = ap is_queued e in let c : true ≡ false = sym k ∙ n in cc)
  ],
  Least-NoneBefore id rs l.1,
)

none-NoneQueued :
    (rs : List Run) → oldest_queued rs ≡ none → All (λ r. r.state ≢ RunState.queued) rs
unfolding oldest_queued
none-NoneQueued [] h = tt
none-NoneQueued (r ∷ rs) h = elim (Bool-cases (is_queued r.state)) [
  | inl y ↦ elim (oldest_queued-some r rs y) [
    | inl (e, l) ↦ let k : ◌≡◌ {A = Option ℕ} none (some r.id) = sym h ∙ e in cc
    | inr (b, f, e, l) ↦ let k : ◌≡◌ {A = Option ℕ} none (some b) = sym h ∙ e in cc
  ]
  | inr n ↦
      let h' : oldest_queued rs ≡ none = ground (arith, h) in
      (
        λ e.
            let k : is_queued r.state ≡ true = ap is_queued e in
            let c : true ≡ false = sym k ∙ n in cc,
        none-NoneQueued rs h',
      )
]

-- The oldest of the queued runs, if there is one.
abbrev pub IsOldest : List Run → Option ℕ → Type 0
IsOldest rs none = All (λ r. r.state ≢ RunState.queued) rs
IsOldest rs (some id) =
    ((q : Run) × Memᴰ q rs × (q.state ≡ RunState.queued) × (q.id ≡ id)) × NoneBefore id rs

-- The run that is promoted next is the oldest in the queue: a queued run of the ticket has the id, and
-- no queued run has a smaller one. There is none just if no run is queued.
pub oldest_queued-IsOldest : (rs : List Run) → IsOldest rs (oldest_queued rs)
oldest_queued-IsOldest rs = elim (Option-cases (oldest_queued rs)) [
  | inl n ↦ subst (IsOldest rs) (sym n) (none-NoneQueued rs n)
  | inr (id, e) ↦
      subst (IsOldest rs) (sym e)
        (queued-Memᴰ rs e, Least-NoneBefore id rs (oldest_queued-Least rs e))
]
