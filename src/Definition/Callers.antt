-- ===== src/Definition/Callers.antt =====
-- What `_transitive_callers` (apps/backend/app/domain/pipelines/definition.py) finds.
use yaaos.Prelude.{
  ℕ, zero, suc, ◌+◌, ◌≤◌, true, ◌≡◌, refl, sym, some, List, [], ◌∷◌, arith, mem, IsNodup, length,
  pigeonhole, Bool-cases, inl, inr, ◌⊎◌, ◌↔◌, ◌==◌,
}
use mathlib.Core.Path.{subst}
use yaaos.Definition.Flatten.{Definitions}
use yaaos.Definition.Validate.{
  direct_callers, Search, visit_targets, search_callers, transitive_callers,
}
use yaaos.Definition.Visits.{visit_targets-Grows}
use yaaos.Definition.CallGraph.{
  keys, length-keys, CallsDirectly, direct_callers-CallsDirectly, CallsDirectly-direct_callers,
  Reaches, direct, through, keys-direct_callers,
}

-- The callers of everything in the set stand in the set.
pub record IsClosed (defs : Definitions) (root : ℕ) (callers : List ℕ) : Type 0 where
  pub calls_root : (a : ℕ) → mem a (direct_callers defs root) ≡ true → mem a callers ≡ true
  pub calls_member :
      (t a : ℕ) → mem t callers ≡ true → mem a (direct_callers defs t) ≡ true → mem a callers ≡ true

-- What is known of a caller that was found.
abbrev Found : Definitions → ℕ → ℕ → Type 0
Found defs root a = (mem a (keys defs) ≡ true) × Reaches defs root a

-- The state of the loop: closed but for what still stands in the frontier.
record Pending (defs : Definitions) (root : ℕ) (frontier callers : List ℕ) : Type 0 where
  settled :
      (t a : ℕ)
      → mem t (root ∷ callers) ≡ true
      → mem a (direct_callers defs t) ≡ true
      → (mem t frontier ≡ true) ⊎ (mem a callers ≡ true)
  distinct : IsNodup callers
  found : (a : ℕ) → mem a callers ≡ true → Found defs root a
  queued : (t : ℕ) → mem t frontier ≡ true → (root ≡ t) ⊎ (mem t callers ≡ true)

next_round : Definitions → ℕ → List ℕ → List ℕ → Search
next_round defs t ts callers =
    visit_targets defs (t ∷ ts) (record { callers = callers; next_frontier = [] })

Found-frontier :
    (defs : Definitions) (root : ℕ) (frontier callers : List ℕ)
    → Pending defs root frontier callers
    → (t a : ℕ) → mem t frontier ≡ true
    → mem a (direct_callers defs t) ≡ true
    → Found defs root a
Found-frontier defs root frontier callers p t a m n = (
  keys-direct_callers defs t a n,
  elim (p.queued t m) [
    | inl e ↦
        direct (subst (CallsDirectly defs a) (sym e) (direct_callers-CallsDirectly defs t a n))
    | inr c ↦ through (p.found t c).1 (direct_callers-CallsDirectly defs t a n)
  ],
)

-- Callers of what was settled before the round, or is treated in it, are in the set after it.
settled-next_round :
    (defs : Definitions) (root t : ℕ) (ts callers : List ℕ)
    → Pending defs root (t ∷ ts) callers
    → (u a : ℕ) → mem u (root ∷ callers) ≡ true
    → mem a (direct_callers defs u) ≡ true
    → mem a (next_round defs t ts callers).callers ≡ true
unfolding next_round
settled-next_round defs root t ts callers p u a m n =
    let start : Search = record { callers = callers; next_frontier = [] } in
    let (g, all) =
      visit_targets-Grows (Found defs root) defs (t ∷ ts) start
        (Found-frontier defs root (t ∷ ts) callers p) in
    elim (p.settled u a m n) [ inl q ↦ all u a q n | inr c ↦ g.keeps a c ]

Pending-next_round :
    (defs : Definitions) (root t : ℕ) (ts callers : List ℕ)
    → Pending defs root (t ∷ ts) callers
    → let s = next_round defs t ts callers in Pending defs root s.next_frontier s.callers
unfolding next_round
Pending-next_round defs root t ts callers p =
    let start : Search = record { callers = callers; next_frontier = [] } in
    let (g, all) =
      visit_targets-Grows (Found defs root) defs (t ∷ ts) start
        (Found-frontier defs root (t ∷ ts) callers p) in
    let old = settled-next_round defs root t ts callers p in
    record {
      settled = λ u a m n. elim (Bool-cases (root == u)) [
        | inl here ↦ inr (old u a (ground arith) n)
        | inr away ↦ elim (g.queues u (ground arith)) [
          | inl c ↦ inr (old u a (ground arith) n)
          | inr q ↦ inl q
        ]
      ];
      distinct = g.nodup p.distinct;
      found = g.known p.found;
      queued = λ u m. inr (g.within (λ a h. cc) u m);
    }

length-next_round :
    (defs : Definitions) (t : ℕ) (ts callers : List ℕ)
    → let s = next_round defs t ts callers in
      length callers + length s.next_frontier ≡ length s.callers
unfolding next_round
length-next_round defs t ts callers =
    let (g, all) =
      visit_targets-Grows (λ a. Unit {0}) defs (t ∷ ts)
        (record { callers = callers; next_frontier = [] }) (λ u a m n. tt) in
    omega (arith, g.longer)

length-callers :
    (defs : Definitions) (root : ℕ) (frontier callers : List ℕ)
    → Pending defs root frontier callers
    → length callers ≤ length defs
length-callers defs root frontier callers p =
    omega
      (arith, pigeonhole callers (keys defs) p.distinct (λ a m. (p.found a m).0), length-keys defs)

-- Enough fuel for the rounds that are left.
abbrev Enough : ℕ → Definitions → List ℕ → List ℕ → Type 0
Enough n defs [] callers = 1 ≤ n
Enough n defs (t ∷ ts) callers = suc (suc (length defs)) ≤ n + length callers

Enough-next_round :
    (n : ℕ) (defs : Definitions) (t : ℕ) (callers frontier next : List ℕ)
    → length callers ≤ length defs
    → length callers + length frontier ≡ length next
    → suc (suc (length defs)) ≤ suc n + length callers
    → Enough n defs frontier next
Enough-next_round n defs t callers [] next k e h = omega arith
Enough-next_round n defs t callers (f ∷ fs) next k e h = omega arith

search_callers-IsClosed :
    (n : ℕ) (defs : Definitions) (root : ℕ) (frontier callers : List ℕ)
    → Pending defs root frontier callers
    → Enough n defs frontier callers
    → (found : List ℕ) × (search_callers n defs frontier callers ≡ some found)
      × IsClosed defs root found
      × ((a : ℕ) → mem a found ≡ true → Found defs root a)
unfolding search_callers next_round
search_callers-IsClosed zero defs root [] callers p e = absurd (omega arith)
search_callers-IsClosed zero defs root (t ∷ ts) callers p e =
    absurd (omega (arith, length-callers defs root (t ∷ ts) callers p))
search_callers-IsClosed (suc n) defs root [] callers p e = (
  callers,
  refl,
  record {
    calls_root = λ a h. elim (p.settled root a (ground arith) h) [ inl q ↦ cc | inr c ↦ c ];
    calls_member = λ t a m h. elim (p.settled t a (ground arith) h) [ inl q ↦ cc | inr c ↦ c ];
  },
  p.found,
)
search_callers-IsClosed (suc n) defs root (t ∷ ts) callers p e =
    let s = next_round defs t ts callers in
    search_callers-IsClosed n defs root s.next_frontier s.callers
      (Pending-next_round defs root t ts callers p)
      (Enough-next_round n defs t callers s.next_frontier s.callers
        (length-callers defs root (t ∷ ts) callers p) (length-next_round defs t ts callers) e)

pub transitive_callers-IsClosed :
    (root : ℕ) (defs : Definitions)
    → (callers : List ℕ) × (transitive_callers root defs ≡ some callers)
      × IsClosed defs root callers
      × ((a : ℕ) → mem a callers ≡ true → Found defs root a)
unfolding transitive_callers
transitive_callers-IsClosed root defs =
    search_callers-IsClosed (suc (suc (length defs))) defs root (root ∷ []) []
      (record {
        settled = λ t a m n. inl m;
        distinct = tt;
        found = λ a m. cc;
        queued = λ t m. inl (ground arith);
      })
      (omega arith)

Reaches-IsClosed :
    {defs : Definitions} {root : ℕ} {callers : List ℕ} {a : ℕ}
    → IsClosed defs root callers
    → Reaches defs root a
    → mem a callers ≡ true
Reaches-IsClosed {defs = defs} {root = root} {a = a} c (direct h) =
    c.calls_root _ (CallsDirectly-direct_callers defs root a h)
Reaches-IsClosed {defs = defs} {a = a} c (through {t = t} r h) =
    c.calls_member _ _ (Reaches-IsClosed c r) (CallsDirectly-direct_callers defs t a h)

-- The search for the callers of a pipeline always ends, and it finds a pipeline exactly when that
-- one calls the given pipeline, directly or through others.
pub transitive_callers_exact :
    (root : ℕ) (defs : Definitions)
    → (callers : List ℕ) × (transitive_callers root defs ≡ some callers)
      × ((a : ℕ) → (mem a callers ≡ true) ↔ Reaches defs root a)
transitive_callers_exact root defs =
    let (callers, same, closed, found) = transitive_callers-IsClosed root defs in
    (callers, same, λ a. (λ m. (found a m).1, λ r. Reaches-IsClosed closed r))
