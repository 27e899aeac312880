-- ===== src/Definition/Visits.antt =====
-- The rounds of the loop of `_transitive_callers`
-- (apps/backend/app/domain/pipelines/definition.py), and what they reach.
use yaaos.Prelude.{
  ℕ, ◌+◌, true, ◌≡◌, sym, List, [], ◌∷◌, arith, mem, IsNodup, length, Bool-cases, inl, inr, ◌⊎◌,
  ◌==◌, if◌then◌else◌,
}
use mathlib.Core.Path.{subst}
use yaaos.Definition.Flatten.{Definitions}
use yaaos.Definition.Validate.{direct_callers, Search, visit_callers, visit_targets}

-- What one round of the loop keeps: the callers so far are kept, new ones are queued, and are
-- distinct and have the property `P` of what is visited.
pub record Grows (P : ℕ → Type 0) (s t : Search) : Type 0 where
  pub keeps : (a : ℕ) → mem a s.callers ≡ true → mem a t.callers ≡ true
  pub keeps_queue : (a : ℕ) → mem a s.next_frontier ≡ true → mem a t.next_frontier ≡ true
  pub queues :
      (a : ℕ) → mem a t.callers ≡ true → (mem a s.callers ≡ true) ⊎ (mem a t.next_frontier ≡ true)
  pub nodup : IsNodup s.callers → IsNodup t.callers
  pub known : ((a : ℕ) → mem a s.callers ≡ true → P a) → (a : ℕ) → mem a t.callers ≡ true → P a
  pub within :
      ((a : ℕ) → mem a s.next_frontier ≡ true → mem a s.callers ≡ true)
      → (a : ℕ) → mem a t.next_frontier ≡ true
      → mem a t.callers ≡ true
  pub longer : length s.callers + length t.next_frontier ≡ length t.callers + length s.next_frontier

Grows-refl : (P : ℕ → Type 0) (s : Search) → Grows P s s
Grows-refl P s = record {
  keeps = λ a h. h;
  keeps_queue = λ a h. h;
  queues = λ a h. inl h;
  nodup = λ h. h;
  known = λ h. h;
  within = λ h. h;
  longer = omega arith;
}

Grows-trans : (P : ℕ → Type 0) (s t u : Search) → Grows P s t → Grows P t u → Grows P s u
Grows-trans P s t u g h = record {
  keeps = λ a m. h.keeps a (g.keeps a m);
  keeps_queue = λ a m. h.keeps_queue a (g.keeps_queue a m);
  queues = λ a m. elim (h.queues a m) [
    | inl old ↦ elim (g.queues a old) [ inl older ↦ inl older | inr q ↦ inr (h.keeps_queue a q) ]
    | inr q ↦ inr q
  ];
  nodup = λ m. h.nodup (g.nodup m);
  known = λ k. h.known (g.known k);
  within = λ k. h.within (g.within k);
  longer = omega (arith, g.longer, h.longer);
}

abbrev visit_one : ℕ → Search → Search
visit_one c s =
    if mem c s.callers
    then s
    else record { callers = c ∷ s.callers; next_frontier = c ∷ s.next_frontier }

Grows-known :
    (P : ℕ → Type 0) (c : ℕ) (s : Search)
    → P c
    → ((a : ℕ) → mem a s.callers ≡ true → P a)
    → (a : ℕ) → mem a (visit_one c s).callers ≡ true
    → P a
Grows-known P c s k h a m = elim (Bool-cases (c == a)) [
  | inl same ↦ let e : c ≡ a = ground arith in subst P e k
  | inr other ↦ h a (ground arith)
]

Grows-visit_one : (P : ℕ → Type 0) (c : ℕ) (s : Search) → P c → Grows P s (visit_one c s)
Grows-visit_one P c s k = record {
  keeps = λ a h. ground arith;
  keeps_queue = λ a h. ground arith;
  queues = λ a h. ground arith;
  nodup = λ h. ground arith;
  known = λ h a m. Grows-known P c s k h a m;
  within = λ h a m. ground (arith, h a);
  longer = ground arith;
}

mem-visit_one : (c : ℕ) (s : Search) → mem c (visit_one c s).callers ≡ true
mem-visit_one c s = ground arith

visit_callers-Grows :
    (P : ℕ → Type 0) (cs : List ℕ) (s : Search)
    → ((a : ℕ) → mem a cs ≡ true → P a)
    → Grows P s (visit_callers cs s)
      × ((a : ℕ) → mem a cs ≡ true → mem a (visit_callers cs s).callers ≡ true)
unfolding visit_callers
visit_callers-Grows P [] s k = (Grows-refl P s, λ a h. cc)
visit_callers-Grows P (c ∷ cs) s k =
    let (g, all) = visit_callers-Grows P cs (visit_one c s) (λ a h. k a (ground arith)) in
    (
      Grows-trans P s (visit_one c s) _ (Grows-visit_one P c s (k c (ground arith))) g,
      λ a h. ground (arith, all a, g.keeps a, mem-visit_one c s),
    )

pub visit_targets-Grows :
    (P : ℕ → Type 0) (defs : Definitions) (ts : List ℕ) (s : Search)
    → ((t a : ℕ) → mem t ts ≡ true → mem a (direct_callers defs t) ≡ true → P a)
    → Grows P s (visit_targets defs ts s)
      × ((t a : ℕ)
          → mem t ts ≡ true
          → mem a (direct_callers defs t) ≡ true
          → mem a (visit_targets defs ts s).callers ≡ true)
unfolding visit_targets
visit_targets-Grows P defs [] s k = (Grows-refl P s, λ t a h m. cc)
visit_targets-Grows P defs (t ∷ ts) s k =
    let mid = visit_callers (direct_callers defs t) s in
    let (g, all) =
      visit_callers-Grows P (direct_callers defs t) s (λ a h. k t a (ground arith) h) in
    let (h, rest) = visit_targets-Grows P defs ts mid (λ u a m. k u a (ground arith)) in
    (
      Grows-trans P s mid _ g h,
      λ u a m n. elim (Bool-cases (t == u)) [
        | inl same ↦
            h.keeps a
              (all a (subst (λ x. mem a (direct_callers defs x) ≡ true) (sym (ground arith)) n))
        | inr other ↦ rest u a (ground arith) n
      ],
    )
