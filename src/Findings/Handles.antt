-- ===== src/Findings/Handles.antt =====
-- The handles of findings (apps/backend/app/domain/findings/service.py): `display_id` numbers the
-- findings of a ticket, and the table has the unique constraint `uq_findings_ticket_display_id`.
use yaaos.Prelude.{
  ℕ, suc, ◌<◌, ◌≤◌, ◌≡◌, refl, ap, sym, ◌∙◌, none, some, List, [], ◌∷◌, ◌++◌, arith, ◌==◌,
  Option-cases, Bool-cases, inl, inr,
}
use mathlib.Core.Path.{subst}
use yaaos.Findings.{
  Finding, FindingSpec, Origin, get_row, save_row, refreshed, new_row, max_display_id, record_each,
  record_findings,
}
use yaaos.Findings.Moves.{get_row-id}

abbrev handle : Finding → ℕ × ℕ
handle r = (r.ticket_id, r.display_id)

-- The tickets and the handles of the findings, in the order of their insertion.
abbrev pub handles : List Finding → List (ℕ × ℕ)
handles [] = []
handles (r ∷ rs) = handle r ∷ handles rs

-- No finding of the ticket in the list has a handle of `n` or less.
abbrev pub Above : ℕ → ℕ → List (ℕ × ℕ) → Type 0
Above ticket n [] = Unit
Above ticket n ((t, d) ∷ hs) = (t ≡ ticket → n < d) × Above ticket n hs

-- All findings of the ticket in the list have a handle of at most `n`.
abbrev Upto : ℕ → ℕ → List (ℕ × ℕ) → Type 0
Upto ticket n [] = Unit
Upto ticket n ((t, d) ∷ hs) = (t ≡ ticket → d ≤ n) × Upto ticket n hs

-- The handles of a ticket's findings rise in the order of their insertion.
abbrev pub Increasing : ℕ → List (ℕ × ℕ) → Type 0
Increasing ticket [] = Unit
Increasing ticket ((t, d) ∷ hs) = (t ≡ ticket → Above ticket d hs) × Increasing ticket hs

Upto-weaken : (t m n : ℕ) (hs : List (ℕ × ℕ)) → m ≤ n → Upto t m hs → Upto t n hs
Upto-weaken t m n [] l h = tt
Upto-weaken t m n ((u, d) ∷ hs) l h =
    ((λ e. let b : d ≤ m = h.0 e in omega arith), Upto-weaken t m n hs l h.1)

Upto-max : (t : ℕ) (rs : List Finding) → Upto t (max_display_id t rs) (handles rs)
unfolding max_display_id
Upto-max t [] = tt
Upto-max t (r ∷ rs) = (
  (λ e. ground arith),
  Upto-weaken t (max_display_id t rs) _ (handles rs) (ground arith) (Upto-max t rs),
)

Above-snoc :
    (t n : ℕ) (hs : List (ℕ × ℕ)) (u d : ℕ)
    → Above t n hs
    → (u ≡ t → n < d)
    → Above t n (hs ++ (u, d) ∷ [])
Above-snoc t n [] u d h k = (k, tt)
Above-snoc t n ((v, c) ∷ hs) u d h k = (h.0, Above-snoc t n hs u d h.1 k)

Increasing-snoc :
    (t n : ℕ) (hs : List (ℕ × ℕ)) (u d : ℕ)
    → Increasing t hs
    → Upto u n hs
    → n < d
    → Increasing t (hs ++ (u, d) ∷ [])
Increasing-snoc t n [] u d h b k = ((λ e. tt), tt)
Increasing-snoc t n ((v, c) ∷ hs) u d h b k = (
  (λ e. Above-snoc t c hs u d (h.0 e) (λ f. let a : c ≤ n = b.0 (cc) in omega arith)),
  Increasing-snoc t n hs u d h.1 b.1 k,
)

Upto-snoc :
    (t n : ℕ) (hs : List (ℕ × ℕ)) (u d : ℕ) → Upto t n hs → d ≤ n → Upto t n (hs ++ (u, d) ∷ [])
Upto-snoc t n [] u d h k = ((λ e. k), tt)
Upto-snoc t n (q ∷ hs) u d h k = (h.0, Upto-snoc t n hs u d h.1 k)

handles-snoc :
    (rs : List Finding) (r : Finding) → handles (rs ++ r ∷ []) ≡ handles rs ++ handle r ∷ []
handles-snoc [] r = refl
handles-snoc (q ∷ qs) r = ap (λ hs. handle q ∷ hs) (handles-snoc qs r)

-- A row that is written back with its ticket and its handle as they were.
handles-save_row :
    (r : Finding) (rows : List Finding) {q : Finding}
    → get_row r.id rows ≡ some q
    → handle q ≡ handle r
    → handles (save_row r rows) ≡ handles rows
unfolding get_row save_row
handles-save_row r [] h s = refl
handles-save_row r (x ∷ xs) {q} h s = elim (Bool-cases (x.id == r.id)) [
  | inl y ↦
      let e : some x ≡ some q = ground (arith, h) in
      let e' : handle x ≡ handle q = cc in let f : handle x ≡ handle r = cc in rw (y, f) refl
  | inr n ↦
      let h' : get_row r.id xs ≡ some q = ground (arith, h) in
      let rest : handles (save_row r xs) ≡ handles xs = handles-save_row r xs h' s in
      rw (n, rest) refl
]

record_each_known :
    (o : Origin) (next : ℕ) (spec : FindingSpec) (specs : List FindingSpec) (rows : List Finding)
    {q : Finding}
    → get_row spec.id rows ≡ some q
    → (record_each o next (spec ∷ specs) rows).0
      ≡ (record_each o next specs (save_row (refreshed spec q) rows)).0
unfolding record_each
record_each_known o next spec specs rows y = rw (y, record_each) refl

record_each_fresh :
    (o : Origin) (next : ℕ) (spec : FindingSpec) (specs : List FindingSpec) (rows : List Finding)
    → get_row spec.id rows ≡ none
    → (record_each o next (spec ∷ specs) rows).0
      ≡ (record_each o (suc next) specs (rows ++ new_row o spec next ∷ [])).0
unfolding record_each
record_each_fresh o next spec specs rows y = rw (y, record_each) refl

-- The loop of `record_findings`, at a table whose handles rise and lie below the next one.
record_each-Increasing :
    (t : ℕ) (o : Origin) (n : ℕ) (specs : List FindingSpec) (rows : List Finding)
    → Increasing t (handles rows)
    → Upto o.ticket_id n (handles rows)
    → Increasing t (handles (record_each o (suc n) specs rows).0)
unfolding record_each refreshed new_row
record_each-Increasing t o n [] rows h u = h
record_each-Increasing t o n (spec ∷ specs) rows h u = elim (Option-cases (get_row spec.id rows)) [
  | inr (q, y) ↦
      let y' : get_row q.id rows ≡ some q =
        ap (λ (i : ℕ). get_row i rows) (get_row-id spec.id rows y) ∙ y in
      let same : handles (save_row (refreshed spec q) rows) ≡ handles rows =
        handles-save_row (refreshed spec q) rows y' refl in
      subst (λ rs. Increasing t (handles rs)) (sym (record_each_known o (suc n) spec specs rows y))
        (record_each-Increasing t o n specs (save_row (refreshed spec q) rows)
          (subst (λ hs. Increasing t hs) (sym same) h)
          (subst (λ hs. Upto o.ticket_id n hs) (sym same) u))
  | inl y ↦
      let r = new_row o spec (suc n) in
      let more : handles (rows ++ r ∷ []) ≡ handles rows ++ (o.ticket_id, suc n) ∷ [] =
        handles-snoc rows r in
      subst (λ rs. Increasing t (handles rs)) (sym (record_each_fresh o (suc n) spec specs rows y))
        (record_each-Increasing t o (suc n) specs (rows ++ r ∷ [])
          (subst (λ hs. Increasing t hs) (sym more)
            (Increasing-snoc t n (handles rows) o.ticket_id (suc n) h u (omega arith)))
          (subst (λ hs. Upto o.ticket_id (suc n) hs) (sym more)
            (Upto-snoc o.ticket_id (suc n) (handles rows) o.ticket_id (suc n)
              (Upto-weaken o.ticket_id n (suc n) (handles rows) (omega arith) u) (omega arith))))
]

-- Recording the findings of a review keeps the handles of every ticket rising in the order of
-- insertion.
pub record_findings-Increasing :
    (t : ℕ) (o : Origin) (specs : List FindingSpec) (rows : List Finding)
    → Increasing t (handles rows)
    → Increasing t (handles (record_findings o specs rows).0)
unfolding record_findings
record_findings-Increasing t o [] rows h = h
record_findings-Increasing t o (spec ∷ specs) rows h =
    record_each-Increasing t o (max_display_id o.ticket_id rows) (spec ∷ specs) rows h
      (Upto-max o.ticket_id rows)
