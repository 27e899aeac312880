-- ===== src/Contracts/Prior.antt =====
-- The prior findings that a review pass is shown, and the confidence of a return
-- (apps/backend/app/domain/pipelines/contracts.py).
use yaaos.Prelude.{
  ℕ, true, false, ◌≡◌, refl, sym, ◌∙◌, ap, List, [], ◌∷◌, ◌++◌, map, arith, any, mem, mem-append,
  IsNodup, IsNodup-snoc, ◌==◌, ◌||◌, Bool-cases, inl, inr,
}
use mathlib.Core.Path.{subst}
use yaaos.Findings.{Finding}
use yaaos.Contracts.{
  PriorFindingRef, put_finding, by_id, set_defaults, prior_ref, merge_prior_findings,
}

abbrev pub ids : List Finding → List ℕ
ids [] = []
ids (f ∷ fs) = f.id ∷ ids fs

abbrev pub ref_ids : List PriorFindingRef → List ℕ
ref_ids [] = []
ref_ids (f ∷ fs) = f.finding_id ∷ ref_ids fs

any-ids : (i : ℕ) (fs : List Finding) → any (λ g. g.id == i) fs ≡ mem i (ids fs)
any-ids i [] = refl
any-ids i (f ∷ fs) = ap (λ b. (f.id == i) || b) (any-ids i fs)

mem-put_finding :
    (i : ℕ) (f : Finding) (fs : List Finding)
    → mem i (ids (put_finding f fs)) ≡ ((f.id == i) || mem i (ids fs))
unfolding put_finding
mem-put_finding i f [] = refl
mem-put_finding i f (g ∷ gs) = elim (Bool-cases (g.id == f.id)) [
  | inl y ↦ rw y (ground arith)
  | inr n ↦ rw n (ground (arith, mem-put_finding i f gs))
]

IsNodup-put_finding :
    (f : Finding) (fs : List Finding) → IsNodup (ids fs) → IsNodup (ids (put_finding f fs))
unfolding put_finding
IsNodup-put_finding f [] h = (refl, tt)
IsNodup-put_finding f (g ∷ gs) h = elim (Bool-cases (g.id == f.id)) [
  | inl y ↦
      let e : g.id ≡ f.id = ground arith in rw y (subst (λ i. mem i (ids gs) ≡ false) e h.0, h.1)
  | inr n ↦ rw n (ground (arith, mem-put_finding g.id f gs), IsNodup-put_finding f gs h.1)
]

mem-by_id :
    (i : ℕ) (fs found : List Finding)
    → mem i (ids (by_id fs found)) ≡ (mem i (ids fs) || mem i (ids found))
unfolding by_id
mem-by_id i [] found = refl
mem-by_id i (f ∷ fs) found =
    ground (arith, mem-by_id i fs (put_finding f found), mem-put_finding i f found)

IsNodup-by_id : (fs found : List Finding) → IsNodup (ids found) → IsNodup (ids (by_id fs found))
unfolding by_id
IsNodup-by_id [] found h = h
IsNodup-by_id (f ∷ fs) found h =
    IsNodup-by_id fs (put_finding f found) (IsNodup-put_finding f found h)

ids-snoc : (fs : List Finding) (f : Finding) → ids (fs ++ f ∷ []) ≡ ids fs ++ f.id ∷ []
ids-snoc [] f = refl
ids-snoc (g ∷ gs) f = ap (λ is. g.id ∷ is) (ids-snoc gs f)

mem-snoc :
    (i : ℕ) (f : Finding) (fs : List Finding)
    → mem i (ids (fs ++ f ∷ [])) ≡ ((f.id == i) || mem i (ids fs))
mem-snoc i f fs = ground (arith, ids-snoc fs f, mem-append i (ids fs) (f.id ∷ []))

mem-set_defaults :
    (i : ℕ) (fs found : List Finding)
    → mem i (ids (set_defaults fs found)) ≡ (mem i (ids fs) || mem i (ids found))
unfolding set_defaults
mem-set_defaults i [] found = refl
mem-set_defaults i (f ∷ fs) found = elim (Bool-cases (any (λ g. g.id == f.id) found)) [
  | inl y ↦
      let m : mem f.id (ids found) ≡ true = sym (any-ids f.id found) ∙ y in
      rw y (elim (Bool-cases (f.id == i)) [
        | inl e ↦
            let e' : f.id ≡ i = ground arith in
            let m' : mem i (ids found) ≡ true = subst (λ j. mem j (ids found) ≡ true) e' m in
            ground (arith, mem-set_defaults i fs found)
        | inr e ↦ ground (arith, mem-set_defaults i fs found)
      ])
  | inr n ↦ rw n (ground (arith, mem-set_defaults i fs (found ++ f ∷ []), mem-snoc i f found))
]

IsNodup-set_defaults :
    (fs found : List Finding) → IsNodup (ids found) → IsNodup (ids (set_defaults fs found))
unfolding set_defaults
IsNodup-set_defaults [] found h = h
IsNodup-set_defaults (f ∷ fs) found h = elim (Bool-cases (any (λ g. g.id == f.id) found)) [
  | inl y ↦ rw y (IsNodup-set_defaults fs found h)
  | inr n ↦
      let m : mem f.id (ids found) ≡ false = sym (any-ids f.id found) ∙ n in
      rw n (
        IsNodup-set_defaults fs (found ++ f ∷ [])
          (subst (λ is. IsNodup is) (sym (ids-snoc found f)) (IsNodup-snoc (ids found) f.id h m)))
]

ref_ids-map : (fs : List Finding) → ref_ids (map prior_ref fs) ≡ ids fs
ref_ids-map [] = refl
ref_ids-map (f ∷ fs) = ap (λ is. f.id ∷ is) (ref_ids-map fs)

-- A review pass is shown each prior finding once, and exactly the findings of its own loop, the open
-- ones of the ticket and those of the comments.
pub merge_prior_findings_exact :
    (loop_findings ticket_open comment_findings : List Finding)
    → IsNodup (ref_ids (merge_prior_findings loop_findings ticket_open comment_findings))
      × ((i : ℕ)
          → mem i (ref_ids (merge_prior_findings loop_findings ticket_open comment_findings)) ≡ (
              mem i (ids loop_findings)
              || (mem i (ids ticket_open) || mem i (ids comment_findings))))
unfolding merge_prior_findings
merge_prior_findings_exact ls ts cs =
    let own = by_id ls [] in
    let open_too = set_defaults ts own in
    let all = set_defaults cs open_too in
    let e = ref_ids-map all in
    (
      subst (λ is. IsNodup is) (sym e)
          (IsNodup-set_defaults cs open_too (IsNodup-set_defaults ts own (IsNodup-by_id ls [] tt))),
      λ i.
          ap (λ is. mem i is) e
          ∙ (ground (
            arith,
            mem-set_defaults i cs open_too,
            mem-set_defaults i ts own,
            mem-by_id i ls [],
          )),
    )
