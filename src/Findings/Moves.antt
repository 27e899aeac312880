-- ===== src/Findings/Moves.antt =====
-- The status machine of findings (apps/backend/app/domain/findings/service.py, `_LEGAL_TRANSITIONS`).
use yaaos.Prelude.{
  ℕ, true, false, ◌≡◌, refl, sym, ap, ◌∙◌, some, List, [], ◌∷◌, ◌++◌, ok, err, arith, ◌==◌,
  Bool-cases, Option-cases, inl, inr, ◌⊎◌,
}
use yaaos.Findings.{
  Finding, FindingStatus, opened, resolved, dismissed, FindingStatusEvent, FindingStore,
  FindingAuditKind, invalid_transition, get_row, save_row, append_event, legal, move_row, with_row,
  resolve, reopen, dismiss, reflag_row, reflag, Stored, same_status, finding_resolved,
  finding_reopened, finding_dismissed,
}

get_row-save_row :
    (id : ℕ) (r : Finding) (rows : List Finding) {q : Finding}
    → get_row id rows ≡ some q
    → r.id ≡ id
    → get_row id (save_row r rows) ≡ some r
unfolding get_row save_row
get_row-save_row id r [] h e = cc
get_row-save_row id r (x ∷ xs) {q} h e = elim (Bool-cases (x.id == id)) [
  | inl y ↦
      let k : (x.id == r.id) ≡ true = ground arith in
      let l : (r.id == id) ≡ true = ground arith in rw (k, l)
  | inr n ↦
      let k : (x.id == r.id) ≡ false = ground arith in
      let h' : get_row id xs ≡ some q = ground (arith, h) in
      ground (arith, k, n, get_row-save_row id r xs {q = q} h' e)
]

pub get_row-id : (id : ℕ) (rows : List Finding) {q : Finding} → get_row id rows ≡ some q → q.id ≡ id
unfolding get_row
get_row-id id [] h = cc
get_row-id id (x ∷ xs) {q} h = elim (Bool-cases (x.id == id)) [
  | inl y ↦
      let e : some x ≡ some q = ground (arith, h) in
      let i : x.id ≡ id = ground arith in let e' : x.id ≡ q.id = cc in cc
  | inr n ↦ let h' : get_row id xs ≡ some q = ground (arith, h) in get_row-id id xs h'
]

-- The row of an id has a status.
abbrev pub At : ℕ → FindingStatus → FindingStore → Type 0
At id status s = (q : Finding) × (get_row id s.rows ≡ some q) × (q.status ≡ status)

with_row-some :
    (id : ℕ) (s : FindingStore) (f : Finding → Stored) {q : Finding}
    → get_row id s.rows ≡ some q
    → with_row id s f ≡ f q
unfolding with_row
with_row-some id s f h = rw (h, with_row)

with_row-ok :
    (id : ℕ) (s : FindingStore) (f : Finding → Stored) {s' : FindingStore}
    → with_row id s f ≡ ok s'
    → (q : Finding) × (get_row id s.rows ≡ some q) × (f q ≡ ok s')
unfolding with_row
with_row-ok id s f h = elim (Option-cases (get_row id s.rows)) [
  | inl n ↦ cc
  | inr (q, y) ↦ (q, y, cc)
]

same_status_eq : (a b : FindingStatus) → same_status a b ≡ true → a ≡ b
same_status_eq opened opened h = refl
same_status_eq opened resolved h = cc
same_status_eq opened dismissed h = cc
same_status_eq resolved opened h = cc
same_status_eq resolved resolved h = refl
same_status_eq resolved dismissed h = cc
same_status_eq dismissed opened h = cc
same_status_eq dismissed resolved h = cc
same_status_eq dismissed dismissed h = refl

same_status_refl : (a : FindingStatus) → same_status a a ≡ true
same_status_refl opened = refl
same_status_refl resolved = refl
same_status_refl dismissed = refl

-- A move that succeeds found the row at its target, or it wrote the row there.
move_row-ok :
    (target : FindingStatus) (kind : FindingAuditKind) (event : FindingStatusEvent)
    (s : FindingStore) (q : Finding) {s' : FindingStore}
    → move_row target kind event s q ≡ ok s'
    → ((q.status ≡ target) × (s ≡ s'))
      ⊎ (append_event (record q { status = target }) kind event s ≡ s')
unfolding move_row
move_row-ok target kind event s q h = elim (Bool-cases (same_status q.status target)) [
  | inl y ↦ inl (same_status_eq q.status target y, ground (arith, h))
  | inr n ↦ elim (Bool-cases (legal q.status target)) [
    | inl l ↦ inr (ground (arith, h))
    | inr l ↦ ground (arith, h)
  ]
]

move_row-At :
    (target : FindingStatus) (kind : FindingAuditKind) (event : FindingStatusEvent) (id : ℕ)
    (s : FindingStore) {s' : FindingStore}
    → with_row id s (move_row target kind event s) ≡ ok s'
    → At id target s'
unfolding append_event
move_row-At target kind event id s {s'} h =
    let (q, y, m) = with_row-ok id s (move_row target kind event s) h in
    elim (move_row-ok target kind event s q m) [
      | inl (e, f) ↦ (q, ap (λ (z : FindingStore). get_row id z.rows) (sym f) ∙ y, e)
      | inr f ↦
          let r : Finding = record q {
            status = target;
            status_events = q.status_events ++ event ∷ [];
          } in
          (
            r,
            ap (λ (z : FindingStore). get_row id z.rows) (sym f)
                ∙ get_row-save_row id r s.rows y (get_row-id id s.rows y),
            refl,
          )
    ]

-- At its target a move changes nothing.
At-move_row :
    (target : FindingStatus) (kind : FindingAuditKind) (event : FindingStatusEvent) (id : ℕ)
    (s : FindingStore)
    → At id target s
    → with_row id s (move_row target kind event s) ≡ ok s
unfolding move_row
At-move_row target kind event id s (q, y, e) =
    with_row-some id s (move_row target kind event s) y
    ∙ (let h : same_status q.status target ≡ true =
          ap (λ (z : FindingStatus). same_status z target) e ∙ same_status_refl target in
        ground (arith, h))

-- One of the three operations that change a status.
pub data Move : Type 0 where
  to_resolved to_open to_dismissed : Move

abbrev pub target : Move → FindingStatus
target to_resolved = resolved
target to_open = opened
target to_dismissed = dismissed

abbrev pub ask : Move → ℕ → FindingStatusEvent → FindingStore → Stored
ask to_resolved = resolve
ask to_open = reopen
ask to_dismissed = dismiss

-- A resolution, reopening or dismissal that succeeds leaves the finding at its target, and the same
-- change asked for again, by whatever event, succeeds and leaves the store as it is.
pub moves_idempotent :
    (m : Move) (id : ℕ) (s s' : FindingStore) (e e' : FindingStatusEvent)
    → ask m id e s ≡ ok s'
    → At id (target m) s' × (ask m id e' s' ≡ ok s')
unfolding resolve reopen dismiss
moves_idempotent to_resolved id s s' e e' h =
    let a = move_row-At resolved finding_resolved e id s h in
    (a, At-move_row resolved finding_resolved e' id s' a)
moves_idempotent to_open id s s' e e' h =
    let a = move_row-At opened finding_reopened e id s h in
    (a, At-move_row opened finding_reopened e' id s' a)
moves_idempotent to_dismissed id s s' e e' h =
    let a = move_row-At dismissed finding_dismissed e id s h in
    (a, At-move_row dismissed finding_dismissed e' id s' a)

-- A dismissed finding stays so: neither a verdict that it is fixed, nor a reopening, nor a reflag is
-- accepted, each is refused with the status in hand; a second dismissal changes nothing.
pub dismissed_absorbing :
    (id : ℕ) (s : FindingStore) (e : FindingStatusEvent)
    → At id dismissed s
    → (resolve id e s ≡ err (invalid_transition id dismissed))
      × (reopen id e s ≡ err (invalid_transition id dismissed))
      × (reflag id e s ≡ err (invalid_transition id dismissed))
      × (dismiss id e s ≡ ok s)
unfolding resolve reopen dismiss reflag reflag_row move_row legal
dismissed_absorbing id s e (q, y, d) =
    let i : q.id ≡ id = get_row-id id s.rows y in
    (
      with_row-some id s (move_row resolved finding_resolved e s) y ∙ (rw (d, i)),
      with_row-some id s (move_row opened finding_reopened e s) y ∙ (rw (d, i)),
      with_row-some id s (reflag_row e s) y ∙ (rw (d, i)),
      At-move_row dismissed finding_dismissed e id s (q, y, d),
    )
