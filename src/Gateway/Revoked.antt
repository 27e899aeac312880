-- ===== src/Gateway/Revoked.antt =====
-- That a revocation is for good: apps/backend/app/core/agent_gateway/bearers.py.
use yaaos.Prelude.{
  ℕ, ◌+◌, ◌<◌, String, Bool, true, false, ◌≡◌, ◌≢◌, ◌⊎◌, refl, sym, ◌∙◌, ap, Option, none, some,
  List, [], ◌∷◌, ◌++◌, arith, All, All-update_where, ◌==◌, str_eq, is_some, update_where,
  first_where, Bool-cases, Option-cases, inl, inr,
}
use mathlib.Core.Path.{subst}
use yaaos.Gateway.Rows.{BearerRow, Fleet, Platform, new_id}
use yaaos.Gateway.Bearers.{
  BearerContext, issued_row, issue, has_hash, is_valid, context_of, verify, revoked, is_unrevoked,
  revoke_where, revoke,
}

-- One operation on the ledger, or time that passes.
pub data LedgerStep : Fleet → Fleet → Type 0 where
  issued :
      {s : Fleet} (p : Platform) (agent org ttl : ℕ) (ip arn : Option String)
      → LedgerStep s (issue p agent org ip ttl arn s).1
  verified : {s : Fleet} (p : Platform) (token : String) → LedgerStep s (verify p token s).1
  revoked_some :
      {s : Fleet} (q : BearerRow → Bool) (reason : String)
      → LedgerStep s (revoke_where q reason s).1
  passed : {s : Fleet} (seconds : ℕ) → LedgerStep s (record s { now = s.now + seconds })

pub data LedgerSteps : Fleet → Fleet → Type 0 where
  stop : {s : Fleet} → LedgerSteps s s
  next : {s t v : Fleet} → LedgerStep s t → LedgerSteps t v → LedgerSteps s v

abbrev DeadRow : ℕ → BearerRow → Type 0
DeadRow i b = (b.id ≢ i) ⊎ (is_some b.revoked_at ≡ true)

-- The id is taken, and its bearer is revoked.
abbrev Dead : ℕ → Fleet → Type 0
Dead i s = (i < s.next_id) × All (DeadRow i) s.bearers

All-append {ℓ κ} :
    {A : Type ℓ} (P : A → Type κ) (xs : List A) (x : A) → All P xs → P x → All P (xs ++ x ∷ [])
All-append P [] x a h = (h, tt)
All-append P (y ∷ xs) x a h = (a.0, All-append P xs x a.1 h)

verify-Dead :
    (i : ℕ) (p : Platform) (token : String) (s : Fleet) → Dead i s → Dead i (verify p token s).1
unfolding verify
verify-Dead i p token s d = elim (Bool-cases (str_eq token "")) [
  | inl y ↦ rw (verify, y) d
  | inr n ↦ elim (Option-cases (first_where (has_hash (p.sha256 token)) s.bearers)) [
    | inl e ↦ rw (verify, n, e) d
    | inr (b, e) ↦ elim (Bool-cases (is_valid s.now b)) [
      | inr m ↦ rw (verify, n, e, m) d
      | inl l ↦
          rw (verify, n, e, l)
            (
              d.0,
              All-update_where (λ (r : BearerRow). r.id == b.id)
                  (λ (r : BearerRow). record r { last_seen_at = some s.now }) s.bearers (λ r y k. k)
                  d.1,
            )
    ]
  ]
]

LedgerStep-Dead : {s t : Fleet} (i : ℕ) → LedgerStep s t → Dead i s → Dead i t
unfolding issue issued_row new_id revoke_where
LedgerStep-Dead {s} i (LedgerStep.issued p agent org ttl ip arn) d = (
  omega (arith, d.0),
  All-append (DeadRow i) s.bearers (issued_row p agent org ip ttl arn s) d.1
      (inl (λ e. omega (arith, e, d.0))),
)
LedgerStep-Dead {s} i (LedgerStep.verified p token) d = verify-Dead i p token s d
LedgerStep-Dead {s} i (LedgerStep.revoked_some q reason) d = (
  d.0,
  All-update_where (is_unrevoked q) (revoked reason s.now) s.bearers (λ r y k. inr refl) d.1,
)
LedgerStep-Dead {s} i (LedgerStep.passed seconds) d = d

LedgerSteps-Dead : {s t : Fleet} (i : ℕ) → LedgerSteps s t → Dead i s → Dead i t
LedgerSteps-Dead i LedgerSteps.stop d = d
LedgerSteps-Dead i (LedgerSteps.next h k) d = LedgerSteps-Dead i k (LedgerStep-Dead i h d)

dead-row : (i : ℕ) (b : BearerRow) → is_unrevoked (λ r. r.id == i) b ≡ false → DeadRow i b
dead-row i b n = elim (Bool-cases (b.id == i)) [
  | inl y ↦ elim (Bool-cases (is_some b.revoked_at)) [
    | inl z ↦ inr z
    | inr z ↦ let bad : true ≡ false = ground (arith, n, y, z) in cc
  ]
  | inr m ↦ inl (λ e. ground (arith, m, e))
]

revoke-Dead : (i : ℕ) (reason : String) (s : Fleet) → i < s.next_id → Dead i (revoke i reason s)
unfolding revoke revoke_where
revoke-Dead i reason s l = (l, rows s.bearers)
  where
    rows :
        (bs : List BearerRow)
        → All (DeadRow i) (update_where (is_unrevoked (λ b. b.id == i)) (revoked reason s.now) bs)
    rows [] = tt
    rows (b ∷ bs) = elim (Bool-cases (is_unrevoked (λ (r : BearerRow). r.id == i) b)) [
      | inl y ↦ rw y (inr refl, rows bs)
      | inr n ↦ rw n (dead-row i b n, rows bs)
    ]

first_where-All {ℓ κ} :
    {A : Type ℓ} (P : A → Type κ) (p : A → Bool) (xs : List A) {x : A}
    → All P xs
    → first_where p xs ≡ some x
    → P x
first_where-All P p [] a e = cc
first_where-All {A = A} P p (y ∷ xs) {x} a e = elim (Bool-cases (p y)) [
  | inl z ↦
      let k : ◌≡◌ {A = Option A} (some y) (some x) = sym (rw z refl) ∙ e in
      let k' : y ≡ x = cc in subst P k' a.0
  | inr n ↦ first_where-All P p xs a.1 (sym (rw n refl) ∙ e)
]

-- Once revoked, a bearer never verifies again, whatever is issued, verified or revoked and whatever
-- time passes.
pub verify-revoke :
    (i : ℕ) (reason : String) (p : Platform) (token : String) (s : Fleet) {t : Fleet}
    {c : BearerContext}
    → i < s.next_id
    → LedgerSteps (revoke i reason s) t
    → (verify p token t).0 ≡ some c
    → c.bearer_id ≢ i
unfolding verify
verify-revoke i reason p token s {t} {c} l h e =
    let d : Dead i t = LedgerSteps-Dead i h (revoke-Dead i reason s l) in
    elim (Bool-cases (str_eq token "")) [
      | inl y ↦
          let k : ◌≡◌ {A = Option BearerContext} none (some c) = sym (rw (verify, y) refl) ∙ e in cc
      | inr n ↦ elim (Option-cases (first_where (has_hash (p.sha256 token)) t.bearers)) [
        | inl g ↦
            let k : ◌≡◌ {A = Option BearerContext} none (some c) =
              sym (rw (verify, n, g) refl) ∙ e in
            cc
        | inr (b, g) ↦ elim (Bool-cases (is_valid t.now b)) [
          | inr m ↦
              let k : ◌≡◌ {A = Option BearerContext} none (some c) =
                sym (rw (verify, n, g, m) refl) ∙ e in
              cc
          | inl v ↦
              let k : ◌≡◌ {A = Option BearerContext} (some (context_of b)) (some c) =
                sym (rw (verify, n, g, v) refl) ∙ e in
              let k' : context_of b ≡ c = cc in
              elim (first_where-All (DeadRow i) (has_hash (p.sha256 token)) t.bearers d.1 g) [
                | inl other ↦ λ z. other (ap (λ (x : BearerContext). x.bearer_id) k' ∙ z)
                | inr z ↦ let bad : true ≡ false = ground (arith, v, z) in cc
              ]
        ]
      ]
    ]
