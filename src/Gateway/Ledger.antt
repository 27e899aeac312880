-- ===== src/Gateway/Ledger.antt =====
-- What the ledger of bearers lets through: apps/backend/app/core/agent_gateway/bearers.py.
use yaaos.Prelude.{
  ℕ, ◌+◌, String, true, false, ◌≡◌, refl, Option, none, some, [], ◌∷◌, ◌++◌, arith, if◌then◌else◌,
  str_eq, eq_iff, first_where, first_where-append, any, leb, ltb, Bool-cases, inl, inr,
}
use yaaos.Gateway.Rows.{Fleet, Platform, new_id}
use yaaos.Gateway.Bearers.{issued_row, issue, has_hash, verify}

-- A bearer that was issued verifies until its time is up, and not from then on, to the agent and the
-- organisation that it was issued to, if its token is not empty and no other bearer has its hash.
pub verify-issue :
    (p : Platform) (agent org ttl : ℕ) (ip arn : Option String) (s : Fleet) (n : ℕ)
    → str_eq (p.token_urlsafe s.next_token) "" ≡ false
    → any (has_hash (p.sha256 (p.token_urlsafe s.next_token))) s.bearers ≡ false
    → let (token, t) = issue p agent org ip ttl arn s in
      (verify p token (record t { now = s.now + n })).0 ≡ (
        if ltb n ttl
        then some (record { bearer_id = s.next_id; agent_id = agent; org_id = org })
        else none)
unfolding issue issued_row verify new_id
verify-issue p agent org ttl ip arn s n h f =
    let row = issued_row p agent org ip ttl arn s in
    let hash = p.sha256 (p.token_urlsafe s.next_token) in
    let e : first_where (has_hash hash) (s.bearers ++ row ∷ []) ≡ some row =
      first_where-append (has_hash hash) s.bearers row f ((eq_iff hash hash).1 refl) in
    elim (Bool-cases (ltb n ttl)) [
      | inl y ↦
          let l : leb (s.now + ttl) (s.now + n) ≡ false = ground (arith, y) in
          rw (verify, h, e, l, y) refl
      | inr m ↦
          let l : leb (s.now + ttl) (s.now + n) ≡ true = ground (arith, m) in
          rw (verify, h, e, l, m) refl
    ]
