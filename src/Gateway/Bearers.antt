-- ===== src/Gateway/Bearers.antt =====
-- The ledger of bearers (apps/backend/app/core/agent_gateway/bearers.py).
use yaaos.Prelude.{
  ℕ, suc, ◌+◌, String, Bool, false, not, ◌&&◌, Option, none, some, [], ◌∷◌, ◌++◌, ◌==◌,
  if◌then◌else◌, str_eq, is_some, update_where, first_where, keep, leb, length,
}
use yaaos.Gateway.Rows.{BearerRow, Fleet, Platform, new_id}

pub record BearerContext : Type 0 where
  pub bearer_id : ℕ
  pub agent_id : ℕ
  pub org_id : ℕ

-- `DEFAULT_TTL_SECONDS`
abbrev pub default_ttl_seconds : ℕ
default_ttl_seconds = 3600

-- The row of an issued bearer.
unfoldable pub issued_row : Platform → ℕ → ℕ → Option String → ℕ → Option String → Fleet → BearerRow
issued_row p agent org ip ttl arn s = record {
  id = s.next_id;
  org_id = org;
  agent_id = agent;
  token_hash = p.sha256 (p.token_urlsafe s.next_token);
  issued_at = s.now;
  expires_at = s.now + ttl;
  revoked_at = none;
  revoked_reason = none;
  last_seen_at = none;
  source_ip = ip;
  issued_iam_arn = arn;
}

-- The plaintext is returned and not stored.
unfoldable pub issue : Platform → ℕ → ℕ → Option String → ℕ → Option String → Fleet → String × Fleet
issue p agent org ip ttl arn s = (
  p.token_urlsafe s.next_token,
  record (new_id s) {
    bearers = s.bearers ++ issued_row p agent org ip ttl arn s ∷ [];
    next_token = suc s.next_token;
  },
)

abbrev pub has_hash : String → BearerRow → Bool
has_hash h b = str_eq b.token_hash h

-- Neither revoked nor expired.
abbrev pub is_valid : ℕ → BearerRow → Bool
is_valid now b = not (is_some b.revoked_at) && not (leb b.expires_at now)

abbrev pub context_of : BearerRow → BearerContext
context_of b = record { bearer_id = b.id; agent_id = b.agent_id; org_id = b.org_id }

unfoldable pub verify : Platform → String → Fleet → Option BearerContext × Fleet
verify p token s =
    if str_eq token ""
    then (none, s)
    else elim (first_where (has_hash (p.sha256 token)) s.bearers) [
      | none ↦ (none, s)
      | some b ↦
          if is_valid s.now b
          then (
            some (context_of b),
            record s {
              bearers =
                  update_where (λ (r : BearerRow). r.id == b.id)
                    (λ (r : BearerRow). record r { last_seen_at = some s.now }) s.bearers;
            },
          )
          else (none, s)
    ]

abbrev pub revoked : String → ℕ → BearerRow → BearerRow
revoked reason now b = record b { revoked_at = some now; revoked_reason = some reason }

abbrev pub is_unrevoked : (BearerRow → Bool) → BearerRow → Bool
is_unrevoked p b = p b && not (is_some b.revoked_at)

-- The update that the revocations share, with the number of rows it changed.
unfoldable pub revoke_where : (BearerRow → Bool) → String → Fleet → ℕ × Fleet
revoke_where p reason s = (
  length (keep (is_unrevoked p) s.bearers),
  record s { bearers = update_where (is_unrevoked p) (revoked reason s.now) s.bearers },
)

unfoldable pub revoke : ℕ → String → Fleet → Fleet
unfolding revoke_where
revoke bearer reason s = (revoke_where (λ (b : BearerRow). b.id == bearer) reason s).1

unfoldable pub revoke_all_for_agent : ℕ → String → Fleet → ℕ × Fleet
unfolding revoke_where
revoke_all_for_agent agent reason s = revoke_where (λ (b : BearerRow). b.agent_id == agent) reason s

unfoldable pub revoke_all_for_org : ℕ → String → Fleet → ℕ × Fleet
unfolding revoke_where
revoke_all_for_org org reason s = revoke_where (λ (b : BearerRow). b.org_id == org) reason s

abbrev pub is_text : String → Option String → Bool
is_text a none = false
is_text a (some b) = str_eq b a

unfoldable pub revoke_all_for_arn : String → String → Fleet → ℕ × Fleet
unfolding revoke_where
revoke_all_for_arn arn reason s =
    revoke_where (λ (b : BearerRow). is_text arn b.issued_iam_arn) reason s
