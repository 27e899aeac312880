-- ===== src/Scenarios/Logins.antt =====
-- The theorems on sessions at a small table.
use yaaos.Prelude.{ℕ, zero, suc, String, ◌≡◌, refl, none, some, [], ◌∷◌}
use yaaos.Sessions.Rows.{Session, Sessions, Secrets}
use yaaos.Sessions.Access.{
  CreatedSession, new_session, create, revoke, rotate, lookup, cleanup_expired,
}
use yaaos.Sessions.Rotated.{rotate-lookup}
use yaaos.Sessions.Purged.{UniqueHashes, lookup-cleanup_expired}

-- Tokens that differ at the first three draws, each its own digest.
abbrev nth_token : ℕ → String
nth_token zero = "first"
nth_token (suc zero) = "csrf"
nth_token (suc (suc n)) = "next"

abbrev secrets : Secrets
secrets = record { token_urlsafe = nth_token; sha256 = λ t. t; lifetime_seconds = 100 }

abbrev login : Session
login = record {
  token_hash = "first";
  user_id = some 3;
  workspace_id = none;
  sso_satisfied_for_org_id = none;
  sso_satisfied_at = none;
  ip = none;
  user_agent = some "browser";
  csrf_token = "csrf";
  created_at = 0;
  last_seen_at = 40;
  expires_at = 100;
}

abbrev forgotten : Session
forgotten = record login { token_hash = "old"; expires_at = 20 }

abbrev table : Sessions
table = record { rows = forgotten ∷ login ∷ []; now = 50; next_token = 2 }

-- The session that takes the place of the login.
abbrev renewed : Session
renewed = record login {
  token_hash = "next";
  csrf_token = "next";
  user_agent = none;
  created_at = 50;
  last_seen_at = 50;
  expires_at = 150;
}

abbrev renewal : CreatedSession
renewal = record { raw_token = "next"; csrf_token = "next"; session = renewed }

abbrev rotated : Sessions
rotated = record { rows = forgotten ∷ renewed ∷ []; now = 50; next_token = 4 }

-- At the time at which the new session is about to expire.
rotate-lookup_example :
    (r : Session) × (lookup secrets "first" table ≡ some r)
    × (renewal.session.user_id ≡ r.user_id)
    × (renewal.session.workspace_id ≡ r.workspace_id)
    × (renewal.session.expires_at ≡ 150)
    × (lookup secrets "next" (record rotated { now = 150 }) ≡ some renewed)
unfolding rotate lookup create new_session revoke
rotate-lookup_example =
    rotate-lookup secrets "first" "next" none none table 150 {created = renewal} {t = rotated} refl

lookup-cleanup_expired_example :
    lookup secrets "first" (record (cleanup_expired table).1 { now = 55 })
    ≡ lookup secrets "first" (record table { now = 55 })
unfolding UniqueHashes
lookup-cleanup_expired_example = lookup-cleanup_expired secrets "first" 5 table (refl, (refl, tt))
