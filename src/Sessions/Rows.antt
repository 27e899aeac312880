-- ===== src/Sessions/Rows.antt =====
-- The table of sessions (`SessionRow` of apps/backend/app/core/identity/models.py), and what
-- sessions.py calls. A `Session` has every column of its row, so that one record stands for both;
-- foreign keys are taken to hold.
use yaaos.Prelude.{ℕ, String, Bool, Option, List, str_eq}

pub record Session : Type 0 where
  pub token_hash : String
  pub user_id : Option ℕ
  pub workspace_id : Option ℕ
  pub sso_satisfied_for_org_id : Option ℕ
  pub sso_satisfied_at : Option ℕ
  pub ip : Option String
  pub user_agent : Option String
  pub csrf_token : String
  pub created_at : ℕ
  pub last_seen_at : ℕ
  pub expires_at : ℕ

-- The table, the clock in seconds, and how many tokens were drawn.
pub record Sessions : Type 0 where
  pub rows : List Session
  pub now : ℕ
  pub next_token : ℕ

-- The token that `secrets.token_urlsafe` gives at its nth call, a digest, and the setting
-- `yaaos_session_lifetime_seconds`.
pub record Secrets : Type 0 where
  pub token_urlsafe : ℕ → String
  pub sha256 : String → String
  pub lifetime_seconds : ℕ

pub data SessionError : Type 0 where
  value_error session_not_found integrity_error : SessionError

abbrev pub has_token_hash : String → Session → Bool
has_token_hash h r = str_eq r.token_hash h
