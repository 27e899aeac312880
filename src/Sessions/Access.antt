-- ===== src/Sessions/Access.antt =====
-- The operations of apps/backend/app/core/identity/sessions.py. Lifetimes are not negative, and the
-- text of an error is left out.
use yaaos.Prelude.{
  ℕ, suc, ◌+◌, String, Bool, false, not, ◌&&◌, ◌||◌, Option, none, some, [], ◌∷◌, ◌++◌,
  if◌then◌else◌, is_some, or_else, is_id, update_where, first_where, keep, any, ltb, leb, length,
  Result, ok, err, ◌>>=◌,
}
use yaaos.Sessions.Rows.{
  Session, Sessions, Secrets, SessionError, value_error, session_not_found, integrity_error,
  has_token_hash,
}

pub record CreatedSession : Type 0 where
  pub raw_token : String
  pub csrf_token : String
  pub session : Session

-- `DELETE FROM sessions WHERE p`
abbrev pub delete_where : (Session → Bool) → Sessions → Sessions
delete_where p s = record s { rows = keep (λ r. not (p r)) s.rows }

unfoldable pub new_session :
    Secrets → Option ℕ → Option ℕ → Option String → Option String → Option ℕ → Sessions → Session
new_session g user workspace ip agent lifetime s = record {
  token_hash = g.sha256 (g.token_urlsafe s.next_token);
  user_id = user;
  workspace_id = workspace;
  sso_satisfied_for_org_id = none;
  sso_satisfied_at = none;
  ip = ip;
  user_agent = agent;
  csrf_token = g.token_urlsafe (suc s.next_token);
  created_at = s.now;
  last_seen_at = s.now;
  expires_at = s.now + or_else lifetime g.lifetime_seconds;
}

-- Just one principal; the primary key refuses a second row with the hash.
unfoldable pub create :
    Secrets
    → Option ℕ
    → Option ℕ
    → Option String
    → Option String
    → Option ℕ
    → Sessions
    → Result SessionError (CreatedSession × Sessions)
create g user workspace ip agent lifetime s =
    if is_some user && is_some workspace || not (is_some user) && not (is_some workspace)
    then err value_error
    else let row = new_session g user workspace ip agent lifetime s in
      if any (has_token_hash row.token_hash) s.rows
      then err integrity_error
      else ok (
        record {
          raw_token = g.token_urlsafe s.next_token;
          csrf_token = row.csrf_token;
          session = row;
        },
        record s { rows = s.rows ++ row ∷ []; next_token = suc (suc s.next_token) },
      )

abbrev pub live : ℕ → Option Session → Option Session
live now none = none
live now (some r) = if ltb r.expires_at now then none else some r

unfoldable pub find_session_by_hash : String → Sessions → Option Session
find_session_by_hash h s = live s.now (first_where (has_token_hash h) s.rows)

unfoldable pub lookup : Secrets → String → Sessions → Option Session
lookup g raw s = live s.now (first_where (has_token_hash (g.sha256 raw)) s.rows)

abbrev pub is_live : String → ℕ → Session → Bool
is_live h now r = has_token_hash h r && leb now r.expires_at

unfoldable pub touch : Secrets → String → Sessions → Sessions
touch g raw s = record s {
  rows =
      update_where (is_live (g.sha256 raw) s.now) (λ r. record r { last_seen_at = s.now }) s.rows;
}

unfoldable pub revoke : Secrets → String → Sessions → Sessions
revoke g raw s = delete_where (has_token_hash (g.sha256 raw)) s

-- The count, and what is left.
unfoldable pub revoke_all_for_user : ℕ → Sessions → ℕ × Sessions
revoke_all_for_user user s = (
  length (keep (λ (r : Session). is_id user r.user_id) s.rows),
  delete_where (λ r. is_id user r.user_id) s,
)

unfoldable pub rotate :
    Secrets
    → String
    → Option String
    → Option String
    → Sessions
    → Result SessionError (CreatedSession × Sessions)
rotate g old ip agent s = elim (lookup g old s) [
  | none ↦ err session_not_found
  | some r ↦
      create g r.user_id r.workspace_id ip agent none s
      >>= (λ made. ok (made.0, revoke g old made.1))
]

abbrev pub satisfied : ℕ → ℕ → Session → Session
satisfied org now r = record r { sso_satisfied_for_org_id = some org; sso_satisfied_at = some now }

-- A live row is changed and given back.
unfoldable pub mark_sso_satisfied :
    Secrets → String → ℕ → Sessions → Result SessionError (Session × Sessions)
mark_sso_satisfied g raw org s =
    let p = is_live (g.sha256 raw) s.now in
    elim (first_where p s.rows) [
      | none ↦ err session_not_found
      | some r ↦
          ok
            (satisfied org s.now r, record s { rows = update_where p (satisfied org s.now) s.rows })
    ]

-- `SSO_TTL`, eight hours.
abbrev pub sso_ttl : ℕ
sso_ttl = 28800

abbrev pub is_within_ttl : ℕ → Option ℕ → Bool
is_within_ttl now none = false
is_within_ttl now (some at) = leb now (at + sso_ttl)

unfoldable pub is_sso_satisfied : ℕ → ℕ → Session → Bool
is_sso_satisfied org now r =
    is_id org r.sso_satisfied_for_org_id && is_within_ttl now r.sso_satisfied_at

unfoldable pub cleanup_expired : Sessions → ℕ × Sessions
cleanup_expired s = (
  length (keep (λ (r : Session). ltb r.expires_at s.now) s.rows),
  delete_where (λ r. ltb r.expires_at s.now) s,
)
