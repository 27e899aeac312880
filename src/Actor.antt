-- ===== src/Actor.antt =====
-- Who did what: apps/backend/app/core/audit_log/actor.py.
use yaaos.Prelude.{ℕ, String, Option, none}

pub data ActorKind : Type 0 where
  github_user agent system user workspace sso : ActorKind

pub record Actor : Type 0 where
  pub kind : ActorKind
  pub login : Option String
  pub agent_id : Option ℕ
  pub user_id : Option ℕ
  pub workspace_id : Option ℕ

-- `Actor.system()`
abbrev pub system_actor : Actor
system_actor = record {
  kind = system;
  login = none;
  agent_id = none;
  user_id = none;
  workspace_id = none;
}
