-- ===== src/Artifacts.antt =====
-- The produced artifacts of a ticket: apps/backend/app/domain/artifacts/service.py. The table is the
-- list of its rows in the order of their insertion; ids are minted by the caller.
pub mod Versions
use yaaos.Prelude.{
  ℕ, suc, String, Bool, true, false, ◌&&◌, Option, none, some, List, [], ◌∷◌, ◌++◌, max, ltb, ◌==◌,
  str_eq, if◌then◌else◌,
}

pub record Artifact : Type 0 where
  pub id : ℕ
  pub org_id : ℕ
  pub ticket_id : ℕ
  pub stage_name : String
  pub run_id : ℕ
  pub stage_execution_id : ℕ
  pub version : ℕ
  pub iteration : ℕ
  pub is_final : Bool
  pub body : String

abbrev pub in_group : ℕ → String → Artifact → Bool
in_group ticket name a = (a.ticket_id == ticket) && str_eq a.stage_name name

-- `select(func.max(version)).where(ticket_id == …, stage_name == …)`, with 0 for no row
unfoldable pub max_version : ℕ → String → List Artifact → ℕ
max_version ticket name [] = 0
max_version ticket name (a ∷ as') =
    let rest = max_version ticket name as' in
    if in_group ticket name a then max a.version rest else rest

-- What the caller knows of a new version.
pub record ArtifactSpec : Type 0 where
  pub org_id : ℕ
  pub ticket_id : ℕ
  pub run_id : ℕ
  pub stage_execution_id : ℕ
  pub stage_name : String
  pub body : String
  pub iteration : ℕ

unfoldable pub store : ℕ → ArtifactSpec → List Artifact → List Artifact
unfolding max_version
store id s rows =
    rows
    ++ record {
      id = id;
      org_id = s.org_id;
      ticket_id = s.ticket_id;
      stage_name = s.stage_name;
      run_id = s.run_id;
      stage_execution_id = s.stage_execution_id;
      version = suc (max_version s.ticket_id s.stage_name rows);
      iteration = s.iteration;
      is_final = false;
      body = s.body;
    }
      ∷ []

unfoldable pub mark_final : ℕ → List Artifact → List Artifact
mark_final id [] = []
mark_final id (a ∷ as') =
    (if a.id == id then record a { is_final = true } else a) ∷ mark_final id as'

-- The better of two answers to `order_by(version.desc()).limit(1)`.
abbrev pub newer : Artifact → Option Artifact → Option Artifact
newer a none = some a
newer a (some b) = if ltb b.version a.version then some a else some b

unfoldable pub latest_final : ℕ → ℕ → String → List Artifact → Option Artifact
latest_final org ticket name [] = none
latest_final org ticket name (a ∷ as') =
    let rest = latest_final org ticket name as' in
    if (a.org_id == org) && (in_group ticket name a && a.is_final) then newer a rest else rest

unfoldable pub get : ℕ → ℕ → List Artifact → Option Artifact
get org id [] = none
get org id (a ∷ as') =
    let rest = get org id as' in if (a.id == id) && (a.org_id == org) then some a else rest
