-- ===== src/Gateway/Agents.antt =====
-- The life of an agent: the writers of `workspace_agents` in
-- apps/backend/app/core/agent_gateway/service.py.
use yaaos.Prelude.{
  ℕ, String, Bool, true, false, ◌&&◌, Option, none, some, List, [], ◌∷◌, ◌++◌, Result, ok, ◌>>=◌,
  ◌==◌, if◌then◌else◌, str_eq, any, update_where, first_where,
}
use yaaos.Gateway.Rows.{
  AgentRow, Lifecycle, unconfigured, active, draining, shutdown, reachable, offline, Fleet,
  FleetError, Platform, new_id, publish_agent_changed, audit, Audit, CommandKind, is_unconfigured,
  is_draining,
}
use yaaos.Gateway.Queue.{enqueue_for_agent}
use yaaos.Gateway.Bearers.{revoke, revoke_all_for_agent}
use yaaos.Workspaces.Loss.{failsafe_agent_loss}

abbrev pub is_agent : ℕ → AgentRow → Bool
is_agent i a = a.id == i

abbrev pub get_agent : ℕ → Fleet → Option AgentRow
get_agent i s = first_where (is_agent i) s.agents

-- The identity that an exchange has proved.
pub record Identity : Type 0 where
  pub org_id : ℕ
  pub instance_id : String
  pub iam_arn : String
  pub version : Option String
  pub os : Option String
  pub cpu_count : Option ℕ
  pub memory_bytes : Option ℕ

abbrev pub is_instance : Identity → AgentRow → Bool
is_instance x a = (a.org_id == x.org_id) && str_eq a.instance_id x.instance_id

abbrev coalesce {ℓ} : {A : Type ℓ} → Option A → Option A → Option A
coalesce none b = b
coalesce (some a) b = some a

abbrev pub reconnected : Lifecycle → Lifecycle
reconnected shutdown = unconfigured
reconnected l = l

unfoldable pub reexchanged : Identity → ℕ → AgentRow → AgentRow
reexchanged x now a = record a {
  iam_arn = x.iam_arn;
  version = x.version;
  os = coalesce x.os a.os;
  cpu_count = coalesce x.cpu_count a.cpu_count;
  memory_bytes = coalesce x.memory_bytes a.memory_bytes;
  last_heartbeat_at = some now;
  state = reachable;
  lifecycle = reconnected a.lifecycle;
}

unfoldable pub new_agent : Identity → ℕ → ℕ → AgentRow
new_agent x i now = record {
  id = i;
  org_id = x.org_id;
  instance_id = x.instance_id;
  iam_arn = x.iam_arn;
  version = x.version;
  os = x.os;
  cpu_count = x.cpu_count;
  memory_bytes = x.memory_bytes;
  last_heartbeat_at = some now;
  last_shutdown_at = none;
  claimed_workspace_count = 0;
  state = reachable;
  lifecycle = unconfigured;
}

-- The upsert on `(org_id, instance_id)`, with the id of the row.
unfoldable pub ensure_agent_row : Identity → Fleet → ℕ × Fleet
ensure_agent_row x s = elim (first_where (is_instance x) s.agents) [
  | some a ↦ (
    a.id,
    publish_agent_changed a.id
        (record s { agents = update_where (is_instance x) (reexchanged x s.now) s.agents }),
  )
  | none ↦ (
    s.next_id,
    publish_agent_changed s.next_id
        (record (new_id s) { agents = s.agents ++ new_agent x s.next_id s.now ∷ [] }),
  )
]

unfoldable pub mark_agent_offline : ℕ → Fleet → Fleet
mark_agent_offline i s = record s {
  agents =
      update_where (is_agent i)
        (λ (a : AgentRow). record a { state = offline; last_shutdown_at = some s.now }) s.agents;
}

-- An atomic change of the lifecycle, and whether a row had the state that it asks for.
unfoldable pub compare_and_set :
    ℕ → (Lifecycle → Bool) → (AgentRow → AgentRow) → Fleet → Bool × Fleet
compare_and_set i p f s =
    let q : AgentRow → Bool = λ a. is_agent i a && p a.lifecycle in
    (any q s.agents, record s { agents = update_where q f s.agents })

abbrev pub set_lifecycle : Lifecycle → AgentRow → AgentRow
set_lifecycle l a = record a { lifecycle = l }

unfoldable pub mark_agent_configured : ℕ → Fleet → Fleet
mark_agent_configured i s =
    let (won, t) = compare_and_set i is_unconfigured (set_lifecycle active) s in
    if won then publish_agent_changed i t else t

abbrev pub shut_down : ℕ → AgentRow → AgentRow
shut_down now a = record a { lifecycle = shutdown; state = offline; last_shutdown_at = some now }

unfoldable pub mark_agent_shutdown_complete : ℕ → Fleet → Bool × Fleet
mark_agent_shutdown_complete i s =
    let (won, t) = compare_and_set i is_draining (shut_down s.now) s in
    if won
    then (
      true,
      publish_agent_changed i
          (audit (Audit.shutdown_complete i) (revoke_all_for_agent i "shutdown_complete" t).1),
    )
    else (false, t)

unfoldable pub mark_agent_disconnected : Platform → ℕ → ℕ → Lifecycle → Fleet → Fleet
mark_agent_disconnected p i bearer lifecycle s = publish_agent_changed i (
    audit (Audit.disconnected i lifecycle)
      (failsafe_agent_loss p (i ∷ []) (revoke bearer "graceful_shutdown" (mark_agent_offline i s))))

pub data DrainOutcome : Type 0 where
  now_draining already_draining already_shutdown not_found : DrainOutcome
  now_active not_draining : DrainOutcome

abbrev pub is_startable : Lifecycle → Bool
is_startable unconfigured = true
is_startable active = true
is_startable _ = false

-- The swap won: the command for the agent, the audit and the event.
unfoldable pub signal_agent :
    Platform → ℕ → ℕ → CommandKind → Audit → Fleet → Result FleetError Fleet
signal_agent p org i kind entry s =
    enqueue_for_agent p org i kind [] s >>= λ t. ok (publish_agent_changed i (audit entry t))

-- The compare-and-swap of one agent, and the signal if it was won; a lost race has an outcome too.
unfoldable pub swap_and_signal :
    Platform
    → ℕ
    → ℕ
    → CommandKind
    → Audit
    → (Lifecycle → Bool)
    → (AgentRow → AgentRow)
    → DrainOutcome
    → DrainOutcome
    → Fleet
    → Result FleetError (DrainOutcome × Fleet)
swap_and_signal p org i kind entry q f won_outcome lost_outcome s =
    let (won, t) = compare_and_set i q f s in
    if won
    then (signal_agent p org i kind entry t >>= λ u. ok (won_outcome, u))
    else ok (lost_outcome, t)

-- The row of the agent, if the organisation has it.
abbrev pub get_org_agent : ℕ → ℕ → Fleet → Option AgentRow
get_org_agent org i s = first_where (λ (a : AgentRow). is_agent i a && (a.org_id == org)) s.agents

-- One agent of a bulk `shutdown_agents`, by the lifecycle that was read.
unfoldable pub drain_by :
    Lifecycle → Platform → ℕ → ℕ → Fleet → Result FleetError (DrainOutcome × Fleet)
drain_by shutdown p org i s = ok (DrainOutcome.already_shutdown, s)
drain_by draining p org i s = ok (DrainOutcome.already_draining, s)
drain_by l p org i s =
    swap_and_signal p org i CommandKind.shutdown (Audit.shutdown_requested i l) is_startable
      (set_lifecycle draining) DrainOutcome.now_draining DrainOutcome.already_draining s

unfoldable pub shutdown_agent : Platform → ℕ → ℕ → Fleet → Result FleetError (DrainOutcome × Fleet)
shutdown_agent p org i s = elim (get_org_agent org i s) [
  | none ↦ ok (DrainOutcome.not_found, s)
  | some a ↦ drain_by a.lifecycle p org i s
]

-- One agent of a bulk `cancel_shutdown_agents`, by the lifecycle that was read.
unfoldable pub cancel_by :
    Lifecycle → Platform → ℕ → ℕ → Fleet → Result FleetError (DrainOutcome × Fleet)
cancel_by shutdown p org i s = ok (DrainOutcome.already_shutdown, s)
cancel_by draining p org i s =
    swap_and_signal p org i CommandKind.cancel_shutdown (Audit.cancel_shutdown_requested i draining)
      is_draining (set_lifecycle active) DrainOutcome.now_active DrainOutcome.not_draining s
cancel_by _ p org i s = ok (DrainOutcome.not_draining, s)

unfoldable pub cancel_shutdown_agent :
    Platform → ℕ → ℕ → Fleet → Result FleetError (DrainOutcome × Fleet)
cancel_shutdown_agent p org i s = elim (get_org_agent org i s) [
  | none ↦ ok (DrainOutcome.not_found, s)
  | some a ↦ cancel_by a.lifecycle p org i s
]

-- The loop over the agents; an exception aborts all of it.
unfoldable pub bulk :
    (ℕ → Fleet → Result FleetError (DrainOutcome × Fleet))
    → List ℕ
    → Fleet
    → Result FleetError (List (ℕ × DrainOutcome) × Fleet)
bulk f [] s = ok ([], s)
bulk f (i ∷ agents) s =
    f i s >>= λ (outcome, t). bulk f agents t >>= λ (outcomes, u). ok ((i, outcome) ∷ outcomes, u)

unfoldable pub shutdown_agents :
    Platform → ℕ → List ℕ → Fleet → Result FleetError (List (ℕ × DrainOutcome) × Fleet)
shutdown_agents p org agents s = bulk (shutdown_agent p org) agents s

unfoldable pub cancel_shutdown_agents :
    Platform → ℕ → List ℕ → Fleet → Result FleetError (List (ℕ × DrainOutcome) × Fleet)
cancel_shutdown_agents p org agents s = bulk (cancel_shutdown_agent p org) agents s
