-- ===== src/Gateway/Queue.antt =====
-- The durable queue of commands (apps/backend/app/core/agent_gateway/service.py): what is put in, and
-- what is read of a command.
use yaaos.Prelude.{
  ℕ, suc, String, Bool, not, ◌||◌, Option, none, some, List, [], ◌∷◌, ◌++◌, Result, ok, err, ◌>>=◌,
  ◌==◌, if◌then◌else◌, str_eq, any, is_id, update_where, first_where, put, merge, ltb, or_else,
}
use yaaos.Gateway.Rows.{
  CommandKind, Json, Payload, CommandRow, pending, Fleet, FleetError, integrity_error, Platform,
  new_id, config_update, AgentRow, ResumeTask, CommandStatus, null, text, uuid,
}

abbrev pub has_id : ℕ → CommandRow → Bool
has_id i c = c.id == i

abbrev pub get_command : ℕ → Fleet → Option CommandRow
get_command i s = first_where (has_id i) s.commands

abbrev pub update_command : ℕ → (CommandRow → CommandRow) → Fleet → Fleet
update_command i f s = record s { commands = update_where (has_id i) f s.commands }

-- A typed command, less the envelope: its kind, its workspace and the fields of its kind.
pub record AgentCommand : Type 0 where
  pub command_id : ℕ
  pub kind : CommandKind
  pub workspace_id : Option ℕ
  pub fields : Payload
  pub traceparent : String

abbrev pub uuid_or_null : Option ℕ → Json
uuid_or_null none = null
uuid_or_null (some i) = uuid i

abbrev pub kind_str : CommandKind → String
kind_str CommandKind.provision_workspace = "ProvisionWorkspace"
kind_str CommandKind.write_files = "WriteFiles"
kind_str CommandKind.refresh_workspace_auth = "RefreshWorkspaceAuth"
kind_str CommandKind.invoke_claude_code = "InvokeClaudeCode"
kind_str CommandKind.invoke_codex = "InvokeCodex"
kind_str CommandKind.cleanup_workspace = "CleanupWorkspace"
kind_str CommandKind.push_branch = "PushBranch"
kind_str CommandKind.config_update = "ConfigUpdate"
kind_str CommandKind.shutdown = "Shutdown"
kind_str CommandKind.cancel_shutdown = "CancelShutdown"

abbrev pub envelope : Platform → AgentCommand → Option ℕ → Payload
envelope p c run =
    let base =
      ("kind", text (kind_str c.kind))
      ∷ ("command_id", uuid c.command_id)
      ∷ ("traceparent", text (or_else p.current_traceparent c.traceparent))
      ∷ ("completion_token", null)
      ∷ ("run_id", uuid_or_null run)
      ∷ [] in
    elim c.workspace_id [ none ↦ base | some w ↦ put "workspace_id" (uuid w) base ]

-- The row that an enqueued command becomes.
unfoldable pub pending_row : Platform → ℕ → AgentCommand → Option ℕ → CommandRow
pending_row p org c run = record {
  id = c.command_id;
  org_id = org;
  workspace_id = c.workspace_id;
  run_id = run;
  command_kind = c.kind;
  payload = merge c.fields (envelope p c run);
  status = pending;
  agent_id = none;
  completion_token_hash = none;
  claimed_at = none;
  attempt = 0;
}

-- The primary key refuses a second row with the id.
unfoldable pub enqueue_command_payload :
    Platform → ℕ → AgentCommand → Option ℕ → Fleet → Result FleetError Fleet
enqueue_command_payload p org c run s =
    if any (has_id c.command_id) s.commands
    then err integrity_error
    else ok (record s { commands = s.commands ++ pending_row p org c run ∷ [] })

-- `_ENVELOPE_KEYS`
abbrev is_envelope_key : String → Bool
is_envelope_key k =
    str_eq k "kind"
    || str_eq k "command_id"
    || str_eq k "workspace_id"
    || str_eq k "traceparent"
    || str_eq k "completion_token"
    || str_eq k "run_id"

abbrev kind_fields : Payload → Payload
kind_fields [] = []
kind_fields ((k, v) ∷ d) =
    let rest = kind_fields d in if is_envelope_key k then rest else (k, v) ∷ rest

unfoldable pub enqueue_command :
    Platform → ℕ → AgentCommand → Option ℕ → Fleet → Result FleetError Fleet
enqueue_command p org c run s =
    enqueue_command_payload p org (record c { fields = kind_fields c.fields }) run s

unfoldable pub pin_command_to_agent : ℕ → ℕ → Fleet → Fleet
pin_command_to_agent i a s = update_command i (λ (c : CommandRow). record c { agent_id = some a }) s

abbrev pub get_command_org_and_payload : ℕ → Fleet → Option (ℕ × Payload)
get_command_org_and_payload i s = elim (get_command i s) [
  | none ↦ none
  | some c ↦ some (c.org_id, c.payload)
]

abbrev pub get_command_status : ℕ → Fleet → Option CommandStatus
get_command_status i s = elim (get_command i s) [ none ↦ none | some c ↦ some c.status ]

abbrev pub get_command_run_id : ℕ → Fleet → Option ℕ
get_command_run_id i s = elim (get_command i s) [ none ↦ none | some c ↦ c.run_id ]

-- The rows that can route a run, and the newest of them.
abbrev newest_route : ℕ → List CommandRow → Option (ℕ × ℕ × ℕ)
newest_route run [] = none
newest_route run (c ∷ cs) =
    let rest = newest_route run cs in
    if not (is_id run c.run_id) then rest else elim c.workspace_id [
      | none ↦ rest
      | some w ↦ elim c.agent_id [
        | none ↦ rest
        | some a ↦ elim rest [
          | none ↦ some (c.id, w, a)
          | some (j, v, b) ↦ if ltb j c.id then some (c.id, w, a) else some (j, v, b)
        ]
      ]
    ]

abbrev pub resolve_run_route : ℕ → Fleet → Option (ℕ × ℕ)
resolve_run_route run s = elim (newest_route run s.commands) [
  | none ↦ none
  | some (i, w, a) ↦ some (w, a)
]

-- `enqueue_command`, then the agent and a placeholder hash, of which `claim_next` makes a real one:
-- the shape that config updates, shutdowns and their cancellations share.
unfoldable pub enqueue_for_agent :
    Platform → ℕ → ℕ → CommandKind → Payload → Fleet → Result FleetError Fleet
enqueue_for_agent p org a kind fields s =
    let i = s.next_id in
    let c : AgentCommand = record {
      command_id = i;
      kind = kind;
      workspace_id = none;
      fields = fields;
      traceparent = "";
    } in
    enqueue_command p org c none (new_id s) >>= λ t.
    let hash = p.sha256 (p.token_urlsafe t.next_token) in
    ok
      (record (update_command i
        (λ (r : CommandRow). record r { agent_id = some a; completion_token_hash = some hash }) t) {
          next_token = suc t.next_token;
        })

unfoldable pub enqueue_config_update_for_agent : Platform → ℕ → ℕ → Fleet → Result FleetError Fleet
enqueue_config_update_for_agent p a org s =
    p.build_agent_config org >>= λ config. enqueue_for_agent p org a config_update config s

abbrev enqueue_config_updates :
    Platform → ℕ → Payload → List AgentRow → Fleet → Result FleetError Fleet
enqueue_config_updates p org config [] s = ok s
enqueue_config_updates p org config (a ∷ agents) s =
    if a.org_id == org
    then (enqueue_for_agent p org a.id config_update config s >>= λ t.
        enqueue_config_updates p org config agents t)
    else enqueue_config_updates p org config agents s

unfoldable pub enqueue_config_update_for_all_org_agents :
    Platform → ℕ → Fleet → Result FleetError Fleet
enqueue_config_update_for_all_org_agents p org s =
    if any (λ (a : AgentRow). a.org_id == org) s.agents
    then (p.build_agent_config org >>= λ config. enqueue_config_updates p org config s.agents s)
    else ok s

abbrev resume_tasks : List String → ℕ → ℕ → String → Payload → Option String → List ResumeTask
resume_tasks [] run i label outputs tp = []
resume_tasks (consumer ∷ cs) run i label outputs tp =
    record {
      consumer = consumer;
      run_id = run;
      agent_command_id = i;
      outcome_label = label;
      outputs = outputs;
      traceparent = tp;
    }
    ∷ resume_tasks cs run i label outputs tp

unfoldable pub enqueue_agent_event :
    Platform → ℕ → ℕ → String → Payload → Option String → Fleet → Fleet
enqueue_agent_event p run i label outputs tp s = record s {
  outbox = s.outbox ++ resume_tasks p.agent_event_consumers run i label outputs tp;
}
