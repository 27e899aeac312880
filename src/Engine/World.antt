-- ===== src/Engine/World.antt =====
-- The state that the transactions of the run engine read and write: everything of one ticket. All
-- engine operations stay within the runs of one ticket. The run that a transaction has loaded is
-- `run`; the other rows of `pipeline_runs` are `siblings`. Stage executions and pauses are kept newest
-- first, which is the order in which the source asks for them. What other components answer is the
-- record `Services`.
use yaaos.Prelude.{
  ℕ, suc, String, Bool, true, false, Option, none, some, List, [], ◌∷◌, ◌++◌, Result, ◌==◌,
  if◌then◌else◌, str_eq,
}
use yaaos.Findings.{FindingStore, FindingError}
use yaaos.Artifacts.{Artifact}
use yaaos.Tickets.{Ticket}
use yaaos.Contracts.{SkillReturn, SkillReviewReturn, PriorFindingVerdict}
use yaaos.Findings.{Finding}
use yaaos.Boundary.{ProtectedMatch}
use yaaos.Engine.Rows.{
  RunState, queued, running, paused, Run, StageExecution, RunPause, Invocation, Checkout, Command,
  Task, Effect,
}

pub record World : Type 0 where
  pub run : Run
  pub siblings : List Run
  pub execs : List StageExecution
  pub pauses : List RunPause
  pub findings : FindingStore
  pub artifacts : List Artifact
  pub ticket : Ticket
  pub outbox : List Task
  pub commands : List (ℕ × Command)
  pub effects : List Effect
  pub next_id : ℕ
  pub now : ℕ

-- What the dispatch of a command through a workspace may raise, with the message of a
-- `CredentialUnavailableError`.
pub data DispatchError : Type 0 where
  credential_unavailable : String → DispatchError
  workspace_not_found workspace_claim_failed coding_agent_error : DispatchError
  vcs_install_not_found runtime_error : DispatchError

-- An exception that aborts the transaction.
pub data Raised : Type 0 where
  assertion_error index_error type_error key_error action_crashed multiple_results_found : Raised
  finding_error : FindingError → Raised
  dispatch_error : DispatchError → Raised

abbrev pub Done : Type 0
Done = Result Raised World

pub data WorkspaceStatus : Type 0 where
  active expired destroying destroy_failed : WorkspaceStatus

pub data Role : Type 0 where
  owner admin builder : Role

-- `ActionContext` of apps/backend/app/domain/actions/types.py, less the ids of the ticket in hand.
pub record ActionContext : Type 0 where
  pub run_id : ℕ
  pub pr_external_id : Option String
  pub branch_name : String
  pub intake_point_id : String
  pub kickoff_input : Option String
  pub preceding_residuals : List Finding
  pub preceding_verdicts : List PriorFindingVerdict
  pub preceding_artifact_id : Option ℕ

pub data ActionOutcome : Type 0 where
  action_result : String → ActionOutcome
  action_error : String → ActionOutcome
  action_raised : ActionOutcome

-- The answer of pydantic: the value, or the text of the validation error.
pub data Parsed (A : Type 0) : Type 0 where
  valid : A → Parsed A
  invalid : String → Parsed A

pub record Services : Type 0 where
  -- the status of a workspace row; `none` is `WorkspaceNotFoundError`
  pub workspace_status : ℕ → Option WorkspaceStatus
  -- what `dispatch_invocation` raises once it has found the workspace, `dispatch_provision`, and
  -- `get_installation_token` of a refresh
  pub invocation_error : Invocation → Option DispatchError
  pub provision_error : Checkout → Option DispatchError
  pub token_error : Option DispatchError
  pub find_oauth_identity : String → Option ℕ
  pub memberships : List (ℕ × Role)
  pub evaluate_protected : List String → ProtectedMatch
  pub execute_action : String → ActionContext → ActionOutcome
  pub parse_skill_return : String → Parsed SkillReturn
  pub parse_review_return : String → Parsed SkillReviewReturn
  -- the registered comment-findings provider
  pub comment_finding_ids : ℕ → List ℕ
  pub terminal_hooks : List ℕ
  -- the text of a fix, `_render_findings_for_fix`
  pub render_findings_for_fix : List Finding → String
  -- the external id of a pull request row
  pub pull_request : ℕ → String

abbrev pub is_queued : RunState → Bool
is_queued queued = true
is_queued _ = false

abbrev pub is_running : RunState → Bool
is_running running = true
is_running _ = false

abbrev pub is_paused : RunState → Bool
is_paused paused = true
is_paused _ = false

-- The states of the index `ux_pipeline_runs_one_in_flight`.
abbrev pub in_flight : RunState → Bool
in_flight running = true
in_flight paused = true
in_flight _ = false

-- `_TERMINAL_RUN_STATES`
abbrev pub is_terminal : RunState → Bool
is_terminal queued = false
is_terminal running = false
is_terminal paused = false
is_terminal _ = true

-- `session.get(PipelineRunRow, run_id)`: the run in hand is put back among its siblings.
unfoldable pub take_run : ℕ → List Run → Option (Run × List Run)
take_run id [] = none
take_run id (r ∷ rs) =
    let rest = take_run id rs in
    if r.id == id then some (r, rs) else elim rest [ none ↦ none | some (q, qs) ↦ some (q, r ∷ qs) ]

unfoldable pub focus : ℕ → World → Option World
unfolding take_run
focus id w = if w.run.id == id then some w else elim (take_run id w.siblings) [
  | none ↦ none
  | some (r, rest) ↦ some (record w { run = r; siblings = w.run ∷ rest })
]

abbrev pub get_exec : ℕ → List StageExecution → Option StageExecution
get_exec id [] = none
get_exec id (x ∷ xs) = if x.id == id then some x else get_exec id xs

abbrev pub replace_exec : StageExecution → List StageExecution → List StageExecution
replace_exec x [] = []
replace_exec x (y ∷ ys) = if y.id == x.id then x ∷ ys else y ∷ replace_exec x ys

abbrev pub replace_pause : RunPause → List RunPause → List RunPause
replace_pause p [] = []
replace_pause p (q ∷ qs) = if q.id == p.id then p ∷ qs else q ∷ replace_pause p qs

-- The columns of a row that is in the session are written back.
unfoldable pub save_exec : StageExecution → World → World
save_exec x w = record w { execs = replace_exec x w.execs }

unfoldable pub save_pause : RunPause → World → World
save_pause p w = record w { pauses = replace_pause p w.pauses }

-- `session.add` and `session.flush`
unfoldable pub add_exec : StageExecution → World → World
add_exec x w = record w { execs = x ∷ w.execs }

-- `uuid7()`: ids rise with time.
unfoldable pub mint : World → World
mint w = record w { next_id = suc w.next_id }

unfoldable pub enqueue : Task → World → World
enqueue t w = record w { outbox = w.outbox ++ t ∷ [] }

unfoldable pub leave : Effect → World → World
leave e w = record w { effects = w.effects ++ e ∷ [] }

unfoldable pub send_command : ℕ → Command → World → World
send_command id c w = record w { commands = w.commands ++ (id, c) ∷ [] }

unfoldable pub publish_run_state : World → World
unfolding leave
publish_run_state w = leave (Effect.run_state_changed w.run.id w.run.state) w

unfoldable pub publish_stage_state : World → World
unfolding leave
publish_stage_state w = leave (Effect.stage_state_changed w.run.id) w

-- `for user_id in targets: create_notification(…)`
unfoldable pub notify_all : Effect → List Effect → World → World
notify_all e es w = record w { effects = w.effects ++ e ∷ es }

-- `x or y` at texts, where the empty text counts as false
abbrev pub or_text : Option String → String → String
or_text none d = d
or_text (some s) d = if str_eq s "" then d else s

-- a missing or empty text
abbrev pub is_blank : Option String → Bool
is_blank none = true
is_blank (some s) = str_eq s ""

abbrev pub get_count : String → List (String × ℕ) → ℕ
get_count k [] = 0
get_count k ((j, n) ∷ m) = if str_eq j k then n else get_count k m

abbrev pub set_count : String → ℕ → List (String × ℕ) → List (String × ℕ)
set_count k v [] = (k, v) ∷ []
set_count k v ((j, n) ∷ m) = if str_eq j k then (k, v) ∷ m else (j, n) ∷ set_count k v m
