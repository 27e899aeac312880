-- ===== src/Gateway/Claim.antt =====
-- The claim of a command by an agent: `_select_eligible_row_nowait` and `claim_next` of
-- apps/backend/app/core/agent_gateway/service.py. A poll that waits repeats the selection later,
-- which is a claim in a later state.
use yaaos.Prelude.{
  ℕ, zero, suc, String, Bool, true, false, not, ◌&&◌, Option, none, some, List, [], ◌∷◌, Result, ok,
  err, if◌then◌else◌, is_id, ltb, mem, is_some,
}
use yaaos.Gateway.Rows.{
  Payload, CommandRow, pending, claimed, done, Fleet, Platform, Lifecycle, is_pending_command,
  is_config_update, is_provision, is_agent_scoped, is_run_bearing, is_unconfigured, text,
}
use yaaos.Gateway.Queue.{update_command, enqueue_agent_event}

-- What an agent asks with.
pub record ClaimRequest : Type 0 where
  pub agent_id : ℕ
  pub lifecycle : Lifecycle
  pub new_workspaces : ℕ
  pub workspace_ids : List ℕ

-- `SELECT … WHERE p ORDER BY id LIMIT 1`
unfoldable pub oldest_where : (CommandRow → Bool) → List CommandRow → Option CommandRow
oldest_where p [] = none
oldest_where p (c ∷ cs) =
    let rest = oldest_where p cs in
    if not (p c)
    then rest
    else elim rest [ none ↦ some c | some d ↦ if ltb d.id c.id then some d else some c ]

abbrev pub in_workspaces : List ℕ → Option ℕ → Bool
in_workspaces ws none = false
in_workspaces ws (some w) = mem w ws

-- The conditions of the four selections.
abbrev pub is_own_config : ClaimRequest → CommandRow → Bool
is_own_config q c =
    is_pending_command c.status && is_config_update c.command_kind && is_id q.agent_id c.agent_id

abbrev pub is_own_signal : ClaimRequest → CommandRow → Bool
is_own_signal q c =
    is_pending_command c.status && is_agent_scoped c.command_kind && is_id q.agent_id c.agent_id

abbrev pub is_unassigned_provision : CommandRow → Bool
is_unassigned_provision c =
    is_pending_command c.status && is_provision c.command_kind && not (is_some c.agent_id)

abbrev pub is_own_workspace : ClaimRequest → CommandRow → Bool
is_own_workspace q c =
    is_pending_command c.status
    && is_id q.agent_id c.agent_id
    && in_workspaces q.workspace_ids c.workspace_id

abbrev pub or_oldest : Option CommandRow → (CommandRow → Bool) → List CommandRow → Option CommandRow
or_oldest (some c) p cs = some c
or_oldest none p cs = oldest_where p cs

abbrev pub is_positive : ℕ → Bool
is_positive zero = false
is_positive (suc n) = true

unfoldable pub select_eligible_row_nowait : ClaimRequest → List CommandRow → Option CommandRow
select_eligible_row_nowait q cs =
    if is_unconfigured q.lifecycle
    then oldest_where (is_own_config q) cs
    else let signal = oldest_where (is_own_signal q) cs in
      let provision =
        if is_positive q.new_workspaces
        then or_oldest signal is_unassigned_provision cs
        else signal in
      or_oldest provision (is_own_workspace q) cs

-- The command as it goes out: the stored or hydrated payload, the raw token and the run.
pub record Claimed : Type 0 where
  pub row : CommandRow
  pub payload : Payload
  pub completion_token : String
  pub run_id : Option ℕ

-- `_HYDRATION_RETIRE_CAP`
abbrev pub hydration_retire_cap : ℕ
hydration_retire_cap = 5

unfoldable pub stamp_claim : Platform → ClaimRequest → Fleet → CommandRow → CommandRow
stamp_claim p q s c = record c {
  agent_id = some q.agent_id;
  status = claimed;
  claimed_at = some s.now;
  completion_token_hash = some (p.sha256 (p.token_urlsafe s.next_token));
}

abbrev pub revert : CommandRow → CommandRow
revert c = record c { status = pending; claimed_at = none }

-- The row is stamped under a token of its own.
unfoldable pub claim_row : Platform → ClaimRequest → CommandRow → Fleet → Fleet
claim_row p q c s = record (update_command c.id (stamp_claim p q s) s) {
  next_token = suc s.next_token;
}

abbrev pub hydrate : Platform → CommandRow → Result String Payload
hydrate p c = elim (p.hydrator c.command_kind) [
  | none ↦ ok c.payload
  | some h ↦ h c.payload c.org_id
]

-- The command that goes out, whose token is not stored.
unfoldable pub outbound : Platform → ClaimRequest → CommandRow → Fleet → Payload → Claimed
outbound p q c s payload = record {
  row = stamp_claim p q s c;
  payload = payload;
  completion_token = p.token_urlsafe s.next_token;
  run_id = c.run_id;
}

-- A command whose credentials fail is done, and its run hears of it.
unfoldable pub retire_unhydrated : Platform → CommandRow → String → Fleet → Fleet
retire_unhydrated p c message s =
    let t = update_command c.id (λ (r : CommandRow). record r { status = done }) s in
    elim c.run_id [
      | none ↦ t
      | some run ↦
          enqueue_agent_event p run c.id "failure" (("error_message", text message) ∷ []) none t
    ]

-- The loop on the selected row; `left` is how many more rows it may retire.
unfoldable pub hydrate_next :
    Platform → ClaimRequest → ℕ → CommandRow → Fleet → Option Claimed × Fleet
hydrate_next p q zero c s =
    let t = claim_row p q c s in
    elim (hydrate p c) [
      | ok payload ↦ (some (outbound p q c s payload), t)
      | err message ↦ (none, update_command c.id revert t)
    ]
hydrate_next p q (suc left) c s =
    let t = claim_row p q c s in
    elim (hydrate p c) [
      | ok payload ↦ (some (outbound p q c s payload), t)
      | err message ↦
          if is_run_bearing c.command_kind
          then (let u = retire_unhydrated p c message t in
              elim (select_eligible_row_nowait q u.commands) [
                | none ↦ (none, u)
                | some d ↦ hydrate_next p q left d u
              ])
          else (none, update_command c.id revert t)
    ]

unfoldable pub claim_next : Platform → ClaimRequest → Fleet → Option Claimed × Fleet
claim_next p q s = elim (select_eligible_row_nowait q s.commands) [
  | none ↦ (none, s)
  | some c ↦ hydrate_next p q hydration_retire_cap c s
]
