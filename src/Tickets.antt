-- ===== src/Tickets.antt =====
-- The status of a ticket as its pipeline runs drive it:
-- apps/backend/app/domain/tickets/service.py. The row that the guards look up is the ticket in hand,
-- so the guard on a missing row is not modelled; a status change leaves a `StatusChange`, which stands
-- for the audit row, the live event and the notifications that `_apply_transition` fires.
use yaaos.Prelude.{
  ℕ, String, Bool, true, false, not, Option, none, some, List, [], ◌∷◌, ◌++◌, Result, ok, err, ◌==◌,
  if◌then◌else◌,
}

pub data TicketStatus : Type 0 where
  pending running hitl done cancelled failed : TicketStatus

pub record StatusChange : Type 0 where
  pub from_status : TicketStatus
  pub to_status : TicketStatus
  pub reason : Option String

pub record Ticket : Type 0 where
  pub id : ℕ
  pub org_id : ℕ
  pub status : TicketStatus
  pub plugin_id : String
  pub repo_external_id : String
  pub pr_id : Option ℕ
  pub current_run_id : Option ℕ
  pub branch_name : String
  pub changes : List StatusChange

-- `status in ("done", "cancelled", "failed")`
abbrev pub is_settled : TicketStatus → Bool
is_settled done = true
is_settled cancelled = true
is_settled failed = true
is_settled _ = false

abbrev pub is_pending : TicketStatus → Bool
is_pending pending = true
is_pending _ = false

abbrev pub is_hitl : TicketStatus → Bool
is_hitl hitl = true
is_hitl _ = false

-- `row.current_run_id != run_id`
abbrev pub drives : ℕ → Ticket → Bool
drives run_id t = elim t.current_run_id [ none ↦ false | some r ↦ r == run_id ]

unfoldable pub set_current_run : ℕ → Ticket → Ticket
set_current_run run_id t = record t { current_run_id = some run_id }

-- `_apply_transition`
unfoldable pub apply_transition : TicketStatus → Option String → Ticket → Ticket
apply_transition new_status reason t = record t {
  status = new_status;
  changes =
      t.changes ++ record { from_status = t.status; to_status = new_status; reason = reason } ∷ [];
}

unfoldable pub transition_ticket_on_run_start : ℕ → Ticket → Ticket
unfolding apply_transition
transition_ticket_on_run_start run_id t =
    if not (drives run_id t)
    then t
    else if not (is_pending t.status)
    then t
    else apply_transition running none t

unfoldable pub transition_ticket_on_run_terminal :
    ℕ → TicketStatus → Option String → Ticket → Ticket
unfolding apply_transition
transition_ticket_on_run_terminal run_id to_status reason t =
    if not (drives run_id t)
    then t
    else if is_settled t.status
    then t
    else apply_transition to_status reason t

unfoldable pub transition_ticket_on_run_paused : ℕ → Ticket → Ticket
unfolding apply_transition
transition_ticket_on_run_paused run_id t =
    if not (drives run_id t)
    then t
    else if is_settled t.status
    then t
    else apply_transition hitl none t

unfoldable pub transition_ticket_on_run_resumed : ℕ → Ticket → Ticket
unfolding apply_transition
transition_ticket_on_run_resumed run_id t =
    if not (drives run_id t)
    then t
    else if not (is_hitl t.status)
    then t
    else apply_transition running none t

pub data TicketError : Type 0 where
  invalid_ticket_transition : TicketStatus → TicketError

-- `_transition`, and its three callers
unfoldable pub transition : TicketStatus → Option String → Ticket → Result TicketError Ticket
unfolding apply_transition
transition new_status reason t =
    if is_settled t.status
    then err (invalid_ticket_transition t.status)
    else ok (apply_transition new_status reason t)

unfoldable pub complete : Ticket → Result TicketError Ticket
unfolding transition
complete = transition done none

unfoldable pub abandon : String → Ticket → Result TicketError Ticket
unfolding transition
abandon reason = transition cancelled (some reason)

unfoldable pub fail : String → Ticket → Result TicketError Ticket
unfolding transition
fail reason = transition failed (some reason)
