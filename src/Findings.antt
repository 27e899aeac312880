-- ===== src/Findings.antt =====
-- Durable findings: apps/backend/app/domain/findings/service.py and types.py. The table of findings is
-- a list of rows in the order of their insertion, with the audit rows that the service writes beside
-- it. The names of database sessions and of the organisation check at the HTTP edge are left out.
pub mod Handles
pub mod Moves
use yaaos.Prelude.{
  ℕ, suc, String, Bool, true, false, ◌&&◌, not, Option, none, some, List, [], ◌∷◌, ◌++◌, Result, ok,
  err, any, keep, max, ◌==◌, if◌then◌else◌, is_some,
}
use yaaos.Actor.{Actor}

pub data Severity : Type 0 where
  blocker should_fix nit : Severity

pub data FindingStatus : Type 0 where
  opened resolved dismissed : FindingStatus

pub data StatusEventMethod : Type 0 where
  review_verdict user_overrode : StatusEventMethod

pub record FindingStatusEvent : Type 0 where
  pub status : FindingStatus
  pub method : StatusEventMethod
  pub actor : Actor
  pub run_id : Option ℕ
  pub stage_execution_id : Option ℕ
  pub comment_external_id : Option String
  pub at : ℕ

pub record FindingSpec : Type 0 where
  pub id : ℕ
  pub severity : Severity
  pub body : String
  pub code_file : Option String
  pub code_line : Option ℕ
  pub artifact_section : Option String
  pub defect_in_artifact : Option String
  pub display_prefix : String

pub record Finding : Type 0 where
  pub id : ℕ
  pub org_id : ℕ
  pub ticket_id : ℕ
  pub source_run_id : ℕ
  pub source_stage_name : String
  pub source_stage_execution_id : ℕ
  pub first_seen_iteration : ℕ
  pub display_prefix : String
  pub display_id : ℕ
  pub severity : Severity
  pub body : String
  pub code_file : Option String
  pub code_line : Option ℕ
  pub artifact_section : Option String
  pub defect_in_artifact : Option String
  pub status : FindingStatus
  pub status_events : List FindingStatusEvent
  pub defended_at : Option ℕ
  pub external_comment_id : Option String

pub data FindingError : Type 0 where
  finding_not_found : ℕ → FindingError
  invalid_transition : ℕ → FindingStatus → FindingError

pub data FindingAuditKind : Type 0 where
  finding_resolved finding_reopened finding_dismissed finding_reflagged finding_defended :
      FindingAuditKind

pub record FindingStore : Type 0 where
  pub rows : List Finding
  pub audits : List (ℕ × FindingAuditKind)

abbrev pub is_open : FindingStatus → Bool
is_open opened = true
is_open _ = false

abbrev pub is_resolved : FindingStatus → Bool
is_resolved resolved = true
is_resolved _ = false

abbrev pub is_dismissed : FindingStatus → Bool
is_dismissed dismissed = true
is_dismissed _ = false

-- `to in _LEGAL_TRANSITIONS[from]`
unfoldable pub legal : FindingStatus → FindingStatus → Bool
legal opened resolved = true
legal opened dismissed = true
legal resolved opened = true
legal resolved dismissed = true
legal _ _ = false

abbrev pub same_status : FindingStatus → FindingStatus → Bool
same_status opened t = is_open t
same_status resolved t = is_resolved t
same_status dismissed t = is_dismissed t

unfoldable pub get_row : ℕ → List Finding → Option Finding
get_row id [] = none
get_row id (r ∷ rs) = if r.id == id then some r else get_row id rs

-- Write a row back under its id.
unfoldable pub save_row : Finding → List Finding → List Finding
save_row r [] = []
save_row r (q ∷ qs) = if q.id == r.id then r ∷ qs else q ∷ save_row r qs

abbrev pub Stored : Type 0
Stored = Result FindingError FindingStore

-- `_append_event_and_audit`
unfoldable pub append_event :
    Finding → FindingAuditKind → FindingStatusEvent → FindingStore → FindingStore
append_event row kind event s = record {
  rows = save_row (record row { status_events = row.status_events ++ event ∷ [] }) s.rows;
  audits = s.audits ++ (row.id, kind) ∷ [];
}

-- The body that `resolve`, `reopen` and `dismiss` share, at their target status.
unfoldable pub move_row :
    FindingStatus → FindingAuditKind → FindingStatusEvent → FindingStore → Finding → Stored
unfolding legal append_event
move_row target kind event s row =
    if same_status row.status target
    then ok s
    else if legal row.status target
    then ok (append_event (record row { status = target }) kind event s)
    else err (invalid_transition row.id row.status)

unfoldable pub with_row : ℕ → FindingStore → (Finding → Stored) → Stored
with_row id s f = elim (get_row id s.rows) [ none ↦ err (finding_not_found id) | some row ↦ f row ]

unfoldable pub resolve : ℕ → FindingStatusEvent → FindingStore → Stored
unfolding move_row with_row
resolve id event s = with_row id s (move_row resolved finding_resolved event s)

unfoldable pub reopen : ℕ → FindingStatusEvent → FindingStore → Stored
unfolding move_row with_row
reopen id event s = with_row id s (move_row opened finding_reopened event s)

unfoldable pub dismiss : ℕ → FindingStatusEvent → FindingStore → Stored
unfolding move_row with_row
dismiss id event s = with_row id s (move_row dismissed finding_dismissed event s)

unfoldable pub reflag_row : FindingStatusEvent → FindingStore → Finding → Stored
unfolding append_event
reflag_row event s row =
    if not (is_open row.status)
    then err (invalid_transition row.id row.status)
    else ok (append_event row finding_reflagged event s)

unfoldable pub reflag : ℕ → FindingStatusEvent → FindingStore → Stored
unfolding reflag_row with_row
reflag id event s = with_row id s (reflag_row event s)

unfoldable pub defend_row : ℕ → FindingStore → Finding → Stored
defend_row now s row =
    if is_some row.defended_at
    then ok s
    else ok (record {
      rows = save_row (record row { defended_at = some now }) s.rows;
      audits = s.audits ++ (row.id, finding_defended) ∷ [];
    })

unfoldable pub mark_defended : ℕ → ℕ → FindingStore → Stored
unfolding defend_row with_row
mark_defended now id s = with_row id s (defend_row now s)

unfoldable pub set_external_anchor : ℕ → String → FindingStore → Stored
unfolding with_row
set_external_anchor id comment s = with_row id s (λ row.
    ok (record s { rows = save_row (record row { external_comment_id = some comment }) s.rows }))

-- `select(func.max(display_id)).where(ticket_id == …)`, with 0 for no row
unfoldable pub max_display_id : ℕ → List Finding → ℕ
max_display_id ticket [] = 0
max_display_id ticket (r ∷ rs) =
    let rest = max_display_id ticket rs in
    if r.ticket_id == ticket then max r.display_id rest else rest

-- Where the findings of one review return come from.
pub record Origin : Type 0 where
  pub org_id : ℕ
  pub ticket_id : ℕ
  pub run_id : ℕ
  pub stage_name : String
  pub stage_execution_id : ℕ
  pub iteration : ℕ

unfoldable pub refreshed : FindingSpec → Finding → Finding
refreshed spec row = record row {
  body = spec.body;
  code_file = spec.code_file;
  code_line = spec.code_line;
  artifact_section = spec.artifact_section;
  defect_in_artifact = spec.defect_in_artifact;
}

unfoldable pub new_row : Origin → FindingSpec → ℕ → Finding
new_row o spec display_id = record {
  id = spec.id;
  org_id = o.org_id;
  ticket_id = o.ticket_id;
  source_run_id = o.run_id;
  source_stage_name = o.stage_name;
  source_stage_execution_id = o.stage_execution_id;
  first_seen_iteration = o.iteration;
  display_prefix = spec.display_prefix;
  display_id = display_id;
  severity = spec.severity;
  body = spec.body;
  code_file = spec.code_file;
  code_line = spec.code_line;
  artifact_section = spec.artifact_section;
  defect_in_artifact = spec.defect_in_artifact;
  status = opened;
  status_events = [];
  defended_at = none;
  external_comment_id = none;
}

-- The loop of `record_findings`: the rows after it, and the findings returned.
unfoldable pub record_each :
    Origin → ℕ → List FindingSpec → List Finding → List Finding × List Finding
unfolding refreshed new_row
record_each o next [] rows = (rows, [])
record_each o next (spec ∷ specs) rows = elim (get_row spec.id rows) [
  | some row ↦
      let done = record_each o next specs (save_row (refreshed spec row) rows) in
      (done.0, refreshed spec row ∷ done.1)
  | none ↦
      let done = record_each o (suc next) specs (rows ++ new_row o spec next ∷ []) in
      (done.0, new_row o spec next ∷ done.1)
]

unfoldable pub record_findings :
    Origin → List FindingSpec → List Finding → List Finding × List Finding
unfolding record_each max_display_id
record_findings o [] rows = (rows, [])
record_findings o (spec ∷ specs) rows =
    record_each o (suc (max_display_id o.ticket_id rows)) (spec ∷ specs) rows

unfoldable pub list_for_stage_execution : ℕ → List Finding → List Finding
list_for_stage_execution exec = keep (λ r. r.source_stage_execution_id == exec)

unfoldable pub list_open_for_ticket : ℕ → ℕ → List Finding → List Finding
list_open_for_ticket org ticket =
    keep (λ r. (r.org_id == org) && ((r.ticket_id == ticket) && is_open r.status))

pub record AutoApproveConditions : Type 0 where
  pub no_blocker : Bool
  pub no_should_fix : Bool
  pub no_nit : Bool
  pub all_confirmed_fixed : Bool

abbrev pub same_severity : Severity → Severity → Bool
same_severity blocker blocker = true
same_severity should_fix should_fix = true
same_severity nit nit = true
same_severity _ _ = false

unfoldable pub evaluate_auto_approve : ℕ → ℕ → AutoApproveConditions → List Finding → Bool
evaluate_auto_approve org ticket c all =
    let rows =
      keep (λ r. (r.org_id == org) && ((r.ticket_id == ticket) && is_some r.external_comment_id))
        all in
    let open_at =
      λ (s : Severity). any (λ r. is_open r.status && same_severity s r.severity) rows in
    if c.no_blocker && open_at blocker
    then false
    else if c.no_should_fix && open_at should_fix
    then false
    else if c.no_nit && open_at nit
    then false
    else if c.all_confirmed_fixed && any (λ r. is_open r.status) rows
    then false
    else true
