-- ===== src/Contracts.antt =====
-- What skills return, and the policies on it: apps/backend/app/domain/pipelines/contracts.py.
pub mod Prior
use yaaos.Prelude.{ℕ, String, Option, List, [], ◌∷◌, ◌++◌, map, ltb, ◌==◌, if◌then◌else◌, any}
use yaaos.Findings.{Severity, Finding}

pub data Confidence : Type 0 where
  low medium high : Confidence

abbrev pub low_confidence_max : ℕ
low_confidence_max = 50

abbrev pub high_confidence_min : ℕ
high_confidence_min = 90

unfoldable pub bucket_confidence : ℕ → Confidence
bucket_confidence value =
    if ltb value low_confidence_max
    then low
    else if ltb value high_confidence_min
    then medium
    else high

pub data SkillOutcome : Type 0 where
  completed cannot_complete send_back : SkillOutcome

pub record SkillReturn : Type 0 where
  pub outcome : SkillOutcome
  pub outcome_reason : Option String
  pub send_back_to_stage : Option String
  pub confidence : ℕ
  pub paths_affected : List String
  pub summary : String

pub record SkillReviewFinding : Type 0 where
  pub category : String
  pub severity : Severity
  pub body : String
  pub code_file : Option String
  pub code_line : Option ℕ
  pub artifact_section : Option String
  pub defect_in_artifact : Option String

pub data VerdictStatus : Type 0 where
  fixed still_present user_overrode : VerdictStatus

pub record PriorFindingVerdict : Type 0 where
  pub finding_id : ℕ
  pub status : Option VerdictStatus
  pub reply : Option String

pub record SkillReviewReturn : Type 0 where
  pub new_findings : List SkillReviewFinding
  pub prior_finding_verdicts : List PriorFindingVerdict
  pub confidence : ℕ
  pub summary : String

pub record PriorFindingRef : Type 0 where
  pub finding_id : ℕ
  pub severity : Severity
  pub body : String
  pub code_file : Option String
  pub code_line : Option ℕ
  pub artifact_section : Option String

-- `{f.id: f for f in …}`: the last finding of an id stands at the place of the first.
unfoldable pub put_finding : Finding → List Finding → List Finding
put_finding f [] = f ∷ []
put_finding f (g ∷ gs) = if g.id == f.id then f ∷ gs else g ∷ put_finding f gs

unfoldable pub by_id : List Finding → List Finding → List Finding
unfolding put_finding
by_id [] found = found
by_id (f ∷ fs) found = by_id fs (put_finding f found)

-- `by_id.setdefault(finding.id, finding)` for each finding
unfoldable pub set_defaults : List Finding → List Finding → List Finding
set_defaults [] found = found
set_defaults (f ∷ fs) found =
    set_defaults fs (if any (λ g. g.id == f.id) found then found else found ++ f ∷ [])

abbrev pub prior_ref : Finding → PriorFindingRef
prior_ref f = record {
  finding_id = f.id;
  severity = f.severity;
  body = f.body;
  code_file = f.code_file;
  code_line = f.code_line;
  artifact_section = f.artifact_section;
}

unfoldable pub merge_prior_findings :
    List Finding → List Finding → List Finding → List PriorFindingRef
unfolding by_id set_defaults
merge_prior_findings loop_findings ticket_open comment_findings =
    map prior_ref
      (set_defaults comment_findings (set_defaults ticket_open (by_id loop_findings [])))
