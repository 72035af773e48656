-- ===== src/Domain/Requirement.antt =====
-- crates/north-domain/src/requirement.rs: the requirement aggregate. A method on `&mut self`
-- returns the requirement that it leaves beside its result.
pub mod Trace
pub mod Lifecycle
pub mod Evidence
pub mod Edits
use north.Common.{
  ℕ, Bool, true, false, not, ◌&&◌, ◌||◌, String, str_eq, strs_eq, is_blank, is_empty, all, List, [],
  Option, none, some, Result, ok, err, map_err, checked_inc, ◌==◌, if◌then◌else◌,
}
use north.Domain.Status.{
  RequirementStatus, draft, discussing, ready, accepted, rejected, status_eq, can_transition_to,
  InvalidTransition,
}
use north.Domain.Assessment.{ReadinessAssessment, is_ready}

pub record Requirement : Type 0 where
  pub id : String
  pub title : String
  pub description : String
  pub summary : String
  pub acceptance_criteria : List String
  pub assumptions : List String
  pub open_questions : List String
  pub status : RequirementStatus
  pub revision : ℕ
  pub state_version : ℕ
  pub created_by : String

pub record PersistedRequirement : Type 0 where
  pub id : String
  pub title : String
  pub description : String
  pub summary : String
  pub acceptance_criteria : List String
  pub assumptions : List String
  pub open_questions : List String
  pub status : RequirementStatus
  pub revision : ℕ
  pub state_version : ℕ
  pub created_by : String

pub record RequirementEdit : Type 0 where
  pub title : Option String
  pub description : Option String
  pub summary : Option String
  pub acceptance_criteria : Option (List String)
  pub assumptions : Option (List String)
  pub open_questions : Option (List String)

pub data RestoreError : Type 0 where
  invalid_revision invalid_state_version : RestoreError

pub data MarkReadyError : Type 0 where
  stale_assessment : ℕ → ℕ → MarkReadyError
  verdict_not_ready blockers_present missing_acceptance_criteria : MarkReadyError
  transition : InvalidTransition → MarkReadyError

pub data EditError : Type 0 where
  state_forbids_edit : RequirementStatus → EditError
  version_exhausted : EditError

unfoldable pub new : String → String → String → String → Requirement
new id title description created_by = record {
  id = id;
  title = title;
  description = description;
  summary = "";
  acceptance_criteria = [];
  assumptions = [];
  open_questions = [];
  status = draft;
  revision = 1;
  state_version = 1;
  created_by = created_by;
}

unfoldable pub from_persisted : PersistedRequirement → Result Requirement RestoreError
from_persisted state =
    if state.revision == 0
    then err invalid_revision
    else if state.state_version == 0
    then err invalid_state_version
    else ok (record {
      id = state.id;
      title = state.title;
      description = state.description;
      summary = state.summary;
      acceptance_criteria = state.acceptance_criteria;
      assumptions = state.assumptions;
      open_questions = state.open_questions;
      status = state.status;
      revision = state.revision;
      state_version = state.state_version;
      created_by = state.created_by;
    })

unfoldable pub transition_from :
    RequirementStatus
    → RequirementStatus
    → Requirement
    → Requirement × Result (Unit {0}) InvalidTransition
unfolding can_transition_to
transition_from expected_source next r =
    let refused = err (record { source = r.status; to = next }) in
    if not (status_eq r.status expected_source) || not (can_transition_to r.status next)
    then (r, refused)
    else elim (checked_inc r.state_version) [
      | none ↦ (r, refused)
      | some v ↦ (record r { status = next; state_version = v }, ok tt)
    ]

unfoldable pub begin_discussion : Requirement → Requirement × Result (Unit {0}) InvalidTransition
unfolding transition_from
begin_discussion = transition_from draft discussing

-- `acceptance_criteria.iter().all(|c| c.trim().is_empty())`
abbrev pub lacks_criteria : List String → Bool
lacks_criteria = all is_blank

abbrev map_transition :
    Requirement × Result (Unit {0}) InvalidTransition
    → Requirement × Result (Unit {0}) MarkReadyError
map_transition (r, result) = (r, map_err transition result)

unfoldable pub mark_ready :
    ReadinessAssessment → Requirement → Requirement × Result (Unit {0}) MarkReadyError
unfolding transition_from
mark_ready a r =
    if not (status_eq r.status discussing)
    then (r, err (transition (record { source = r.status; to = ready })))
    else if not (a.requirement_revision == r.revision)
    then (r, err (stale_assessment a.requirement_revision r.revision))
    else if not (is_ready a.verdict)
    then (r, err verdict_not_ready)
    else if not (is_empty a.blockers)
    then (r, err blockers_present)
    else if lacks_criteria r.acceptance_criteria
    then (r, err missing_acceptance_criteria)
    else map_transition (transition_from discussing ready r)

unfoldable pub accept : Requirement → Requirement × Result (Unit {0}) InvalidTransition
unfolding transition_from
accept = transition_from ready accepted

unfoldable pub reject : Requirement → Requirement × Result (Unit {0}) InvalidTransition
unfolding transition_from
reject = transition_from ready rejected

unfoldable pub request_changes : Requirement → Requirement × Result (Unit {0}) InvalidTransition
unfolding transition_from
request_changes = transition_from ready discussing

unfoldable pub reopen : Requirement → Requirement × Result (Unit {0}) InvalidTransition
unfolding transition_from
reopen = transition_from rejected discussing

abbrev pub unwrap_or {ℓ} : {A : Type ℓ} → Option A → A → A
unwrap_or none a = a
unwrap_or (some b) a = b

abbrev pub refuses_edits : RequirementStatus → Bool
refuses_edits accepted = true
refuses_edits rejected = true
refuses_edits _ = false

-- The requirement with the candidate content of an edit, before any version moves.
unfoldable pub candidate : RequirementEdit → Requirement → Requirement
candidate e r = record r {
  title = unwrap_or e.title r.title;
  description = unwrap_or e.description r.description;
  summary = unwrap_or e.summary r.summary;
  acceptance_criteria = unwrap_or e.acceptance_criteria r.acceptance_criteria;
  assumptions = unwrap_or e.assumptions r.assumptions;
  open_questions = unwrap_or e.open_questions r.open_questions;
}

unfoldable pub same_content : Requirement → Requirement → Bool
same_content c r =
    str_eq c.title r.title
    && str_eq c.description r.description
    && str_eq c.summary r.summary
    && strs_eq c.acceptance_criteria r.acceptance_criteria
    && strs_eq c.assumptions r.assumptions
    && strs_eq c.open_questions r.open_questions

-- A ready requirement is demoted by an edit.
abbrev pub demoted : RequirementStatus → RequirementStatus
demoted ready = discussing
demoted s = s

-- `c` is the candidate; the two versions are counted up one after the other.
commit_edit : Requirement → Requirement → Requirement × Result ℕ EditError
commit_edit c r = elim (checked_inc r.revision) [
  | none ↦ (r, err version_exhausted)
  | some revision ↦ elim (checked_inc r.state_version) [
    | none ↦ (r, err version_exhausted)
    | some v ↦ (
      record c { revision = revision; state_version = v; status = demoted r.status },
      ok revision,
    )
  ]
]

unfoldable pub apply_edit : RequirementEdit → Requirement → Requirement × Result ℕ EditError
unfolding candidate same_content commit_edit
apply_edit e r =
    if refuses_edits r.status
    then (r, err (state_forbids_edit r.status))
    else if same_content (candidate e r) r
    then (r, ok r.revision)
    else commit_edit (candidate e r) r
