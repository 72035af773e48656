-- ===== src/Tests/Requirement.antt =====
-- The requirement aggregate at concrete inputs.
use north.Common.{
  Bool, ◌↔◌, ◌≡◌, ◌≢◌, refl, inl, List, [], ◌∷◌, none, some, true, false, ok, err, is_blank,
  u64_max, arith,
}
use north.Domain.Status.{draft, discussing, ready, accepted}
use north.Domain.Role.{owner, admin, can_administer, assign_role, assign_role_ok_iff}
use north.Domain.Assessment.{ReadinessAssessment, Verdict}
use north.Domain.Requirement.{Requirement, RequirementEdit, new, apply_edit, version_exhausted}
use north.Domain.Requirement.Trace.{Operation, begin_discussion, mark_ready, reopen, perform, run}
use north.Domain.Requirement.Lifecycle.{Moves, perform-Moves, accepted_final}
use north.Domain.Requirement.Evidence.{IsBacked, run-new-ready}
use north.Domain.Requirement.Edits.{
  content, overlay, apply_edit_changes, apply_edit_exhausted, apply_edit_twice,
}

abbrev pub no_edit : RequirementEdit
no_edit = record {
  title = none;
  description = none;
  summary = none;
  acceptance_criteria = none;
  assumptions = none;
  open_questions = none;
}

abbrev pub add_criterion : RequirementEdit
add_criterion = record no_edit { acceptance_criteria = some ("code arrives" ∷ []) }

abbrev pub ready_assessment : ReadinessAssessment
ready_assessment = record {
  requirement_revision = 2;
  verdict = Verdict.ready;
  blockers = [];
  assumptions = "single tenant" ∷ [];
  repositories_reviewed = [];
  assessed_at_ms = 42;
}

abbrev pub fresh : Requirement
fresh = record {
  id = "r1";
  title = "Login page";
  description = "Email-code login.";
  summary = "";
  acceptance_criteria = [];
  assumptions = [];
  open_questions = [];
  status = draft;
  revision = 1;
  state_version = 1;
  created_by = "u1";
}

fresh_is_new : new "r1" "Login page" "Email-code login." "u1" ≡ fresh
unfolding new
fresh_is_new = refl

abbrev pub to_ready : List Operation
to_ready = begin_discussion ∷ Operation.apply_edit add_criterion ∷ mark_ready ready_assessment ∷ []

to_ready_is_ready : (run to_ready (new "r1" "Login page" "Email-code login." "u1")).status ≡ ready
unfolding run perform new is_blank
to_ready_is_ready = refl

run-new-ready_example :
    IsBacked to_ready (run to_ready (new "r1" "Login page" "Email-code login." "u1"))
run-new-ready_example =
    run-new-ready to_ready "r1" "Login page" "Email-code login." "u1" to_ready_is_ready

perform-Moves_example : Moves begin_discussion fresh (perform begin_discussion fresh).0
perform-Moves_example = perform-Moves begin_discussion fresh

abbrev final : Requirement
final = record fresh { status = accepted; state_version = 5 }

accepted_final_example : run (reopen ∷ begin_discussion ∷ []) final ≡ final
accepted_final_example = accepted_final (reopen ∷ begin_discussion ∷ []) final refl

abbrev open_fresh : Requirement
open_fresh = record fresh { status = ready; state_version = 7 }

other_criteria : overlay add_criterion (content open_fresh) ≢ content open_fresh
other_criteria e = ground arith

apply_edit_changes_example :
    let (s, result) = apply_edit add_criterion open_fresh in
    (result ≡ ok 2)
    × (content s ≡ overlay add_criterion (content open_fresh))
    × (s.revision ≡ 2)
    × (s.state_version ≡ 8)
    × (s.status ≡ discussing)
    × (s.id ≡ "r1")
    × (s.created_by ≡ "u1")
apply_edit_changes_example =
    apply_edit_changes add_criterion open_fresh refl other_criteria (omega arith) (omega arith)

abbrev exhausted : Requirement
exhausted = record open_fresh { revision = u64_max; state_version = u64_max }

edit_past_u64 : apply_edit add_criterion exhausted ≡ (exhausted, err version_exhausted)
edit_past_u64 = apply_edit_exhausted add_criterion exhausted refl other_criteria (inl (omega arith))

abbrev edited : Requirement
edited = record open_fresh {
  acceptance_criteria = "code arrives" ∷ [];
  status = discussing;
  revision = 2;
  state_version = 8;
}

edit_once : apply_edit add_criterion open_fresh ≡ (edited, ok 2)
unfolding apply_edit
edit_once = refl

apply_edit_twice_example : apply_edit add_criterion edited ≡ (edited, ok 2)
apply_edit_twice_example = apply_edit_twice add_criterion open_fresh edited 2 edit_once

assign_role_ok_iff_example : (assign_role admin false owner ≡ ok tt) ↔ (
    (◌≡◌ {A = Bool} false false) × (can_administer admin ≡ true) × (owner ≡ owner → admin ≡ owner))
assign_role_ok_iff_example = assign_role_ok_iff admin false owner
