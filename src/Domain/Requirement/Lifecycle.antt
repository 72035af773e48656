-- ===== src/Domain/Requirement/Lifecycle.antt =====
-- The lifecycle that the module comment of requirement.rs draws, and the bounds of the versions.
use north.Common.{◌+◌, ◌≤◌, ◌≡◌, refl, List, [], ◌∷◌, true, String, u64_max, arith}
use north.Domain.Status.{
  RequirementStatus, draft, discussing, ready, accepted, rejected, can_transition_to,
}
use north.Domain.Assessment.{ReadinessAssessment}
use north.Domain.Requirement.{Requirement, new}
use north.Domain.Requirement.Trace.{
  Operation, begin_discussion, accept, reject, request_changes, reopen, mark_ready, apply_edit,
  perform, run,
}

-- The table of the module comment: each operation, its single source state and its target.
pub data Pins : Operation → RequirementStatus → RequirementStatus → Type 0 where
  discuss : Pins begin_discussion draft discussing
  finish : {a : ReadinessAssessment} → Pins (mark_ready a) discussing ready
  rework : Pins request_changes ready discussing
  approve : Pins accept ready accepted
  decline : Pins reject ready rejected
  revive : Pins reopen rejected discussing

ruleset edges = (discuss, finish, rework, approve, decline, revive)

-- How a call of an operation moves a requirement.
pub data Moves (op : Operation) (r s : Requirement) : Type 0 where
  along :
      Pins op r.status s.status
      → s.revision ≡ r.revision
      → s.state_version ≡ r.state_version + 1
      → Moves op r s
  demote :
      r.status ≡ ready
      → s.status ≡ discussing
      → s.revision ≡ r.revision + 1
      → s.state_version ≡ r.state_version + 1
      → Moves op r s
  edit :
      s.status ≡ r.status
      → s.revision ≡ r.revision + 1
      → s.state_version ≡ r.state_version + 1
      → Moves op r s
  stay : s ≡ r → Moves op r s

-- Every call moves the requirement from the operation's single source state to its target, with
-- the revision kept and the state version up by one; or takes both versions up by one, in place or
-- from ready to discussing; or leaves the requirement as it was.
pub perform-Moves : (op : Operation) (r : Requirement) → Moves op r (perform op r).0
unfolding perform
perform-Moves begin_discussion r = grind (arith, along, stay, edges)
perform-Moves accept r = grind (arith, along, stay, edges)
perform-Moves reject r = grind (arith, along, stay, edges)
perform-Moves request_changes r = grind (arith, along, stay, edges)
perform-Moves reopen r = grind (arith, along, stay, edges)
perform-Moves (mark_ready a) r = grind (arith, along, stay, edges)
perform-Moves (apply_edit e) r = grind (arith, demote, edit, stay)

Pins-can_transition_to :
    {op : Operation} {s t : RequirementStatus} → Pins op s t → can_transition_to s t ≡ true
unfolding can_transition_to
Pins-can_transition_to discuss = refl
Pins-can_transition_to finish = refl
Pins-can_transition_to rework = refl
Pins-can_transition_to approve = refl
Pins-can_transition_to decline = refl
Pins-can_transition_to revive = refl

-- Accepted is final: no calls change an accepted requirement.
pub accepted_final : (ops : List Operation) (r : Requirement) → r.status ≡ accepted → run ops r ≡ r
unfolding run perform
accepted_final [] r h = refl
accepted_final (begin_discussion ∷ ops) r h = ground (arith, accepted_final ops r h)
accepted_final (accept ∷ ops) r h = ground (arith, accepted_final ops r h)
accepted_final (reject ∷ ops) r h = ground (arith, accepted_final ops r h)
accepted_final (request_changes ∷ ops) r h = ground (arith, accepted_final ops r h)
accepted_final (reopen ∷ ops) r h = ground (arith, accepted_final ops r h)
accepted_final (mark_ready a ∷ ops) r h = ground (arith, accepted_final ops r h)
accepted_final (apply_edit e ∷ ops) r h = ground (arith, accepted_final ops r h)

-- The versions start at one, the revision never passes the state version, and both fit a `u64`.
pub record HasVersions (r : Requirement) : Type 0 where
  pub started : 1 ≤ r.revision
  pub revision_bounded : r.revision ≤ r.state_version
  pub fits : r.state_version ≤ u64_max

perform-HasVersions :
    (op : Operation) (r : Requirement) → HasVersions r → HasVersions (perform op r).0
unfolding perform
perform-HasVersions begin_discussion r h = ground arith
perform-HasVersions _ r h = ground arith

run-HasVersions : (ops : List Operation) (r : Requirement) → HasVersions r → HasVersions (run ops r)
unfolding run
run-HasVersions [] r h = h
run-HasVersions (op ∷ ops) r h = run-HasVersions ops (perform op r).0 (perform-HasVersions op r h)

new-HasVersions :
    (id title description created_by : String) → HasVersions (new id title description created_by)
unfolding new
new-HasVersions id title description created_by = omega arith

-- Of a new requirement, after any calls, the revision is at least one and at most the state
-- version, and both fit a `u64`.
run-new-HasVersions :
    (ops : List Operation) (id title description created_by : String)
    → HasVersions (run ops (new id title description created_by))
run-new-HasVersions ops id title description created_by =
    run-HasVersions ops (new id title description created_by)
      (new-HasVersions id title description created_by)
