-- ===== src/Domain/Packet/Staleness.antt =====
-- When evidence can be projected to a packet, and when it is stale.
use north.Common.{◌≡◌, inl, inr, List, false, String, is_blank, ok, arith}
use north.Domain.Assessment.{ReadinessAssessment, AcceptedReadinessAssessment}
use north.Domain.Requirement.{Requirement, mark_ready}
use north.Domain.Requirement.Trace.{Operation, run, run-state_version}
use north.Domain.Packet.{ReviewPacket, project}

project-state_version :
    (r : Requirement) (e : AcceptedReadinessAssessment) (p : ReviewPacket)
    → project r e ≡ ok p
    → e.state_version ≡ r.state_version
unfolding project
project-state_version r e p h = ground arith

-- Evidence that gave a packet gives one after further calls only if these changed nothing at all.
pub project_again :
    (ops : List Operation) (r : Requirement) (e : AcceptedReadinessAssessment) (p q : ReviewPacket)
    → project r e ≡ ok p
    → project (run ops r) e ≡ ok q
    → run ops r ≡ r
project_again ops r e p q before after = elim (run-state_version ops r) [
  | inl same ↦ same
  | inr grown ↦ absurd (
      omega
        (arith, project-state_version r e p before, project-state_version (run ops r) e q after))
]

-- After a successful `mark_ready` the assessment, under any identity that is not blank, gives a
-- packet at once: the requirement's content beside the assessment's evidence.
pub mark_ready-project :
    (a : ReadinessAssessment) (r s : Requirement) (id : String)
    → mark_ready a r ≡ (s, ok tt)
    → is_blank id ≡ false
    → project s (record { id = id; state_version = s.state_version; assessment = a })
      ≡ ok (record {
        assessment_id = id;
        requirement_revision = r.revision;
        requirement_state_version = s.state_version;
        goal = r.title;
        scope = r.description;
        summary = r.summary;
        acceptance_criteria = r.acceptance_criteria;
        assumptions = r.assumptions;
        open_questions = r.open_questions;
        blockers = a.blockers;
        assessment_assumptions = a.assumptions;
        repositories_reviewed = a.repositories_reviewed;
      })
unfolding project mark_ready
mark_ready-project a r s id h named = ground arith
