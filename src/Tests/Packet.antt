-- ===== src/Tests/Packet.antt =====
-- Review packets at concrete inputs.
use north.Common.{◌≡◌, refl, List, [], ◌∷◌, ok, err, is_blank}
use north.Domain.Status.{discussing, ready}
use north.Domain.Assessment.{AcceptedReadinessAssessment}
use north.Domain.Requirement.{Requirement, mark_ready}
use north.Domain.Requirement.Trace.{Operation, accept, run, perform}
use north.Domain.Packet.{ReviewPacket, PacketError, project}
use north.Domain.Packet.Staleness.{project_again, mark_ready-project}
use north.Tests.Requirement.{fresh, ready_assessment, no_edit}

abbrev discussed : Requirement
discussed = record fresh {
  acceptance_criteria = "code arrives" ∷ [];
  status = discussing;
  revision = 2;
  state_version = 3;
}

abbrev reviewable : Requirement
reviewable = record discussed { status = ready; state_version = 4 }

abbrev evidence : AcceptedReadinessAssessment
evidence = record { id = "assessment-1"; state_version = 4; assessment = ready_assessment }

abbrev packet : ReviewPacket
packet = record {
  assessment_id = "assessment-1";
  requirement_revision = 2;
  requirement_state_version = 4;
  goal = "Login page";
  scope = "Email-code login.";
  summary = "";
  acceptance_criteria = "code arrives" ∷ [];
  assumptions = [];
  open_questions = [];
  blockers = [];
  assessment_assumptions = "single tenant" ∷ [];
  repositories_reviewed = [];
}

marked : mark_ready ready_assessment discussed ≡ (reviewable, ok tt)
unfolding mark_ready is_blank
marked = refl

mark_ready-project_example : project reviewable evidence ≡ ok packet
mark_ready-project_example =
    mark_ready-project ready_assessment discussed reviewable "assessment-1" marked
      (unfold is_blank in refl)

projected : project reviewable evidence ≡ ok packet
unfolding project is_blank
projected = refl

abbrev no_ops : List Operation
no_ops = Operation.apply_edit no_edit ∷ []

projected_later : project (run no_ops reviewable) evidence ≡ ok packet
unfolding project run perform is_blank
projected_later = refl

project_again_example : run no_ops reviewable ≡ reviewable
project_again_example =
    project_again no_ops reviewable evidence packet packet projected projected_later

accepted_is_stale :
    project (run (accept ∷ []) reviewable) evidence ≡ err (PacketError.stale_state_version 4 5)
unfolding project run perform is_blank
accepted_is_stale = refl
