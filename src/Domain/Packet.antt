-- ===== src/Domain/Packet.antt =====
-- `ReviewPacket::project` of crates/north-domain/src/readiness.rs: the human-review handoff.
pub mod Staleness
use north.Common.{
  ℕ, not, ◌||◌, String, is_blank, is_empty, List, Result, ok, err, ◌==◌, if◌then◌else◌,
}
use north.Domain.Status.{ready, status_eq}
use north.Domain.Assessment.{ReviewedRepository, AcceptedReadinessAssessment, is_ready}
use north.Domain.Requirement.{Requirement, lacks_criteria}

pub data PacketError : Type 0 where
  stale_assessment stale_state_version : ℕ → ℕ → PacketError
  invalid_assessment_identity not_ready invalid_assessment : PacketError

pub record ReviewPacket : Type 0 where
  pub assessment_id : String
  pub requirement_revision : ℕ
  pub requirement_state_version : ℕ
  pub goal : String
  pub scope : String
  pub summary : String
  pub acceptance_criteria : List String
  pub assumptions : List String
  pub open_questions : List String
  pub blockers : List String
  pub assessment_assumptions : List String
  pub repositories_reviewed : List ReviewedRepository

unfoldable pub project : Requirement → AcceptedReadinessAssessment → Result ReviewPacket PacketError
project requirement evidence =
    if is_blank evidence.id
    then err invalid_assessment_identity
    else if not (assessment.requirement_revision == requirement.revision)
    then err (stale_assessment assessment.requirement_revision requirement.revision)
    else if not (evidence.state_version == requirement.state_version)
    then err (stale_state_version evidence.state_version requirement.state_version)
    else if not (status_eq requirement.status ready)
    then err not_ready
    else if not (is_ready assessment.verdict)
        || not (is_empty assessment.blockers)
        || lacks_criteria requirement.acceptance_criteria
    then err invalid_assessment
    else ok (record {
      assessment_id = evidence.id;
      requirement_revision = requirement.revision;
      requirement_state_version = requirement.state_version;
      goal = requirement.title;
      scope = requirement.description;
      summary = requirement.summary;
      acceptance_criteria = requirement.acceptance_criteria;
      assumptions = requirement.assumptions;
      open_questions = requirement.open_questions;
      blockers = assessment.blockers;
      assessment_assumptions = assessment.assumptions;
      repositories_reviewed = assessment.repositories_reviewed;
    })
  where
    open evidence use {assessment}
