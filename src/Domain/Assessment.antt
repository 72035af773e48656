-- ===== src/Domain/Assessment.antt =====
-- crates/north-domain/src/readiness.rs: the assessment, and the evidence that a packet rests on.
use north.Common.{ℕ, Bool, true, false, String, List}

pub data Verdict : Type 0 where
  ready needs_clarification : Verdict

abbrev pub is_ready : Verdict → Bool
is_ready ready = true
is_ready needs_clarification = false

pub record ReviewedRepository : Type 0 where
  pub repository_id : String
  pub commit_sha : String

pub record ReadinessAssessment : Type 0 where
  pub requirement_revision : ℕ
  pub verdict : Verdict
  pub blockers : List String
  pub assumptions : List String
  pub repositories_reviewed : List ReviewedRepository
  pub assessed_at_ms : ℕ

pub record AcceptedReadinessAssessment : Type 0 where
  pub id : String
  pub state_version : ℕ
  pub assessment : ReadinessAssessment
