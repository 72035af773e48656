-- ===== src/Protocol/Event.antt =====
-- Events and their acknowledgements (crates/north-protocol/src/lib.rs).
use north.Common.{
  ℕ, String, str_eq, List, Option, none, some, Bool, true, not, ok, err, ◌>>◌, refuse_if,
}
use north.Protocol.Checks.{
  Check, non_empty, schema, sequence, check_each, non_empty_list, complete_commit_sha,
  incomplete_commit_sha, rejected_without_reason, accepted_with_reason,
}

pub record SessionStarted : Type 0 where
  pub runtime_id : String

pub record AgentMessage : Type 0 where
  pub message_id : String
  pub content : String

pub record AgentActivity : Type 0 where
  pub activity : String

pub data ReadinessVerdictWire : Type 0 where
  ready needs_clarification : ReadinessVerdictWire

pub record ReviewedRepositoryWire : Type 0 where
  pub repository_id : String
  pub commit_sha : String

unfoldable pub reviewed_validate : ReviewedRepositoryWire → Check
unfolding non_empty complete_commit_sha
reviewed_validate r = do
  non_empty "repositories_reviewed.repository_id" r.repository_id
  refuse_if (not (complete_commit_sha r.commit_sha)) incomplete_commit_sha

pub record RequirementAssessed : Type 0 where
  pub requirement_id : String
  pub requirement_revision : ℕ
  pub verdict : ReadinessVerdictWire
  pub blockers : List String
  pub assumptions : List String
  pub repositories_reviewed : List ReviewedRepositoryWire

unfoldable pub assessed_validate : RequirementAssessed → Check
unfolding non_empty sequence non_empty_list check_each reviewed_validate
assessed_validate a = do
  non_empty "requirement_id" a.requirement_id
  sequence "requirement_revision" a.requirement_revision
  non_empty_list "blockers" a.blockers
  non_empty_list "assumptions" a.assumptions
  check_each reviewed_validate a.repositories_reviewed

pub record SessionCompleted : Type 0 where
  pub summary : String

pub record SessionFailed : Type 0 where
  pub recoverable : Bool
  pub reason : String

pub data Event : Type 0 where
  session_started : SessionStarted → Event
  agent_message : AgentMessage → Event
  agent_activity : AgentActivity → Event
  requirement_assessed : RequirementAssessed → Event
  session_completed : SessionCompleted → Event
  session_failed : SessionFailed → Event

unfoldable pub event_validate : Event → Check
unfolding non_empty assessed_validate
event_validate (session_started p) = non_empty "runtime_id" p.runtime_id
event_validate (agent_message p) = do
  non_empty "message_id" p.message_id
  non_empty "content" p.content
event_validate (agent_activity p) = non_empty "activity" p.activity
event_validate (requirement_assessed p) = assessed_validate p
event_validate (session_completed p) = non_empty "summary" p.summary
event_validate (session_failed p) = non_empty "reason" p.reason

pub record EventEnvelope : Type 0 where
  pub event_id : String
  pub session_id : String
  pub daemon_event_seq : ℕ
  pub sent_at : String
  pub schema_version : ℕ
  pub event : Event

unfoldable pub envelope_validate : EventEnvelope → Check
unfolding schema non_empty sequence event_validate
envelope_validate e = do
  schema e.schema_version
  non_empty "event_id" e.event_id
  non_empty "session_id" e.session_id
  non_empty "sent_at" e.sent_at
  sequence "daemon_event_seq" e.daemon_event_seq
  event_validate e.event

pub data EventAckStatus : Type 0 where
  accepted rejected : EventAckStatus

pub record EventAck : Type 0 where
  pub event_id : String
  pub session_id : String
  pub daemon_event_seq : ℕ
  pub schema_version : ℕ
  pub status : EventAckStatus
  pub reason : Option String

-- `is_none_or(str::is_empty)`
abbrev pub is_missing : Option String → Bool
is_missing none = true
is_missing (some reason) = str_eq reason ""

-- The two tests on the status.
unfoldable pub reason_validate : EventAckStatus → Option String → Check
reason_validate rejected reason = refuse_if (is_missing reason) rejected_without_reason
reason_validate accepted none = ok tt
reason_validate accepted (some reason) = err accepted_with_reason

unfoldable pub ack_validate : EventAck → Check
unfolding schema non_empty sequence reason_validate
ack_validate a = do
  schema a.schema_version
  non_empty "event_id" a.event_id
  non_empty "session_id" a.session_id
  sequence "daemon_event_seq" a.daemon_event_seq
  reason_validate a.status a.reason
