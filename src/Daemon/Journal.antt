-- ===== src/Daemon/Journal.antt =====
-- The journal of crates/north-daemon/src/journal.rs: its state, and the discipline of an update.
pub mod Identity
pub mod Events
pub mod Acks
pub mod Compact
pub mod Commands
pub mod Finish
pub mod Store
pub mod Accept
pub mod Recovery
pub mod Numbers
pub mod Changes
pub mod Reach
pub mod Laws
pub mod Once
pub mod Buffered
pub mod Durable
use north.Common.{ℕ, String, List, [], Option, none, some, Bool, Result, ok, err}
use north.Common.Map.{Map}
use north.Protocol.Checks.{Reason}
use north.Protocol.Command.{Command}
use north.Protocol.Event.{EventEnvelope, EventAckStatus}
use north.Daemon.Scheduler.{DispatchOutcome}

-- The errors of the journal.
pub data JournalError : Type 0 where
  io format identity_conflict : String → JournalError
  protocol : Reason → JournalError
  gap_overflow : String → ℕ → JournalError
  sequence_gap : ℕ → ℕ → JournalError

pub data CommandJournalState : Type 0 where
  received dispatch_started terminal : CommandJournalState

pub record SessionJournal : Type 0 where
  pub processed_through_seq : ℕ
  pub event_ack_through_seq : ℕ
  pub event_ack_sparse : List ℕ
  pub server_command_ack_through_seq : ℕ

abbrev pub default_session : SessionJournal
default_session = record {
  processed_through_seq = 0;
  event_ack_through_seq = 0;
  event_ack_sparse = [];
  server_command_ack_through_seq = 0;
}

pub record CommandRecord : Type 0 where
  pub daemon_id : String
  pub command_id : String
  pub session_id : String
  pub server_command_seq : ℕ
  pub sent_at : String
  pub payload_digest : String
  pub command : Command
  pub message_id : Option String
  pub state : CommandJournalState
  pub outcome : Option DispatchOutcome
  pub runtime_operation_id : String
  pub reason : Option String
  pub updated_at : String

pub record CommandTombstone : Type 0 where
  pub daemon_id : String
  pub command_id : String
  pub session_id : String
  pub server_command_seq : ℕ
  pub payload_digest : String
  pub message_id : Option String
  pub outcome : DispatchOutcome

pub record EventRecord : Type 0 where
  pub daemon_id : String
  pub envelope : EventEnvelope
  pub payload_digest : String
  pub acknowledged : Bool
  pub acknowledgement : Option EventAckStatus

pub record EventTombstone : Type 0 where
  pub daemon_id : String
  pub event_id : String
  pub session_id : String
  pub daemon_event_seq : ℕ
  pub payload_digest : String
  pub event_identity_digest : String
  pub acknowledgement : Option EventAckStatus

pub record JournalFile : Type 0 where
  pub format_version : ℕ
  pub sessions : Map String SessionJournal
  pub commands : List CommandRecord
  pub command_tombstones : List CommandTombstone
  pub events : List EventRecord
  pub event_tombstones : List EventTombstone

abbrev pub default_file : JournalFile
default_file = record {
  format_version = 1;
  sessions = [];
  commands = [];
  command_tombstones = [];
  events = [];
  event_tombstones = [];
}

-- What the closure of an update has made of the locked state, and its result; `none` is a loop that
-- has not ended.
abbrev pub Ran : Type 0 → Type 0
Ran T = Option (JournalFile × Result T JournalError)

-- What the file system answers: the file was written, or it was not, and then the file that is read
-- back, if one can be.
pub data Persisted : Type 0 where
  written : Persisted
  not_written : JournalError → Option JournalFile → Persisted

abbrev committed_or : JournalFile → Option JournalFile → JournalFile
committed_or before none = before
committed_or before (some committed) = committed

abbrev after_persist :
    {T : Type 0} → Persisted → JournalFile → JournalFile → T → JournalFile × Result T JournalError
after_persist written before after value = (after, ok value)
after_persist (not_written error committed) before after value =
    (committed_or before committed, err error)

-- The end of an update, once the closure has run: `before` is restored where it failed, whatever it
-- had changed by then.
unfoldable pub commit : {T : Type 0} → Persisted → JournalFile → Ran T → Ran T
commit persisted before none = none
commit persisted before (some (changed, err error)) = some (before, err error)
commit persisted before (some (changed, ok value)) =
    some (after_persist persisted before changed value)
