-- ===== src/Daemon/Journal/Compact.antt =====
-- `compact_session` of crates/north-daemon/src/journal.rs: tombstones in place of what is delivered.
pub mod Kept
use north.Common.{
  ℕ, String, str_eq, List, [], ◌∷◌, ◌++◌, Option, none, some, Bool, true, false, ◌&&◌,
  if◌then◌else◌, leb,
}
use north.Common.Map.{string_eq}
use north.Protocol.Event.{EventEnvelope}
use north.Daemon.Scheduler.{DispatchOutcome, unknown}
use north.Daemon.Journal.{
  JournalFile, SessionJournal, CommandJournalState, terminal, CommandRecord, CommandTombstone,
  EventRecord, EventTombstone,
}
use north.Daemon.Journal.Events.{event_identity_digest}
use north.Daemon.Journal.Acks.{session_of, covers}

abbrev pub is_terminal : CommandJournalState → Bool
is_terminal terminal = true
is_terminal _ = false

abbrev outcome_or_unknown : Option DispatchOutcome → DispatchOutcome
outcome_or_unknown none = unknown "terminal outcome missing"
outcome_or_unknown (some outcome) = outcome

abbrev pub is_settled : String → ℕ → CommandRecord → Bool
is_settled session_id processed r =
    str_eq r.session_id session_id && is_terminal r.state && leb r.server_command_seq processed

abbrev pub command_tombstone : CommandRecord → CommandTombstone
command_tombstone r = record {
  daemon_id = r.daemon_id;
  command_id = r.command_id;
  session_id = r.session_id;
  server_command_seq = r.server_command_seq;
  payload_digest = r.payload_digest;
  message_id = r.message_id;
  outcome = outcome_or_unknown r.outcome;
}

-- The loop over the commands: the tombstones, and what is retained.
unfoldable pub drain_commands :
    String
    → ℕ
    → List CommandTombstone
    → List CommandRecord
    → List CommandTombstone × List CommandRecord
drain_commands session_id processed tombstones [] = (tombstones, [])
drain_commands session_id processed tombstones (r ∷ rs) =
    if is_settled session_id processed r
    then drain_commands session_id processed (tombstones ++ (command_tombstone r ∷ [])) rs
    else let (after, retained) = drain_commands session_id processed tombstones rs in
      (after, r ∷ retained)

abbrev pub is_delivered : String → SessionJournal → EventRecord → Bool
is_delivered session_id s r =
    str_eq r.envelope.session_id session_id
    && r.acknowledged
    && covers s r.envelope.daemon_event_seq

module _ (payload_digest : EventEnvelope → String) (daemon_id : String) where
  abbrev pub event_tombstone : EventRecord → EventTombstone
  event_tombstone r = record {
    daemon_id = r.daemon_id;
    event_id = r.envelope.event_id;
    session_id = r.envelope.session_id;
    daemon_event_seq = r.envelope.daemon_event_seq;
    payload_digest = r.payload_digest;
    event_identity_digest = event_identity_digest payload_digest daemon_id r.envelope;
    acknowledgement = r.acknowledgement;
  }

  -- The loop over the events.
  unfoldable pub drain_events :
      String
      → SessionJournal
      → List EventTombstone
      → List EventRecord
      → List EventTombstone × List EventRecord
  drain_events session_id s tombstones [] = (tombstones, [])
  drain_events session_id s tombstones (r ∷ rs) =
      if is_delivered session_id s r
      then drain_events session_id s (tombstones ++ (event_tombstone r ∷ [])) rs
      else let (after, retained) = drain_events session_id s tombstones rs in (after, r ∷ retained)

  -- A session that is missing counts as a new one.
  unfoldable pub compact_session : String → JournalFile → JournalFile
  unfolding drain_commands drain_events
  compact_session session_id state =
      let s = session_of session_id state in
      let (command_tombstones, commands) =
        drain_commands session_id s.processed_through_seq state.command_tombstones state.commands in
      let (event_tombstones, events) =
        drain_events session_id s state.event_tombstones state.events in
      record state {
        commands = commands;
        command_tombstones = command_tombstones;
        events = events;
        event_tombstones = event_tombstones;
      }
