-- ===== src/Daemon/Journal/Events.antt =====
-- `append_event` and `append_event_envelope` of crates/north-daemon/src/journal.rs. The digest of an
-- envelope and the texts of the clock are given.
pub mod Sequence
pub mod Again
use north.Common.{
  ℕ, String, str_eq, [], ◌∷◌, ◌++◌, Option, none, some, Bool, true, false, not, ◌&&◌, Result, ok,
  ◌>>=◌, ◌>>◌, refuse_if, map_err, any, ◌==◌, find,
}
use north.Common.Decimal.{decimal}
use Prim.Native.String.{◌++◌ as ◌+++◌}
use north.Protocol.Checks.{schema_version}
use north.Protocol.Event.{EventEnvelope, Event}
use north.Protocol.Frame.{DaemonFrame, daemon_validate}
use north.Daemon.Journal.{
  JournalError, protocol, identity_conflict, JournalFile, EventRecord, EventTombstone,
}
use north.Daemon.Journal.Identity.{event_eq, validate_event_identity, next_event_sequence}

pub record AppendedEvent : Type 0 where
  pub envelope : EventEnvelope
  pub duplicate : Bool

abbrev pub envelope_of : String → String → ℕ → String → Event → EventEnvelope
envelope_of event_id session_id number now event = record {
  event_id = event_id;
  session_id = session_id;
  daemon_event_seq = number;
  sent_at = now;
  schema_version = schema_version;
  event = event;
}

abbrev pub record_of : String → EventEnvelope → String → EventRecord
record_of daemon_id envelope digest = record {
  daemon_id = daemon_id;
  envelope = envelope;
  payload_digest = digest;
  acknowledged = false;
  acknowledgement = none;
}

abbrev pub push_event : EventRecord → JournalFile → JournalFile
push_event r state = record state { events = state.events ++ (r ∷ []) }

-- Whether a record or a tombstone of this daemon has the identity.
abbrev pub is_record_of : String → String → EventRecord → Bool
is_record_of daemon_id event_id r =
    str_eq r.daemon_id daemon_id && str_eq r.envelope.event_id event_id

abbrev pub is_tombstone_of : String → String → EventTombstone → Bool
is_tombstone_of daemon_id event_id t = str_eq t.daemon_id daemon_id && str_eq t.event_id event_id

abbrev pub same_event : EventEnvelope → String → Event → Bool
same_event e session_id event = str_eq e.session_id session_id && event_eq e.event event

module _ (payload_digest : EventEnvelope → String) (daemon_id : String) where
  unfoldable pub event_identity_digest : EventEnvelope → String
  event_identity_digest envelope = payload_digest (record envelope { sent_at = "" })

  -- A new event takes the next sequence number.
  unfoldable pub append_new :
      String
      → String
      → Event
      → String
      → JournalFile
      → Result (JournalFile × AppendedEvent) JournalError
  append_new event_id session_id event now state =
      let envelope =
        envelope_of event_id session_id (next_event_sequence state session_id) now event in
      let digest = payload_digest envelope in
      do
        map_err protocol (daemon_validate (DaemonFrame.event envelope))
        validate_event_identity state daemon_id envelope digest
        ok (
          push_event (record_of daemon_id envelope digest) state,
          record { envelope = envelope; duplicate = false },
        )

  unfoldable pub append_tombstone :
      String
      → String
      → Event
      → String
      → JournalFile
      → Option EventTombstone
      → Result (JournalFile × AppendedEvent) JournalError
  unfolding append_new event_identity_digest
  append_tombstone event_id session_id event now state none =
      append_new event_id session_id event now state
  append_tombstone event_id session_id event now state (some t) = do
    refuse_if (not (str_eq t.session_id session_id))
        (identity_conflict "event ID tombstone belongs to another session")
    refuse_if
        (not (
          str_eq t.event_identity_digest
            (event_identity_digest (envelope_of event_id session_id t.daemon_event_seq "" event))))
        (identity_conflict "event ID tombstone payload conflict")
    ok (
      state,
      record {
        envelope = envelope_of event_id session_id t.daemon_event_seq now event;
        duplicate = true;
      },
    )

  unfoldable pub append_record :
      String
      → String
      → Event
      → String
      → JournalFile
      → Option EventRecord
      → Result (JournalFile × AppendedEvent) JournalError
  unfolding append_tombstone
  append_record event_id session_id event now state none =
      append_tombstone event_id session_id event now state
        (find (is_tombstone_of daemon_id event_id) state.event_tombstones)
  append_record event_id session_id event now state (some r) = do
    refuse_if (not (same_event r.envelope session_id event))
        (identity_conflict "event ID is already bound to different event data")
    ok (state, record { envelope = r.envelope; duplicate = true })

  -- The closure that `append_event` gives to `update`; it always ends.
  unfoldable pub append_event :
      String
      → String
      → Event
      → String
      → JournalFile
      → Result (JournalFile × AppendedEvent) JournalError
  unfolding append_record
  append_event event_id session_id event now state =
      append_record event_id session_id event now state
        (find (is_record_of daemon_id event_id) state.events)

  -- What is left once the identity of the envelope is known to fit.
  unfoldable pub envelope_new :
      EventEnvelope
      → String
      → Bool
      → JournalFile
      → Result (JournalFile × AppendedEvent) JournalError
  envelope_new envelope digest duplicate state =
      let expected = next_event_sequence state envelope.session_id in
      do
        refuse_if (not (envelope.daemon_event_seq == expected)) (
            identity_conflict (
              "event sequence "
              +++ (decimal envelope.daemon_event_seq
                  +++ (" is not next allocated sequence " +++ decimal expected))))
        ok (
          push_event (record_of daemon_id envelope digest) state,
          record { envelope = envelope; duplicate = duplicate },
        )

  unfoldable pub envelope_tombstone :
      EventEnvelope
      → String
      → Bool
      → JournalFile
      → Bool
      → Result (JournalFile × AppendedEvent) JournalError
  envelope_tombstone envelope digest duplicate state true =
      ok (state, record { envelope = envelope; duplicate = true })
  envelope_tombstone envelope digest duplicate state false =
      envelope_new envelope digest duplicate state

  unfoldable pub envelope_record :
      EventEnvelope
      → String
      → Bool
      → JournalFile
      → Option EventRecord
      → Result (JournalFile × AppendedEvent) JournalError
  envelope_record envelope digest duplicate state (some r) =
      ok (state, record { envelope = r.envelope; duplicate = true })
  envelope_record envelope digest duplicate state none =
      envelope_tombstone envelope digest duplicate state
        (any (λ t. str_eq t.event_id envelope.event_id) state.event_tombstones)

  -- The two checks before the update, and the closure of the update.
  unfoldable pub append_event_envelope :
      EventEnvelope
      → String
      → Bool
      → JournalFile
      → Result (JournalFile × AppendedEvent) JournalError
  unfolding envelope_new envelope_tombstone envelope_record
  append_event_envelope envelope digest duplicate state = do
    map_err protocol (daemon_validate (DaemonFrame.event envelope))
    refuse_if (not (str_eq (payload_digest envelope) digest))
        (identity_conflict "event payload digest does not match envelope")
    validate_event_identity state daemon_id envelope digest
    envelope_record envelope digest duplicate state
        (find (λ r. str_eq r.envelope.event_id envelope.event_id) state.events)
