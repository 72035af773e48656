-- ===== src/Tests/Journal.antt =====
-- The event journal at concrete calls.
use north.Common.{
  ◌↔◌, sym, subst, inl, inr, ◌≤◌, ◌≡◌, refl, String, List, [], ◌∷◌, Option, none, some, true, false,
  Result, ok, err, arith, any, u64_max, is_blank, find, modify_first,
}
use north.Common.Map.{lookup, insert, remove, string_eq}
use north.Common.Sorted.{IsSorted, insert_by, sort_by_key, dedup}
use north.Protocol.Checks.{non_empty, schema, sequence, schema_version}
use north.Protocol.Event.{
  Event, EventEnvelope, EventAck, accepted, session_started, envelope_validate, event_validate,
  ack_validate, reason_validate,
}
use north.Protocol.Reconcile.{SessionReconcileState, session_validate}
use north.Protocol.Frame.{daemon_validate, server_validate}
use north.Daemon.Journal.{
  JournalFile, SessionJournal, JournalError, default_file, default_session, io,
}
use north.Daemon.Journal.Identity.{
  validate_event_identity, max_of, event_numbers, tombstone_numbers, next_event_sequence,
}
use north.Daemon.Journal.Events.{
  AppendedEvent, append_event, append_record, append_tombstone, append_new, push_event, record_of,
  envelope_of,
}
use north.Daemon.Journal.Events.Again.{append_event_again}
use north.Daemon.Journal.Acks.{
  session_of, is_acknowledged, advance_event_ack, acknowledge_event, acknowledge_record,
  acknowledge_known, mark_acknowledged, note_sparse, advance_loop, retain_above, number_of,
  replay_events,
}
use north.Daemon.Journal.Acks.Cursor.{
  Advances, IsFull, advance_event_ack_lem, advance_event_ack_diverges,
}
use north.Daemon.Journal.Acks.Replay.{HasUnseen, replay_events_lem}
use north.Daemon.Journal.Compact.{compact_session}
use north.Daemon.Journal.Compact.Kept.{replay_events-compact_session}
use north.Daemon.Journal.Reach.{Step, Reach}
use north.Daemon.Journal.Store.{World, Store, failed, fails, transact}

abbrev digest : EventEnvelope → String
digest e = e.event_id

abbrev started : Event
started = session_started (record { runtime_id = "r" })

abbrev envelope : EventEnvelope
envelope = envelope_of "e1" "s1" 1 "10" started

abbrev first : AppendedEvent
first = record { envelope = envelope; duplicate = false }

abbrev one_event : JournalFile
one_event = push_event (record_of "d" envelope "e1") default_file

appends : append_event digest "d" "e1" "s1" started "10" default_file ≡ ok (one_event, first)
unfolding append_event append_record append_tombstone append_new find next_event_sequence max_of
    event_numbers tombstone_numbers lookup daemon_validate envelope_validate event_validate schema
    non_empty sequence is_blank validate_event_identity
appends = refl

append_event_again_example :
    append_event digest "d" "e1" "s1" started "20" one_event
    ≡ ok (one_event, record { envelope = envelope; duplicate = true })
append_event_again_example =
    append_event_again digest "d" "e1" "s1" started "10" "20" default_file one_event first appends
      refl

abbrev reached : Reach digest "d" one_event
reached = Reach.then_step Reach.start (Step.appended "e1" "s1" started "10" first appends)

abbrev ack : EventAck
ack = record {
  event_id = "e1";
  session_id = "s1";
  daemon_event_seq = 1;
  schema_version = schema_version;
  status = accepted;
  reason = none;
}

abbrev settled : SessionJournal
settled = record default_session { event_ack_through_seq = 1 }

abbrev acked : JournalFile
acked = record one_event {
  events =
      record (record_of "d" envelope "e1") { acknowledged = true; acknowledgement = some accepted }
      ∷ [];
  sessions = ("s1", settled) ∷ [];
}

acknowledges : acknowledge_event ack one_event ≡ some (ok (acked, tt))
unfolding acknowledge_event acknowledge_record acknowledge_known mark_acknowledged note_sparse
    advance_event_ack advance_loop is_acknowledged retain_above find modify_first lookup insert
    remove sort_by_key insert_by dedup server_validate ack_validate reason_validate schema non_empty
    sequence is_blank
acknowledges = refl

reached_acked : Reach digest "d" acked
reached_acked = Reach.then_step reached (Step.acknowledged ack acknowledges)

named : is_blank "s1" ≡ false
unfolding is_blank
named = refl

not_at_top : is_acknowledged acked.events "s1" u64_max ≡ false
unfolding is_acknowledged
not_at_top = refl

cursor_bound : (session_of "s1" one_event).event_ack_through_seq ≤ u64_max
unfolding lookup
cursor_bound = omega arith

-- The events are acknowledged and the cursor is not advanced yet.
abbrev marked : JournalFile
marked = record acked { sessions = [] }

marked_bound : (session_of "s1" marked).event_ack_through_seq ≤ u64_max
unfolding lookup
marked_bound = omega arith

advance_event_ack_lem_example :
    (after : JournalFile) × (advance_event_ack "s1" marked ≡ some after)
    × Advances marked.events "s1" (session_of "s1" marked) (session_of "s1" after)
advance_event_ack_lem_example = advance_event_ack_lem "s1" marked marked_bound not_at_top

abbrev last_envelope : EventEnvelope
last_envelope = envelope_of "e2" "s1" u64_max "10" started

abbrev at_top : JournalFile
at_top = record default_file {
  events = record (record_of "d" last_envelope "e2") { acknowledged = true } ∷ [];
  sessions = ("s1", record default_session { event_ack_through_seq = u64_max }) ∷ [];
}

cursor_at_top : (session_of "s1" at_top).event_ack_through_seq ≡ u64_max
unfolding lookup
cursor_at_top = refl

acknowledged_at_top : is_acknowledged at_top.events "s1" u64_max ≡ true
unfolding is_acknowledged
acknowledged_at_top = refl

at_top-IsFull : IsFull at_top.events "s1" (session_of "s1" at_top)
at_top-IsFull n (inl above) below = absurd (omega (arith, cursor_at_top))
at_top-IsFull n (inr top) below =
    subst (λ k. is_acknowledged at_top.events "s1" k ≡ true) (sym top) acknowledged_at_top

cursor_bounded : (session_of "s1" at_top).event_ack_through_seq ≤ u64_max
cursor_bounded = omega (arith, cursor_at_top)

advance_event_ack_diverges_example :
    (advance_event_ack "s1" at_top ≡ none)
    × (advance_loop at_top.events "s1" 1000 (session_of "s1" at_top) ≡ none)
advance_event_ack_diverges_example =
    advance_event_ack_diverges "s1" at_top 1000 cursor_bounded at_top-IsFull

abbrev remote : SessionReconcileState
remote = record {
  session_id = "s1";
  command_ack_through_seq = 0;
  event_ack_through_seq = 0;
  event_ack_sparse = [];
}

remote_is_valid : session_validate remote ≡ ok tt
unfolding session_validate
remote_is_valid = refl

replay_events_lem_example :
    (events : List EventEnvelope) × (replay_events "s1" remote one_event ≡ ok events)
    × IsSorted number_of events
    × ((any (λ e. true) events ≡ true) ↔ HasUnseen "s1" remote (λ e. true) one_event.events)
replay_events_lem_example = replay_events_lem "s1" remote one_event (λ e. true) remote_is_valid

replay_events-compact_session_example :
    replay_events "s1" remote (compact_session digest "d" "s1" acked)
    ≡ replay_events "s1" remote acked
replay_events-compact_session_example =
    replay_events-compact_session digest "d" "s1" remote "s1" acked

-- The first write fails behind the rename, and the file can be read back.
abbrev world : World
world = record {
  daemon_id = "d";
  limit = 4;
  event_digest = digest;
  command_digest = λ c. "h";
  clock = λ n. "10";
  writes = λ n. failed (io "disk full") true true;
  leftovers = λ n. marked;
}

abbrev append_first :
    String → JournalFile → Option (Result (JournalFile × AppendedEvent) JournalError)
append_first now state = some (append_event digest "d" "e1" "s1" started now state)

abbrev begun : Store
begun = record { state = default_file; disk = default_file; tick = 0 }

reads_back :
    let (result, after) = transact world append_first begun in
    (result ≡ err (fails (io "disk full"))) × (after.state ≡ after.disk)
unfolding transact append_event append_record append_tombstone append_new find next_event_sequence
    max_of event_numbers tombstone_numbers lookup daemon_validate envelope_validate event_validate
    schema non_empty sequence is_blank validate_event_identity
reads_back = (refl, refl)
