-- ===== src/Daemon/Journal/Commands/Same.antt =====
-- The operations of crates/north-daemon/src/journal.rs that leave the commands as they are.
use north.Common.{
  suc, ◌-◌, ◌≡◌, inl, inr, refl, ap, sym, String, List, [], ◌∷◌, Option, none, some, Bool, true,
  false, ok, arith, u64_max, find, map_err,
}
use north.Protocol.Event.{EventEnvelope, Event, EventAck}
use north.Protocol.Reconcile.{ReconcileSnapshot, SessionReconcileState}
use north.Protocol.Frame.{ServerFrame, server_validate}
use north.Daemon.Journal.{JournalError, JournalFile, EventRecord, EventTombstone}
use north.Daemon.Journal.Events.{AppendedEvent, append_event}
use north.Daemon.Journal.Events.Sequence.{Appends, append_event-Appends}
use north.Daemon.Journal.Acks.{
  acknowledge_event, acknowledge_known, acknowledge_record, acknowledge_tombstone,
  acknowledge_again, mark_acknowledged, advance_event_ack, apply_reconciliation, reconcile_each,
  reconcile_session, is_event, is_tombstone, advance_loop, session_of, put_session,
}
use north.Daemon.Journal.Acks.Cursor.{some_injective, put_if-some}
use north.Daemon.Journal.Changes.{after_check-some, finish-some}

abbrev pub SameCommands : JournalFile → JournalFile → Type 0
SameCommands before after =
    (after.commands ≡ before.commands) × (after.command_tombstones ≡ before.command_tombstones)

advance_event_ack-SameCommands :
    (session_id : String) (before after : JournalFile)
    → advance_event_ack session_id before ≡ some after
    → SameCommands before after
unfolding advance_event_ack
advance_event_ack-SameCommands session_id before after h =
    let (s, _, e) =
      put_if-some (λ advanced. put_session session_id advanced before)
        (advance_loop before.events session_id
          (suc (u64_max - (session_of session_id before).event_ack_through_seq))
          (session_of session_id before))
        after h in
    (
      ap (λ (f : JournalFile). f.commands) (sym e),
      ap (λ (f : JournalFile). f.command_tombstones) (sym e),
    )

acknowledge_tombstone-SameCommands :
    (ack : EventAck) (before after : JournalFile) (o : Option EventTombstone)
    → acknowledge_tombstone ack before o ≡ ok (after, tt)
    → SameCommands before after
unfolding acknowledge_tombstone
acknowledge_tombstone-SameCommands ack before after none h = absurd (cc h)
acknowledge_tombstone-SameCommands ack before after (some t) h = (ground arith, ground arith)

acknowledge_again-SameCommands :
    (ack : EventAck) (before after : JournalFile) (r : EventRecord)
    → acknowledge_again ack before r ≡ ok (after, tt)
    → SameCommands before after
unfolding acknowledge_again
acknowledge_again-SameCommands ack before after r h = (ground arith, ground arith)

acknowledge_known-SameCommands :
    (ack : EventAck) (before after : JournalFile) (r : EventRecord) (known : Bool)
    → acknowledge_known ack before r known ≡ some (ok (after, tt))
    → SameCommands before after
unfolding acknowledge_known mark_acknowledged
acknowledge_known-SameCommands ack before after r true h =
    acknowledge_again-SameCommands ack before after r (some_injective h)
acknowledge_known-SameCommands ack before after r false h =
    advance_event_ack-SameCommands ack.session_id (mark_acknowledged ack before) after
      (finish-some (advance_event_ack ack.session_id (mark_acknowledged ack before)) after h)

acknowledge_record-SameCommands :
    (ack : EventAck) (before after : JournalFile) (o : Option EventRecord)
    → acknowledge_record ack before o ≡ some (ok (after, tt))
    → SameCommands before after
unfolding acknowledge_record
acknowledge_record-SameCommands ack before after none h =
    acknowledge_tombstone-SameCommands ack before after
      (find (is_tombstone ack.event_id) before.event_tombstones) (some_injective h)
acknowledge_record-SameCommands ack before after (some r) h =
    acknowledge_known-SameCommands ack before after r r.acknowledged (ground arith)

pub acknowledge_event-SameCommands :
    (ack : EventAck) (before after : JournalFile)
    → acknowledge_event ack before ≡ some (ok (after, tt))
    → SameCommands before after
unfolding acknowledge_event
acknowledge_event-SameCommands ack before after h =
    let o = find (is_event ack.event_id) before.events in
    acknowledge_record-SameCommands ack before after o (
      after_check-some (map_err JournalError.protocol (server_validate (ServerFrame.event_ack ack)))
        (acknowledge_record ack before o) h)

pub append_event-SameCommands :
    (payload_digest : EventEnvelope → String) (daemon_id event_id session_id : String)
    (event : Event) (now : String) (before after : JournalFile) (a : AppendedEvent)
    → append_event payload_digest daemon_id event_id session_id event now before ≡ ok (after, a)
    → SameCommands before after
append_event-SameCommands payload_digest daemon_id event_id session_id event now before after a h =
    same
      (append_event-Appends payload_digest daemon_id event_id session_id event now before after a h)
  where
    same : Appends before after → SameCommands before after
    same (inl e) =
        (ap (λ (f : JournalFile). f.commands) e, ap (λ (f : JournalFile). f.command_tombstones) e)
    same (inr (r, e, _)) =
        (ap (λ (f : JournalFile). f.commands) e, ap (λ (f : JournalFile). f.command_tombstones) e)

reconcile_each-SameCommands :
    (sessions : List SessionReconcileState) (state : JournalFile)
    → SameCommands state (reconcile_each sessions state)
unfolding reconcile_each reconcile_session
reconcile_each-SameCommands [] state = (refl, refl)
reconcile_each-SameCommands (remote ∷ rest) state =
    reconcile_each-SameCommands rest (reconcile_session remote state)

pub apply_reconciliation-SameCommands :
    (snapshot : ReconcileSnapshot) (before after : JournalFile)
    → apply_reconciliation snapshot before ≡ ok (after, tt)
    → SameCommands before after
unfolding apply_reconciliation
apply_reconciliation-SameCommands snapshot before after h =
    let (commands, tombstones) = reconcile_each-SameCommands snapshot.sessions before in
    (ground (arith, commands), ground (arith, tombstones))
