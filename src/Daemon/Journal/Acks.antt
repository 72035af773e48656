-- ===== src/Daemon/Journal/Acks.antt =====
-- Acknowledgement, reconciliation and replay of events in crates/north-daemon/src/journal.rs.
pub mod Cursor
pub mod Replay
pub mod Tracked
use north.Common.{
  ℕ, zero, suc, ◌-◌, String, str_eq, List, [], ◌∷◌, ◌++◌, map, Option, none, some, Bool, true,
  false, not, ◌&&◌, ◌||◌, Result, ok, err, ◌>>=◌, ◌>>◌, refuse_if, map_err, any, ◌==◌, ltb, leb,
  if◌then◌else◌, find, modify_first, u64_max,
}
use Prim.Native.Nat.{max}
use north.Common.Map.{lookup, insert, string_eq}
use north.Common.Sorted.{sort_unstable, sort_by_key, dedup, contains_number}
use north.Protocol.Checks.{schema_version}
use north.Protocol.Event.{EventEnvelope, EventAck, EventAckStatus, accepted, rejected}
use north.Protocol.Reconcile.{SessionReconcileState, ReconcileSnapshot}
use north.Protocol.Frame.{ServerFrame, server_validate}
use north.Daemon.Journal.{
  JournalError, protocol, identity_conflict, JournalFile, SessionJournal, EventRecord,
  EventTombstone, default_session,
}
use north.Daemon.Journal.Identity.{saturating_inc}

abbrev pub or_default : Option SessionJournal → SessionJournal
or_default none = default_session
or_default (some session) = session

-- `entry(id).or_default()`
abbrev pub session_of : String → JournalFile → SessionJournal
session_of session_id state = or_default (lookup session_id state.sessions)

abbrev pub put_session : String → SessionJournal → JournalFile → JournalFile
put_session session_id session state = record state {
  sessions = insert session_id session state.sessions;
}

-- `retain(|sequence| *sequence > n)`
unfoldable pub retain_above : ℕ → List ℕ → List ℕ
retain_above n [] = []
retain_above n (m ∷ ms) = let rest = retain_above n ms in if ltb n m then m ∷ rest else rest

-- Whether an acknowledged event of the session has the number.
unfoldable pub is_acknowledged : List EventRecord → String → ℕ → Bool
is_acknowledged events session_id number =
    any
      (λ (r : EventRecord).
        str_eq r.envelope.session_id session_id
        && r.envelope.daemon_event_seq == number
        && r.acknowledged)
      events

-- The loop of `advance_event_ack`, for as many rounds as the fuel; `none` is a loop that has not ended
-- by then.
unfoldable pub advance_loop : List EventRecord → String → ℕ → SessionJournal → Option SessionJournal
advance_loop events session_id zero s = none
advance_loop events session_id (suc fuel) s =
    let next = saturating_inc s.event_ack_through_seq in
    elim (is_acknowledged events session_id next) [
      | false ↦ some s
      | true ↦ advance_loop events session_id fuel (record s {
        event_ack_through_seq = next;
        event_ack_sparse = retain_above next s.event_ack_sparse;
      })
    ]

abbrev pub put_if : {A : Type 0} → (A → JournalFile) → Option A → Option JournalFile
put_if put none = none
put_if put (some a) = some (put a)

-- The fuel is one round for each number up to `u64::MAX`, and one to stop.
unfoldable pub advance_event_ack : String → JournalFile → Option JournalFile
unfolding advance_loop
advance_event_ack session_id state =
    let s = session_of session_id state in
    put_if (λ advanced. put_session session_id advanced state)
      (advance_loop state.events session_id (suc (u64_max - s.event_ack_through_seq)) s)

abbrev pub status_eq : EventAckStatus → EventAckStatus → Bool
status_eq accepted accepted = true
status_eq rejected rejected = true
status_eq _ _ = false

abbrev pub differs : Option EventAckStatus → EventAckStatus → Bool
differs none status = false
differs (some known) status = not (status_eq known status)

abbrev pub or_status : Option EventAckStatus → EventAckStatus → Option EventAckStatus
or_status none status = some status
or_status (some known) status = some known

abbrev pub is_event : String → EventRecord → Bool
is_event event_id r = str_eq r.envelope.event_id event_id

abbrev pub is_tombstone : String → EventTombstone → Bool
is_tombstone event_id t = str_eq t.event_id event_id

-- The number of a new acknowledgement joins the sparse ones when the cursor has not reached it.
unfoldable pub note_sparse : ℕ → SessionJournal → SessionJournal
note_sparse number s =
    if ltb s.event_ack_through_seq number
    then record s { event_ack_sparse = dedup (sort_unstable (s.event_ack_sparse ++ (number ∷ []))) }
    else s

abbrev pub Finished : Type 0
Finished = Option (Result (JournalFile × Unit {0}) JournalError)

abbrev pub finish : Option JournalFile → Finished
finish none = none
finish (some state) = some (ok (state, tt))

unfoldable pub acknowledge_tombstone :
    EventAck → JournalFile → Option EventTombstone → Result (JournalFile × Unit {0}) JournalError
acknowledge_tombstone ack state none = err (identity_conflict "event ACK references unknown event")
acknowledge_tombstone ack state (some t) = do
  refuse_if
      (not (str_eq t.session_id ack.session_id)
        || not (t.daemon_event_seq == ack.daemon_event_seq)
        || differs t.acknowledgement ack.status)
      (identity_conflict "late event ACK conflicts with tombstone")
  ok (
    record state {
      event_tombstones =
          modify_first (is_tombstone ack.event_id)
            (λ (u : EventTombstone). record u {
              acknowledgement = or_status u.acknowledgement ack.status;
            })
            state.event_tombstones;
    },
    tt,
  )

-- An event that a reconciliation acknowledged takes the status of the first acknowledgement.
unfoldable pub acknowledge_again :
    EventAck → JournalFile → EventRecord → Result (JournalFile × Unit {0}) JournalError
acknowledge_again ack state r = do
  refuse_if (differs r.acknowledgement ack.status)
      (identity_conflict "event ACK status conflicts with retained terminal outcome")
  ok (
    record state {
      events =
          modify_first (is_event ack.event_id)
            (λ (u : EventRecord). record u {
              acknowledgement = or_status u.acknowledgement ack.status;
            })
            state.events;
    },
    tt,
  )

unfoldable pub mark_acknowledged : EventAck → JournalFile → JournalFile
unfolding note_sparse
mark_acknowledged ack state =
    put_session ack.session_id (note_sparse ack.daemon_event_seq (session_of ack.session_id state))
      (record state {
        events =
            modify_first (is_event ack.event_id)
              (λ (u : EventRecord). record u {
                acknowledged = true;
                acknowledgement = some ack.status;
              })
              state.events;
      })

unfoldable pub acknowledge_known : EventAck → JournalFile → EventRecord → Bool → Finished
unfolding acknowledge_again mark_acknowledged advance_event_ack
acknowledge_known ack state r true = some (acknowledge_again ack state r)
acknowledge_known ack state r false =
    finish (advance_event_ack ack.session_id (mark_acknowledged ack state))

unfoldable pub acknowledge_record : EventAck → JournalFile → Option EventRecord → Finished
unfolding acknowledge_tombstone acknowledge_known
acknowledge_record ack state none =
    some (acknowledge_tombstone ack state (find (is_tombstone ack.event_id) state.event_tombstones))
acknowledge_record ack state (some r) =
    if not (str_eq r.envelope.session_id ack.session_id)
      || not (r.envelope.daemon_event_seq == ack.daemon_event_seq)
    then some (err (identity_conflict "event ACK identity conflicts with journal"))
    else acknowledge_known ack state r r.acknowledged

abbrev pub after_check : Result (Unit {0}) JournalError → Finished → Finished
after_check (ok _) f = f
after_check (err e) f = some (err e)

-- The check before the update, and the closure of the update.
unfoldable pub acknowledge_event : EventAck → JournalFile → Finished
unfolding acknowledge_record
acknowledge_event ack state =
    after_check (map_err protocol (server_validate (ServerFrame.event_ack ack)))
      (acknowledge_record ack state (find (is_event ack.event_id) state.events))

unfoldable pub merge_sparse : List ℕ → List ℕ → List ℕ
merge_sparse existing incoming = dedup (sort_unstable (existing ++ incoming))

-- What a session takes over from the server.
unfoldable pub merge_session : SessionReconcileState → SessionJournal → SessionJournal
unfolding merge_sparse
merge_session remote s =
    let through = max s.event_ack_through_seq remote.event_ack_through_seq in
    record s {
      server_command_ack_through_seq =
          max s.server_command_ack_through_seq remote.command_ack_through_seq;
      event_ack_through_seq = through;
      event_ack_sparse =
          retain_above through (merge_sparse s.event_ack_sparse remote.event_ack_sparse);
    }

abbrev pub covers : SessionJournal → ℕ → Bool
covers s number = leb number s.event_ack_through_seq || contains_number number s.event_ack_sparse

abbrev pub mark_covered : String → SessionJournal → EventRecord → EventRecord
mark_covered session_id s r =
    if str_eq r.envelope.session_id session_id && covers s r.envelope.daemon_event_seq
    then record r { acknowledged = true }
    else r

unfoldable pub reconcile_session : SessionReconcileState → JournalFile → JournalFile
unfolding merge_session
reconcile_session remote state =
    let local = merge_session remote (session_of remote.session_id state) in
    put_session remote.session_id local
      (record state { events = map (mark_covered remote.session_id local) state.events })

unfoldable pub reconcile_each : List SessionReconcileState → JournalFile → JournalFile
reconcile_each [] state = state
reconcile_each (remote ∷ rest) state = reconcile_each rest (reconcile_session remote state)

unfoldable pub apply_reconciliation :
    ReconcileSnapshot → JournalFile → Result (JournalFile × Unit {0}) JournalError
unfolding reconcile_each
apply_reconciliation snapshot state = do
  map_err protocol (server_validate (ServerFrame.reconcile snapshot))
  ok (reconcile_each snapshot.sessions state, tt)

-- The events that the server still needs: it has not acknowledged them, and nor has the journal.
abbrev pub is_wanted : String → SessionReconcileState → EventRecord → Bool
is_wanted session_id remote r =
    str_eq r.envelope.session_id session_id
    && ltb remote.event_ack_through_seq r.envelope.daemon_event_seq
    && not (contains_number r.envelope.daemon_event_seq remote.event_ack_sparse)
    && not r.acknowledged

unfoldable pub wanted : String → SessionReconcileState → List EventRecord → List EventEnvelope
wanted session_id remote [] = []
wanted session_id remote (r ∷ rs) =
    let rest = wanted session_id remote rs in
    if is_wanted session_id remote r then r.envelope ∷ rest else rest

abbrev pub number_of : EventEnvelope → ℕ
number_of e = e.daemon_event_seq

unfoldable pub replay_events :
    String → SessionReconcileState → JournalFile → Result (List EventEnvelope) JournalError
unfolding wanted
replay_events session_id remote state = do
  map_err protocol (
      server_validate (
        ServerFrame.reconcile (record { schema_version = schema_version; sessions = remote ∷ [] })))
  ok (sort_by_key number_of (wanted session_id remote state.events))
