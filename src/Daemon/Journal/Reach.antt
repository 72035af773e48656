-- ===== src/Daemon/Journal/Reach.antt =====
-- The journals that the event operations of crates/north-daemon/src/journal.rs reach.
use north.Common.{ℕ, ◌≤◌, ◌<◌, ◌≡◌, sym, subst, String, some, Bool, false, ok, arith, u64_max}
use north.Protocol.Event.{EventEnvelope, Event, EventAck}
use north.Protocol.Reconcile.{ReconcileSnapshot, SessionReconcileState}
use north.Daemon.Journal.{JournalFile, SessionJournal, default_file}
use north.Daemon.Journal.Events.{AppendedEvent, append_event, append_event_envelope}
use north.Daemon.Journal.Events.Sequence.{
  append_event-Appends, append_event_envelope-Appends, Appends-IsNumbered,
}
use north.Daemon.Journal.Acks.{acknowledge_event, apply_reconciliation, session_of}
use north.Daemon.Journal.Compact.{compact_session}
use north.Daemon.Journal.Compact.Kept.{compact_session-given}
use north.Daemon.Journal.Numbers.{IsNumbered, times_given, records_at, tombstones_at}
use north.Common.Map.{lookup, string_eq}
use north.Common.{is_blank, inl, inr}
use north.Protocol.Reconcile.{session_validate}
use north.Protocol.Reconcile.Laws.{session_validate_iff}
use north.Daemon.Journal.Events.Sequence.{Appends}
use north.Daemon.Journal.Acks.Tracked.{IsTracked}
use north.Daemon.Journal.Changes.{
  SameNumbers-IsNumbered, Settles-SameNumbers, acknowledge_event-Settles,
  apply_reconciliation-SameNumbers, Settles-IsTracked, apply_reconciliation-IsTracked,
}

-- The changes that the event operations make when they succeed.
pub data Step (payload_digest : EventEnvelope → String) (daemon_id : String) (before : JournalFile)
    : JournalFile → Type 0 where
  appended :
      {after : JournalFile} (event_id session_id : String) (event : Event) (now : String)
      (a : AppendedEvent)
      → append_event payload_digest daemon_id event_id session_id event now before ≡ ok (after, a)
      → Step payload_digest daemon_id before after
  received :
      {after : JournalFile} (envelope : EventEnvelope) (digest : String) (duplicate : Bool)
      (a : AppendedEvent)
      → append_event_envelope payload_digest daemon_id envelope digest duplicate before
        ≡ ok (after, a)
      → Step payload_digest daemon_id before after
  acknowledged :
      {after : JournalFile} (ack : EventAck)
      → acknowledge_event ack before ≡ some (ok (after, tt))
      → Step payload_digest daemon_id before after
  reconciled :
      {after : JournalFile} (snapshot : ReconcileSnapshot)
      → apply_reconciliation snapshot before ≡ ok (after, tt)
      → Step payload_digest daemon_id before after
  compacted :
      (session_id : String)
      → Step payload_digest daemon_id before
          (compact_session payload_digest daemon_id session_id before)

pub data Reach (payload_digest : EventEnvelope → String) (daemon_id : String)
    : JournalFile → Type 0 where
  start : Reach payload_digest daemon_id default_file
  then_step :
      {before after : JournalFile}
      → Reach payload_digest daemon_id before
      → Step payload_digest daemon_id before after
      → Reach payload_digest daemon_id after

-- What the journal knows of a session, in the form of the protocol.
abbrev pub reconcile_state : String → SessionJournal → SessionReconcileState
reconcile_state session_id s = record {
  session_id = session_id;
  command_ack_through_seq = s.server_command_ack_through_seq;
  event_ack_through_seq = s.event_ack_through_seq;
  event_ack_sparse = s.event_ack_sparse;
}

pub IsTracked-session_validate :
    (session_id : String) (state : JournalFile)
    → is_blank session_id ≡ false
    → IsTracked state.sessions
    → session_validate (reconcile_state session_id (session_of session_id state)) ≡ ok tt
IsTracked-session_validate session_id state named all =
    let tracked = all session_id in
    (session_validate_iff (reconcile_state session_id (session_of session_id state))).1
      (named, tracked.0, tracked.1)

pub Appends-IsTracked :
    (before after : JournalFile)
    → Appends before after
    → IsTracked before.sessions
    → IsTracked after.sessions
Appends-IsTracked before after (inl same) tracked =
    subst (λ (f : JournalFile). IsTracked f.sessions) (sym same) tracked
Appends-IsTracked before after (inr (r, pushed, next)) tracked =
    subst (λ (f : JournalFile). IsTracked f.sessions) (sym pushed) tracked

module _ (payload_digest : EventEnvelope → String) (daemon_id : String) where
  Step-IsNumbered :
      {before after : JournalFile}
      → Step payload_digest daemon_id before after
      → IsNumbered before
      → IsNumbered after
  Step-IsNumbered {before = b} {after = c} (appended event_id session_id event now a h) numbered =
      Appends-IsNumbered b c
        (append_event-Appends payload_digest daemon_id event_id session_id event now b c a h)
        numbered
  Step-IsNumbered {before = b} {after = c} (received envelope digest duplicate a h) numbered =
      Appends-IsNumbered b c
        (append_event_envelope-Appends payload_digest daemon_id envelope digest duplicate b c a h)
        numbered
  Step-IsNumbered {before = b} {after = c} (acknowledged ack h) numbered =
      SameNumbers-IsNumbered b c (Settles-SameNumbers ack b c (acknowledge_event-Settles ack b c h))
        numbered
  Step-IsNumbered {before = b} {after = c} (reconciled snapshot h) numbered =
      SameNumbers-IsNumbered b c (apply_reconciliation-SameNumbers snapshot b c h) numbered
  Step-IsNumbered {before = b} (compacted session_id) numbered =
      SameNumbers-IsNumbered b (compact_session payload_digest daemon_id session_id b)
        (λ session n. compact_session-given payload_digest daemon_id session n session_id b)
        numbered

  pub default_file-IsNumbered : IsNumbered default_file
  unfolding records_at tombstones_at
  default_file-IsNumbered session n below = omega arith

  -- In every journal that a new one reaches, by appending events, storing given envelopes,
  -- acknowledging, reconciling and compacting in any order, no sequence number below `u64::MAX` is
  -- given to two events of a session, the compacted ones included.
  Reach-IsNumbered :
      {state : JournalFile}
      → Reach payload_digest daemon_id state
      → (session_id : String) (n : ℕ) → n < u64_max
      → times_given session_id n state ≤ 1
  Reach-IsNumbered start = default_file-IsNumbered
  Reach-IsNumbered (then_step r s) = Step-IsNumbered s (Reach-IsNumbered r)

  Step-IsTracked :
      {before after : JournalFile}
      → Step payload_digest daemon_id before after
      → IsTracked before.sessions
      → IsTracked after.sessions
  unfolding compact_session
  Step-IsTracked {before = b} {after = c} (appended event_id session_id event now a h) tracked =
      Appends-IsTracked b c
        (append_event-Appends payload_digest daemon_id event_id session_id event now b c a h)
        tracked
  Step-IsTracked {before = b} {after = c} (received envelope digest duplicate a h) tracked =
      Appends-IsTracked b c
        (append_event_envelope-Appends payload_digest daemon_id envelope digest duplicate b c a h)
        tracked
  Step-IsTracked {before = b} {after = c} (acknowledged ack h) tracked =
      Settles-IsTracked ack b c (acknowledge_event-Settles ack b c h) tracked
  Step-IsTracked {before = b} {after = c} (reconciled snapshot h) tracked =
      apply_reconciliation-IsTracked snapshot b c h tracked
  Step-IsTracked {before = b} (compacted session_id) tracked = tracked

  Reach-IsTracked :
      {state : JournalFile} → Reach payload_digest daemon_id state → IsTracked state.sessions
  unfolding lookup
  Reach-IsTracked start = λ session_id. (tt, tt)
  Reach-IsTracked (then_step r s) = Step-IsTracked s (Reach-IsTracked r)

  -- In every journal that a new one reaches by these operations, what the journal knows of a session
  -- with a name is a valid state for reconciliation: its sparse acknowledgements are above its cursor
  -- and strictly ascending.
  Reach-session_validate :
      {state : JournalFile} (session_id : String)
      → Reach payload_digest daemon_id state
      → is_blank session_id ≡ false
      → session_validate (reconcile_state session_id (session_of session_id state)) ≡ ok tt
  Reach-session_validate {state} session_id r named =
      IsTracked-session_validate session_id state named (Reach-IsTracked r)
