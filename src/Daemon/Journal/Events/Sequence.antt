-- ===== src/Daemon/Journal/Events/Sequence.antt =====
-- What an append changes: a new event takes the next sequence number of its session.
use north.Common.{
  ◌≡◌, refl, sym, ◌⊎◌, inl, inr, String, str_eq, eq_iff, [], ◌∷◌, Option, none, some, Bool, true,
  false, Result, ok, ◌>>◌, >>-ok, arith, find, map_err, subst, refuse_if, any, not,
}
use north.Protocol.Event.{EventEnvelope, Event}
use north.Protocol.Frame.{DaemonFrame, daemon_validate}
use north.Daemon.Journal.{
  protocol, identity_conflict, JournalError, JournalFile, EventRecord, EventTombstone,
}
use north.Daemon.Journal.Identity.{next_event_sequence, validate_event_identity}
use north.Daemon.Journal.Events.{
  AppendedEvent, envelope_of, record_of, is_record_of, is_tombstone_of, push_event, append_new,
  append_tombstone, append_record, append_event, append_event_envelope, envelope_new,
  envelope_tombstone, envelope_record,
}
use north.Daemon.Journal.Numbers.{IsNumbered, times_given-next, records_at-append, records_at}

-- The file is as before, or has one more event, whose number is the next of its session.
abbrev pub Appends : JournalFile → JournalFile → Type 0
Appends before after =
    (after ≡ before)
    ⊎ ((r : EventRecord) × (after ≡ push_event r before)
        × (next_event_sequence before r.envelope.session_id ≡ r.envelope.daemon_event_seq))

pub push_event-IsNumbered :
    (r : EventRecord) (state : JournalFile)
    → next_event_sequence state r.envelope.session_id ≡ r.envelope.daemon_event_seq
    → IsNumbered state
    → IsNumbered (push_event r state)
unfolding records_at
push_event-IsNumbered r state next numbered session_id n below =
    let split = records_at-append session_id n state.events (r ∷ []) in
    let before = numbered session_id n below in
    let new = times_given-next session_id n state in
    ground (arith, split, before, new, eq_iff r.envelope.session_id session_id)

-- Two checks in front of a result.
pub after_two-ok :
    {B : Type 0} (m n : Result (Unit {0}) JournalError) (k : Result B JournalError) {b : B}
    → (m >> (n >> k)) ≡ ok b
    → k ≡ ok b
after_two-ok m n k h = (>>-ok n k (>>-ok m (n >> k) h).1).1

module _ (payload_digest : EventEnvelope → String) (daemon_id : String) where
  append_new-Appends :
      (event_id session_id : String) (event : Event) (now : String) (state after : JournalFile)
      (a : AppendedEvent)
      → append_new payload_digest daemon_id event_id session_id event now state ≡ ok (after, a)
      → Appends state after
  unfolding append_new
  append_new-Appends event_id session_id event now state after a h =
      let envelope =
        envelope_of event_id session_id (next_event_sequence state session_id) now event in
      let digest = payload_digest envelope in
      let r = record_of daemon_id envelope digest in
      let pushed : Result (JournalFile × AppendedEvent) JournalError =
        ok (push_event r state, record { envelope = envelope; duplicate = false }) in
      let last =
        after_two-ok (map_err protocol (daemon_validate (DaemonFrame.event envelope)))
          (validate_event_identity state daemon_id envelope digest) pushed h in
      inr (r, ground (arith, last), refl)

  append_tombstone-Appends :
      (event_id session_id : String) (event : Event) (now : String) (state after : JournalFile)
      (a : AppendedEvent) (o : Option EventTombstone)
      → append_tombstone payload_digest daemon_id event_id session_id event now state o
        ≡ ok (after, a)
      → Appends state after
  unfolding append_tombstone
  append_tombstone-Appends event_id session_id event now state after a none h =
      append_new-Appends event_id session_id event now state after a h
  append_tombstone-Appends event_id session_id event now state after a (some t) h =
      inl (ground arith)

  append_record-Appends :
      (event_id session_id : String) (event : Event) (now : String) (state after : JournalFile)
      (a : AppendedEvent) (o : Option EventRecord)
      → append_record payload_digest daemon_id event_id session_id event now state o ≡ ok (after, a)
      → Appends state after
  unfolding append_record
  append_record-Appends event_id session_id event now state after a none h =
      append_tombstone-Appends event_id session_id event now state after a
        (find (is_tombstone_of daemon_id event_id) state.event_tombstones) h
  append_record-Appends event_id session_id event now state after a (some r) h = inl (ground arith)

  pub append_event-Appends :
      (event_id session_id : String) (event : Event) (now : String) (state after : JournalFile)
      (a : AppendedEvent)
      → append_event payload_digest daemon_id event_id session_id event now state ≡ ok (after, a)
      → Appends state after
  unfolding append_event
  append_event-Appends event_id session_id event now state after a h =
      append_record-Appends event_id session_id event now state after a
        (find (is_record_of daemon_id event_id) state.events) h

  envelope_new-Appends :
      (envelope : EventEnvelope) (digest : String) (duplicate : Bool) (state after : JournalFile)
      (a : AppendedEvent)
      → envelope_new payload_digest daemon_id envelope digest duplicate state ≡ ok (after, a)
      → Appends state after
  unfolding envelope_new
  envelope_new-Appends envelope digest duplicate state after a h =
      inr (record_of daemon_id envelope digest, ground arith, ground arith)

  envelope_tombstone-Appends :
      (envelope : EventEnvelope) (digest : String) (duplicate : Bool) (state after : JournalFile)
      (a : AppendedEvent) (known : Bool)
      → envelope_tombstone payload_digest daemon_id envelope digest duplicate state known
        ≡ ok (after, a)
      → Appends state after
  unfolding envelope_tombstone
  envelope_tombstone-Appends envelope digest duplicate state after a true h = inl (ground arith)
  envelope_tombstone-Appends envelope digest duplicate state after a false h =
      envelope_new-Appends envelope digest duplicate state after a h

  envelope_record-Appends :
      (envelope : EventEnvelope) (digest : String) (duplicate : Bool) (state after : JournalFile)
      (a : AppendedEvent) (o : Option EventRecord)
      → envelope_record payload_digest daemon_id envelope digest duplicate state o ≡ ok (after, a)
      → Appends state after
  unfolding envelope_record
  envelope_record-Appends envelope digest duplicate state after a (some r) h = inl (ground arith)
  envelope_record-Appends envelope digest duplicate state after a none h =
      envelope_tombstone-Appends envelope digest duplicate state after a
        (any (λ t. str_eq t.event_id envelope.event_id) state.event_tombstones) h

  pub append_event_envelope-Appends :
      (envelope : EventEnvelope) (digest : String) (duplicate : Bool) (state after : JournalFile)
      (a : AppendedEvent)
      → append_event_envelope payload_digest daemon_id envelope digest duplicate state
        ≡ ok (after, a)
      → Appends state after
  unfolding append_event_envelope envelope_record envelope_tombstone envelope_new
  append_event_envelope-Appends envelope digest duplicate state after a h =
      let fits = validate_event_identity state daemon_id envelope digest in
      let rest =
        envelope_record payload_digest daemon_id envelope digest duplicate state
          (find (λ r. str_eq r.envelope.event_id envelope.event_id) state.events) in
      let digested =
        refuse_if (not (str_eq (payload_digest envelope) digest))
          (identity_conflict "event payload digest does not match envelope") in
      let checked =
        after_two-ok (map_err protocol (daemon_validate (DaemonFrame.event envelope))) digested
          (fits >> rest) h in
      envelope_record-Appends envelope digest duplicate state after a
        (find (λ r. str_eq r.envelope.event_id envelope.event_id) state.events)
        (>>-ok fits rest checked).1

pub Appends-IsNumbered :
    (before after : JournalFile) → Appends before after → IsNumbered before → IsNumbered after
Appends-IsNumbered before after (inl same) numbered = subst IsNumbered (sym same) numbered
Appends-IsNumbered before after (inr (r, pushed, next)) numbered =
    subst IsNumbered (sym pushed) (push_event-IsNumbered r before next numbered)
