-- ===== src/Daemon/Journal/Changes.antt =====
-- What acknowledging and reconciling change in the journal of crates/north-daemon/src/journal.rs.
use north.Common.{
  suc, ℕ, ◌+◌, ◌-◌, ◌≡◌, ◌⊎◌, inl, inr, refl, ap, sym, ◌∙◌, subst, String, List, [], ◌∷◌, Option,
  none, some, Bool, true, false, Result, ok, err, arith, u64_max, find, map_err,
}
use north.Protocol.Event.{EventAck}
use north.Protocol.Reconcile.{ReconcileSnapshot, SessionReconcileState}
use north.Protocol.Frame.{ServerFrame, server_validate}
use north.Daemon.Journal.{
  JournalError, protocol, JournalFile, SessionJournal, EventRecord, EventTombstone,
}
use north.Daemon.Journal.Acks.{
  acknowledge_event, acknowledge_known, acknowledge_record, acknowledge_tombstone,
  acknowledge_again, mark_acknowledged, advance_event_ack, apply_reconciliation, reconcile_each,
  reconcile_session, is_event, is_tombstone, after_check, finish, Finished, or_status, advance_loop,
  mark_covered, session_of, put_session, merge_session,
}
use north.Daemon.Journal.Acks.Cursor.{some_injective, put_if-some}
use north.Daemon.Journal.Acks.Tracked.{IsTracked, acknowledged-IsTracked, reconcile_each-IsTracked}
use north.Daemon.Journal.Numbers.{
  IsNumbered, times_given, tombstones_at, records_at-modify, records_at-map, tombstones_at-modify,
}

-- Both files give every number equally often.
abbrev pub SameNumbers : JournalFile → JournalFile → Type 0
SameNumbers before after =
    (session_id : String) (n : ℕ) → times_given session_id n after ≡ times_given session_id n before

pub SameNumbers-IsNumbered :
    (before after : JournalFile) → SameNumbers before after → IsNumbered before → IsNumbered after
SameNumbers-IsNumbered before after same numbered session_id n below =
    omega (arith, same session_id n, numbered session_id n below)

pub after_check-some :
    (m : Result (Unit {0}) JournalError) (f : Finished) {after : JournalFile}
    → after_check m f ≡ some (ok (after, tt))
    → f ≡ some (ok (after, tt))
after_check-some (ok _) f h = h
after_check-some (err e) f h = absurd (cc (some_injective h))

advance_event_ack-SameNumbers :
    (session_id : String) (before after : JournalFile)
    → advance_event_ack session_id before ≡ some after
    → SameNumbers before after
unfolding advance_event_ack
advance_event_ack-SameNumbers session_id before after h =
    let (s, _, e) =
      put_if-some (λ advanced. put_session session_id advanced before)
        (advance_loop before.events session_id
          (suc (u64_max - (session_of session_id before).event_ack_through_seq))
          (session_of session_id before))
        after h in
    subst (SameNumbers before) e (λ session n. refl)

mark_acknowledged-SameNumbers :
    (ack : EventAck) (state : JournalFile) → SameNumbers state (mark_acknowledged ack state)
unfolding mark_acknowledged
mark_acknowledged-SameNumbers ack state session n =
    ap (λ k. k + tombstones_at session n state.event_tombstones)
      (records_at-modify session n (is_event ack.event_id)
        (λ (u : EventRecord). record u { acknowledged = true; acknowledgement = some ack.status })
        state.events (λ r. refl))

acknowledge_tombstone-SameNumbers :
    (ack : EventAck) (before after : JournalFile) (o : Option EventTombstone)
    → acknowledge_tombstone ack before o ≡ ok (after, tt)
    → SameNumbers before after
unfolding acknowledge_tombstone
acknowledge_tombstone-SameNumbers ack before after none h session n = cc
acknowledge_tombstone-SameNumbers ack before after (some t) h session n =
    let same =
      tombstones_at-modify session n (is_tombstone ack.event_id)
        (λ (u : EventTombstone). record u {
          acknowledgement = or_status u.acknowledgement ack.status;
        })
        before.event_tombstones (λ u. refl) in
    ground (arith, same)

acknowledge_again-SameNumbers :
    (ack : EventAck) (before after : JournalFile) (r : EventRecord)
    → acknowledge_again ack before r ≡ ok (after, tt)
    → SameNumbers before after
unfolding acknowledge_again
acknowledge_again-SameNumbers ack before after r h session n =
    let same =
      records_at-modify session n (is_event ack.event_id)
        (λ (u : EventRecord). record u { acknowledgement = or_status u.acknowledgement ack.status })
        before.events (λ u. refl) in
    ground (arith, same)

mark_covered-envelope :
    (session_id : String) (s : SessionJournal) (r : EventRecord)
    → (mark_covered session_id s r).envelope ≡ r.envelope
mark_covered-envelope session_id s r = ground arith

reconcile_session-SameNumbers :
    (remote : SessionReconcileState) (state : JournalFile)
    → SameNumbers state (reconcile_session remote state)
unfolding reconcile_session
reconcile_session-SameNumbers remote state session n =
    let local = merge_session remote (session_of remote.session_id state) in
    ap (λ k. k + tombstones_at session n state.event_tombstones)
      (records_at-map session n (mark_covered remote.session_id local) state.events
        (mark_covered-envelope remote.session_id local))

reconcile_each-SameNumbers :
    (sessions : List SessionReconcileState) (state : JournalFile)
    → SameNumbers state (reconcile_each sessions state)
unfolding reconcile_each
reconcile_each-SameNumbers [] state session n = refl
reconcile_each-SameNumbers (remote ∷ rest) state session n =
    reconcile_each-SameNumbers rest (reconcile_session remote state) session n
    ∙ reconcile_session-SameNumbers remote state session n

pub finish-some :
    (o : Option JournalFile) (after : JournalFile)
    → finish o ≡ some (ok (after, tt))
    → o ≡ some after
finish-some none after h = absurd (cc h)
finish-some (some state) after h = ground arith

acknowledge_tombstone-sessions :
    (ack : EventAck) (before after : JournalFile) (o : Option EventTombstone)
    → acknowledge_tombstone ack before o ≡ ok (after, tt)
    → after.sessions ≡ before.sessions
unfolding acknowledge_tombstone
acknowledge_tombstone-sessions ack before after none h = cc
acknowledge_tombstone-sessions ack before after (some t) h = ground arith

acknowledge_again-sessions :
    (ack : EventAck) (before after : JournalFile) (r : EventRecord)
    → acknowledge_again ack before r ≡ ok (after, tt)
    → after.sessions ≡ before.sessions
unfolding acknowledge_again
acknowledge_again-sessions ack before after r h = ground arith

-- An acknowledgement changes neither the cursors nor the numbers, or it marks its event and advances
-- the cursor.
abbrev pub Settles : EventAck → JournalFile → JournalFile → Type 0
Settles ack before after =
    ((after.sessions ≡ before.sessions) × SameNumbers before after)
    ⊎ (advance_event_ack ack.session_id (mark_acknowledged ack before) ≡ some after)

acknowledge_known-Settles :
    (ack : EventAck) (before after : JournalFile) (r : EventRecord) (known : Bool)
    → acknowledge_known ack before r known ≡ some (ok (after, tt))
    → Settles ack before after
unfolding acknowledge_known
acknowledge_known-Settles ack before after r true h =
    let again = some_injective h in
    inl (
      acknowledge_again-sessions ack before after r again,
      acknowledge_again-SameNumbers ack before after r again,
    )
acknowledge_known-Settles ack before after r false h =
    inr (finish-some (advance_event_ack ack.session_id (mark_acknowledged ack before)) after h)

acknowledge_record-Settles :
    (ack : EventAck) (before after : JournalFile) (o : Option EventRecord)
    → acknowledge_record ack before o ≡ some (ok (after, tt))
    → Settles ack before after
unfolding acknowledge_record
acknowledge_record-Settles ack before after none h =
    let t = find (is_tombstone ack.event_id) before.event_tombstones in
    let late = some_injective h in
    inl (
      acknowledge_tombstone-sessions ack before after t late,
      acknowledge_tombstone-SameNumbers ack before after t late,
    )
acknowledge_record-Settles ack before after (some r) h =
    acknowledge_known-Settles ack before after r r.acknowledged (ground arith)

pub acknowledge_event-Settles :
    (ack : EventAck) (before after : JournalFile)
    → acknowledge_event ack before ≡ some (ok (after, tt))
    → Settles ack before after
unfolding acknowledge_event
acknowledge_event-Settles ack before after h =
    acknowledge_record-Settles ack before after (find (is_event ack.event_id) before.events) (
      after_check-some (map_err protocol (server_validate (ServerFrame.event_ack ack)))
        (acknowledge_record ack before (find (is_event ack.event_id) before.events)) h)

pub Settles-SameNumbers :
    (ack : EventAck) (before after : JournalFile)
    → Settles ack before after
    → SameNumbers before after
Settles-SameNumbers ack before after (inl same) = same.1
Settles-SameNumbers ack before after (inr advanced) = λ session n.
    advance_event_ack-SameNumbers ack.session_id (mark_acknowledged ack before) after advanced
      session n
    ∙ mark_acknowledged-SameNumbers ack before session n

pub Settles-IsTracked :
    (ack : EventAck) (before after : JournalFile)
    → Settles ack before after
    → IsTracked before.sessions
    → IsTracked after.sessions
Settles-IsTracked ack before after (inl same) tracked = subst IsTracked (sym same.0) tracked
Settles-IsTracked ack before after (inr advanced) tracked =
    acknowledged-IsTracked ack before after advanced tracked

pub apply_reconciliation-SameNumbers :
    (snapshot : ReconcileSnapshot) (before after : JournalFile)
    → apply_reconciliation snapshot before ≡ ok (after, tt)
    → SameNumbers before after
unfolding apply_reconciliation
apply_reconciliation-SameNumbers snapshot before after h session n =
    let same = reconcile_each-SameNumbers snapshot.sessions before session n in ground (arith, same)

pub apply_reconciliation-IsTracked :
    (snapshot : ReconcileSnapshot) (before after : JournalFile)
    → apply_reconciliation snapshot before ≡ ok (after, tt)
    → IsTracked before.sessions
    → IsTracked after.sessions
unfolding apply_reconciliation
apply_reconciliation-IsTracked snapshot before after h tracked =
    let same : (reconcile_each snapshot.sessions before).sessions ≡ after.sessions = ground arith in
    subst IsTracked same (reconcile_each-IsTracked snapshot.sessions before tracked)
