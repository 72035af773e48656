-- ===== src/Daemon/Journal/Buffered.antt =====
-- The bound on the commands that wait behind a gap, in every update of
-- crates/north-daemon/src/journal.rs.
pub mod Updates
use north.Common.{
  ℕ, zero, suc, ◌+◌, ◌-◌, ◌≤◌, ◌≡◌, refl, ap, sym, subst, inl, inr, String, str_eq, eq_iff, List,
  [], ◌∷◌, ◌++◌, Option, some, Bool, true, false, ok, arith, u64_max, if◌then◌else◌, find,
  modify_first, Bool-cases,
}
use north.Common.Map.{lookup, string_eq, lookup-insert}
use north.Protocol.Event.{EventAck}
use north.Protocol.Reconcile.{ReconcileSnapshot, SessionReconcileState}
use north.Daemon.Scheduler.{DispatchOutcome}
use north.Daemon.Journal.{JournalFile, SessionJournal, CommandRecord, CommandTombstone}
use north.Daemon.Journal.Identity.{saturating_inc}
use north.Daemon.Journal.Acks.{
  session_of, put_session, or_default, advance_loop, advance_event_ack, is_acknowledged,
  note_sparse, merge_session, mark_acknowledged, reconcile_session, reconcile_each,
  apply_reconciliation, acknowledge_event,
}
use north.Daemon.Journal.Acks.Cursor.{moved, put_if-some, some_injective}
use north.Daemon.Journal.Changes.{acknowledge_event-Settles, Settles}
use north.Daemon.Journal.Compact.{drain_commands, command_tombstone, is_settled}
use north.Daemon.Journal.Commands.{waits, pending, expected_command_sequence, begin, is_finished}
use north.Daemon.Journal.Commands.Intake.{IsBuffered}
use north.Daemon.Journal.Commands.Same.{
  SameCommands, acknowledge_event-SameCommands, apply_reconciliation-SameCommands,
}
use north.Daemon.Journal.Finish.{finish_record}

abbrev pub processed : String → JournalFile → ℕ
processed session_id state = (session_of session_id state).processed_through_seq

fewer_le : (a b : Bool) → (a ≡ true → b ≡ true) → (if a then 1 else 0) ≤ (if b then 1 else 0)
fewer_le true true h = omega arith
fewer_le true false h = absurd (cc (h refl))
fewer_le false true h = omega arith
fewer_le false false h = omega arith

module _ (session_id : String) where
  pending-le :
      (lower upper : ℕ) (rs : List CommandRecord)
      → lower ≤ upper
      → pending session_id upper rs ≤ pending session_id lower rs
  unfolding pending
  pending-le lower upper [] h = omega arith
  pending-le lower upper (r ∷ rs) h = ground (arith, pending-le lower upper rs h)

  -- Only the first command that `p` finds is changed.
  pub pending-modify_first :
      (expected : ℕ) (p : CommandRecord → Bool) (f : CommandRecord → CommandRecord)
      (rs : List CommandRecord)
      → ((r : CommandRecord)
          → find p rs ≡ some r
          → waits session_id expected (f r) ≡ true
          → waits session_id expected r ≡ true)
      → pending session_id expected (modify_first p f rs) ≤ pending session_id expected rs
  unfolding pending modify_first find
  pending-modify_first expected p f [] fewer = omega arith
  pending-modify_first expected p f (r ∷ rs) fewer = elim (Bool-cases (p r)) [
    | inl found ↦
        let here =
          fewer_le (waits session_id expected (f r)) (waits session_id expected r)
            (fewer r (rw found refl)) in
        rw found (omega (arith, here))
    | inr other ↦
        let later = pending-modify_first expected p f rs (λ q e. fewer q (rw other e)) in
        rw other (omega (arith, later))
  ]

  pub pending-drain_commands :
      (expected through : ℕ) (name : String) (ts : List CommandTombstone) (rs : List CommandRecord)
      → pending session_id expected (drain_commands name through ts rs).1
        ≤ pending session_id expected rs
  unfolding pending drain_commands
  pending-drain_commands expected through name ts [] = omega arith
  pending-drain_commands expected through name ts (r ∷ rs) =
      let gone =
        pending-drain_commands expected through name (ts ++ (command_tombstone r ∷ [])) rs in
      let kept = pending-drain_commands expected through name ts rs in
      elim (Bool-cases (is_settled name through r)) [
        | inl settled ↦ rw settled (omega (arith, gone))
        | inr not_yet ↦ rw not_yet (omega (arith, kept))
      ]

saturating_inc-le : (m n : ℕ) → m ≤ n → saturating_inc m ≤ saturating_inc n
saturating_inc-le m n h = ground arith

-- No cursor of what is processed moves back.
abbrev pub MovesOn : JournalFile → JournalFile → Type 0
MovesOn before after =
    (session_id : String) → processed session_id before ≤ processed session_id after

chosen_processed :
    (b : Bool) (n : ℕ) (s : SessionJournal) (o : Option SessionJournal)
    → (b ≡ true → n ≤ s.processed_through_seq)
    → n ≤ (or_default o).processed_through_seq
    → n ≤ (or_default (if b then some s else o)).processed_through_seq
chosen_processed true n s o h k = h refl
chosen_processed false n s o h k = k

pub put_session-MovesOn :
    (session_id : String) (s : SessionJournal) (state : JournalFile)
    → processed session_id state ≤ s.processed_through_seq
    → MovesOn state (put_session session_id s state)
put_session-MovesOn session_id s state h j =
    subst (λ o. processed j state ≤ (or_default o).processed_through_seq)
      (sym (lookup-insert j session_id s state.sessions))
      (chosen_processed (str_eq session_id j) (processed j state) s (lookup j state.sessions)
        (λ own.
          subst (λ i. processed i state ≤ s.processed_through_seq) ((eq_iff session_id j).0 own) h)
        (omega arith))

-- No cursor moves back, and no more commands wait.
pub IsBuffered-le :
    (limit : ℕ) (before after : JournalFile)
    → MovesOn before after
    → ((session_id : String) (expected : ℕ)
        → pending session_id expected after.commands ≤ pending session_id expected before.commands)
    → IsBuffered limit before
    → IsBuffered limit after
IsBuffered-le limit before after moves fewer buffered session_id =
    let lower = expected_command_sequence before session_id in
    let upper = expected_command_sequence after session_id in
    let higher : lower ≤ upper =
      saturating_inc-le (processed session_id before) (processed session_id after)
        (moves session_id) in
    let left = pending-le session_id lower upper before.commands higher in
    omega (arith, buffered session_id, fewer session_id upper, left)

pending_unchanged :
    (before after : JournalFile)
    → SameCommands before after
    → (session_id : String) (expected : ℕ)
    → pending session_id expected after.commands ≤ pending session_id expected before.commands
pending_unchanged before after (commands, _) session_id expected = rw commands (omega arith)

advance_loop-processed :
    (events : List _) (session_id : String) (left : ℕ) (s t : SessionJournal)
    → advance_loop events session_id left s ≡ some t
    → s.processed_through_seq ≡ t.processed_through_seq
unfolding advance_loop moved
advance_loop-processed events session_id zero s t h = absurd (cc h)
advance_loop-processed events session_id (suc left) s t h =
    by_next (is_acknowledged events session_id (saturating_inc s.event_ack_through_seq)) h
      (advance_loop-processed events session_id left (moved s) t)
  where
    by_next :
        (b : Bool)
        → elim b [ false ↦ some s | true ↦ advance_loop events session_id left (moved s) ] ≡ some t
        → (advance_loop events session_id left (moved s) ≡ some t
            → s.processed_through_seq ≡ t.processed_through_seq)
        → s.processed_through_seq ≡ t.processed_through_seq
    by_next false h later = ap (λ (u : SessionJournal). u.processed_through_seq) (some_injective h)
    by_next true h later = later h

note_sparse-processed :
    (n : ℕ) (s : SessionJournal) → (note_sparse n s).processed_through_seq ≡ s.processed_through_seq
unfolding note_sparse
note_sparse-processed n s = ground arith

advance_event_ack-MovesOn :
    (session_id : String) (before after : JournalFile)
    → advance_event_ack session_id before ≡ some after
    → MovesOn before after
unfolding advance_event_ack
advance_event_ack-MovesOn session_id before after h =
    let s = session_of session_id before in
    let left = suc (u64_max - s.event_ack_through_seq) in
    let (t, runs, e) =
      put_if-some (λ advanced. put_session session_id advanced before)
        (advance_loop before.events session_id left s) after h in
    let same = advance_loop-processed before.events session_id left s t runs in
    subst (MovesOn before) e (put_session-MovesOn session_id t before (omega (arith, same)))

mark_acknowledged-MovesOn :
    (ack : EventAck) (state : JournalFile) → MovesOn state (mark_acknowledged ack state)
unfolding mark_acknowledged
mark_acknowledged-MovesOn ack state j =
    let s = session_of ack.session_id state in
    let same = note_sparse-processed ack.daemon_event_seq s in
    put_session-MovesOn ack.session_id (note_sparse ack.daemon_event_seq s) state
      (omega (arith, same)) j

Settles-MovesOn :
    (ack : EventAck) (before after : JournalFile) → Settles ack before after → MovesOn before after
Settles-MovesOn ack before after (inl (sessions, _)) j =
    subst (λ m. processed j before ≤ (or_default (lookup j m)).processed_through_seq) (sym sessions)
      (omega arith)
Settles-MovesOn ack before after (inr advanced) j = omega (
  arith,
  mark_acknowledged-MovesOn ack before j,
  advance_event_ack-MovesOn ack.session_id (mark_acknowledged ack before) after advanced j,
)

pub acknowledge_event-IsBuffered :
    (limit : ℕ) (ack : EventAck) (before after : JournalFile)
    → acknowledge_event ack before ≡ some (ok (after, tt))
    → IsBuffered limit before
    → IsBuffered limit after
acknowledge_event-IsBuffered limit ack before after h =
    IsBuffered-le limit before after
      (Settles-MovesOn ack before after (acknowledge_event-Settles ack before after h))
      (pending_unchanged before after (acknowledge_event-SameCommands ack before after h))

reconcile_each-MovesOn :
    (sessions : List SessionReconcileState) (state : JournalFile)
    → MovesOn state (reconcile_each sessions state)
unfolding reconcile_each reconcile_session merge_session
reconcile_each-MovesOn [] state j = omega arith
reconcile_each-MovesOn (remote ∷ rest) state j =
    let s = session_of remote.session_id state in
    let one =
      put_session-MovesOn remote.session_id (merge_session remote s) state (omega arith) j in
    let later = reconcile_each-MovesOn rest (reconcile_session remote state) j in
    omega (arith, one, later)

pub apply_reconciliation-IsBuffered :
    (limit : ℕ) (snapshot : ReconcileSnapshot) (before after : JournalFile)
    → apply_reconciliation snapshot before ≡ ok (after, tt)
    → IsBuffered limit before
    → IsBuffered limit after
unfolding apply_reconciliation
apply_reconciliation-IsBuffered limit snapshot before after h =
    let same : reconcile_each snapshot.sessions before ≡ after = ground arith in
    IsBuffered-le limit before after
      (subst (MovesOn before) same (reconcile_each-MovesOn snapshot.sessions before))
      (pending_unchanged before after (apply_reconciliation-SameCommands snapshot before after h))

pub begun_waits :
    (session_id : String) (expected : ℕ) (now : String) (r : CommandRecord)
    → is_finished r.state ≡ false
    → waits session_id expected (begin now r) ≡ true
    → waits session_id expected r ≡ true
begun_waits session_id expected now r running h = rw running h

pub finished_waits :
    (session_id : String) (expected : ℕ) (outcome : DispatchOutcome) (now : String)
    (r : CommandRecord)
    → waits session_id expected (finish_record outcome now r) ≡ false
finished_waits session_id expected outcome now r = ground arith
