-- ===== src/Daemon/Journal/Buffered/Updates.antt =====
-- The bound on the commands that wait behind a gap, in the updates of
-- crates/north-daemon/src/journal.rs that change a command.
use north.Common.{
  ℕ, ◌≤◌, ◌≡◌, refl, subst, String, List, Option, none, some, Bool, true, false, ok, arith, find,
  modify_first,
}
use north.Protocol.Event.{EventEnvelope, Event}
use north.Daemon.Scheduler.{DispatchOutcome}
use north.Daemon.Journal.{
  JournalFile, CommandJournalState, received, dispatch_started, terminal, CommandRecord,
}
use north.Daemon.Journal.Acks.{session_of, put_session}
use north.Daemon.Journal.Compact.{compact_session}
use north.Daemon.Journal.Commands.{
  is_command, begin, is_finished, is_received, mark_dispatch_started, start_record,
}
use north.Daemon.Journal.Commands.Intake.{IsBuffered}
use north.Daemon.Journal.Finish.{finish_record, finished, finish_command, emit}
use north.Daemon.Journal.Finish.Laws.{finish_command-keeps}
use north.Daemon.Journal.Finish.Cursor.{advance_processed-IsAdvanced}
use north.Daemon.Journal.Buffered.{
  IsBuffered-le, pending-modify_first, pending-drain_commands, put_session-MovesOn, begun_waits,
  finished_waits,
}

received-is_finished : (s : CommandJournalState) → is_received s ≡ true → is_finished s ≡ false
received-is_finished received h = refl
received-is_finished dispatch_started h = absurd (cc h)
received-is_finished terminal h = absurd (cc h)

start_record-IsBuffered :
    (limit : ℕ) (command_id now : String) (before after : JournalFile) (marked : Bool)
    (o : Option CommandRecord)
    → find (is_command command_id) before.commands ≡ o
    → start_record command_id now before o ≡ ok (after, marked)
    → IsBuffered limit before
    → IsBuffered limit after
unfolding start_record
start_record-IsBuffered limit command_id now before after marked none e h buffered = absurd (cc h)
start_record-IsBuffered limit command_id now before after false (some r) e h buffered =
    let same : before ≡ after = ground arith in subst (IsBuffered limit) same buffered
start_record-IsBuffered limit command_id now before after true (some r) e h buffered =
    let begun = modify_first (is_command command_id) (begin now) before.commands in
    let same : record before { commands = begun } ≡ after = ground arith in
    let waiting : is_received r.state ≡ true = ground arith in
    let running = received-is_finished r.state waiting in
    subst (IsBuffered limit) same (
      IsBuffered-le limit before (record before { commands = begun }) (λ j. omega arith)
        (λ session_id expected.
          pending-modify_first session_id expected (is_command command_id) (begin now)
            before.commands
            (λ q found.
              let this : r ≡ q = ground arith in
              begun_waits session_id expected now q
                (subst (λ (x : CommandRecord). is_finished x.state ≡ false) this running)))
        buffered)

pub mark_dispatch_started-IsBuffered :
    (limit : ℕ) (command_id now : String) (before after : JournalFile) (marked : Bool)
    → mark_dispatch_started command_id now before ≡ ok (after, marked)
    → IsBuffered limit before
    → IsBuffered limit after
unfolding mark_dispatch_started
mark_dispatch_started-IsBuffered limit command_id now before after marked h =
    start_record-IsBuffered limit command_id now before after marked
      (find (is_command command_id) before.commands) refl h

module _ (payload_digest : EventEnvelope → String) (daemon_id now : String) (limit : ℕ) where
  emit-IsBuffered :
      (event_id session_id : String) (e : Event) (state : JournalFile)
      → IsBuffered limit state
      → IsBuffered limit (emit payload_digest daemon_id now event_id session_id e state).1
  unfolding emit
  emit-IsBuffered event_id session_id e state buffered = buffered

  finished-IsBuffered :
      (command_id : String) (outcome : DispatchOutcome) (state : JournalFile)
      → IsBuffered limit state
      → IsBuffered limit (finished now command_id outcome state)
  finished-IsBuffered command_id outcome state =
      IsBuffered-le limit state (finished now command_id outcome state) (λ j. omega arith)
        (λ session_id expected.
          pending-modify_first session_id expected (is_command command_id)
            (finish_record outcome now) state.commands
            (λ r found h. absurd (cc (h, finished_waits session_id expected outcome now r))))

  pub finish_command-IsBuffered :
      (command_id : String) (outcome : DispatchOutcome) (events : List Event)
      (before after : JournalFile) (sent : List EventEnvelope)
      → finish_command payload_digest daemon_id now command_id outcome events before
        ≡ some (ok (after, sent))
      → IsBuffered limit before
      → IsBuffered limit after
  finish_command-IsBuffered command_id outcome events before after sent h buffered =
      let middle = finished now command_id outcome before in
      finish_command-keeps payload_digest daemon_id now (IsBuffered limit) emit-IsBuffered
        command_id outcome events before after sent h
        (λ session_id advanced e.
          let (t, (n, moved, above), same) =
            advance_processed-IsAdvanced session_id middle advanced e in
          let higher : (session_of session_id middle).processed_through_seq
              ≤ t.processed_through_seq =
            subst
              (λ (u : _).
                (session_of session_id middle).processed_through_seq ≤ u.processed_through_seq)
              moved above in
          subst (IsBuffered limit) same (
            IsBuffered-le limit middle (put_session session_id t middle)
              (put_session-MovesOn session_id t middle higher) (λ j expected. omega arith)
              (finished-IsBuffered command_id outcome before buffered)))

  pub compact_session-IsBuffered :
      (session_id : String) (state : JournalFile)
      → IsBuffered limit state
      → IsBuffered limit (compact_session payload_digest daemon_id session_id state)
  unfolding compact_session
  compact_session-IsBuffered session_id state =
      IsBuffered-le limit state (compact_session payload_digest daemon_id session_id state)
        (λ j. omega arith)
        (λ j expected.
          pending-drain_commands j expected (session_of session_id state).processed_through_seq
            session_id state.command_tombstones state.commands)
