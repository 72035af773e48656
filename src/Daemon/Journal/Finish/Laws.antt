-- ===== src/Daemon/Journal/Finish/Laws.antt =====
-- What the end of a command changes in the journal of crates/north-daemon/src/journal.rs.
use north.Common.{
  ℕ, suc, ◌-◌, ◌≡◌, refl, ap, sym, subst, String, List, [], ◌∷◌, Option, none, some, ok, arith,
  u64_max, find,
}
use Prim.Native.String.{◌++◌ as ◌+++◌}
use north.Protocol.Event.{EventEnvelope, Event}
use north.Daemon.Scheduler.{DispatchOutcome, unknown, dispatch_succeeded, dispatch_failed}
use north.Daemon.Journal.{JournalFile, CommandRecord}
use north.Daemon.Journal.Acks.{session_of, put_session}
use north.Daemon.Journal.Acks.Cursor.{put_if-some}
use north.Daemon.Journal.Commands.{is_command}
use north.Daemon.Journal.Commands.Same.{SameCommands}
use north.Daemon.Journal.Finish.{
  processed_loop, advance_processed, emit, emit_each, emit_unknown, emit_all, emit_if,
  runtime_event_id, unknown_event, finished, finish_found, finish_command,
}

module _ (payload_digest : EventEnvelope → String) (daemon_id : String) (now : String)
    (P : JournalFile → Type 0)
    (keeps : (event_id session_id : String) (event : Event) (state : JournalFile)
      → P state
      → P (emit payload_digest daemon_id now event_id session_id event state).1) where
  emit_each-keeps :
      (command_id session_id : String) (number : ℕ) (events : List Event) (state : JournalFile)
      → P state
      → P (emit_each payload_digest daemon_id now command_id session_id number events state).1
  unfolding emit_each
  emit_each-keeps command_id session_id number [] state p = p
  emit_each-keeps command_id session_id number (event ∷ events) state p =
      let event_id = runtime_event_id command_id number in
      emit_each-keeps command_id session_id (suc number) events
        (emit payload_digest daemon_id now event_id session_id event state).1
        (keeps event_id session_id event state p)

  emit_unknown-keeps :
      (r : CommandRecord) (command_id : String) (outcome : DispatchOutcome)
      (events : List EventEnvelope) (state : JournalFile)
      → P state
      → P (emit_unknown payload_digest daemon_id now r command_id outcome events state).1
  unfolding emit_unknown
  emit_unknown-keeps r command_id dispatch_succeeded events state p = p
  emit_unknown-keeps r command_id (dispatch_failed reason) events state p = p
  emit_unknown-keeps r command_id (unknown reason) events state p =
      keeps ("execution-unknown-" +++ command_id) r.session_id
        (unknown_event command_id r.runtime_operation_id reason) state p

  -- What holds before the events are stored, and what storing one keeps, holds afterwards.
  emit_all-keeps :
      (r : CommandRecord) (command_id : String) (outcome : DispatchOutcome) (events : List Event)
      (state : JournalFile)
      → P state
      → P (emit_all payload_digest daemon_id now r command_id outcome events state).0
  unfolding emit_all
  emit_all-keeps r command_id outcome events state p =
      let (sent, stored) =
        emit_each payload_digest daemon_id now command_id r.session_id 1 events state in
      emit_unknown-keeps r command_id outcome sent stored
        (emit_each-keeps command_id r.session_id 1 events state p)

  -- What finishing keeps, if the two first steps of it do.
  pub finish_command-keeps :
      (command_id : String) (outcome : DispatchOutcome) (events : List Event)
      (before after : JournalFile) (sent : List EventEnvelope)
      → finish_command payload_digest daemon_id now command_id outcome events before
        ≡ some (ok (after, sent))
      → ((session_id : String) (advanced : JournalFile)
          → advance_processed session_id (finished now command_id outcome before) ≡ some advanced
          → P advanced)
      → P after
  unfolding finish_command finish_found
  finish_command-keeps command_id outcome events before after sent h p =
      by_record (find (is_command command_id) before.commands) h
    where
      emitted :
          (r : CommandRecord) (o : Option JournalFile)
          → emit_if payload_digest daemon_id now r command_id outcome events o
            ≡ some (ok (after, sent))
          → ((advanced : JournalFile) → o ≡ some advanced → P advanced)
          → P after
      emitted r none h p = absurd (cc h)
      emitted r (some advanced) h p =
          let all = emit_all payload_digest daemon_id now r command_id outcome events advanced in
          let same : all.0 ≡ after = ground arith in
          subst P same (emit_all-keeps r command_id outcome events advanced (p advanced refl))

      by_record :
          (o : Option CommandRecord)
          → finish_found payload_digest daemon_id now command_id outcome events before o
            ≡ some (ok (after, sent))
          → P after
      by_record none h = absurd (cc h)
      by_record (some r) h =
          emitted r (advance_processed r.session_id (finished now command_id outcome before)) h
            (p r.session_id)

module _ (payload_digest : EventEnvelope → String) (daemon_id : String) (now : String) where
  emit-SameCommands :
      (event_id session_id : String) (event : Event) (before state : JournalFile)
      → SameCommands before state
      → SameCommands before (emit payload_digest daemon_id now event_id session_id event state).1
  unfolding emit
  emit-SameCommands event_id session_id event before state same = same

  advance_processed-SameCommands :
      (session_id : String) (before after : JournalFile)
      → advance_processed session_id before ≡ some after
      → SameCommands before after
  unfolding advance_processed
  advance_processed-SameCommands session_id before after h =
      let s = session_of session_id before in
      let (advanced, _, e) =
        put_if-some (λ t. put_session session_id t before)
          (processed_loop before.commands session_id (suc (u64_max - s.processed_through_seq)) s)
          after h in
      (
        ap (λ (f : JournalFile). f.commands) (sym e),
        ap (λ (f : JournalFile). f.command_tombstones) (sym e),
      )

  -- The end of a command changes its record and no other command.
  pub finish_command-SameCommands :
      (command_id : String) (outcome : DispatchOutcome) (events : List Event)
      (before after : JournalFile) (sent : List EventEnvelope)
      → finish_command payload_digest daemon_id now command_id outcome events before
        ≡ some (ok (after, sent))
      → SameCommands (finished now command_id outcome before) after
  finish_command-SameCommands command_id outcome events before after sent h =
      finish_command-keeps payload_digest daemon_id now
        (SameCommands (finished now command_id outcome before))
        (λ event_id session_id event state.
          emit-SameCommands event_id session_id event (finished now command_id outcome before)
            state)
        command_id outcome events before after sent h
        (λ session_id advanced.
          advance_processed-SameCommands session_id (finished now command_id outcome before)
            advanced)
