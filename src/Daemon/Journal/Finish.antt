-- ===== src/Daemon/Journal/Finish.antt =====
-- The end of a command in crates/north-daemon/src/journal.rs: `finish_command`, and the cursor of what
-- is processed.
pub mod Laws
pub mod Cursor
pub mod Numbers
use north.Common.{
  ℕ, zero, suc, ◌+◌, ◌-◌, String, str_eq, List, [], ◌∷◌, ◌++◌, Option, none, some, Bool, true,
  false, ◌&&◌, Result, ok, err, any, ◌==◌, find, modify_first, u64_max,
}
use Prim.Native.String.{◌++◌ as ◌+++◌}
use north.Common.Decimal.{decimal}
use north.Protocol.Event.{EventEnvelope, Event, session_failed}
use north.Daemon.Scheduler.{DispatchOutcome, dispatch_succeeded, dispatch_failed, unknown}
use north.Daemon.Journal.{
  JournalError, identity_conflict, JournalFile, SessionJournal, terminal, CommandRecord,
}
use north.Daemon.Journal.Identity.{saturating_inc, next_event_sequence}
use north.Daemon.Journal.Events.{envelope_of, record_of, push_event}
use north.Daemon.Journal.Acks.{session_of, put_session, put_if}
use north.Daemon.Journal.Commands.{is_command, is_finished}

-- Whether a finished command of the session has the number.
unfoldable pub is_processed : List CommandRecord → String → ℕ → Bool
is_processed commands session_id number =
    any
      (λ (r : CommandRecord).
        str_eq r.session_id session_id && r.server_command_seq == number && is_finished r.state)
      commands

abbrev pub process_next : SessionJournal → SessionJournal
process_next s = record s { processed_through_seq = saturating_inc s.processed_through_seq }

-- The loop of `advance_processed`, for as many rounds as the fuel; `none` is a loop that has not
-- ended by then.
unfoldable pub processed_loop :
    List CommandRecord → String → ℕ → SessionJournal → Option SessionJournal
processed_loop commands session_id zero s = none
processed_loop commands session_id (suc fuel) s =
    elim (is_processed commands session_id (saturating_inc s.processed_through_seq)) [
      | false ↦ some s
      | true ↦ processed_loop commands session_id fuel (process_next s)
    ]

-- The fuel is one round for each number up to `u64::MAX`, and one to stop.
unfoldable pub advance_processed : String → JournalFile → Option JournalFile
unfolding processed_loop
advance_processed session_id state =
    let s = session_of session_id state in
    put_if (λ advanced. put_session session_id advanced state)
      (processed_loop state.commands session_id (suc (u64_max - s.processed_through_seq)) s)

abbrev outcome_reason : DispatchOutcome → Option String
outcome_reason dispatch_succeeded = none
outcome_reason (dispatch_failed reason) = some reason
outcome_reason (unknown reason) = some reason

abbrev pub finish_record : DispatchOutcome → String → CommandRecord → CommandRecord
finish_record outcome now r = record r {
  state = terminal;
  reason = outcome_reason outcome;
  outcome = some outcome;
  updated_at = now;
}

unfoldable pub runtime_event_id : String → ℕ → String
unfolding decimal
runtime_event_id command_id number = "runtime-" +++ (command_id +++ ("-" +++ decimal number))

unfoldable pub unknown_event : String → String → String → Event
unknown_event command_id runtime_operation_id reason = session_failed (record {
  recoverable = false;
  reason =
      "execution_outcome_unknown command_id="
      +++ (command_id
          +++ (" runtime_operation_id="
              +++ (runtime_operation_id +++ (" " +++ (reason +++ " automatic_resubmit=false")))));
})

abbrev pub finished : String → String → DispatchOutcome → JournalFile → JournalFile
finished now command_id outcome state = record state {
  commands = modify_first (is_command command_id) (finish_record outcome now) state.commands;
}

module _ (payload_digest : EventEnvelope → String) (daemon_id : String) (now : String) where
  -- An event with the next number of the session, which is stored with no further check.
  unfoldable pub emit : String → String → Event → JournalFile → EventEnvelope × JournalFile
  emit event_id session_id event state =
      let envelope =
        envelope_of event_id session_id (next_event_sequence state session_id) now event in
      (envelope, push_event (record_of daemon_id envelope (payload_digest envelope)) state)

  -- The loop over the events of the runtime; `number` is `index + 1`.
  unfoldable pub emit_each :
      String → String → ℕ → List Event → JournalFile → List EventEnvelope × JournalFile
  unfolding emit runtime_event_id
  emit_each command_id session_id number [] state = ([], state)
  emit_each command_id session_id number (event ∷ events) state =
      let (envelope, stored) = emit (runtime_event_id command_id number) session_id event state in
      let (later, end) = emit_each command_id session_id (suc number) events stored in
      (envelope ∷ later, end)

  unfoldable pub emit_unknown :
      CommandRecord
      → String
      → DispatchOutcome
      → List EventEnvelope
      → JournalFile
      → List EventEnvelope × JournalFile
  unfolding emit unknown_event
  emit_unknown r command_id (unknown reason) events state =
      let (envelope, stored) =
        emit ("execution-unknown-" +++ command_id) r.session_id
          (unknown_event command_id r.runtime_operation_id reason) state in
      (events ++ (envelope ∷ []), stored)
  emit_unknown r command_id _ events state = (events, state)

  unfoldable pub emit_all :
      CommandRecord
      → String
      → DispatchOutcome
      → List Event
      → JournalFile
      → JournalFile × List EventEnvelope
  unfolding emit_each emit_unknown
  emit_all r command_id outcome runtime_events state =
      let (events, stored) = emit_each command_id r.session_id 1 runtime_events state in
      let (all, end) = emit_unknown r command_id outcome events stored in (end, all)

  abbrev pub emit_if :
      CommandRecord
      → String
      → DispatchOutcome
      → List Event
      → Option JournalFile
      → Option (Result (JournalFile × List EventEnvelope) JournalError)
  unfolding emit_all
  emit_if r command_id outcome runtime_events none = none
  emit_if r command_id outcome runtime_events (some state) =
      some (ok (emit_all r command_id outcome runtime_events state))

  unfoldable pub finish_found :
      String
      → DispatchOutcome
      → List Event
      → JournalFile
      → Option CommandRecord
      → Option (Result (JournalFile × List EventEnvelope) JournalError)
  unfolding emit_if advance_processed
  finish_found command_id outcome runtime_events state none =
      some (err (identity_conflict "command disappeared before terminal commit"))
  finish_found command_id outcome runtime_events state (some r) =
      emit_if r command_id outcome runtime_events
        (advance_processed r.session_id (finished now command_id outcome state))

  -- The closure that `finish_command` gives to `update`.
  unfoldable pub finish_command :
      String
      → DispatchOutcome
      → List Event
      → JournalFile
      → Option (Result (JournalFile × List EventEnvelope) JournalError)
  unfolding finish_found
  finish_command command_id outcome runtime_events state =
      finish_found command_id outcome runtime_events state
        (find (is_command command_id) state.commands)
