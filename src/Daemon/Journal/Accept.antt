-- ===== src/Daemon/Journal/Accept.antt =====
-- The acceptance, the completion and the recovery of commands in crates/north-daemon/src/journal.rs.
use north.Common.{
  String, str_eq, List, [], Option, none, some, Bool, true, false, not, ◌&&◌, ◌||◌, Result, ok, err,
  map_err, any, ◌==◌, ltb, find,
}
use north.Protocol.Checks.{schema_version}
use north.Protocol.Command.{Command, session_cancel, CommandEnvelope, CommandAck}
use north.Protocol.Event.{Event, EventEnvelope}
use north.Protocol.Frame.{ServerFrame, server_validate}
use north.Daemon.Exec.{pure, gets, ◌>>=◌}
use north.Daemon.Scheduler.{DispatchOutcome}
use north.Daemon.Journal.{
  JournalError, protocol, identity_conflict, JournalFile, CommandJournalState, dispatch_started,
  CommandRecord,
}
use north.Daemon.Journal.Compact.{compact_session}
use north.Daemon.Journal.Commands.{
  expected_command_sequence, is_received, Prepared, prepare_command, message_id_of, is_command,
  mark_dispatch_started,
}
use north.Daemon.Journal.Finish.{finish_command}
use north.Daemon.Journal.Store.{World, Store, Method, transact, ends, require}

pub record CommandProcessResult : Type 0 where
  pub acknowledgement : CommandAck
  pub state : CommandJournalState
  pub outcome : Option DispatchOutcome
  pub duplicate : Bool
  pub buffered : Bool
  pub emitted_events : List EventEnvelope

pub record CommandAcceptance : Type 0 where
  pub result : CommandProcessResult
  pub command : Option CommandEnvelope

unfoldable pub command_ack : CommandRecord → CommandAck
command_ack r = record {
  command_id = r.command_id;
  session_id = r.session_id;
  server_command_seq = r.server_command_seq;
  schema_version = schema_version;
}

unfoldable pub record_to_envelope : CommandRecord → CommandEnvelope
record_to_envelope r = record {
  command_id = r.command_id;
  session_id = r.session_id;
  server_command_seq = r.server_command_seq;
  sent_at = r.sent_at;
  schema_version = schema_version;
  command = r.command;
}

abbrev pub is_cancel : Command → Bool
is_cancel (session_cancel payload) = true
is_cancel _ = false

abbrev pub is_started : CommandJournalState → Bool
is_started dispatch_started = true
is_started _ = false

unfoldable pub has_prior_dispatch_started : CommandEnvelope → JournalFile → Bool
has_prior_dispatch_started envelope state =
    any
      (λ (r : CommandRecord).
        str_eq r.session_id envelope.session_id
        && ltb r.server_command_seq envelope.server_command_seq
        && is_started r.state)
      state.commands

abbrev pub found_or : String → Option CommandRecord → Result CommandRecord JournalError
found_or message none = err (identity_conflict message)
found_or message (some r) = ok r

unfoldable pub command_record : String → Method CommandRecord
command_record command_id s =
    require
      (found_or "command disappeared from journal" (find (is_command command_id) s.state.commands))
      s

-- The journal answers with what it knows of the command, which is not handed out.
abbrev pub reported : CommandRecord → Bool → Bool → CommandAcceptance
reported r duplicate buffered = record {
  result = record {
    acknowledgement = command_ack r;
    state = r.state;
    outcome = r.outcome;
    duplicate = duplicate;
    buffered = buffered;
    emitted_events = [];
  };
  command = none;
}

abbrev pub released : CommandRecord → Bool → CommandAcceptance
released r duplicate = record {
  result = record {
    acknowledgement = command_ack r;
    state = dispatch_started;
    outcome = none;
    duplicate = duplicate;
    buffered = false;
    emitted_events = [];
  };
  command = some (record_to_envelope r);
}

module _ (w : World) where
  unfoldable pub prepare : CommandEnvelope → Method Prepared
  unfolding transact prepare_command
  prepare envelope = transact w (
      ends (
        prepare_command w.daemon_id w.limit envelope (w.command_digest envelope)
          (message_id_of envelope.command)))

  unfoldable pub mark_started : String → Method Bool
  unfolding transact mark_dispatch_started
  mark_started command_id = transact w (ends (mark_dispatch_started command_id))

  -- The end of `accept_command_with_control`, once it is known whether the dispatch was started.
  unfoldable pub answer_started : CommandRecord → Bool → Bool → Method CommandAcceptance
  unfolding command_record
  answer_started r duplicate true = pure (released r duplicate)
  answer_started r duplicate false =
      command_record r.command_id >>= λ current. pure (reported current true false)

  unfoldable pub start : CommandRecord → Bool → Method CommandAcceptance
  unfolding mark_started answer_started
  start r duplicate = mark_started r.command_id >>= λ marked. answer_started r duplicate marked

  -- Whether the command is handed out now.
  abbrev pub may_start : CommandEnvelope → Bool → Prepared → JournalFile → Bool
  may_start envelope allow_control_interrupt (r, duplicate, buffered) state =
      let control_interrupt =
        allow_control_interrupt
        && is_cancel envelope.command
        && buffered
        && has_prior_dispatch_started envelope state in
      not (not (is_received r.state) || (buffered && not control_interrupt))

  unfoldable pub accept_prepared : Prepared → Bool → Method CommandAcceptance
  unfolding start
  accept_prepared (r, duplicate, buffered) true = start r duplicate
  accept_prepared (r, duplicate, buffered) false = pure (reported r duplicate buffered)

  unfoldable pub accept_command_with_control : CommandEnvelope → Bool → Method CommandAcceptance
  unfolding prepare accept_prepared has_prior_dispatch_started
  accept_command_with_control envelope allow_control_interrupt =
      require (map_err protocol (server_validate (ServerFrame.command envelope))) >>= λ _.
      prepare envelope >>= λ p.
      gets (λ (s : Store). may_start envelope allow_control_interrupt p s.state) >>= λ now.
      accept_prepared p now

  unfoldable pub accept_command : CommandEnvelope → Method CommandAcceptance
  unfolding accept_command_with_control
  accept_command envelope = accept_command_with_control envelope false

  unfoldable pub accept_control_command : CommandEnvelope → Method CommandAcceptance
  unfolding accept_command_with_control
  accept_control_command envelope = accept_command_with_control envelope true

  -- The received command of the session that is next in the sequence.
  unfoldable pub next_ready : String → JournalFile → Option CommandRecord
  next_ready session_id state =
      let expected = expected_command_sequence state session_id in
      find
        (λ (r : CommandRecord).
          str_eq r.session_id session_id && r.server_command_seq == expected && is_received r.state)
        state.commands

  unfoldable pub accept_ready : Option CommandRecord → Method (Option CommandAcceptance)
  unfolding accept_command
  accept_ready none = pure none
  accept_ready (some r) = accept_command (record_to_envelope r) >>= λ a. pure (some a)

  unfoldable pub accept_next_ready_command : String → Method (Option CommandAcceptance)
  unfolding next_ready accept_ready
  accept_next_ready_command session_id s = accept_ready (next_ready session_id s.state) s

  unfoldable pub compact : String → Method (Unit {0})
  unfolding transact compact_session
  compact session_id =
      transact w
        (λ now state. some (ok (compact_session w.event_digest w.daemon_id session_id state, tt)))

  unfoldable pub finish : String → DispatchOutcome → List Event → Method (List EventEnvelope)
  unfolding transact finish_command
  finish command_id outcome runtime_events =
      transact w
        (λ now. finish_command w.event_digest w.daemon_id now command_id outcome runtime_events)

  unfoldable pub complete_command :
      String → DispatchOutcome → List Event → Method (List EventEnvelope)
  unfolding command_record compact finish
  complete_command command_id outcome runtime_events = command_record command_id >>= λ r.
      finish command_id outcome runtime_events >>= λ emitted.
      compact r.session_id >>= λ _. pure emitted
