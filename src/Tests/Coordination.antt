-- ===== src/Tests/Coordination.antt =====
-- The coordinator at concrete runs.
use north.Common.{
  ℕ, ◌≡◌, ◌≤◌, refl, List, [], ◌∷◌, true, false, ok, arith, find, modify_first, ◌==◌, if◌then◌else◌,
}
use north.Protocol.Command.{session_resume, CommandEnvelope}
use north.Protocol.Frame.{ServerFrame, server_validate}
use north.Daemon.Scheduler.{dispatch_succeeded}
use north.Daemon.Journal.{io, default_file}
use north.Daemon.Journal.Store.{World, Write, done, failed, Store}
use north.Daemon.Journal.Recovery.{RecoveryOutcome}
use north.Daemon.Journal.Accept.{released, accept_command_with_control}
use north.Daemon.Journal.Commands.Fresh.{fresh, waiting}
use north.Daemon.Journal.Durable.{IsRecorded}
use north.Daemon.Journal.Durable.Acceptance.{accept_command_with_control-IsRecorded}
use north.Daemon.Journal.Durable.Answer.{
  IsNext, new_record, begun_file, written_to, accept_command_next,
}
use north.Common.{is_blank}
use north.Protocol.Reconcile.{session_validate}
use north.Daemon.Journal.Numbers.{times_given}
use north.Daemon.Journal.Acks.{session_of}
use north.Daemon.Journal.Reach.{reconcile_state}
use north.Daemon.Journal.Commands.{pending, expected_command_sequence}
use north.Daemon.Coordination.Invariants.{run-times_given, run-pending, run-session_validate}
use north.Daemon.Coordination.Run.{
  Action, server_frame, finished, recovered, restarted, run, times_released, new_store,
}
use north.Daemon.Coordination.Releases.{run-times_released, run_never_released}

abbrev first : CommandEnvelope
first = record {
  command_id = "c1";
  session_id = "s1";
  server_command_seq = 1;
  sent_at = "10";
  schema_version = 1;
  command = session_resume;
}

-- The fourth write fails after the rename, and the file cannot be read back.
abbrev write : ℕ → Write
write n = if n == 3 then failed (io "disk") true false else done

abbrev world : World
world = record {
  daemon_id = "d";
  limit = 4;
  event_digest = λ e. "e";
  command_digest = λ c. "h";
  clock = λ n. "12";
  writes = write;
  leftovers = λ n. default_file;
}

abbrev actions : List Action
actions =
    server_frame (ServerFrame.command first)
    ∷ server_frame (ServerFrame.command first)
    ∷ finished "s1" "c1" dispatch_succeeded []
    ∷ restarted
    ∷ recovered (λ r. RecoveryOutcome.unknown)
    ∷ server_frame (ServerFrame.command first)
    ∷ []

-- The command is handed out by the first frame, and then never again.
released_once : times_released "c1" (run world actions new_store).0 ≡ 1
unfolding times_released run server_validate north.Protocol.Command.envelope_validate find
    north.Common.Map.lookup north.Daemon.Journal.Accept.record_to_envelope modify_first
    north.Daemon.Journal.Finish.is_processed north.Common.Map.insert north.Common.Map.remove
released_once = refl

run-times_released_example : times_released "c1" (run world actions new_store).0 ≤ 1
run-times_released_example = run-times_released world actions "c1"

valid : server_validate (ServerFrame.command first) ≡ ok tt
unfolding server_validate north.Protocol.Command.envelope_validate
valid = refl

next : IsNext world first default_file
unfolding north.Daemon.Journal.Commands.validate_command_identity find north.Common.Map.lookup
next = record { fits = refl; no_record = refl; no_tombstone = refl; in_order = refl }

accept_command_next_example : accept_command_with_control world first false new_store ≡ (
  ok (released (new_record world first 0) false),
  written_to (begun_file world first 0 default_file) 2,
)
accept_command_next_example = accept_command_next world first false new_store valid next refl refl

abbrev stored : Store
stored = written_to (begun_file world first 0 default_file) 2

accept_command_with_control-IsRecorded_example :
    IsRecorded (released (new_record world first 0) false) stored.disk
accept_command_with_control-IsRecorded_example =
    accept_command_with_control-IsRecorded world first false new_store stored
      (released (new_record world first 0) false) accept_command_next_example

none_left : fresh "c1" stored.state ≡ 0
unfolding fresh waiting modify_first
none_left = refl

run_never_released_example : times_released "c1" (run world actions stored).0 ≡ 0
run_never_released_example = run_never_released world actions "c1" stored none_left none_left

run-times_given_example :
    (times_given "s1" 3 (run world actions new_store).1.state ≤ 1)
    × (times_given "s1" 3 (run world actions new_store).1.disk ≤ 1)
run-times_given_example = run-times_given world actions "s1" 3 (omega arith)

run-pending_example :
    (let state = (run world actions new_store).1.state in
      pending "s1" (expected_command_sequence state "s1") state.commands ≤ 4)
    × (let disk = (run world actions new_store).1.disk in
        pending "s1" (expected_command_sequence disk "s1") disk.commands ≤ 4)
run-pending_example = run-pending world actions "s1"

named : is_blank "s1" ≡ false
unfolding is_blank
named = refl

run-session_validate_example :
    (session_validate (reconcile_state "s1" (session_of "s1" (run world actions new_store).1.state))
      ≡ ok tt)
    × (session_validate
          (reconcile_state "s1" (session_of "s1" (run world actions new_store).1.disk))
        ≡ ok tt)
run-session_validate_example = run-session_validate world actions "s1" named
