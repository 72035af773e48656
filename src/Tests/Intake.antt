-- ===== src/Tests/Intake.antt =====
-- The intake of commands at concrete calls.
use north.Common.{◌≡◌, refl, [], ◌∷◌, none, true, false, ok, find, modify_first}
use north.Common.Map.{lookup}
use north.Protocol.Command.{session_resume, CommandEnvelope}
use north.Daemon.Journal.{JournalFile, CommandRecord, default_file}
use north.Daemon.Journal.Commands.{
  prepare_command, prepare_record, prepare_tombstone, prepare_new, check_sequence, pending,
  validate_command_identity, push_command, command_record_of, mark_dispatch_started, start_record,
  begin,
}
use north.Daemon.Journal.Commands.Intake.{}

abbrev resume : CommandEnvelope
resume = record {
  command_id = "c2";
  session_id = "s1";
  server_command_seq = 2;
  sent_at = "10";
  schema_version = 1;
  command = session_resume;
}

abbrev waiting : CommandRecord
waiting = command_record_of "d" resume "h2" none "11"

abbrev buffered : JournalFile
buffered = push_command waiting default_file

-- The second command arrives first and waits.
takes_in :
    prepare_command "d" 1 resume "h2" none "11" default_file ≡ ok (buffered, (waiting, false, true))
unfolding prepare_command prepare_record prepare_tombstone prepare_new check_sequence pending
    validate_command_identity find lookup
takes_in = refl

abbrev begun : JournalFile
begun = record default_file { commands = begin "12" waiting ∷ [] }

begins : mark_dispatch_started "c2" "12" buffered ≡ ok (begun, true)
unfolding mark_dispatch_started start_record find modify_first
begins = refl
