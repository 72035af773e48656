-- ===== src/Daemon/Journal/Commands/Prepares.antt =====
-- What the intake of a command changes in crates/north-daemon/src/journal.rs: one record, at most.
use north.Common.{
  ℕ, ◌≡◌, ◌⊎◌, inl, inr, String, str_eq, List, [], ◌∷◌, ◌++◌, Option, none, some, Bool, true, false,
  Result, ok, >>-ok, arith, find, ltb, modify_first,
}
use north.Protocol.Command.{CommandEnvelope}
use north.Daemon.Journal.{JournalError, JournalFile, CommandRecord, CommandTombstone}
use north.Daemon.Journal.Commands.{
  Prepared, push_command, check_sequence, prepare_new, prepare_tombstone, prepare_record,
  prepare_command, command_record_of, validate_command_identity, expected_command_sequence,
  is_command, start_record, mark_dispatch_started, begin,
}

-- The commands are the same, or one more.
abbrev pub Prepares : JournalFile → JournalFile → Type 0
Prepares before after = (before ≡ after) ⊎ ((r : CommandRecord) × (push_command r before ≡ after))

-- Only the commands differ.
abbrev pub SameButCommands : JournalFile → JournalFile → Type 0
SameButCommands before after = (cs : List CommandRecord) × (record before { commands = cs } ≡ after)

module _ (daemon_id : String) (limit : ℕ) (envelope : CommandEnvelope) (digest : String)
    (message_id : Option String) (now : String) where
  prepare_new-Prepares :
      (before after : JournalFile) (p : Prepared)
      → prepare_new daemon_id limit envelope digest message_id now before ≡ ok (after, p)
      → Prepares before after
  unfolding prepare_new
  prepare_new-Prepares before after p h =
      let r = command_record_of daemon_id envelope digest message_id now in
      let expected = expected_command_sequence before envelope.session_id in
      let pushed : Result (JournalFile × Prepared) JournalError =
        ok (push_command r before, (r, false, ltb expected envelope.server_command_seq)) in
      let (checked, last) = >>-ok (check_sequence limit envelope before) pushed h in
      inr (r, ground (arith, last))

  prepare_tombstone-Prepares :
      (before after : JournalFile) (p : Prepared) (t : Option CommandTombstone)
      → prepare_tombstone daemon_id limit envelope digest message_id now before t ≡ ok (after, p)
      → Prepares before after
  unfolding prepare_tombstone
  prepare_tombstone-Prepares before after p none h = prepare_new-Prepares before after p h
  prepare_tombstone-Prepares before after p (some t) h = inl (ground arith)

  pub prepare_command-Prepares :
      (before after : JournalFile) (p : Prepared)
      → prepare_command daemon_id limit envelope digest message_id now before ≡ ok (after, p)
      → Prepares before after
  unfolding prepare_command prepare_record
  prepare_command-Prepares before after p h =
      by_record (find (is_command envelope.command_id) before.commands)
        (>>-ok (validate_command_identity daemon_id envelope digest message_id before)
          (prepare_record daemon_id limit envelope digest message_id now before
            (find (is_command envelope.command_id) before.commands))
          h).1
    where
      by_record :
          (o : Option CommandRecord)
          → prepare_record daemon_id limit envelope digest message_id now before o ≡ ok (after, p)
          → Prepares before after
      by_record (some r) h = inl (ground arith)
      by_record none h =
          prepare_tombstone-Prepares before after p
            (find (λ (t : CommandTombstone). str_eq t.command_id envelope.command_id)
              before.command_tombstones)
            h

pub Prepares-SameButCommands :
    (before after : JournalFile) → Prepares before after → SameButCommands before after
Prepares-SameButCommands before after (inl same) = (before.commands, same)
Prepares-SameButCommands before after (inr (r, pushed)) = (before.commands ++ (r ∷ []), pushed)

start_record-SameButCommands :
    (command_id now : String) (before after : JournalFile) (marked : Bool)
    (o : Option CommandRecord)
    → start_record command_id now before o ≡ ok (after, marked)
    → SameButCommands before after
unfolding start_record
start_record-SameButCommands command_id now before after marked none h = absurd (cc h)
start_record-SameButCommands command_id now before after true (some r) h =
    (modify_first (is_command command_id) (begin now) before.commands, ground arith)
start_record-SameButCommands command_id now before after false (some r) h =
    (before.commands, ground arith)

pub mark_dispatch_started-SameButCommands :
    (command_id now : String) (before after : JournalFile) (marked : Bool)
    → mark_dispatch_started command_id now before ≡ ok (after, marked)
    → SameButCommands before after
unfolding mark_dispatch_started
mark_dispatch_started-SameButCommands command_id now before after marked h =
    start_record-SameButCommands command_id now before after marked
      (find (is_command command_id) before.commands) h
