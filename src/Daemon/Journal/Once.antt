-- ===== src/Daemon/Journal/Once.antt =====
-- The updates of crates/north-daemon/src/journal.rs and how often they may still start a command.
use north.Common.{
  ℕ, ◌+◌, ◌≤◌, ◌≡◌, refl, sym, subst, inl, inr, String, str_eq, eq_iff, List, Option, none, some,
  Bool, true, false, Result, ok, >>-ok, arith, any, if◌then◌else◌, find, modify_first, Bool-cases,
  ltb,
}
use north.Protocol.Command.{CommandEnvelope}
use north.Protocol.Event.{EventEnvelope, Event}
use north.Daemon.Scheduler.{DispatchOutcome}
use north.Daemon.Journal.{JournalError, JournalFile, CommandRecord, CommandTombstone}
use north.Daemon.Journal.Acks.{session_of}
use north.Daemon.Journal.Compact.{compact_session}
use north.Daemon.Journal.Commands.{
  is_received, Prepared, push_command, check_sequence, prepare_new, prepare_tombstone,
  prepare_record, prepare_command, command_record_of, validate_command_identity,
  expected_command_sequence, is_command, begin, start_record, mark_dispatch_started,
}
use north.Daemon.Journal.Commands.Fresh.{
  is_known, is_tombstone_of, waiting, fresh, find-none, fresh-push_command, waiting-modify_first,
  any-modify_first, waiting_started, waiting-drain_commands, known-drain_commands,
}
use north.Daemon.Journal.Commands.Same.{SameCommands}
use north.Daemon.Journal.Finish.{finish_record, finished, finish_command}
use north.Daemon.Journal.Finish.Laws.{finish_command-SameCommands}

module _ (id : String) where
  pub SameCommands-fresh :
      (before after : JournalFile) → SameCommands before after → fresh id after ≡ fresh id before
  unfolding fresh
  SameCommands-fresh before after (commands, tombstones) = rw commands (rw tombstones refl)

  unchanged : (before after : JournalFile) → before ≡ after → fresh id after ≤ fresh id before
  unchanged before after same =
      subst (λ (f : JournalFile). fresh id f ≤ fresh id before) same (omega arith)

  module _ (daemon_id : String) (limit : ℕ) (envelope : CommandEnvelope) (digest : String)
      (message_id : Option String) (now : String) where
    prepare_new-fresh :
        (before after : JournalFile) (p : Prepared)
        → is_known envelope.command_id before.commands before.command_tombstones ≡ false
        → prepare_new daemon_id limit envelope digest message_id now before ≡ ok (after, p)
        → fresh id after ≤ fresh id before
    unfolding prepare_new
    prepare_new-fresh before after p new h =
        let r = command_record_of daemon_id envelope digest message_id now in
        let expected = expected_command_sequence before envelope.session_id in
        let pushed : Result (JournalFile × Prepared) JournalError =
          ok (push_command r before, (r, false, ltb expected envelope.server_command_seq)) in
        let (checked, last) = >>-ok (check_sequence limit envelope before) pushed h in
        let same : push_command r before ≡ after = ground (arith, last) in
        subst (λ (f : JournalFile). fresh id f ≤ fresh id before) same
          (fresh-push_command id r before (λ own.
            subst (λ i. is_known i before.commands before.command_tombstones ≡ false)
              ((eq_iff envelope.command_id id).0 own) new))

    prepare_tombstone-fresh :
        (before after : JournalFile) (p : Prepared) (o : Option CommandTombstone)
        → any (is_command envelope.command_id) before.commands ≡ false
        → find (is_tombstone_of envelope.command_id) before.command_tombstones ≡ o
        → prepare_tombstone daemon_id limit envelope digest message_id now before o ≡ ok (after, p)
        → fresh id after ≤ fresh id before
    unfolding prepare_tombstone
    prepare_tombstone-fresh before after p (some t) new e h = unchanged before after (ground arith)
    prepare_tombstone-fresh before after p none new e h =
        let gone = find-none (is_tombstone_of envelope.command_id) before.command_tombstones e in
        prepare_new-fresh before after p (rw new gone) h

    prepare_record-fresh :
        (before after : JournalFile) (p : Prepared) (o : Option CommandRecord)
        → find (is_command envelope.command_id) before.commands ≡ o
        → prepare_record daemon_id limit envelope digest message_id now before o ≡ ok (after, p)
        → fresh id after ≤ fresh id before
    unfolding prepare_record
    prepare_record-fresh before after p (some r) e h = unchanged before after (ground arith)
    prepare_record-fresh before after p none e h =
        prepare_tombstone-fresh before after p
          (find (is_tombstone_of envelope.command_id) before.command_tombstones)
          (find-none (is_command envelope.command_id) before.commands e) refl h

    pub prepare_command-fresh :
        (before after : JournalFile) (p : Prepared)
        → prepare_command daemon_id limit envelope digest message_id now before ≡ ok (after, p)
        → fresh id after ≤ fresh id before
    unfolding prepare_command
    prepare_command-fresh before after p h =
        let o = find (is_command envelope.command_id) before.commands in
        prepare_record-fresh before after p o refl
          (>>-ok (validate_command_identity daemon_id envelope digest message_id before)
            (prepare_record daemon_id limit envelope digest message_id now before o) h).1

  -- What the start of the command is worth.
  abbrev pub started : String → Bool → ℕ
  started command_id true = if str_eq command_id id then 1 else 0
  started command_id false = 0

  begun_fresh :
      (p : CommandRecord → Bool) (f : CommandRecord → CommandRecord) (before : JournalFile)
      → ((r : CommandRecord) → is_command id (f r) ≡ is_command id r)
      → ((r : CommandRecord) → is_received (f r).state ≡ false)
      → fresh id (record before { commands = modify_first p f before.commands }) ≤ fresh id before
  unfolding fresh
  begun_fresh p f before same done =
      let fewer = waiting-modify_first id p f before.commands same done in
      let known = any-modify_first id p f before.commands same in ground (arith, fewer, known)

  begun_pays :
      (command_id now : String) (before : JournalFile) (r : CommandRecord)
      → find (is_command command_id) before.commands ≡ some r
      → is_received r.state ≡ true
      → started command_id true
          + fresh id (record before {
            commands = modify_first (is_command command_id) (begin now) before.commands;
          })
        ≤ fresh id before
  unfolding fresh
  begun_pays command_id now before r e waits = elim (Bool-cases (str_eq command_id id)) [
    | inl own ↦ rw own (own_pays ((eq_iff command_id id).0 own))
    | inr other ↦
        let fewer =
          begun_fresh (is_command command_id) (begin now) before (λ q. refl) (λ q. refl) in
        rw other (omega (arith, fewer))
  ]
    where
      own_pays :
          command_id ≡ id
          → 1
              + fresh id (record before {
                commands = modify_first (is_command command_id) (begin now) before.commands;
              })
            ≤ fresh id before
      own_pays same =
          let fewer =
            waiting_started id (begin now) before.commands r (λ q. refl) (λ q. refl)
              (subst (λ c. find (is_command c) before.commands ≡ some r) same e) waits in
          let fewer_here =
            subst
              (λ c.
                1 + waiting id (modify_first (is_command c) (begin now) before.commands)
                ≤ waiting id before.commands)
              (sym same) fewer in
          let known =
            any-modify_first id (is_command command_id) (begin now) before.commands (λ q. refl) in
          ground (arith, fewer_here, known)

  start_record-fresh :
      (command_id now : String) (before after : JournalFile) (marked : Bool)
      (o : Option CommandRecord)
      → find (is_command command_id) before.commands ≡ o
      → start_record command_id now before o ≡ ok (after, marked)
      → started command_id marked + fresh id after ≤ fresh id before
  unfolding start_record
  start_record-fresh command_id now before after marked none e h = absurd (cc h)
  start_record-fresh command_id now before after true (some r) e h =
      let begun = record before {
        commands = modify_first (is_command command_id) (begin now) before.commands;
      } in
      let same : begun ≡ after = ground arith in
      let waits : is_received r.state ≡ true = ground arith in
      subst (λ (f : JournalFile). started command_id true + fresh id f ≤ fresh id before) same
        (begun_pays command_id now before r e waits)
  start_record-fresh command_id now before after false (some r) e h =
      let kept = unchanged before after (ground arith) in omega (arith, kept)

  pub mark_dispatch_started-fresh :
      (command_id now : String) (before after : JournalFile) (marked : Bool)
      → mark_dispatch_started command_id now before ≡ ok (after, marked)
      → started command_id marked + fresh id after ≤ fresh id before
  unfolding mark_dispatch_started
  mark_dispatch_started-fresh command_id now before after marked h =
      start_record-fresh command_id now before after marked
        (find (is_command command_id) before.commands) refl h

  module _ (payload_digest : EventEnvelope → String) (daemon_id : String) where
    pub finish_command-fresh :
        (now command_id : String) (outcome : DispatchOutcome) (events : List Event)
        (before after : JournalFile) (sent : List EventEnvelope)
        → finish_command payload_digest daemon_id now command_id outcome events before
          ≡ some (ok (after, sent))
        → fresh id after ≤ fresh id before
    finish_command-fresh now command_id outcome events before after sent h =
        let same =
          finish_command-SameCommands payload_digest daemon_id now command_id outcome events before
            after sent h in
        let equal = SameCommands-fresh (finished now command_id outcome before) after same in
        let fewer =
          begun_fresh (is_command command_id) (finish_record outcome now) before (λ r. refl)
            (λ r. refl) in
        omega (arith, equal, fewer)

    pub compact_session-fresh :
        (session_id : String) (before : JournalFile)
        → fresh id (compact_session payload_digest daemon_id session_id before) ≡ fresh id before
    unfolding compact_session fresh
    compact_session-fresh session_id before =
        let s = session_of session_id before in
        let fewer =
          waiting-drain_commands id session_id s.processed_through_seq before.command_tombstones
            before.commands in
        let known =
          known-drain_commands id session_id s.processed_through_seq before.command_tombstones
            before.commands in
        rw fewer (rw known refl)
