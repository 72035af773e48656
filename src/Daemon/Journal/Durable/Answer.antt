-- ===== src/Daemon/Journal/Durable/Answer.antt =====
-- The acceptance of the next command of a session in crates/north-daemon/src/journal.rs.
use north.Common.{
  ℕ, suc, ◌≡◌, refl, sym, subst, String, eq_iff, List, [], ◌∷◌, ◌++◌, Option, none, some, Bool,
  true, false, Result, ok, arith, find, modify_first,
}
use north.Protocol.Command.{CommandEnvelope}
use north.Protocol.Frame.{ServerFrame, server_validate}
use north.Daemon.Journal.{JournalError, JournalFile, CommandRecord}
use north.Daemon.Journal.Commands.{
  prepare_command, prepare_record, prepare_tombstone, prepare_new, check_sequence,
  validate_command_identity, expected_command_sequence, push_command, command_record_of, is_command,
  begin, start_record, mark_dispatch_started, message_id_of,
}
use north.Daemon.Journal.Commands.Fresh.{is_tombstone_of}
use north.Daemon.Journal.Store.{done, World, Store, concludes, transact, ends}
use north.Daemon.Journal.Accept.{
  released, prepare, mark_started, answer_started, start, accept_prepared,
  accept_command_with_control,
}

abbrev pub written_to : JournalFile → ℕ → Store
written_to f n = record { state = f; disk = f; tick = n }

transact-done :
    {T : Type 0} (w : World)
    (operation : String → JournalFile → Result (JournalFile × T) JournalError) (s : Store)
    (f : JournalFile) (value : T)
    → w.writes s.tick ≡ done
    → operation (w.clock s.tick) s.state ≡ ok (f, value)
    → transact w (ends operation) s ≡ (ok value, written_to f (suc s.tick))
unfolding transact concludes
transact-done w operation s f value written ran =
    let after = written_to f (suc s.tick) in
    let left = w.leftovers s.tick in
    subst (λ x. concludes left x s (some (operation (w.clock s.tick) s.state)) ≡ (ok value, after))
      (sym written) (subst (λ r. concludes left done s (some r) ≡ (ok value, after)) (sym ran) refl)

find_last :
    {A : Type 0} (p : A → Bool) (xs : List A) (x : A)
    → find p xs ≡ none
    → p x ≡ true
    → find p (xs ++ (x ∷ [])) ≡ some x
unfolding find
find_last p [] x h own = ground arith
find_last p (y ∷ ys) x h own = ground (arith, find_last p ys x)

module _ (w : World) (envelope : CommandEnvelope) where
  abbrev message_id : Option String
  message_id = message_id_of envelope.command

  abbrev digest : String
  digest = w.command_digest envelope

  abbrev pub new_record : ℕ → CommandRecord
  new_record n = command_record_of w.daemon_id envelope digest message_id (w.clock n)

  -- The command is new to the journal, and the next one of its session.
  pub record IsNext (state : JournalFile) : Type 0 where
    pub fits : validate_command_identity w.daemon_id envelope digest message_id state ≡ ok tt
    pub no_record : find (is_command envelope.command_id) state.commands ≡ none
    pub no_tombstone : find (is_tombstone_of envelope.command_id) state.command_tombstones ≡ none
    pub in_order : envelope.server_command_seq ≡ expected_command_sequence state envelope.session_id

  prepare_command_next :
      (n : ℕ) (state : JournalFile)
      → IsNext state
      → prepare_command w.daemon_id w.limit envelope digest message_id (w.clock n) state
        ≡ ok (push_command (new_record n) state, (new_record n, false, false))
  unfolding prepare_command prepare_record prepare_tombstone prepare_new check_sequence
  prepare_command_next n state next =
      let fits = next.fits in
      let no_record = next.no_record in
      let no_tombstone = next.no_tombstone in
      let in_order = next.in_order in
      rw fits (rw no_record (rw no_tombstone (rw in_order (ground arith))))

  prepare_next :
      (s : Store)
      → IsNext s.state
      → w.writes s.tick ≡ done
      → prepare w envelope s ≡ (
        ok (new_record s.tick, false, false),
        written_to (push_command (new_record s.tick) s.state) (suc s.tick),
      )
  unfolding prepare
  prepare_next s next written =
      transact-done w (prepare_command w.daemon_id w.limit envelope digest message_id) s
        (push_command (new_record s.tick) s.state) (new_record s.tick, false, false) written
        (prepare_command_next s.tick s.state next)

  abbrev pub begun_file : ℕ → JournalFile → JournalFile
  begun_file n state =
      let after = push_command (new_record n) state in
      record after {
        commands =
            modify_first (is_command envelope.command_id) (begin (w.clock (suc n))) after.commands;
      }

  mark_started_next :
      (n : ℕ) (state : JournalFile)
      → IsNext state
      → mark_dispatch_started envelope.command_id
          (w.clock (suc n))
          (push_command (new_record n) state)
        ≡ ok (begun_file n state, true)
  unfolding mark_dispatch_started start_record
  mark_started_next n state next =
      let own = (eq_iff envelope.command_id envelope.command_id).1 refl in
      let there =
        find_last (is_command envelope.command_id) state.commands (new_record n) next.no_record
          own in
      rw there refl

  start_next :
      (n : ℕ) (state : JournalFile)
      → IsNext state
      → w.writes (suc n) ≡ done
      → start w (new_record n) false (written_to (push_command (new_record n) state) (suc n))
        ≡ (ok (released (new_record n) false), written_to (begun_file n state) (suc (suc n)))
  unfolding start mark_started answer_started
  start_next n state next written =
      let marked =
        transact-done w (mark_dispatch_started envelope.command_id)
          (written_to (push_command (new_record n) state) (suc n)) (begun_file n state) true written
          (mark_started_next n state next) in
      rw marked refl

  -- The next command of a session is handed out: if the frame is valid, the identity of the command
  -- fits the journal and is new to it, its number is the next of its session, and the two writes of
  -- the journal are done, then the command is accepted with its envelope for the scheduler.
  pub accept_command_next :
      (allow_control_interrupt : Bool) (s : Store)
      → server_validate (ServerFrame.command envelope) ≡ ok tt
      → IsNext s.state
      → w.writes s.tick ≡ done
      → w.writes (suc s.tick) ≡ done
      → accept_command_with_control w envelope allow_control_interrupt s ≡ (
        ok (released (new_record s.tick) false),
        written_to (begun_file s.tick s.state) (suc (suc s.tick)),
      )
  unfolding accept_command_with_control accept_prepared
  accept_command_next allow s valid next first second =
      let prepared = prepare_next s next first in
      let started = start_next s.tick s.state next second in rw valid (rw prepared started)
