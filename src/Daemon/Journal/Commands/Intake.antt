-- ===== src/Daemon/Journal/Commands/Intake.antt =====
-- The intake of commands: the bound on the gap buffer, and one dispatch for each command.
use north.Common.{
  ℕ, ◌+◌, ◌≤◌, ◌≡◌, refl, ap, sym, ◌∙◌, subst, inl, inr, String, str_eq, eq_iff, List, [], ◌∷◌,
  ◌++◌, Option, none, some, Bool, true, false, Result, ok, >>-ok, arith, find, modify_first,
  Bool-cases, ltb,
}
use north.Protocol.Command.{CommandEnvelope}
use north.Daemon.Journal.{JournalError, JournalFile, CommandRecord, CommandTombstone}
use north.Daemon.Journal.Commands.{
  pending, expected_command_sequence, Prepared, push_command, check_sequence, prepare_new,
  prepare_tombstone, prepare_record, prepare_command, command_record_of, validate_command_identity,
  is_command, begin, start_record, mark_dispatch_started,
}

-- At most `limit` commands of a session wait behind a gap.
abbrev pub IsBuffered : ℕ → JournalFile → Type 0
IsBuffered limit state =
    (session_id : String)
    → pending session_id (expected_command_sequence state session_id) state.commands ≤ limit

pending-append :
    (session_id : String) (expected : ℕ) (xs ys : List CommandRecord)
    → pending session_id expected (xs ++ ys)
      ≡ pending session_id expected xs + pending session_id expected ys
unfolding pending
pending-append session_id expected [] ys = omega arith
pending-append session_id expected (x ∷ xs) ys =
    omega (arith, pending-append session_id expected xs ys)

module _ (daemon_id : String) (limit : ℕ) (envelope : CommandEnvelope) (digest : String)
    (message_id : Option String) (now : String) where
  push_own :
      (state : JournalFile)
      → check_sequence limit envelope state ≡ ok tt
      → IsBuffered limit state
      → pending envelope.session_id
          (expected_command_sequence state envelope.session_id)
          (state.commands ++ (command_record_of daemon_id envelope digest message_id now ∷ []))
        ≤ limit
  unfolding check_sequence pending
  push_own state checked buffered =
      let r = command_record_of daemon_id envelope digest message_id now in
      let expected = expected_command_sequence state envelope.session_id in
      let split = pending-append envelope.session_id expected state.commands (r ∷ []) in
      let before = buffered envelope.session_id in ground (arith, split, before)

  push_command-IsBuffered :
      (state : JournalFile)
      → check_sequence limit envelope state ≡ ok tt
      → IsBuffered limit state
      → IsBuffered limit
          (push_command (command_record_of daemon_id envelope digest message_id now) state)
  unfolding pending
  push_command-IsBuffered state checked buffered session_id =
      let r = command_record_of daemon_id envelope digest message_id now in
      let split =
        pending-append session_id (expected_command_sequence state session_id) state.commands
          (r ∷ []) in
      let before = buffered session_id in
      elim (Bool-cases (str_eq envelope.session_id session_id)) [
        | inl own ↦
            subst
              (λ s.
                pending s (expected_command_sequence state s) (state.commands ++ (r ∷ [])) ≤ limit)
              ((eq_iff envelope.session_id session_id).0 own) (push_own state checked buffered)
        | inr other ↦ ground (arith, split, before, other)
      ]

  prepare_new-IsBuffered :
      (state after : JournalFile) (p : Prepared)
      → prepare_new daemon_id limit envelope digest message_id now state ≡ ok (after, p)
      → IsBuffered limit state
      → IsBuffered limit after
  unfolding prepare_new
  prepare_new-IsBuffered state after p h buffered =
      let r = command_record_of daemon_id envelope digest message_id now in
      let expected = expected_command_sequence state envelope.session_id in
      let pushed : Result (JournalFile × Prepared) JournalError =
        ok (push_command r state, (r, false, ltb expected envelope.server_command_seq)) in
      let (checked, last) = >>-ok (check_sequence limit envelope state) pushed h in
      let same : push_command r state ≡ after = ground (arith, last) in
      subst (IsBuffered limit) same (push_command-IsBuffered state checked buffered)

  prepare_tombstone-IsBuffered :
      (state after : JournalFile) (p : Prepared) (o : Option CommandTombstone)
      → prepare_tombstone daemon_id limit envelope digest message_id now state o ≡ ok (after, p)
      → IsBuffered limit state
      → IsBuffered limit after
  unfolding prepare_tombstone
  prepare_tombstone-IsBuffered state after p (some t) h buffered =
      let same : state ≡ after = ground arith in subst (IsBuffered limit) same buffered
  prepare_tombstone-IsBuffered state after p none h buffered =
      prepare_new-IsBuffered state after p h buffered

  prepare_record-IsBuffered :
      (state after : JournalFile) (p : Prepared) (o : Option CommandRecord)
      → prepare_record daemon_id limit envelope digest message_id now state o ≡ ok (after, p)
      → IsBuffered limit state
      → IsBuffered limit after
  unfolding prepare_record
  prepare_record-IsBuffered state after p (some r) h buffered =
      let same : state ≡ after = ground arith in subst (IsBuffered limit) same buffered
  prepare_record-IsBuffered state after p none h buffered =
      prepare_tombstone-IsBuffered state after p
        (find (λ (t : CommandTombstone). str_eq t.command_id envelope.command_id)
          state.command_tombstones)
        h buffered

  -- Taking a command in keeps the bound on the gap buffer: if in every session at most `limit`
  -- commands wait behind a gap in the sequence, the same holds afterwards.
  pub prepare_command-IsBuffered :
      (state after : JournalFile) (p : Prepared)
      → prepare_command daemon_id limit envelope digest message_id now state ≡ ok (after, p)
      → IsBuffered limit state
      → IsBuffered limit after
  unfolding prepare_command
  prepare_command-IsBuffered state after p h buffered =
      let o =
        find (λ (r : CommandRecord). str_eq r.command_id envelope.command_id) state.commands in
      prepare_record-IsBuffered state after p o
        (>>-ok (validate_command_identity daemon_id envelope digest message_id state)
          (prepare_record daemon_id limit envelope digest message_id now state o) h).1
        buffered

pub find-holds : {A : Type 0} (p : A → Bool) (xs : List A) (r : A) → find p xs ≡ some r → p r ≡ true
unfolding find
find-holds p [] r h = cc
find-holds p (x ∷ xs) r h = ground (arith, find-holds p xs r)

pub find-modify_first :
    (p : CommandRecord → Bool) (f : CommandRecord → CommandRecord) (xs : List CommandRecord)
    (r : CommandRecord)
    → find p xs ≡ some r
    → p (f r) ≡ true
    → find p (modify_first p f xs) ≡ some (f r)
unfolding find modify_first
find-modify_first p f [] r h q = cc
find-modify_first p f (x ∷ xs) r h q = ground (arith, find-modify_first p f xs r)

start_record_again :
    (command_id now later : String) (before after : JournalFile) (o : Option CommandRecord)
    → find (is_command command_id) before.commands ≡ o
    → start_record command_id now before o ≡ ok (after, true)
    → mark_dispatch_started command_id later after ≡ ok (after, false)
unfolding start_record mark_dispatch_started
start_record_again command_id now later before after none found h = absurd (cc h)
start_record_again command_id now later before after (some r) found h =
    let begun = modify_first (is_command command_id) (begin now) before.commands in
    let file : begun ≡ after.commands = ground arith in
    let held = find-holds (is_command command_id) before.commands r found in
    let again =
      find-modify_first (is_command command_id) (begin now) before.commands r found held in
    ap (start_record command_id later after) (ap (find (is_command command_id)) (sym file) ∙ again)

-- A command is dispatched at most once: after the dispatch of a command has started, starting it
-- again is refused and changes nothing.
mark_dispatch_started_again :
    (command_id now later : String) (before after : JournalFile)
    → mark_dispatch_started command_id now before ≡ ok (after, true)
    → mark_dispatch_started command_id later after ≡ ok (after, false)
unfolding mark_dispatch_started
mark_dispatch_started_again command_id now later before after h =
    start_record_again command_id now later before after
      (find (is_command command_id) before.commands) refl h
