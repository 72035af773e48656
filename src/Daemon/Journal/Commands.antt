-- ===== src/Daemon/Journal/Commands.antt =====
-- The intake of commands in crates/north-daemon/src/journal.rs: `prepare_command`, the start of a
-- dispatch, and the cursor of what is processed.
pub mod Intake
pub mod Fresh
pub mod Same
pub mod Prepares
use north.Common.{
  ℕ, ◌+◌, String, str_eq, strs_eq, List, [], ◌∷◌, ◌++◌, Option, none, some, Bool, true, false, not,
  ◌&&◌, ◌||◌, Result, ok, err, ◌>>=◌, ◌>>◌, refuse_if, any, ◌==◌, ltb, leb, if◌then◌else◌, find,
  modify_first,
}
use north.Protocol.Command.{
  RequirementContext, ConversationRoleWire, requester, agent, system, ConversationMessageContext,
  RepositoryContext, Command, session_start, session_cancel, session_resume, message_send,
  CommandEnvelope,
}
use north.Daemon.Journal.{
  JournalError, identity_conflict, gap_overflow, JournalFile, CommandJournalState, received,
  dispatch_started, terminal, CommandRecord, CommandTombstone,
}
use north.Daemon.Journal.Identity.{saturating_inc}
use north.Daemon.Journal.Acks.{session_of}

-- The derived `PartialEq` of a command.
abbrev requirement_eq : RequirementContext → RequirementContext → Bool
requirement_eq a b =
    str_eq a.id b.id
    && a.revision == b.revision
    && str_eq a.title b.title
    && str_eq a.description b.description
    && str_eq a.summary b.summary
    && strs_eq a.acceptance_criteria b.acceptance_criteria
    && strs_eq a.assumptions b.assumptions
    && strs_eq a.open_questions b.open_questions

abbrev role_eq : ConversationRoleWire → ConversationRoleWire → Bool
role_eq requester requester = true
role_eq agent agent = true
role_eq system system = true
role_eq _ _ = false

abbrev messages_eq : List ConversationMessageContext → List ConversationMessageContext → Bool
messages_eq [] [] = true
messages_eq (a ∷ xs) (b ∷ ys) =
    str_eq a.message_id b.message_id
    && role_eq a.role b.role
    && str_eq a.content b.content
    && messages_eq xs ys
messages_eq _ _ = false

abbrev repositories_eq : List RepositoryContext → List RepositoryContext → Bool
repositories_eq [] [] = true
repositories_eq (a ∷ xs) (b ∷ ys) =
    str_eq a.repository_id b.repository_id
    && str_eq a.name b.name
    && str_eq a.url b.url
    && str_eq a.description b.description
    && repositories_eq xs ys
repositories_eq _ _ = false

unfoldable pub command_eq : Command → Command → Bool
command_eq (session_start a) (session_start b) =
    requirement_eq a.requirement b.requirement
    && messages_eq a.conversation.excerpt b.conversation.excerpt
    && repositories_eq a.repositories b.repositories
command_eq (session_cancel a) (session_cancel b) = str_eq a.reason b.reason
command_eq session_resume session_resume = true
command_eq (message_send a) (message_send b) =
    str_eq a.message_id b.message_id && str_eq a.content b.content
command_eq _ _ = false

abbrev pub message_id_of : Command → Option String
message_id_of (message_send message) = some message.message_id
message_id_of _ = none

-- `message_id.is_some() && known == message_id`
abbrev same_message_id : Option String → Option String → Bool
same_message_id none known = false
same_message_id (some m) none = false
same_message_id (some m) (some known) = str_eq known m

module _ (daemon_id : String) (envelope : CommandEnvelope) (digest : String)
    (message_id : Option String) where
  command_conflicts : CommandRecord → Bool
  command_conflicts r =
      let same_id = str_eq r.command_id envelope.command_id in
      let same_session = str_eq r.session_id envelope.session_id in
      let same_number = r.server_command_seq == envelope.server_command_seq in
      let same_message = same_message_id message_id r.message_id && same_session in
      str_eq r.daemon_id daemon_id
      && (same_id || same_session && same_number || same_message)
      && (not same_session
          || not same_number
          || not (str_eq r.payload_digest digest)
          || same_id && not (command_eq r.command envelope.command))

  command_tombstone_conflicts : CommandTombstone → Bool
  command_tombstone_conflicts t =
      let same_id = str_eq t.command_id envelope.command_id in
      let same_session = str_eq t.session_id envelope.session_id in
      let same_number = t.server_command_seq == envelope.server_command_seq in
      let same_message = same_message_id message_id t.message_id && same_session in
      str_eq t.daemon_id daemon_id
      && (same_id || same_session && same_number || same_message)
      && (not same_session
          || not same_number
          || not (str_eq t.payload_digest digest)
          || same_message && not same_id)

  unfoldable pub validate_command_identity : JournalFile → Result (Unit {0}) JournalError
  unfolding command_conflicts command_tombstone_conflicts command_eq
  validate_command_identity state = do
    refuse_if (any command_conflicts state.commands) (
        identity_conflict
          "command ID, sequence, or message identity was reused with different data")
    refuse_if (any command_tombstone_conflicts state.command_tombstones)
        (identity_conflict "command tombstone identity conflict")

abbrev pub expected_command_sequence : JournalFile → String → ℕ
expected_command_sequence state session_id =
    saturating_inc (session_of session_id state).processed_through_seq

abbrev pub is_finished : CommandJournalState → Bool
is_finished terminal = true
is_finished _ = false

abbrev pub is_received : CommandJournalState → Bool
is_received received = true
is_received _ = false

-- The commands of a session that wait behind a gap.
abbrev pub waits : String → ℕ → CommandRecord → Bool
waits session_id expected r =
    str_eq r.session_id session_id && ltb expected r.server_command_seq && not (is_finished r.state)

unfoldable pub pending : String → ℕ → List CommandRecord → ℕ
pending session_id expected [] = 0
pending session_id expected (r ∷ rs) =
    (if waits session_id expected r then 1 else 0) + pending session_id expected rs

abbrev pub command_record_of :
    String → CommandEnvelope → String → Option String → String → CommandRecord
command_record_of daemon_id envelope digest message_id now = record {
  daemon_id = daemon_id;
  command_id = envelope.command_id;
  session_id = envelope.session_id;
  server_command_seq = envelope.server_command_seq;
  sent_at = envelope.sent_at;
  payload_digest = digest;
  command = envelope.command;
  message_id = message_id;
  state = received;
  outcome = none;
  runtime_operation_id = envelope.command_id;
  reason = none;
  updated_at = now;
}

abbrev pub tombstone_record : CommandTombstone → String → CommandRecord
tombstone_record t now = record {
  daemon_id = t.daemon_id;
  command_id = t.command_id;
  session_id = t.session_id;
  server_command_seq = t.server_command_seq;
  sent_at = now;
  payload_digest = t.payload_digest;
  command = session_resume;
  message_id = t.message_id;
  state = terminal;
  outcome = some t.outcome;
  runtime_operation_id = t.command_id;
  reason = none;
  updated_at = now;
}

-- The record, whether it is a duplicate, and whether it waits behind a gap.
abbrev pub Prepared : Type 0
Prepared = CommandRecord × Bool × Bool

abbrev pub push_command : CommandRecord → JournalFile → JournalFile
push_command r state = record state { commands = state.commands ++ (r ∷ []) }

-- The test of the sequence number of a new command.
unfoldable pub check_sequence : ℕ → CommandEnvelope → JournalFile → Result (Unit {0}) JournalError
unfolding pending
check_sequence limit envelope state =
    let expected = expected_command_sequence state envelope.session_id in
    if ltb expected envelope.server_command_seq
    then refuse_if (leb limit (pending envelope.session_id expected state.commands))
        (gap_overflow envelope.session_id limit)
    else refuse_if (ltb envelope.server_command_seq expected)
        (identity_conflict "command sequence is below the retained processed boundary")

module _ (daemon_id : String) (limit : ℕ) (envelope : CommandEnvelope) (digest : String)
    (message_id : Option String) (now : String) where
  unfoldable pub prepare_new : JournalFile → Result (JournalFile × Prepared) JournalError
  unfolding check_sequence
  prepare_new state =
      let r = command_record_of daemon_id envelope digest message_id now in
      let expected = expected_command_sequence state envelope.session_id in
      do
        check_sequence limit envelope state
        ok (push_command r state, (r, false, ltb expected envelope.server_command_seq))

  unfoldable pub prepare_tombstone :
      JournalFile → Option CommandTombstone → Result (JournalFile × Prepared) JournalError
  unfolding prepare_new
  prepare_tombstone state (some t) = ok (state, (tombstone_record t now, true, false))
  prepare_tombstone state none = prepare_new state

  unfoldable pub prepare_record :
      JournalFile → Option CommandRecord → Result (JournalFile × Prepared) JournalError
  unfolding prepare_tombstone
  prepare_record state (some r) = ok (
    state,
    (r, true, ltb (expected_command_sequence state envelope.session_id) r.server_command_seq),
  )
  prepare_record state none = prepare_tombstone state (
      find (λ (t : CommandTombstone). str_eq t.command_id envelope.command_id)
        state.command_tombstones)

  -- The closure that `prepare_command` gives to `update`.
  unfoldable pub prepare_command : JournalFile → Result (JournalFile × Prepared) JournalError
  unfolding validate_command_identity prepare_record
  prepare_command state = do
    validate_command_identity daemon_id envelope digest message_id state
    prepare_record state
        (find (λ (r : CommandRecord). str_eq r.command_id envelope.command_id) state.commands)

abbrev pub is_command : String → CommandRecord → Bool
is_command command_id r = str_eq r.command_id command_id

abbrev pub begin : String → CommandRecord → CommandRecord
begin now r = record r { state = dispatch_started; updated_at = now }

unfoldable pub start_record :
    String → String → JournalFile → Option CommandRecord → Result (JournalFile × Bool) JournalError
start_record command_id now state none =
    err (identity_conflict "command disappeared before dispatch")
start_record command_id now state (some r) =
    if not (is_received r.state)
    then ok (state, false)
    else ok (
      record state { commands = modify_first (is_command command_id) (begin now) state.commands },
      true,
    )

-- The closure that `mark_dispatch_started` gives to `update`.
unfoldable pub mark_dispatch_started :
    String → String → JournalFile → Result (JournalFile × Bool) JournalError
unfolding start_record
mark_dispatch_started command_id now state =
    start_record command_id now state (find (is_command command_id) state.commands)
