-- ===== src/Daemon/Coordination/Accepting.antt =====
-- What the methods of crates/north-daemon/src/journal.rs hand out is paid for by what the journal may
-- still start.
use north.Common.{
  ℕ, ◌+◌, ◌≤◌, ◌≡◌, subst, String, str_eq, List, Option, none, some, Bool, true, false, ok, map_err,
  arith, if◌then◌else◌, find,
}
use north.Protocol.Command.{CommandEnvelope}
use north.Protocol.Event.{Event}
use north.Protocol.Frame.{ServerFrame, server_validate}
use north.Daemon.Exec.{pure, gets, ◌>>=◌}
use north.Daemon.Scheduler.{DispatchOutcome}
use north.Daemon.Journal.{protocol, JournalFile, CommandRecord}
use north.Daemon.Journal.Commands.{
  prepare_command, mark_dispatch_started, Prepared, message_id_of, is_command,
}
use north.Daemon.Journal.Commands.Fresh.{fresh}
use north.Daemon.Journal.Compact.{compact_session}
use north.Daemon.Journal.Finish.{finish_command}
use north.Daemon.Journal.Once.{
  prepare_command-fresh, mark_dispatch_started-fresh, started, finish_command-fresh,
  compact_session-fresh,
}
use north.Daemon.Journal.Store.{World, Store, ends, require}
use north.Daemon.Journal.Store.Paying.{
  Pays, Pays-pure, Pays-gets, Pays-require, Pays-reading, Pays-bind, Pays-transact,
}
use north.Daemon.Journal.Accept.{
  CommandAcceptance, found_or, command_record, reported, released, prepare, mark_started,
  answer_started, start, may_start, accept_prepared, accept_command_with_control, accept_command,
  accept_control_command, next_ready, accept_ready, accept_next_ready_command, compact, finish,
  complete_command, record_to_envelope,
}

-- How often the command is handed out.
abbrev pub handed : String → Option CommandEnvelope → ℕ
handed id none = 0
handed id (some c) = if str_eq c.command_id id then 1 else 0

abbrev pub accepted : String → CommandAcceptance → ℕ
accepted id a = handed id a.command

abbrev pub next_accepted : String → Option CommandAcceptance → ℕ
next_accepted id none = 0
next_accepted id (some a) = accepted id a

abbrev pub nothing : {T : Type 0} → T → ℕ
nothing _ = 0

module _ (id : String) (w : World) where
  prepare-Pays : (envelope : CommandEnvelope) → Pays (fresh id) 0 nothing (prepare w envelope)
  unfolding prepare
  prepare-Pays envelope =
      Pays-transact (fresh id) nothing w
        (ends (
          prepare_command w.daemon_id w.limit envelope (w.command_digest envelope)
            (message_id_of envelope.command)))
        (λ now before after p h.
          let less =
            prepare_command-fresh id w.daemon_id w.limit envelope (w.command_digest envelope)
              (message_id_of envelope.command) now before after p (ground arith) in
          omega (arith, less))

  mark_started-Pays :
      (command_id : String) → Pays (fresh id) 0 (started id command_id) (mark_started w command_id)
  unfolding mark_started
  mark_started-Pays command_id =
      Pays-transact (fresh id) (started id command_id) w (ends (mark_dispatch_started command_id))
        (λ now before after marked h.
          mark_dispatch_started-fresh id command_id now before after marked (ground arith))

  command_record-Pays :
      (command_id : String) → Pays (fresh id) 0 nothing (command_record command_id)
  unfolding command_record
  command_record-Pays command_id =
      Pays-reading (fresh id) 0 nothing
        (λ s. require (
          found_or "command disappeared from journal"
            (find (is_command command_id) s.state.commands)))
        (λ s.
          Pays-require (fresh id) 0 nothing
            (found_or "command disappeared from journal"
              (find (is_command command_id) s.state.commands))
            (λ r. omega arith))

  answer_started-Pays :
      (r : CommandRecord) (duplicate marked : Bool)
      → Pays
          (fresh id)
          (started id r.command_id marked)
          (accepted id)
          (answer_started w r duplicate marked)
  unfolding answer_started record_to_envelope
  answer_started-Pays r duplicate true =
      Pays-pure (fresh id) (started id r.command_id true) (accepted id) (released r duplicate)
        (omega arith)
  answer_started-Pays r duplicate false =
      Pays-bind (fresh id) 0 nothing (accepted id) (command_record r.command_id)
        (λ current. pure (reported current true false)) (command_record-Pays r.command_id)
        (λ current.
          Pays-pure (fresh id) 0 (accepted id) (reported current true false) (omega arith))

  start-Pays :
      (r : CommandRecord) (duplicate : Bool) → Pays (fresh id) 0 (accepted id) (start w r duplicate)
  unfolding start
  start-Pays r duplicate =
      Pays-bind (fresh id) 0 (started id r.command_id) (accepted id) (mark_started w r.command_id)
        (answer_started w r duplicate) (mark_started-Pays r.command_id)
        (answer_started-Pays r duplicate)

  accept_prepared-Pays :
      (p : Prepared) (now : Bool) → Pays (fresh id) 0 (accepted id) (accept_prepared w p now)
  unfolding accept_prepared
  accept_prepared-Pays (r, duplicate, buffered) true = start-Pays r duplicate
  accept_prepared-Pays (r, duplicate, buffered) false =
      Pays-pure (fresh id) 0 (accepted id) (reported r duplicate buffered) (omega arith)

  accept_command_with_control-Pays :
      (envelope : CommandEnvelope) (allow : Bool)
      → Pays (fresh id) 0 (accepted id) (accept_command_with_control w envelope allow)
  unfolding accept_command_with_control
  accept_command_with_control-Pays envelope allow =
      let check = map_err protocol (server_validate (ServerFrame.command envelope)) in
      let decided = λ (p : Prepared) (s : Store). may_start w envelope allow p s.state in
      Pays-bind (fresh id) 0 nothing (accepted id) (require check)
        (λ _. prepare w envelope >>= λ p. gets (decided p) >>= λ now. accept_prepared w p now)
        (Pays-require (fresh id) 0 nothing check (λ a. omega arith))
        (λ _.
          Pays-bind (fresh id) 0 nothing (accepted id) (prepare w envelope)
            (λ p. gets (decided p) >>= λ now. accept_prepared w p now) (prepare-Pays envelope)
            (λ p.
              Pays-bind (fresh id) 0 nothing (accepted id) (gets (decided p)) (accept_prepared w p)
                (Pays-gets (fresh id) 0 nothing (decided p) (λ s. omega arith))
                (accept_prepared-Pays p)))

  pub accept_command-Pays :
      (envelope : CommandEnvelope) → Pays (fresh id) 0 (accepted id) (accept_command w envelope)
  unfolding accept_command
  accept_command-Pays envelope = accept_command_with_control-Pays envelope false

  pub accept_control_command-Pays :
      (envelope : CommandEnvelope)
      → Pays (fresh id) 0 (accepted id) (accept_control_command w envelope)
  unfolding accept_control_command
  accept_control_command-Pays envelope = accept_command_with_control-Pays envelope true

  accept_ready-Pays :
      (o : Option CommandRecord) → Pays (fresh id) 0 (next_accepted id) (accept_ready w o)
  unfolding accept_ready
  accept_ready-Pays none = Pays-pure (fresh id) 0 (next_accepted id) none (omega arith)
  accept_ready-Pays (some r) =
      Pays-bind (fresh id) 0 (accepted id) (next_accepted id)
        (accept_command w (record_to_envelope r)) (λ a. pure (some a))
        (accept_command-Pays (record_to_envelope r))
        (λ a. Pays-pure (fresh id) (accepted id a) (next_accepted id) (some a) (omega arith))

  pub accept_next_ready_command-Pays :
      (session_id : String)
      → Pays (fresh id) 0 (next_accepted id) (accept_next_ready_command w session_id)
  unfolding accept_next_ready_command
  accept_next_ready_command-Pays session_id =
      Pays-reading (fresh id) 0 (next_accepted id)
        (λ s. accept_ready w (next_ready w session_id s.state))
        (λ s. accept_ready-Pays (next_ready w session_id s.state))

  pub compact-Pays : (session_id : String) → Pays (fresh id) 0 nothing (compact w session_id)
  unfolding compact
  compact-Pays session_id =
      Pays-transact (fresh id) nothing w
        (λ now state. some (ok (compact_session w.event_digest w.daemon_id session_id state, tt)))
        (λ now before after a h.
          let same : compact_session w.event_digest w.daemon_id session_id before ≡ after =
            ground arith in
          let kept = compact_session-fresh id w.event_digest w.daemon_id session_id before in
          subst (λ (f : JournalFile). 0 + fresh id f ≤ fresh id before) same (omega (arith, kept)))

  finish-Pays :
      (command_id : String) (outcome : DispatchOutcome) (events : List Event)
      → Pays (fresh id) 0 nothing (finish w command_id outcome events)
  unfolding finish
  finish-Pays command_id outcome events =
      Pays-transact (fresh id) nothing w
        (λ now. finish_command w.event_digest w.daemon_id now command_id outcome events)
        (λ now before after sent h.
          let less =
            finish_command-fresh id w.event_digest w.daemon_id now command_id outcome events before
              after sent h in
          omega (arith, less))

  pub complete_command-Pays :
      (command_id : String) (outcome : DispatchOutcome) (events : List Event)
      → Pays (fresh id) 0 nothing (complete_command w command_id outcome events)
  unfolding complete_command
  complete_command-Pays command_id outcome events =
      Pays-bind (fresh id) 0 nothing nothing (command_record command_id)
        (λ r. finish w command_id outcome events >>= λ emitted.
          compact w r.session_id >>= λ _. pure emitted)
        (command_record-Pays command_id)
        (λ r.
          Pays-bind (fresh id) 0 nothing nothing (finish w command_id outcome events)
            (λ emitted. compact w r.session_id >>= λ _. pure emitted)
            (finish-Pays command_id outcome events)
            (λ emitted.
              Pays-bind (fresh id) 0 nothing nothing (compact w r.session_id) (λ _. pure emitted)
                (compact-Pays r.session_id)
                (λ _. Pays-pure (fresh id) 0 nothing emitted (omega arith))))
