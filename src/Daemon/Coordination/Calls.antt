-- ===== src/Daemon/Coordination/Calls.antt =====
-- What the calls of crates/north-daemon/src/coordination.rs hand out is paid for by what the journal may
-- still start.
use north.Common.{
  ℕ, ◌+◌, ◌≤◌, ◌≡◌, String, List, [], ◌∷◌, ◌++◌, Option, none, some, Bool, true, false, Result, ok,
  err, arith, if◌then◌else◌,
}
use north.Protocol.Command.{CommandEnvelope}
use north.Protocol.Event.{Event, EventAck}
use north.Protocol.Frame.{ServerFrame}
use north.Protocol.Reconcile.{ReconcileSnapshot}
use north.Daemon.Exec.{pure, ◌>>=◌}
use north.Daemon.Scheduler.{DispatchOutcome}
use north.Daemon.Journal.{
  JournalError, identity_conflict, gap_overflow, io, format, protocol, sequence_gap, JournalFile,
}
use north.Daemon.Journal.Events.{append_event}
use north.Daemon.Journal.Acks.{acknowledge_event, apply_reconciliation}
use north.Daemon.Journal.Commands.Fresh.{fresh}
use north.Daemon.Journal.Commands.Same.{
  SameCommands, acknowledge_event-SameCommands, append_event-SameCommands,
  apply_reconciliation-SameCommands,
}
use north.Daemon.Journal.Once.{SameCommands-fresh}
use north.Daemon.Journal.Store.{World, Store, Fault, fails, hangs, Method, transact, ends}
use north.Daemon.Journal.Store.Paying.{
  potential, worth, Pays, Pays-pure, Pays-raise, Pays-bind, Pays-transact,
}
use north.Daemon.Journal.Accept.{
  CommandAcceptance, is_cancel, accept_command as accept_plain_command, accept_control_command,
  accept_next_ready_command, compact, complete_command,
}
use north.Daemon.Journal.Recovery.{RecoveryActions}
use north.Daemon.Coordination.{
  RuntimeActions, Failure, Call, converted, lift, settle_with, recovering, command_failure,
  event_ack_failure, no_actions, acceptance_actions, option_list, accept_command, acknowledge,
  accept_server_frame, finished_actions, finish_runtime, append, apply, refused, terminal_protocol,
}
use north.Daemon.Coordination.Accepting.{
  handed, accepted, next_accepted, nothing, accept_command-Pays as accept_plain_command-Pays,
  accept_control_command-Pays, accept_next_ready_command-Pays, compact-Pays, complete_command-Pays,
}
use north.Daemon.Coordination.Run.{times_released}

module _ (fresh_of : JournalFile → ℕ) where
  converted_pays :
      {T : Type 0} (count : T → ℕ) (r : Result T Fault) (s : Store) (n : ℕ)
      → worth count r + potential fresh_of s ≤ n
      → worth count (converted (r, s)).0 + potential fresh_of (converted (r, s)).1 ≤ n
  converted_pays count (ok a) s n h = h
  converted_pays count (err e) s n h = h

  pub Pays-lift :
      {T : Type 0} (k : ℕ) (count : T → ℕ) (m : Method T)
      → Pays fresh_of k count m
      → Pays fresh_of k count (lift m)
  Pays-lift k count m p = record {
    pays = λ s. converted_pays count (m s).0 (m s).1 (k + potential fresh_of s) (p.pays s);
  }

  worth-settle_with :
      {T : Type 0} (c : T → ℕ) (d : RuntimeActions → ℕ)
      (on_fault : Fault → Result RuntimeActions Failure) (f : T → Call RuntimeActions)
      (r : Result T Fault) (s : Store)
      → ((e : Fault) → worth d (on_fault e) ≤ 0)
      → ((a : T) → Pays fresh_of (c a) d (f a))
      → worth d (settle_with on_fault f (r, s)).0
          + potential fresh_of (settle_with on_fault f (r, s)).1
        ≤ worth c r + potential fresh_of s
  worth-settle_with c d on_fault f (ok a) s h p = (p a).pays s
  worth-settle_with c d on_fault f (err e) s h p = omega (arith, h e)

  Pays-recovering :
      {T : Type 0} (k : ℕ) (c : T → ℕ) (d : RuntimeActions → ℕ)
      (on_fault : Fault → Result RuntimeActions Failure) (m : Method T)
      (f : T → Call RuntimeActions)
      → ((e : Fault) → worth d (on_fault e) ≤ 0)
      → Pays fresh_of k c m
      → ((a : T) → Pays fresh_of (c a) d (f a))
      → Pays fresh_of k d (recovering on_fault m f)
  Pays-recovering k c d on_fault m f h pm pf = record {
    pays = λ s.
        let paid = pm.pays s in
        let rest = worth-settle_with c d on_fault f (m s).0 (m s).1 h pf in
        omega (arith, paid, rest);
  }

module _ (id : String) where
  abbrev pub in_actions : RuntimeActions → ℕ
  in_actions a = times_released id a.commands

  abbrev in_recovery : RecoveryActions → ℕ
  in_recovery a = times_released id a.commands

  pub times_released-append :
      (xs ys : List CommandEnvelope)
      → times_released id (xs ++ ys) ≡ times_released id xs + times_released id ys
  unfolding times_released
  times_released-append [] ys = omega arith
  times_released-append (x ∷ xs) ys = omega (arith, times_released-append xs ys)

  option_list-released :
      (o : Option CommandEnvelope) → times_released id (option_list o) ≤ handed id o
  unfolding times_released
  option_list-released none = omega arith
  option_list-released (some c) = omega arith

  command_failure-nothing : (e : Fault) → worth in_actions (command_failure e) ≤ 0
  unfolding command_failure times_released
  command_failure-nothing (fails (io e)) = omega arith
  command_failure-nothing (fails (format e)) = omega arith
  command_failure-nothing (fails (identity_conflict e)) = omega arith
  command_failure-nothing (fails (protocol r)) = omega arith
  command_failure-nothing (fails (gap_overflow session_id limit)) = omega arith
  command_failure-nothing (fails (sequence_gap m n)) = omega arith
  command_failure-nothing hangs = omega arith

  event_ack_failure-nothing : (e : Fault) → worth in_actions (event_ack_failure e) ≤ 0
  unfolding event_ack_failure times_released
  event_ack_failure-nothing (fails (io e)) = omega arith
  event_ack_failure-nothing (fails (format e)) = omega arith
  event_ack_failure-nothing (fails (identity_conflict e)) = omega arith
  event_ack_failure-nothing (fails (protocol r)) = omega arith
  event_ack_failure-nothing (fails (gap_overflow session_id limit)) = omega arith
  event_ack_failure-nothing (fails (sequence_gap m n)) = omega arith
  event_ack_failure-nothing hangs = omega arith

  module _ (w : World) where
    SameCommands-Pays :
        {T : Type 0}
        (operation : String → JournalFile → Option (Result (JournalFile × T) JournalError))
        → ((now : String) (before after : JournalFile) (a : T)
            → operation now before ≡ some (ok (after, a))
            → SameCommands before after)
        → Pays (fresh id) 0 nothing (transact w operation)
    SameCommands-Pays operation same =
        Pays-transact (fresh id) nothing w operation (λ now before after a h.
          let kept = SameCommands-fresh id before after (same now before after a h) in
          omega (arith, kept))

    acknowledge-Pays : (ack : EventAck) → Pays (fresh id) 0 nothing (acknowledge w ack)
    unfolding acknowledge
    acknowledge-Pays ack =
        SameCommands-Pays (λ now. acknowledge_event ack)
          (λ now before after a h. acknowledge_event-SameCommands ack before after h)

    pub append-Pays :
        (event_id session_id : String) (e : Event)
        → Pays (fresh id) 0 nothing (append w event_id session_id e)
    unfolding append
    append-Pays event_id session_id e =
        SameCommands-Pays (ends (append_event w.event_digest w.daemon_id event_id session_id e))
          (λ now before after a h.
            append_event-SameCommands w.event_digest w.daemon_id event_id session_id e now before
              after a (ground arith))

    pub apply-Pays : (snapshot : ReconcileSnapshot) → Pays (fresh id) 0 nothing (apply w snapshot)
    unfolding apply
    apply-Pays snapshot =
        SameCommands-Pays (ends (λ now. apply_reconciliation snapshot)) (λ now before after a h.
          apply_reconciliation-SameCommands snapshot before after (ground arith))

    intake-Pays :
        (b : Bool) (command : CommandEnvelope)
        → Pays
            (fresh id)
            0
            (accepted id)
            (if b then accept_control_command w command else accept_plain_command w command)
    intake-Pays true command = accept_control_command-Pays id w command
    intake-Pays false command = accept_plain_command-Pays id w command

    accept_command-Pays :
        (command : CommandEnvelope) → Pays (fresh id) 0 in_actions (accept_command w command)
    unfolding accept_command acceptance_actions
    accept_command-Pays command =
        Pays-recovering (fresh id) 0 (accepted id) in_actions command_failure
          (if is_cancel command.command
            then accept_control_command w command
            else accept_plain_command w command)
          (λ a. pure (acceptance_actions a)) command_failure-nothing
          (intake-Pays (is_cancel command.command) command)
          (λ a.
            Pays-pure (fresh id) (accepted id a) in_actions (acceptance_actions a)
              (option_list-released a.command))

    no_actions-Pays : Pays {E = Failure} (fresh id) 0 in_actions (pure no_actions)
    unfolding times_released
    no_actions-Pays = Pays-pure (fresh id) 0 in_actions no_actions (omega arith)

    pub accept_server_frame-Pays :
        (frame : ServerFrame) → Pays (fresh id) 0 in_actions (accept_server_frame w frame)
    unfolding accept_server_frame
    accept_server_frame-Pays (ServerFrame.command command) = accept_command-Pays command
    accept_server_frame-Pays (ServerFrame.event_ack ack) =
        Pays-recovering (fresh id) 0 nothing in_actions event_ack_failure (acknowledge w ack)
          (λ _. lift (compact w ack.session_id) >>= λ _. pure no_actions) event_ack_failure-nothing
          (acknowledge-Pays ack)
          (λ _.
            Pays-bind (fresh id) 0 nothing in_actions (lift (compact w ack.session_id))
              (λ _. pure no_actions)
              (Pays-lift (fresh id) 0 nothing (compact w ack.session_id)
                (compact-Pays id w ack.session_id))
              (λ _. no_actions-Pays))
    accept_server_frame-Pays (ServerFrame.protocol_error error) =
        Pays-raise (fresh id) 0 in_actions (refused (terminal_protocol error.code error.message))
    accept_server_frame-Pays (ServerFrame.welcome _) = no_actions-Pays
    accept_server_frame-Pays (ServerFrame.reconcile _) = no_actions-Pays

    finished_actions-released :
        (emitted : List _) (next : Option CommandAcceptance)
        → in_actions (finished_actions w emitted next) ≤ next_accepted id next
    unfolding times_released
    finished_actions-released emitted none = omega arith
    finished_actions-released emitted (some a) = option_list-released a.command

    pub finish_runtime-Pays :
        (session_id command_id : String) (outcome : DispatchOutcome) (events : List Event)
        → Pays (fresh id) 0 in_actions (finish_runtime w session_id command_id outcome events)
    unfolding finish_runtime
    finish_runtime-Pays session_id command_id outcome events =
        Pays-bind (fresh id) 0 nothing in_actions
          (lift (complete_command w command_id outcome events))
          (λ emitted. lift (accept_next_ready_command w session_id) >>= λ next.
            pure (finished_actions w emitted next))
          (Pays-lift (fresh id) 0 nothing (complete_command w command_id outcome events)
            (complete_command-Pays id w command_id outcome events))
          (λ emitted.
            Pays-bind (fresh id) 0 (next_accepted id) in_actions
              (lift (accept_next_ready_command w session_id))
              (λ next. pure (finished_actions w emitted next))
              (Pays-lift (fresh id) 0 (next_accepted id) (accept_next_ready_command w session_id)
                (accept_next_ready_command-Pays id w session_id))
              (λ next.
                Pays-pure (fresh id) (next_accepted id next) in_actions
                  (finished_actions w emitted next) (finished_actions-released emitted next)))
