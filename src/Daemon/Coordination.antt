-- ===== src/Daemon/Coordination.antt =====
-- The coordinator of crates/north-daemon/src/coordination.rs: what the daemon does with a frame of the
-- server, with a result of the runtime, and after a restart.
pub mod Run
pub mod Accepting
pub mod Calls
pub mod Recovering
pub mod Releases
pub mod Keeping
pub mod Invariants
use north.Common.{
  ℕ, ◌+◌, String, List, [], ◌∷◌, ◌++◌, Option, none, some, Result, ok, err, if◌then◌else◌,
}
use north.Protocol.Checks.{schema_version}
use north.Protocol.Command.{CommandEnvelope}
use north.Protocol.Event.{Event, EventEnvelope, EventAck}
use north.Protocol.Reconcile.{ReconcileSnapshot, SessionReconcileState}
use north.Protocol.Frame.{ServerFrame, DaemonFrame}
use north.Daemon.Exec.{Exec, pure, raise, ◌>>=◌}
use north.Daemon.Scheduler.{DispatchOutcome}
use north.Daemon.Journal.{JournalError, identity_conflict, gap_overflow, CommandRecord}
use north.Daemon.Journal.Events.{AppendedEvent, append_event}
use north.Daemon.Journal.Acks.{acknowledge_event, apply_reconciliation, replay_events}
use north.Daemon.Journal.Store.{World, Store, Fault, fails, hangs, Method, transact, ends, require}
use north.Daemon.Journal.Accept.{
  CommandProcessResult, CommandAcceptance, is_cancel, accept_command as accept_plain_command,
  accept_control_command, accept_next_ready_command, compact, complete_command,
}
use north.Daemon.Journal.Recovery.{RecoveryOutcome, recover_for_scheduler, RecoveryActions}

pub data CoordinationError : Type 0 where
  journal : JournalError → CoordinationError
  retryable_gap : String → ℕ → CoordinationError
  terminal_protocol : String → String → CoordinationError

pub record RuntimeActions : Type 0 where
  pub frames : List DaemonFrame
  pub commands : List CommandEnvelope

-- A call fails with an error, or it never returns.
pub data Failure : Type 0 where
  refused : CoordinationError → Failure
  hung : Failure

abbrev pub Call : Type 0 → Type 0
Call = Exec Store Failure

abbrev pub failure_of : Fault → Failure
failure_of (fails error) = refused (journal error)
failure_of hangs = hung

abbrev pub converted : {T : Type 0} → Result T Fault × Store → Result T Failure × Store
converted (ok value, s) = (ok value, s)
converted (err fault, s) = (err (failure_of fault), s)

-- The `?` operator on a result of the journal.
abbrev pub lift : {T : Type 0} → Method T → Call T
lift m s = converted (m s)

abbrev pub no_actions : RuntimeActions
no_actions = record { frames = []; commands = [] }

unfoldable pub protocol_error : String → String → DaemonFrame
protocol_error code message =
    DaemonFrame.protocol_error
      (record { schema_version = schema_version; code = code; message = message })

abbrev pub event_frames : List EventEnvelope → List DaemonFrame
event_frames [] = []
event_frames (e ∷ es) = DaemonFrame.event e ∷ event_frames es

unfoldable pub command_result_to_frames : CommandProcessResult → List DaemonFrame
command_result_to_frames result =
    DaemonFrame.command_ack result.acknowledgement ∷ event_frames result.emitted_events

unfoldable pub command_results_to_frames : List CommandProcessResult → List DaemonFrame
unfolding command_result_to_frames
command_results_to_frames [] = []
command_results_to_frames (r ∷ rs) = command_result_to_frames r ++ command_results_to_frames rs

abbrev pub option_list : {A : Type 0} → Option A → List A
option_list none = []
option_list (some a) = a ∷ []

unfoldable pub acceptance_actions : CommandAcceptance → RuntimeActions
unfolding command_result_to_frames
acceptance_actions a = record {
  frames = command_result_to_frames a.result;
  commands = option_list a.command;
}

abbrev pub refusal : String → String → RuntimeActions
refusal code reason = record { frames = protocol_error code reason ∷ []; commands = [] }

-- What the coordinator makes of an error in the intake of a command.
unfoldable pub command_failure : Fault → Result RuntimeActions Failure
unfolding protocol_error
command_failure (fails (identity_conflict reason)) = ok (refusal "command_identity_conflict" reason)
command_failure (fails (gap_overflow session_id limit)) =
    err (refused (retryable_gap session_id limit))
command_failure fault = err (failure_of fault)

-- What the coordinator makes of an error in the acknowledgement of an event.
unfoldable pub event_ack_failure : Fault → Result RuntimeActions Failure
unfolding protocol_error
event_ack_failure (fails (identity_conflict reason)) =
    ok (refusal "event_ack_identity_conflict" reason)
event_ack_failure fault = err (failure_of fault)

abbrev pub settle_with :
    {T : Type 0}
    → (Fault → Result RuntimeActions Failure)
    → (T → Call RuntimeActions)
    → Result T Fault × Store
    → Result RuntimeActions Failure × Store
settle_with on_fault f (ok value, t) = f value t
settle_with on_fault f (err fault, t) = (on_fault fault, t)

-- `match` on the result of the journal.
abbrev pub recovering :
    {T : Type 0}
    → (Fault → Result RuntimeActions Failure)
    → Method T
    → (T → Call RuntimeActions)
    → Call RuntimeActions
recovering on_fault m f s = settle_with on_fault f (m s)

module _ (w : World) where
  -- `accept_command`, and the match of `accept_server_frame` on its result.
  unfoldable pub accept_command : CommandEnvelope → Call RuntimeActions
  unfolding accept_plain_command accept_control_command acceptance_actions command_failure
  accept_command command =
      recovering command_failure
        (if is_cancel command.command
          then accept_control_command w command
          else accept_plain_command w command)
        (λ a. pure (acceptance_actions a))

  unfoldable pub acknowledge : EventAck → Method (Unit {0})
  unfolding transact acknowledge_event
  acknowledge ack = transact w (λ now. acknowledge_event ack)

  unfoldable pub accept_server_frame : ServerFrame → Call RuntimeActions
  unfolding accept_command acknowledge event_ack_failure compact
  accept_server_frame (ServerFrame.command command) = accept_command command
  accept_server_frame (ServerFrame.event_ack ack) =
      recovering event_ack_failure (acknowledge ack)
        (λ _. lift (compact w ack.session_id) >>= λ _. pure no_actions)
  accept_server_frame (ServerFrame.protocol_error error) =
      raise (refused (terminal_protocol error.code error.message))
  accept_server_frame (ServerFrame.welcome _) = pure no_actions
  accept_server_frame (ServerFrame.reconcile _) = pure no_actions

  abbrev pub finished_actions : List EventEnvelope → Option CommandAcceptance → RuntimeActions
  finished_actions emitted none = record { frames = event_frames emitted; commands = [] }
  finished_actions emitted (some accepted) = record {
    frames = event_frames emitted ++ command_result_to_frames accepted.result;
    commands = option_list accepted.command;
  }

  unfoldable pub finish_runtime :
      String → String → DispatchOutcome → List Event → Call RuntimeActions
  unfolding complete_command accept_next_ready_command command_result_to_frames
  finish_runtime session_id command_id outcome runtime_events =
      lift (complete_command w command_id outcome runtime_events) >>= λ emitted.
      lift (accept_next_ready_command w session_id) >>= λ next. pure (finished_actions emitted next)

  unfoldable pub append : String → String → Event → Method AppendedEvent
  unfolding transact append_event
  append event_id session_id event =
      transact w (ends (append_event w.event_digest w.daemon_id event_id session_id event))

  unfoldable pub append_event_frame : String → String → Event → Call DaemonFrame
  unfolding append
  append_event_frame event_id session_id event =
      lift (append event_id session_id event) >>= λ a. pure (DaemonFrame.event a.envelope)

  abbrev pub recovered_actions : RecoveryActions → RuntimeActions
  recovered_actions recovery = record {
    frames = command_results_to_frames recovery.results;
    commands = recovery.commands;
  }

  unfoldable pub recover : (CommandRecord → RecoveryOutcome) → Call RuntimeActions
  unfolding recover_for_scheduler command_results_to_frames
  recover status =
      lift (recover_for_scheduler w status) >>= λ recovery. pure (recovered_actions recovery)

  unfoldable pub apply : ReconcileSnapshot → Method (Unit {0})
  unfolding transact apply_reconciliation
  apply snapshot = transact w (ends (λ now. apply_reconciliation snapshot))

  -- The replay of each session of the snapshot.
  unfoldable pub replay_each : List SessionReconcileState → Call (List DaemonFrame)
  unfolding replay_events
  replay_each [] = pure []
  replay_each (session ∷ sessions) =
      lift (λ s. require (replay_events session.session_id session s.state) s) >>= λ events.
      replay_each sessions >>= λ frames. pure (event_frames events ++ frames)

  unfoldable pub reconcile : ReconcileSnapshot → Call (List DaemonFrame)
  unfolding apply replay_each
  reconcile snapshot = lift (apply snapshot) >>= λ _. replay_each snapshot.sessions
