-- ===== src/Daemon/Coordination/Keeping/Calls.antt =====
-- What the updates of crates/north-daemon/src/journal.rs keep, the calls of
-- crates/north-daemon/src/coordination.rs keep in memory and on the disk.
use north.Common.{String, List, [], ◌∷◌, ◌++◌, if◌then◌else◌}
use north.Protocol.Event.{Event}
use north.Protocol.Frame.{ServerFrame, DaemonFrame}
use north.Protocol.Reconcile.{ReconcileSnapshot, SessionReconcileState}
use north.Daemon.Exec.{pure, ◌>>=◌, Keeps, Keeps-pure, Keeps-raise, Keeps-bind}
use north.Daemon.Scheduler.{DispatchOutcome}
use north.Daemon.Journal.{JournalFile, CommandRecord}
use north.Daemon.Journal.Events.{append_event}
use north.Daemon.Journal.Acks.{acknowledge_event, apply_reconciliation, replay_events}
use north.Daemon.Journal.Commands.{}
use north.Daemon.Journal.Store.{World, Store, ends, require}
use north.Daemon.Journal.Store.Keeping.{Both, Keeps-transact}
use north.Daemon.Journal.Accept.{
  is_cancel, accept_command as accept_plain_command, accept_control_command,
  accept_next_ready_command, compact, complete_command,
}
use north.Daemon.Journal.Recovery.{
  RecoveryOutcome, RecoveryActions, recovered_outcome, recovered_result, recover_one, recover_each,
  accept_each, accept_all, with_results, add_accepted, recover_for_scheduler, session_ids,
  started_records,
}
use north.Daemon.Coordination.{
  lift, command_failure, event_ack_failure, no_actions, acceptance_actions, accept_command,
  acknowledge, accept_server_frame, finished_actions, finish_runtime, append, append_event_frame,
  recovered_actions, recover, apply, replay_each, reconcile, refused, terminal_protocol,
  event_frames,
}
use north.Daemon.Coordination.Keeping.{
  IsKept, Keeps-lift, Keeps-recovering, Keeps-require, Keeps-reading, intake-Keeps,
  accept_next_ready_command-Keeps, compact-Keeps, complete_command-Keeps,
}

module _ (P : JournalFile → Type 0) (w : World) (kept : IsKept w P) where
  recover_each-Keeps :
      (status : CommandRecord → RecoveryOutcome) (rs : List CommandRecord)
      → Keeps (Both P) (recover_each w status rs)
  unfolding recover_each recover_one
  recover_each-Keeps status [] = Keeps-pure []
  recover_each-Keeps status (r ∷ rs) =
      let outcome = recovered_outcome r.command_id (status r) in
      Keeps-bind (recover_one w status r)
        (λ result. recover_each w status rs >>= λ results. pure (result ∷ results))
        (Keeps-bind (complete_command w r.command_id outcome [])
          (λ emitted. pure (recovered_result r outcome emitted))
          (complete_command-Keeps P w kept r.command_id outcome [])
          (λ emitted. Keeps-pure (recovered_result r outcome emitted)))
        (λ result.
          Keeps-bind (recover_each w status rs) (λ results. pure (result ∷ results))
            (recover_each-Keeps status rs) (λ results. Keeps-pure (result ∷ results)))

  accept_each-Keeps :
      (status : CommandRecord → RecoveryOutcome) (sessions : List String)
      → Keeps (Both P) (accept_each w status sessions)
  unfolding accept_each
  accept_each-Keeps status [] = Keeps-pure (record { results = []; commands = [] })
  accept_each-Keeps status (session_id ∷ rest) =
      Keeps-bind (accept_next_ready_command w session_id)
        (λ next. accept_each w status rest >>= λ actions. pure (add_accepted next actions))
        (accept_next_ready_command-Keeps P w kept session_id)
        (λ next.
          Keeps-bind (accept_each w status rest) (λ actions. pure (add_accepted next actions))
            (accept_each-Keeps status rest) (λ actions. Keeps-pure (add_accepted next actions)))

  pub recover-Keeps : (status : CommandRecord → RecoveryOutcome) → Keeps (Both P) (recover w status)
  unfolding recover recover_for_scheduler accept_all
  recover-Keeps status =
      let finish = λ (results : List _) (actions : RecoveryActions).
        pure (with_results w status results actions) in
      Keeps-bind (lift (recover_for_scheduler w status))
        (λ recovery. pure (recovered_actions w recovery))
        (Keeps-lift P (recover_for_scheduler w status) (
          Keeps-reading P
            (λ s. recover_each w status (started_records s.state.commands) >>= λ results.
              accept_all w status >>= finish results)
            (λ s.
              Keeps-bind (recover_each w status (started_records s.state.commands))
                (λ results. accept_all w status >>= finish results)
                (recover_each-Keeps status (started_records s.state.commands))
                (λ results.
                  Keeps-bind (accept_all w status) (finish results)
                    (Keeps-reading P (λ t. accept_each w status (session_ids t.state.sessions))
                      (λ t. accept_each-Keeps status (session_ids t.state.sessions)))
                    (λ actions. Keeps-pure (with_results w status results actions))))))
        (λ recovery. Keeps-pure (recovered_actions w recovery))

  pub accept_server_frame-Keeps :
      (frame : ServerFrame) → Keeps (Both P) (accept_server_frame w frame)
  unfolding accept_server_frame accept_command acknowledge
  accept_server_frame-Keeps (ServerFrame.command command) =
      Keeps-recovering P command_failure
        (if is_cancel command.command
          then accept_control_command w command
          else accept_plain_command w command)
        (λ a. pure (acceptance_actions a))
        (intake-Keeps P w kept (is_cancel command.command) command)
        (λ a. Keeps-pure (acceptance_actions a))
  accept_server_frame-Keeps (ServerFrame.event_ack ack) =
      Keeps-recovering P event_ack_failure (acknowledge w ack)
        (λ _. lift (compact w ack.session_id) >>= λ _. pure no_actions)
        (Keeps-transact P w (λ now. acknowledge_event ack) (kept.by_acknowledge ack))
        (λ _.
          Keeps-bind (lift (compact w ack.session_id)) (λ _. pure no_actions)
            (Keeps-lift P (compact w ack.session_id) (compact-Keeps P w kept ack.session_id))
            (λ _. Keeps-pure no_actions))
  accept_server_frame-Keeps (ServerFrame.protocol_error error) =
      Keeps-raise (refused (terminal_protocol error.code error.message))
  accept_server_frame-Keeps (ServerFrame.welcome _) = Keeps-pure no_actions
  accept_server_frame-Keeps (ServerFrame.reconcile _) = Keeps-pure no_actions

  pub finish_runtime-Keeps :
      (session_id command_id : String) (outcome : DispatchOutcome) (events : List Event)
      → Keeps (Both P) (finish_runtime w session_id command_id outcome events)
  unfolding finish_runtime
  finish_runtime-Keeps session_id command_id outcome events =
      Keeps-bind (lift (complete_command w command_id outcome events))
        (λ emitted. lift (accept_next_ready_command w session_id) >>= λ next.
          pure (finished_actions w emitted next))
        (Keeps-lift P (complete_command w command_id outcome events)
          (complete_command-Keeps P w kept command_id outcome events))
        (λ emitted.
          Keeps-bind (lift (accept_next_ready_command w session_id))
            (λ next. pure (finished_actions w emitted next))
            (Keeps-lift P (accept_next_ready_command w session_id)
              (accept_next_ready_command-Keeps P w kept session_id))
            (λ next. Keeps-pure (finished_actions w emitted next)))

  pub append_event_frame-Keeps :
      (event_id session_id : String) (e : Event)
      → Keeps (Both P) (append_event_frame w event_id session_id e)
  unfolding append_event_frame append
  append_event_frame-Keeps event_id session_id e =
      Keeps-bind (lift (append w event_id session_id e)) (λ a. pure (DaemonFrame.event a.envelope))
        (Keeps-lift P (append w event_id session_id e) (
          Keeps-transact P w (ends (append_event w.event_digest w.daemon_id event_id session_id e))
            (kept.by_append event_id session_id e)))
        (λ a. Keeps-pure (DaemonFrame.event a.envelope))

  replay_each-Keeps :
      (sessions : List SessionReconcileState) → Keeps (Both P) (replay_each w sessions)
  unfolding replay_each
  replay_each-Keeps [] = Keeps-pure []
  replay_each-Keeps (session ∷ sessions) =
      let replay = λ (s : Store). require (replay_events session.session_id session s.state) in
      Keeps-bind (lift (λ s. replay s s))
        (λ events. replay_each w sessions >>= λ frames. pure (event_frames events ++ frames))
        (Keeps-lift P (λ s. replay s s)
          (Keeps-reading P replay
            (λ s. Keeps-require P (replay_events session.session_id session s.state))))
        (λ events.
          Keeps-bind (replay_each w sessions) (λ frames. pure (event_frames events ++ frames))
            (replay_each-Keeps sessions) (λ frames. Keeps-pure (event_frames events ++ frames)))

  pub reconcile-Keeps : (snapshot : ReconcileSnapshot) → Keeps (Both P) (reconcile w snapshot)
  unfolding reconcile apply
  reconcile-Keeps snapshot =
      Keeps-bind (lift (apply w snapshot)) (λ _. replay_each w snapshot.sessions)
        (Keeps-lift P (apply w snapshot) (
          Keeps-transact P w (ends (λ now. apply_reconciliation snapshot))
            (kept.by_apply snapshot)))
        (λ _. replay_each-Keeps snapshot.sessions)
