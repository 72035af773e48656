-- ===== src/Daemon/Coordination/Recovering.antt =====
-- The coordinator of crates/north-daemon/src/coordination.rs pays for what a recovery and the calls without commands hand
-- out.
use north.Common.{ℕ, ◌+◌, ◌≤◌, String, List, [], ◌∷◌, ◌++◌, Option, none, some, arith}
use north.Protocol.Command.{CommandEnvelope}
use north.Protocol.Event.{Event}
use north.Protocol.Frame.{DaemonFrame}
use north.Protocol.Reconcile.{ReconcileSnapshot, SessionReconcileState}
use north.Daemon.Exec.{pure, ◌>>=◌}
use north.Daemon.Journal.{CommandRecord}
use north.Daemon.Journal.Acks.{replay_events}
use north.Daemon.Journal.Commands.Fresh.{fresh}
use north.Daemon.Journal.Store.{World, Store, require}
use north.Daemon.Journal.Store.Paying.{
  Pays, Pays-pure, Pays-require, Pays-reading, Pays-bind, Pays-frame,
}
use north.Daemon.Journal.Accept.{CommandAcceptance, accept_next_ready_command, complete_command}
use north.Daemon.Journal.Recovery.{
  RecoveryOutcome, RecoveryActions, recovered_outcome, recovered_result, recover_one, recover_each,
  accept_each, accept_all, with_results, add_accepted, command_if, recover_for_scheduler,
  session_ids, started_records,
}
use north.Daemon.Coordination.{
  lift, append, append_event_frame, recovered_actions, recover, apply, replay_each, reconcile,
  event_frames,
}
use north.Daemon.Coordination.Accepting.{
  handed, next_accepted, nothing, accept_next_ready_command-Pays, complete_command-Pays,
}
use north.Daemon.Coordination.Run.{times_released}
use north.Daemon.Coordination.Calls.{Pays-lift, in_actions, append-Pays, apply-Pays}

module _ (id : String) where
  abbrev in_recovery : RecoveryActions → ℕ
  in_recovery a = times_released id a.commands

  module _ (w : World) where
    pub append_event_frame-Pays :
        (event_id session_id : String) (e : Event)
        → Pays (fresh id) 0 nothing (append_event_frame w event_id session_id e)
    unfolding append_event_frame
    append_event_frame-Pays event_id session_id e =
        Pays-bind (fresh id) 0 nothing nothing (lift (append w event_id session_id e))
          (λ a. pure (DaemonFrame.event a.envelope))
          (Pays-lift (fresh id) 0 nothing (append w event_id session_id e)
            (append-Pays id w event_id session_id e))
          (λ a. Pays-pure (fresh id) 0 nothing (DaemonFrame.event a.envelope) (omega arith))

    replay-Pays :
        (session : SessionReconcileState)
        → Pays
            (fresh id)
            0
            nothing
            (lift (λ s. require (replay_events session.session_id session s.state) s))
    replay-Pays session =
        Pays-lift (fresh id) 0 nothing
          (λ s. require (replay_events session.session_id session s.state) s)
          (Pays-reading (fresh id) 0 nothing
            (λ s. require (replay_events session.session_id session s.state))
            (λ s.
              Pays-require (fresh id) 0 nothing (replay_events session.session_id session s.state)
                (λ a. omega arith)))

    replay_each-Pays :
        (sessions : List SessionReconcileState) → Pays (fresh id) 0 nothing (replay_each w sessions)
    unfolding replay_each
    replay_each-Pays [] = Pays-pure (fresh id) 0 nothing [] (omega arith)
    replay_each-Pays (session ∷ sessions) =
        Pays-bind (fresh id) 0 nothing nothing
          (lift (λ s. require (replay_events session.session_id session s.state) s))
          (λ events. replay_each w sessions >>= λ frames. pure (event_frames events ++ frames))
          (replay-Pays session)
          (λ events.
            Pays-bind (fresh id) 0 nothing nothing (replay_each w sessions)
              (λ frames. pure (event_frames events ++ frames)) (replay_each-Pays sessions)
              (λ frames.
                Pays-pure (fresh id) 0 nothing (event_frames events ++ frames) (omega arith)))

    pub reconcile-Pays :
        (snapshot : ReconcileSnapshot) → Pays (fresh id) 0 nothing (reconcile w snapshot)
    unfolding reconcile
    reconcile-Pays snapshot =
        Pays-bind (fresh id) 0 nothing nothing (lift (apply w snapshot))
          (λ _. replay_each w snapshot.sessions)
          (Pays-lift (fresh id) 0 nothing (apply w snapshot) (apply-Pays id w snapshot))
          (λ _. replay_each-Pays snapshot.sessions)

    module _ (status : CommandRecord → RecoveryOutcome) where
      recover_one-Pays : (r : CommandRecord) → Pays (fresh id) 0 nothing (recover_one w status r)
      unfolding recover_one
      recover_one-Pays r =
          let outcome = recovered_outcome r.command_id (status r) in
          Pays-bind (fresh id) 0 nothing nothing (complete_command w r.command_id outcome [])
            (λ emitted. pure (recovered_result r outcome emitted))
            (complete_command-Pays id w r.command_id outcome [])
            (λ emitted.
              Pays-pure (fresh id) 0 nothing (recovered_result r outcome emitted) (omega arith))

      recover_each-Pays :
          (rs : List CommandRecord) → Pays (fresh id) 0 nothing (recover_each w status rs)
      unfolding recover_each
      recover_each-Pays [] = Pays-pure (fresh id) 0 nothing [] (omega arith)
      recover_each-Pays (r ∷ rs) =
          Pays-bind (fresh id) 0 nothing nothing (recover_one w status r)
            (λ result. recover_each w status rs >>= λ results. pure (result ∷ results))
            (recover_one-Pays r)
            (λ result.
              Pays-bind (fresh id) 0 nothing nothing (recover_each w status rs)
                (λ results. pure (result ∷ results)) (recover_each-Pays rs)
                (λ results. Pays-pure (fresh id) 0 nothing (result ∷ results) (omega arith)))

      add_accepted-released :
          (next : Option CommandAcceptance) (actions : RecoveryActions)
          → in_recovery (add_accepted next actions) ≤ next_accepted id next + in_recovery actions
      unfolding times_released
      add_accepted-released none actions = omega arith
      add_accepted-released (some a) actions = by_command a.command
        where
          by_command :
              (o : Option CommandEnvelope)
              → times_released id (command_if o actions.commands)
                ≤ handed id o + in_recovery actions
          by_command none = omega arith
          by_command (some c) = omega arith

      accept_each-Pays :
          (sessions : List String) → Pays (fresh id) 0 in_recovery (accept_each w status sessions)
      unfolding accept_each times_released
      accept_each-Pays [] =
          Pays-pure (fresh id) 0 in_recovery (record { results = []; commands = [] }) (omega arith)
      accept_each-Pays (session_id ∷ rest) =
          Pays-bind (fresh id) 0 (next_accepted id) in_recovery
            (accept_next_ready_command w session_id)
            (λ next. accept_each w status rest >>= λ actions. pure (add_accepted next actions))
            (accept_next_ready_command-Pays id w session_id)
            (λ next.
              Pays-bind (fresh id) (next_accepted id next)
                (λ actions. next_accepted id next + in_recovery actions) in_recovery
                (accept_each w status rest) (λ actions. pure (add_accepted next actions))
                (Pays-frame (fresh id) (next_accepted id next) in_recovery
                  (accept_each w status rest) (accept_each-Pays rest))
                (λ actions.
                  Pays-pure (fresh id) (next_accepted id next + in_recovery actions) in_recovery
                    (add_accepted next actions) (add_accepted-released next actions)))

      recover_for_scheduler-Pays : Pays (fresh id) 0 in_recovery (recover_for_scheduler w status)
      unfolding recover_for_scheduler accept_all
      recover_for_scheduler-Pays =
          let each = λ (s : Store). recover_each w status (started_records s.state.commands) in
          let finish = λ (s : Store). each s >>= λ results.
          accept_all w status >>= λ actions. pure (with_results w status results actions) in
          Pays-reading (fresh id) 0 in_recovery finish (λ s.
            Pays-bind (fresh id) 0 nothing in_recovery (each s)
              (λ results.
                accept_all w status >>= λ actions. pure (with_results w status results actions))
              (recover_each-Pays (started_records s.state.commands))
              (λ results.
                Pays-bind (fresh id) 0 in_recovery in_recovery (accept_all w status)
                  (λ actions. pure (with_results w status results actions))
                  (Pays-reading (fresh id) 0 in_recovery
                    (λ t. accept_each w status (session_ids t.state.sessions))
                    (λ t. accept_each-Pays (session_ids t.state.sessions)))
                  (λ actions.
                    Pays-pure (fresh id) (in_recovery actions) in_recovery
                      (with_results w status results actions) (omega arith))))

      pub recover-Pays : Pays (fresh id) 0 (in_actions id) (recover w status)
      unfolding recover
      recover-Pays =
          Pays-bind (fresh id) 0 in_recovery (in_actions id) (lift (recover_for_scheduler w status))
            (λ recovery. pure (recovered_actions w recovery))
            (Pays-lift (fresh id) 0 in_recovery (recover_for_scheduler w status)
              recover_for_scheduler-Pays)
            (λ recovery.
              Pays-pure (fresh id) (in_recovery recovery) (in_actions id)
                (recovered_actions w recovery) (omega arith))
