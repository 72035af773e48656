-- ===== src/Daemon/Coordination/Keeping/Runs.antt =====
-- What every update keeps, a run of the coordinator keeps, in
-- crates/north-daemon/src/coordination.rs.
use north.Common.{◌≡◌, refl, subst, List, [], ◌∷◌, Result, ok, err, arith}
use north.Common.Map.{string_eq}
use north.Daemon.Exec.{Keeps, pure, Keeps-pure, Keeps-bind}
use north.Daemon.Journal.{JournalError, JournalFile}
use north.Daemon.Journal.Events.Sequence.{}
use north.Daemon.Journal.Changes.{}
use north.Daemon.Journal.Commands.Prepares.{}
use north.Daemon.Journal.Recovery.{open_with_config}
use north.Daemon.Journal.Store.{World, Store}
use north.Daemon.Journal.Store.Keeping.{Both}
use north.Daemon.Coordination.{append_event_frame, reconcile}
use north.Daemon.Coordination.Keeping.{IsKept}
use north.Daemon.Coordination.Keeping.Calls.{
  accept_server_frame-Keeps, finish_runtime-Keeps, append_event_frame-Keeps, reconcile-Keeps,
  recover-Keeps,
}
use north.Daemon.Coordination.Run.{
  Action, server_frame, finished as finished_runtime, event, reconciled, recovered, restarted,
  only_frames, opened, restart, act, run,
}

module _ (P : JournalFile → Type 0) (w : World) (kept : IsKept w P) where
  restart-Keeps : Keeps (Both P) (restart w)
  unfolding restart open_with_config
  restart-Keeps = record {
    at = λ s b. opened_keeps (open_with_config w.daemon_id s.disk) s (λ state h. ground arith) b;
  }
    where
      opened_keeps :
          (r : Result JournalFile JournalError) (s : Store)
          → ((state : JournalFile) → r ≡ ok state → s.disk ≡ state)
          → Both P s
          → Both P (opened r s).1
      opened_keeps (ok state) s same b = (subst P (same state refl) b.1, b.1)
      opened_keeps (err e) s same b = b

  act-Keeps : (a : Action) → Keeps (Both P) (act w a)
  unfolding act
  act-Keeps (server_frame frame) = accept_server_frame-Keeps P w kept frame
  act-Keeps (finished_runtime session_id command_id outcome events) =
      finish_runtime-Keeps P w kept session_id command_id outcome events
  act-Keeps (event event_id session_id e) =
      Keeps-bind (append_event_frame w event_id session_id e)
        (λ frame. pure (only_frames (frame ∷ [])))
        (append_event_frame-Keeps P w kept event_id session_id e)
        (λ frame. Keeps-pure (only_frames (frame ∷ [])))
  act-Keeps (reconciled snapshot) =
      Keeps-bind (reconcile w snapshot) (λ frames. pure (only_frames frames))
        (reconcile-Keeps P w kept snapshot) (λ frames. Keeps-pure (only_frames frames))
  act-Keeps (recovered status) = recover-Keeps P w kept status
  act-Keeps restarted = restart-Keeps

  pub run-Both : (actions : List Action) (s : Store) → Both P s → Both P (run w actions s).1
  unfolding run
  run-Both [] s b = b
  run-Both (a ∷ rest) s b = run-Both rest (act w a s).1 ((act-Keeps a).at s b)
