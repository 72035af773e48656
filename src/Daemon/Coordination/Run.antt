-- ===== src/Daemon/Coordination/Run.antt =====
-- What drives the coordinator of crates/north-daemon/src/coordination.rs: the calls that
-- crates/north-daemon/src/main.rs makes, in any order, and restarts of the daemon in between.
use north.Common.{ℕ, ◌+◌, String, str_eq, List, [], ◌∷◌, ◌++◌, Result, ok, err, if◌then◌else◌}
use north.Protocol.Command.{CommandEnvelope}
use north.Protocol.Event.{Event}
use north.Protocol.Reconcile.{ReconcileSnapshot}
use north.Protocol.Frame.{ServerFrame, DaemonFrame}
use north.Daemon.Exec.{pure, ◌>>=◌}
use north.Daemon.Scheduler.{DispatchOutcome}
use north.Daemon.Journal.{JournalError, JournalFile, default_file, CommandRecord}
use north.Daemon.Journal.Store.{World, Store}
use north.Daemon.Journal.Recovery.{RecoveryOutcome, open_with_config}
use north.Daemon.Coordination.{
  RuntimeActions, Failure, refused, journal, Call, accept_server_frame, finish_runtime,
  append_event_frame, recover, reconcile,
}

pub data Action : Type 0 where
  server_frame : ServerFrame → Action
  finished : String → String → DispatchOutcome → List Event → Action
  event : String → String → Event → Action
  reconciled : ReconcileSnapshot → Action
  recovered : (CommandRecord → RecoveryOutcome) → Action
  restarted : Action

abbrev pub only_frames : List DaemonFrame → RuntimeActions
only_frames frames = record { frames = frames; commands = [] }

abbrev pub opened : Result JournalFile JournalError → Store → Result RuntimeActions Failure × Store
opened (ok state) s = (ok (only_frames []), record s { state = state })
opened (err error) s = (err (refused (journal error)), s)

-- A restart reads the file again, and what was in memory is lost.
unfoldable pub restart : World → Call RuntimeActions
unfolding open_with_config
restart w s = opened (open_with_config w.daemon_id s.disk) s

unfoldable pub act : World → Action → Call RuntimeActions
unfolding accept_server_frame finish_runtime append_event_frame recover reconcile restart
act w (server_frame frame) = accept_server_frame w frame
act w (finished session_id command_id outcome events) =
    finish_runtime w session_id command_id outcome events
act w (event event_id session_id e) =
    append_event_frame w event_id session_id e >>= λ frame. pure (only_frames (frame ∷ []))
act w (reconciled snapshot) = reconcile w snapshot >>= λ frames. pure (only_frames frames)
act w (recovered status) = recover w status
act w restarted = restart w

abbrev pub released_by : Result RuntimeActions Failure → List CommandEnvelope
released_by (ok actions) = actions.commands
released_by (err failure) = []

-- The commands that a sequence of calls hands to the scheduler, and the store that it leaves; a call
-- that fails hands out nothing.
unfoldable pub run : World → List Action → Store → List CommandEnvelope × Store
unfolding act
run w [] s = ([], s)
run w (a ∷ rest) s =
    let (result, after) = act w a s in
    let (later, end) = run w rest after in (released_by result ++ later, end)

-- How often the command is among them.
unfoldable pub times_released : String → List CommandEnvelope → ℕ
times_released command_id [] = 0
times_released command_id (c ∷ cs) =
    (if str_eq c.command_id command_id then 1 else 0) + times_released command_id cs

-- A daemon that starts with no file.
abbrev pub new_store : Store
new_store = record { state = default_file; disk = default_file; tick = 0 }
