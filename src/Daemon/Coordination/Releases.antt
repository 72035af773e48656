-- ===== src/Daemon/Coordination/Releases.antt =====
-- The coordinator of crates/north-daemon/src/coordination.rs hands no command out twice.
use north.Common.{◌+◌, ◌≤◌, ◌≡◌, refl, sym, subst, String, List, [], ◌∷◌, Result, ok, err, arith}
use north.Protocol.Frame.{DaemonFrame}
use north.Daemon.Exec.{pure, ◌>>=◌}
use north.Daemon.Journal.{JournalError, JournalFile}
use north.Daemon.Journal.Commands.Fresh.{fresh}
use north.Daemon.Journal.Store.{World, Store}
use north.Daemon.Journal.Store.Paying.{potential, worth, Pays, Pays-pure, Pays-bind}
use north.Daemon.Journal.Recovery.{open_with_config}
use north.Daemon.Coordination.{RuntimeActions, Failure, Call, append_event_frame, reconcile}
use north.Daemon.Coordination.Accepting.{nothing}
use north.Daemon.Coordination.Run.{
  Action, server_frame, finished, event, reconciled, recovered, restarted, only_frames, opened,
  restart, act, released_by, run, times_released, new_store,
}
use north.Daemon.Coordination.Calls.{
  in_actions, times_released-append, accept_server_frame-Pays, finish_runtime-Pays,
}
use north.Daemon.Coordination.Recovering.{append_event_frame-Pays, reconcile-Pays, recover-Pays}

module _ (id : String) where
  module _ (w : World) where
    only_frames-Pays :
        {T : Type 0} (m : Call T) (frames : T → List DaemonFrame)
        → Pays (fresh id) 0 nothing m
        → Pays (fresh id) 0 (in_actions id) (m >>= λ a. pure (only_frames (frames a)))
    unfolding times_released
    only_frames-Pays m frames p =
        Pays-bind (fresh id) 0 nothing (in_actions id) m (λ a. pure (only_frames (frames a))) p
          (λ a. Pays-pure (fresh id) 0 (in_actions id) (only_frames (frames a)) (omega arith))

    opened_pays :
        (r : Result JournalFile JournalError) (s : Store)
        → ((state : JournalFile) → r ≡ ok state → state ≡ s.disk)
        → worth (in_actions id) (opened r s).0 + potential (fresh id) (opened r s).1
          ≤ potential (fresh id) s
    unfolding times_released
    opened_pays (ok state) s same =
        subst
          (λ (f : JournalFile).
            0 + potential (fresh id) (record s { state = f }) ≤ potential (fresh id) s)
          (sym (same state refl)) (omega arith)
    opened_pays (err e) s same = omega arith

    restart-Pays : Pays (fresh id) 0 (in_actions id) (restart w)
    unfolding restart open_with_config
    restart-Pays = record {
      pays = λ s.
          let paid =
            opened_pays (open_with_config w.daemon_id s.disk) s (λ state h. ground arith) in
          omega (arith, paid);
    }

    act-Pays : (a : Action) → Pays (fresh id) 0 (in_actions id) (act w a)
    unfolding act
    act-Pays (server_frame frame) = accept_server_frame-Pays id w frame
    act-Pays (finished session_id command_id outcome events) =
        finish_runtime-Pays id w session_id command_id outcome events
    act-Pays (event event_id session_id e) =
        only_frames-Pays (append_event_frame w event_id session_id e) (λ frame. frame ∷ [])
          (append_event_frame-Pays id w event_id session_id e)
    act-Pays (reconciled snapshot) =
        only_frames-Pays (reconcile w snapshot) (λ frames. frames) (reconcile-Pays id w snapshot)
    act-Pays (recovered status) = recover-Pays id w status
    act-Pays restarted = restart-Pays

    released_by-worth :
        (r : Result RuntimeActions Failure)
        → times_released id (released_by r) ≤ worth (in_actions id) r
    unfolding times_released
    released_by-worth (ok actions) = omega arith
    released_by-worth (err e) = omega arith

    run_pays :
        (actions : List Action) (s : Store)
        → times_released id (run w actions s).0 ≤ potential (fresh id) s
    unfolding run times_released
    run_pays [] s = omega arith
    run_pays (a ∷ rest) s =
        let paid = (act-Pays a).pays s in
        let worthy = released_by-worth (act w a s).0 in
        let later = run_pays rest (act w a s).1 in
        let split =
          times_released-append id (released_by (act w a s).0) (run w rest (act w a s).1).0 in
        omega (arith, paid, worthy, later, split)

-- A command is handed to the scheduler at most once: in every sequence of frames from the server,
-- results of the runtime, new events, reconciliations, recoveries and restarts of a daemon that starts
-- with no journal, whatever the clock shows and whichever writes of the journal fail, before or after
-- the rename, no command ID stands twice among the commands that are handed out.
pub run-times_released :
    (w : World) (actions : List Action) (command_id : String)
    → times_released command_id (run w actions new_store).0 ≤ 1
unfolding fresh
run-times_released w actions command_id = omega (arith, run_pays command_id w actions new_store)

-- A command that the journal has started, finished or compacted, in memory and in the file, is never
-- handed to the scheduler again, by any sequence of calls and restarts and whichever writes fail.
pub run_never_released :
    (w : World) (actions : List Action) (command_id : String) (s : Store)
    → fresh command_id s.state ≡ 0
    → fresh command_id s.disk ≡ 0
    → times_released command_id (run w actions s).0 ≡ 0
run_never_released w actions command_id s in_memory in_file =
    omega (arith, run_pays command_id w actions s, in_memory, in_file)
