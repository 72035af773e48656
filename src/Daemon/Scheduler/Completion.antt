-- ===== src/Daemon/Scheduler/Completion.antt =====
-- The completion side of crates/north-daemon/src/scheduler.rs: a worker ends, its completion is
-- received, the queue is drained, and what a session leaves is cleaned up.
use north.Common.{
  ℕ, zero, suc, String, str_eq, List, [], ◌∷◌, ◌++◌, length, any, Option, none, some, Bool, true,
  false, not, ◌&&◌, ◌||◌, if◌then◌else◌, ok,
}
use north.Common.Map.{Map, lookup, remove, contains_key, any_value, is_some, string_eq}
use north.Protocol.Command.{CommandEnvelope}
use north.Protocol.Event.{Event, session_failed}
use north.Daemon.Control
use north.Daemon.Control.{RuntimeControl}
use north.Daemon.Exec.{pure, raise, gets, modify, ◌>>=◌, ◌>>◌}
use north.Daemon.Scheduler.{
  M, RuntimeScheduler, RuntimeCompletion, RuntimeFollowup, finish_cancellation,
  reschedule_cancellation, RuntimeFinished, ActiveRuntime, QueuedRuntime, Worker, DispatchOutcome,
  dispatch_failed, inactive_session, command_mismatch, is_cancel, has_terminal_event, control_at,
  is_active, send,
}
use north.Daemon.Scheduler.Methods.{suppress, try_acquire, spawn_runtime}

-- The executor's answer, or the error of a worker that panicked.
pub data WorkerResult : Type 0 where
  finished : DispatchOutcome → List Event → WorkerResult
  failed : String → WorkerResult

unfoldable pub completion_of : Worker → WorkerResult → RuntimeCompletion
completion_of w (finished outcome events) = record {
  session_id = w.session_id;
  command_id = w.command_id;
  runtime_operation_id = w.runtime_operation_id;
  outcome = outcome;
  events = events;
}
completion_of w (failed message) = record {
  session_id = w.session_id;
  command_id = w.command_id;
  runtime_operation_id = w.runtime_operation_id;
  outcome = dispatch_failed message;
  events = session_failed (record { recoverable = false; reason = "runtime worker failed" }) ∷ [];
}

-- The end of a spawned task: the permit is dropped, and the completion is sent.
unfoldable pub end_worker : Worker → WorkerResult → RuntimeScheduler → RuntimeScheduler
end_worker w result s = send (completion_of w result) (record s { permits = suc s.permits })

-- One round of `drain_queue`, from its last test to its first; `rest` is the rest of the loop.
unfoldable pub drain_with_permit : M (Unit {0}) → QueuedRuntime → Bool → M (Unit {0})
drain_with_permit rest item true = do spawn_runtime item.command item.control; rest
drain_with_permit rest item false =
    modify (λ s. record s { queued_runtimes = item ∷ s.queued_runtimes })

unfoldable pub drain_if_active : M (Unit {0}) → QueuedRuntime → Bool → M (Unit {0})
drain_if_active rest item true = do
  modify (λ s. record s { queued_runtimes = s.queued_runtimes ++ item ∷ [] })
  rest
drain_if_active rest item false = do permit ← try_acquire; drain_with_permit rest item permit

unfoldable pub drain_if_cancelled : M (Unit {0}) → QueuedRuntime → Bool → M (Unit {0})
drain_if_cancelled rest item true = do suppress item.command item.control; rest
drain_if_cancelled rest item false = do
  active ← is_active item.command.session_id
  drain_if_active rest item active

unfoldable pub drain_item : M (Unit {0}) → Option QueuedRuntime → M (Unit {0})
drain_item rest none = pure tt
drain_item rest (some item) = do
  cancelled ← gets (λ s. RuntimeControl.cancellation_requested (control_at item.control s))
  drain_if_cancelled rest item (cancelled && not (is_cancel item.command.command))

-- `pop_front`
unfoldable pub pop_front : M (Option QueuedRuntime)
pop_front s = elim s.queued_runtimes [
  | [] ↦ (ok none, s)
  | item ∷ rest ↦ (ok (some item), record s { queued_runtimes = rest })
]

unfoldable pub drain : ℕ → M (Unit {0})
drain zero = pure tt
drain (suc remaining) = let rest = drain remaining in do item ← pop_front; drain_item rest item

unfoldable pub drain_queue : M (Unit {0})
drain_queue = do remaining ← gets (λ s. length s.queued_runtimes); drain remaining

-- The tests of `maybe_cleanup_control`, each of which keeps the control.
unfoldable pub in_use : String → RuntimeScheduler → Bool
in_use session_id s =
    contains_key session_id s.active
    || any (λ item. str_eq item.command.session_id session_id) s.queued_runtimes
    || any_value (λ ref. str_eq (RuntimeControl.session_id (control_at ref s)) session_id)
        s.suppressed
    || contains_key session_id s.pending_cancellations

unfoldable pub maybe_cleanup_control : String → RuntimeScheduler → RuntimeScheduler
maybe_cleanup_control session_id s = elim (lookup session_id s.controls) [
  | none ↦ s
  | some ref ↦
      if not (RuntimeControl.terminal_fact_emitted (control_at ref s)) || in_use session_id s
      then s
      else record s { controls = remove session_id s.controls }
]

-- The control of a completed command: of a suppressed one, or of the active runtime, which ends.
unfoldable pub end_active : RuntimeCompletion → ActiveRuntime → Bool → M ℕ
end_active completion runtime false = raise (command_mismatch completion.session_id)
end_active completion runtime true = do
  modify (λ s. record s { active = remove completion.session_id s.active })
  pure runtime.control

unfoldable pub take_active : RuntimeCompletion → Option ActiveRuntime → M ℕ
take_active completion none = raise (inactive_session completion.session_id)
take_active completion (some runtime) =
    end_active completion runtime (str_eq runtime.command_id completion.command_id)

unfoldable pub take_control : RuntimeCompletion → Option ℕ → M ℕ
take_control completion (some control) = do
  modify (λ s. record s { suppressed = remove completion.command_id s.suppressed })
  pure control
take_control completion none = do
  runtime ← gets (λ s. lookup completion.session_id s.active)
  take_active completion runtime

unfoldable pub followup_of : Bool → Option CommandEnvelope → Option RuntimeFollowup
followup_of terminal none = none
followup_of terminal (some command) =
    some (if terminal then finish_cancellation command else reschedule_cancellation command)

unfoldable pub mark_if : Bool → ℕ → RuntimeScheduler → RuntimeScheduler
mark_if true control s = record s {
  store = Control.modify (λ c. (Control.mark_terminal_fact_emitted c).0) control s.store;
}
mark_if false control s = s

unfoldable pub cleanup_if : Bool → String → RuntimeScheduler → RuntimeScheduler
cleanup_if true session_id s = maybe_cleanup_control session_id s
cleanup_if false session_id s = s

-- The end of `finish_active`: the queue is drained, then a finished session is cleaned up.
unfoldable pub finish_with : String → Bool → Option RuntimeFollowup → M RuntimeFinished
finish_with session_id terminal followup = do
  drain_queue
  modify (cleanup_if (not (is_some followup) && terminal) session_id)
  pure (record { followup = followup })

-- `finish_active` from where the control is known.
unfoldable pub finish_from : RuntimeCompletion → ℕ → M RuntimeFinished
finish_from completion control = do
  modify (mark_if (has_terminal_event completion.events) control)
  pending ← gets (λ s. lookup completion.session_id s.pending_cancellations)
  modify (λ s. record s {
    pending_cancellations = remove completion.session_id s.pending_cancellations;
  })
  emitted ← gets (λ s. RuntimeControl.terminal_fact_emitted (control_at control s))
  finish_with completion.session_id (has_terminal_event completion.events || emitted)
      (followup_of (has_terminal_event completion.events || emitted) pending)

unfoldable pub finish_active : RuntimeCompletion → M RuntimeFinished
finish_active completion = do
  of_suppressed ← gets (λ s. lookup completion.command_id s.suppressed)
  control ← take_control completion of_suppressed
  finish_from completion control

unfoldable pub finish_followup : CommandEnvelope → RuntimeScheduler → RuntimeScheduler
finish_followup command = maybe_cleanup_control command.session_id

-- Every active session is signalled.
unfoldable pub signal_all : Map String ActiveRuntime → RuntimeScheduler → RuntimeScheduler
signal_all [] s = s
signal_all ((_, runtime) ∷ active) s = signal_all active (record s {
  store = Control.modify Control.request_cancellation runtime.control s.store;
  interrupts = s.interrupts ++ RuntimeControl.session_id (control_at runtime.control s) ∷ [];
})

unfoldable pub request_shutdown : RuntimeScheduler → RuntimeScheduler
request_shutdown s = signal_all s.active s
