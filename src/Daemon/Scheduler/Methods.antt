-- ===== src/Daemon/Scheduler/Methods.antt =====
-- The admission of commands (crates/north-daemon/src/scheduler.rs): `schedule` and what it calls.
use north.Common.{
  ℕ, zero, suc, String, str_eq, List, [], ◌∷◌, ◌++◌, is_empty, Option, none, some, Bool, true,
  false, not, ◌&&◌, ◌||◌, if◌then◌else◌, ok,
}
use north.Common.Map.{lookup, insert, contains_key, string_eq}
use north.Protocol.Command.{CommandEnvelope}
use north.Daemon.Control
use north.Daemon.Control.{RuntimeControl, RuntimeLifecycle, preparing}
use north.Daemon.Exec.{pure, raise, gets, modify, ◌>>=◌, ◌>>◌}
use north.Daemon.Scheduler.{
  M, QueuedRuntime, dispatch_succeeded, already_active, channel_closed, is_cancel, control_at,
  update_control, is_active, send, cancelled_event,
}

unfoldable pub control_entry : CommandEnvelope → Option ℕ → M ℕ
control_entry command (some ref) s = (ok ref, s)
control_entry command none s = (
  ok s.store.next,
  record s {
    controls = insert command.session_id s.store.next s.controls;
    store = Control.allocate (Control.new command.session_id command.command_id) s.store;
  },
)

-- `entry(session_id).or_insert_with(RuntimeControl::new).clone()`
unfoldable pub control_for : CommandEnvelope → M ℕ
unfolding control_entry
control_for command = do
  entry ← gets (λ s. lookup command.session_id s.controls)
  control_entry command entry

-- `mark_terminal_fact_emitted`, on a shared control.
unfoldable pub mark_terminal : ℕ → M Bool
mark_terminal ref s = (
  ok (Control.mark_terminal_fact_emitted (control_at ref s)).1,
  record s { store = Control.modify (λ c. (Control.mark_terminal_fact_emitted c).0) ref s.store },
)

unfoldable pub report_closed : Bool → M (Unit {0})
report_closed true = pure tt
report_closed false = raise channel_closed

-- The last expression of `suppress`: a send that reports a closed channel.
unfoldable pub send_suppressed : CommandEnvelope → Bool → M (Unit {0})
send_suppressed command first = do
  is_open ← gets (λ s. s.channel_open)
  modify (
      send (record {
        session_id = command.session_id;
        command_id = command.command_id;
        runtime_operation_id = command.command_id;
        outcome = dispatch_succeeded;
        events = if first then cancelled_event ∷ [] else [];
      }))
  report_closed is_open

unfoldable pub suppress : CommandEnvelope → ℕ → M (Unit {0})
suppress command control = do
  modify (λ s. record s { suppressed = insert command.command_id control s.suppressed })
  first ← mark_terminal control
  send_suppressed command first

-- `try_acquire_owned`: whether there was a permit.
unfoldable pub try_acquire : M Bool
try_acquire s = elim s.permits [
  | zero ↦ (ok false, s)
  | suc n ↦ (ok true, record s { permits = n })
]

-- The permit is held by the worker, or given back where the session is active already.
unfoldable pub claim_session : CommandEnvelope → ℕ → Bool → M (Unit {0})
claim_session command control true = do
  modify (λ s. record s { permits = suc s.permits })
  raise (already_active command.session_id)
claim_session command control false = modify (λ s. record s {
  active =
      insert command.session_id (record { command_id = command.command_id; control = control })
        s.active;
  workers =
      s.workers
      ++ record {
        session_id = command.session_id;
        command_id = command.command_id;
        runtime_operation_id = command.command_id;
        command = command.command;
        control = control;
      }
        ∷ [];
})

unfoldable pub spawn_runtime : CommandEnvelope → ℕ → M (Unit {0})
spawn_runtime command control = do
  update_control (Control.set_active_command_id command.command_id) control
  update_control (Control.set_lifecycle preparing) control
  active ← is_active command.session_id
  claim_session command control active

unfoldable pub enqueue : CommandEnvelope → ℕ → M (Unit {0})
enqueue command control = do
  update_control (Control.set_lifecycle RuntimeLifecycle.queued) control
  modify (λ s. record s {
    queued_runtimes = s.queued_runtimes ++ record { command = command; control = control } ∷ [];
  })

unfoldable pub start_with_permit : CommandEnvelope → ℕ → Bool → M (Unit {0})
start_with_permit command control true = spawn_runtime command control
start_with_permit command control false = enqueue command control

unfoldable pub start_or_enqueue : CommandEnvelope → ℕ → Bool → M (Unit {0})
start_or_enqueue command control true = enqueue command control
start_or_enqueue command control false = do
  permit ← try_acquire
  start_with_permit command control permit

-- `refused`: the control is cancelled, and the command is not a cancellation itself.
unfoldable pub admit : CommandEnvelope → ℕ → Bool → M (Unit {0})
admit command control true = suppress command control
admit command control false = do
  active ← is_active command.session_id
  start_or_enqueue command control active

unfoldable pub schedule_runtime_inner : CommandEnvelope → ℕ → M (Unit {0})
schedule_runtime_inner command control = do
  cancelled ← gets (λ s. RuntimeControl.cancellation_requested (control_at control s))
  admit command control (cancelled && not (is_cancel command.command))

-- The queued runtimes of a session, and the others, in order.
unfoldable pub of_session : String → List QueuedRuntime → List QueuedRuntime
of_session session_id [] = []
of_session session_id (item ∷ queue) =
    let rest = of_session session_id queue in
    if str_eq item.command.session_id session_id then item ∷ rest else rest

unfoldable pub of_others : String → List QueuedRuntime → List QueuedRuntime
of_others session_id [] = []
of_others session_id (item ∷ queue) =
    let rest = of_others session_id queue in
    if str_eq item.command.session_id session_id then rest else item ∷ rest

unfoldable pub remove_queued : String → M (List QueuedRuntime)
remove_queued session_id s = (
  ok (of_session session_id s.queued_runtimes),
  record s { queued_runtimes = of_others session_id s.queued_runtimes },
)

-- `for queued in queued { self.suppress(..)?; }`
unfoldable pub suppress_all : List QueuedRuntime → M (Unit {0})
suppress_all [] = pure tt
suppress_all (item ∷ items) = do suppress item.command item.control; suppress_all items

-- The cancellation is kept for the completions to come, unless one is kept already, and the
-- runtimes that were taken out of the queue are suppressed.
unfoldable pub defer_cancellation : CommandEnvelope → List QueuedRuntime → Bool → M (Unit {0})
defer_cancellation command removed true = suppress_all removed
defer_cancellation command removed false = do
  modify (λ s. record s {
    pending_cancellations = insert command.session_id command s.pending_cancellations;
  })
  suppress_all removed

unfoldable pub run_cancellation : CommandEnvelope → ℕ → Bool → M (Unit {0})
run_cancellation command control true = pure tt
run_cancellation command control false = schedule_runtime_inner command control

-- `busy`: the session is active, or had runtimes in the queue.
unfoldable pub settle_cancellation :
    CommandEnvelope → ℕ → List QueuedRuntime → Bool → Bool → M (Unit {0})
settle_cancellation command control removed true already_pending =
    defer_cancellation command removed already_pending
settle_cancellation command control removed false already_pending =
    run_cancellation command control already_pending

unfoldable pub schedule_cancellation : CommandEnvelope → ℕ → M (Unit {0})
schedule_cancellation command control = do
  update_control Control.request_cancellation control
  modify (λ s. record s { interrupts = s.interrupts ++ command.session_id ∷ [] })
  removed ← remove_queued command.session_id
  active ← is_active command.session_id
  already_pending ← gets (λ s. contains_key command.session_id s.pending_cancellations)
  settle_cancellation command control removed (active || not (is_empty removed)) already_pending

-- `cancel`: the command is a cancellation.
unfoldable pub schedule_with : CommandEnvelope → ℕ → Bool → Bool → M (Unit {0})
schedule_with command control true cancelled = schedule_cancellation command control
schedule_with command control false true = suppress command control
schedule_with command control false false = schedule_runtime_inner command control

unfoldable pub schedule : CommandEnvelope → M (Unit {0})
schedule command = do
  control ← control_for command
  cancelled ← gets (λ s. RuntimeControl.cancellation_requested (control_at control s))
  schedule_with command control (is_cancel command.command) cancelled

unfoldable pub schedule_runtime : CommandEnvelope → M (Unit {0})
schedule_runtime command = do control ← control_for command; schedule_runtime_inner command control
