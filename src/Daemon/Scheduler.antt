-- ===== src/Daemon/Scheduler.antt =====
-- `RuntimeScheduler` of crates/north-daemon/src/scheduler.rs. The fields behind the mutexes are the
-- fields of one state; a method is an action on it. `workers` are the spawned tasks that hold a
-- permit, `completions` is what the channel has received, in order.
pub mod Methods
pub mod Completion
pub mod Permits
pub mod Steps
pub mod Reach
pub mod Conserving
use north.Common.{
  ℕ, ◌+◌, String, List, [], ◌∷◌, ◌++◌, any, Option, Bool, true, false, if◌then◌else◌,
}
use north.Common.Map.{Map, contains_key, string_eq}
use north.Protocol.Command.{Command, CommandEnvelope, session_cancel}
use north.Protocol.Event.{Event, session_completed, session_failed}
use north.Daemon.Control
use north.Daemon.Control.{RuntimeControl, Store}
use north.Daemon.Exec.{Exec, gets, modify}

abbrev pub max_runtime_concurrency : ℕ
max_runtime_concurrency = 4

pub data DispatchOutcome : Type 0 where
  dispatch_succeeded : DispatchOutcome
  dispatch_failed unknown : String → DispatchOutcome

pub record RuntimeCompletion : Type 0 where
  pub session_id : String
  pub command_id : String
  pub runtime_operation_id : String
  pub outcome : DispatchOutcome
  pub events : List Event

pub data RuntimeFollowup : Type 0 where
  finish_cancellation reschedule_cancellation : CommandEnvelope → RuntimeFollowup

pub record RuntimeFinished : Type 0 where
  pub followup : Option RuntimeFollowup

-- A control is a reference into the store.
pub record ActiveRuntime : Type 0 where
  pub command_id : String
  pub control : ℕ

pub record QueuedRuntime : Type 0 where
  pub command : CommandEnvelope
  pub control : ℕ

pub record Worker : Type 0 where
  pub session_id : String
  pub command_id : String
  pub runtime_operation_id : String
  pub command : Command
  pub control : ℕ

-- The errors that the methods return; those of a poisoned mutex do not arise, since no code panics
-- while it holds a lock.
pub data SchedulerError : Type 0 where
  inactive_session command_mismatch already_active : String → SchedulerError
  channel_closed : SchedulerError

pub record RuntimeScheduler : Type 0 where
  pub active : Map String ActiveRuntime
  pub controls : Map String ℕ
  pub pending_cancellations : Map String CommandEnvelope
  pub suppressed : Map String ℕ
  pub queued_runtimes : List QueuedRuntime
  pub permits : ℕ
  pub workers : List Worker
  pub completions : List RuntimeCompletion
  pub channel_open : Bool
  -- the sessions for which the executor was asked to interrupt its child
  pub interrupts : List String
  pub store : Store

abbrev pub M : Type 0 → Type 0
M = Exec RuntimeScheduler SchedulerError

unfoldable pub new : Store → RuntimeScheduler
new store = record {
  active = [];
  controls = [];
  pending_cancellations = [];
  suppressed = [];
  queued_runtimes = [];
  permits = max_runtime_concurrency;
  workers = [];
  completions = [];
  channel_open = true;
  interrupts = [];
  store = store;
}

-- `matches!(command, Command::SessionCancel(_))`
unfoldable pub is_cancel : Command → Bool
is_cancel (session_cancel _) = true
is_cancel _ = false

abbrev is_terminal : Event → Bool
is_terminal (session_completed _) = true
is_terminal (session_failed _) = true
is_terminal _ = false

unfoldable pub has_terminal_event : List Event → Bool
has_terminal_event = any is_terminal

-- The control that a reference points to.
abbrev pub control_at : ℕ → RuntimeScheduler → RuntimeControl
control_at ref s = s.store.at ref

abbrev pub update_control : (RuntimeControl → RuntimeControl) → ℕ → M (Unit {0})
update_control f ref = modify (λ s. record s { store = Control.modify f ref s.store })

unfoldable pub is_active : String → M Bool
is_active session_id = gets (λ s. contains_key session_id s.active)

-- A completion into the channel; the send fails once the receiver is gone.
abbrev pub send : RuntimeCompletion → RuntimeScheduler → RuntimeScheduler
send completion s = record s {
  completions = if s.channel_open then s.completions ++ completion ∷ [] else s.completions;
}

abbrev pub cancelled_event : Event
cancelled_event =
    session_completed (record { summary = "Clarification runtime cancelled before execution" })
