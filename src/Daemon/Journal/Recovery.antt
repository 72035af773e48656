-- ===== src/Daemon/Journal/Recovery.antt =====
-- The recovery of the journal of crates/north-daemon/src/journal.rs after a restart of the daemon.
use north.Common.{
  String, str_eq, List, [], ◌∷◌, ◌++◌, Option, none, some, Bool, true, false, not, ◌||◌, Result, ok,
  err, any, ◌==◌, if◌then◌else◌,
}
use Prim.Native.Nat.{Ordering}
use Prim.Native.String.{compare, ◌++◌ as ◌+++◌}
use north.Common.Decimal.{decimal}
use north.Common.Map.{Map}
use north.Protocol.Command.{CommandEnvelope}
use north.Protocol.Event.{EventEnvelope}
use north.Daemon.Exec.{pure, ◌>>=◌}
use north.Daemon.Scheduler.{DispatchOutcome}
use north.Daemon.Journal.{
  JournalError, format, JournalFile, SessionJournal, terminal, CommandRecord, CommandTombstone,
  EventRecord, EventTombstone,
}
use north.Daemon.Journal.Store.{World, Method}
use north.Daemon.Journal.Accept.{
  CommandProcessResult, CommandAcceptance, command_ack, is_started, accept_next_ready_command,
  complete_command,
}

-- What the runtime knows of an operation that was started before the restart.
pub data RecoveryOutcome : Type 0 where
  dispatch_succeeded : RecoveryOutcome
  dispatch_failed : String → RecoveryOutcome
  unknown : RecoveryOutcome

pub record RecoveryActions : Type 0 where
  pub results : List CommandProcessResult
  pub commands : List CommandEnvelope

unfoldable pub wrong_identity : String → JournalFile → Bool
wrong_identity daemon_id state =
    any (λ (r : CommandRecord). not (str_eq r.daemon_id daemon_id)) state.commands
    || any (λ (t : CommandTombstone). not (str_eq t.daemon_id daemon_id)) state.command_tombstones
    || any (λ (r : EventRecord). not (str_eq r.daemon_id daemon_id)) state.events
    || any (λ (t : EventTombstone). not (str_eq t.daemon_id daemon_id)) state.event_tombstones

-- `open_with_config` on a file that was read; a file that is missing is the new journal.
unfoldable pub open_with_config : String → JournalFile → Result JournalFile JournalError
unfolding wrong_identity decimal
open_with_config daemon_id state =
    if not (state.format_version == 1)
    then err (format ("unsupported format version " +++ decimal state.format_version))
    else if wrong_identity daemon_id state
    then err (format "journal belongs to another daemon identity")
    else ok state

abbrev is_before : Ordering → Bool
is_before Ordering.gt = false
is_before _ = true

unfoldable pub insert_key : String → List String → List String
insert_key k [] = k ∷ []
insert_key k (j ∷ js) =
    let rest = insert_key k js in if is_before (compare k j) then k ∷ j ∷ js else j ∷ rest

-- The keys of the sessions, in ascending order.
unfoldable pub session_ids : Map String SessionJournal → List String
unfolding insert_key
session_ids [] = []
session_ids ((session_id, s) ∷ sessions) = insert_key session_id (session_ids sessions)

unfoldable pub unknown_reason : String → String
unknown_reason command_id =
    "command_id=" +++ (command_id +++ (" runtime_operation_id=" +++ command_id))

unfoldable pub recovered_outcome : String → RecoveryOutcome → DispatchOutcome
unfolding unknown_reason
recovered_outcome command_id RecoveryOutcome.dispatch_succeeded = DispatchOutcome.dispatch_succeeded
recovered_outcome command_id (RecoveryOutcome.dispatch_failed reason) =
    DispatchOutcome.dispatch_failed reason
recovered_outcome command_id RecoveryOutcome.unknown =
    DispatchOutcome.unknown (unknown_reason command_id)

unfoldable pub started_records : List CommandRecord → List CommandRecord
started_records [] = []
started_records (r ∷ rs) =
    let rest = started_records rs in if is_started r.state then r ∷ rest else rest

abbrev pub recovered_result :
    CommandRecord → DispatchOutcome → List EventEnvelope → CommandProcessResult
recovered_result r outcome emitted = record {
  acknowledgement = command_ack r;
  state = terminal;
  outcome = some outcome;
  duplicate = false;
  buffered = false;
  emitted_events = emitted;
}

abbrev pub command_if : Option CommandEnvelope → List CommandEnvelope → List CommandEnvelope
command_if none commands = commands
command_if (some command) commands = command ∷ commands

abbrev pub add_accepted : Option CommandAcceptance → RecoveryActions → RecoveryActions
add_accepted none actions = actions
add_accepted (some a) actions = record {
  results = a.result ∷ actions.results;
  commands = command_if a.command actions.commands;
}

-- `status` is what the runtime answers for a record.
module _ (w : World) (status : CommandRecord → RecoveryOutcome) where
  unfoldable pub recover_one : CommandRecord → Method CommandProcessResult
  unfolding complete_command recovered_outcome
  recover_one r =
      let outcome = recovered_outcome r.command_id (status r) in
      complete_command w r.command_id outcome [] >>= λ emitted.
      pure (recovered_result r outcome emitted)

  unfoldable pub recover_each : List CommandRecord → Method (List CommandProcessResult)
  unfolding recover_one
  recover_each [] = pure []
  recover_each (r ∷ rs) =
      recover_one r >>= λ result. recover_each rs >>= λ results. pure (result ∷ results)

  unfoldable pub accept_each : List String → Method RecoveryActions
  unfolding accept_next_ready_command
  accept_each [] = pure (record { results = []; commands = [] })
  accept_each (session_id ∷ rest) = accept_next_ready_command w session_id >>= λ accepted.
      accept_each rest >>= λ actions. pure (add_accepted accepted actions)

  unfoldable pub accept_all : Method RecoveryActions
  unfolding accept_each session_ids
  accept_all s = accept_each (session_ids s.state.sessions) s

  abbrev pub with_results : List CommandProcessResult → RecoveryActions → RecoveryActions
  with_results results actions = record {
    results = results ++ actions.results;
    commands = actions.commands;
  }

  unfoldable pub recover_for_scheduler : Method RecoveryActions
  unfolding recover_each accept_all started_records
  recover_for_scheduler s =
      (recover_each (started_records s.state.commands) >>= λ results.
      accept_all >>= λ actions. pure (with_results results actions))
        s
