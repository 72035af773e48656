-- ===== src/Daemon/Journal/Finish/Numbers.antt =====
-- The numbers of the events and the acknowledgements, when a command is taken in, started and finished
-- by crates/north-daemon/src/journal.rs.
use north.Common.{◌≡◌, refl, subst, String, List, some, ok}
use north.Common.Map.{string_eq}
use north.Protocol.Event.{EventEnvelope, Event}
use north.Daemon.Scheduler.{DispatchOutcome}
use north.Daemon.Journal.{JournalFile}
use north.Daemon.Journal.Identity.{next_event_sequence}
use north.Daemon.Journal.Events.{record_of, envelope_of}
use north.Daemon.Journal.Events.Sequence.{push_event-IsNumbered}
use north.Daemon.Journal.Acks.Tracked.{IsTracked, IsSparse, insert-IsTracked}
use north.Daemon.Journal.Changes.{}
use north.Daemon.Journal.Commands.Prepares.{SameButCommands}
use north.Daemon.Journal.Finish.{emit, finished, finish_command}
use north.Daemon.Journal.Finish.Laws.{finish_command-keeps}
use north.Daemon.Journal.Finish.Cursor.{advance_processed-IsAdvanced}
use north.Daemon.Journal.Numbers.{IsNumbered}
use north.Daemon.Coordination.Run.{}

pub SameButCommands-IsNumbered :
    (before after : JournalFile)
    → SameButCommands before after
    → IsNumbered before
    → IsNumbered after
SameButCommands-IsNumbered before after (cs, same) numbered =
    subst IsNumbered same (λ session_id n below. numbered session_id n below)

pub SameButCommands-IsTracked :
    (before after : JournalFile)
    → SameButCommands before after
    → IsTracked before.sessions
    → IsTracked after.sessions
SameButCommands-IsTracked before after (cs, same) tracked =
    subst (λ (f : JournalFile). IsTracked f.sessions) same tracked

module _ (payload_digest : EventEnvelope → String) (daemon_id now : String) where
  emit-IsNumbered :
      (event_id session_id : String) (e : Event) (state : JournalFile)
      → IsNumbered state
      → IsNumbered (emit payload_digest daemon_id now event_id session_id e state).1
  unfolding emit
  emit-IsNumbered event_id session_id e state numbered =
      let envelope = envelope_of event_id session_id (next_event_sequence state session_id) now e in
      push_event-IsNumbered (record_of daemon_id envelope (payload_digest envelope)) state refl
        numbered

  emit-IsTracked :
      (event_id session_id : String) (e : Event) (state : JournalFile)
      → IsTracked state.sessions
      → IsTracked (emit payload_digest daemon_id now event_id session_id e state).1.sessions
  unfolding emit
  emit-IsTracked event_id session_id e state tracked = tracked

  pub finish_command-IsNumbered :
      (command_id : String) (outcome : DispatchOutcome) (events : List Event)
      (before after : JournalFile) (sent : List EventEnvelope)
      → finish_command payload_digest daemon_id now command_id outcome events before
        ≡ some (ok (after, sent))
      → IsNumbered before
      → IsNumbered after
  finish_command-IsNumbered command_id outcome events before after sent h numbered =
      finish_command-keeps payload_digest daemon_id now IsNumbered emit-IsNumbered command_id
        outcome events before after sent h
        (λ session_id advanced e.
          let (t, moved, same) =
            advance_processed-IsAdvanced session_id (finished now command_id outcome before)
              advanced e in
          subst IsNumbered same (λ session n below. numbered session n below))

  pub finish_command-IsTracked :
      (command_id : String) (outcome : DispatchOutcome) (events : List Event)
      (before after : JournalFile) (sent : List EventEnvelope)
      → finish_command payload_digest daemon_id now command_id outcome events before
        ≡ some (ok (after, sent))
      → IsTracked before.sessions
      → IsTracked after.sessions
  finish_command-IsTracked command_id outcome events before after sent h tracked =
      finish_command-keeps payload_digest daemon_id now (λ f. IsTracked f.sessions) emit-IsTracked
        command_id outcome events before after sent h
        (λ session_id advanced e.
          let (t, (n, moved, above), same) =
            advance_processed-IsAdvanced session_id (finished now command_id outcome before)
              advanced e in
          let sparse = subst IsSparse moved (tracked session_id) in
          subst (λ (f : JournalFile). IsTracked f.sessions) same
            (insert-IsTracked session_id t before.sessions sparse tracked))
