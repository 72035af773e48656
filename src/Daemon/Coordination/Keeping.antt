-- ===== src/Daemon/Coordination/Keeping.antt =====
-- What the updates of crates/north-daemon/src/journal.rs keep, the calls of
-- crates/north-daemon/src/coordination.rs keep in memory and on the disk.
pub mod Calls
pub mod Runs
use north.Common.{
  ◌≡◌, subst, String, List, Option, none, some, Bool, true, false, Result, ok, err, map_err, arith,
  if◌then◌else◌, find,
}
use north.Protocol.Command.{CommandEnvelope}
use north.Protocol.Event.{Event, EventAck}
use north.Protocol.Frame.{ServerFrame, server_validate}
use north.Protocol.Reconcile.{ReconcileSnapshot}
use north.Daemon.Exec.{Exec, pure, gets, ◌>>=◌, Keeps, Keeps-pure, Keeps-gets, Keeps-bind}
use north.Daemon.Scheduler.{DispatchOutcome}
use north.Daemon.Journal.{JournalError, protocol, JournalFile, CommandRecord}
use north.Daemon.Journal.Events.{append_event}
use north.Daemon.Journal.Acks.{acknowledge_event, apply_reconciliation}
use north.Daemon.Journal.Compact.{compact_session}
use north.Daemon.Journal.Commands.{
  Prepared, prepare_command, mark_dispatch_started, message_id_of, is_command,
}
use north.Daemon.Journal.Finish.{finish_command}
use north.Daemon.Journal.Store.{World, Store, Fault, Method, ends, require}
use north.Daemon.Journal.Store.Keeping.{Both, Preserves, Keeps-transact}
use north.Daemon.Journal.Accept.{
  found_or, command_record, reported, released, prepare, mark_started, answer_started, start,
  may_start, accept_prepared, accept_command_with_control, accept_command as accept_plain_command,
  accept_control_command, next_ready, accept_ready, accept_next_ready_command, compact, finish,
  complete_command, record_to_envelope,
}
use north.Daemon.Coordination.{
  RuntimeActions, Failure, Call, converted, lift, settle_with, recovering,
}

-- Every update keeps `P`.
pub record IsKept (w : World) (P : JournalFile → Type 0) : Type 0 where
  pub by_prepare :
      (envelope : CommandEnvelope)
      → Preserves P (
          ends (
            prepare_command w.daemon_id w.limit envelope
              (w.command_digest envelope)
              (message_id_of envelope.command)))
  pub by_mark : (command_id : String) → Preserves P (ends (mark_dispatch_started command_id))
  pub by_finish :
      (command_id : String) (outcome : DispatchOutcome) (events : List Event)
      → Preserves P (λ now. finish_command w.event_digest w.daemon_id now command_id outcome events)
  pub by_compact :
      (session_id : String) (state : JournalFile)
      → P state
      → P (compact_session w.event_digest w.daemon_id session_id state)
  pub by_acknowledge : (ack : EventAck) → Preserves P (λ now. acknowledge_event ack)
  pub by_append :
      (event_id session_id : String) (event : Event)
      → Preserves P (ends (append_event w.event_digest w.daemon_id event_id session_id event))
  pub by_apply :
      (snapshot : ReconcileSnapshot) → Preserves P (ends (λ now. apply_reconciliation snapshot))

module _ (P : JournalFile → Type 0) where
  pub Keeps-require : {T : Type 0} (r : Result T JournalError) → Keeps (Both P) (require r)
  Keeps-require (ok a) = record { at = λ s b. b }
  Keeps-require (err e) = record { at = λ s b. b }

  pub Keeps-reading :
      {E T : Type 0} (m : Store → Exec Store E T)
      → ((s : Store) → Keeps (Both P) (m s))
      → Keeps (Both P) (λ s. m s s)
  Keeps-reading m h = record { at = λ s b. (h s).at s b }

  converted_keeps :
      {T : Type 0} (r : Result T Fault) (s : Store) → Both P s → Both P (converted (r, s)).1
  converted_keeps (ok a) s b = b
  converted_keeps (err e) s b = b

  pub Keeps-lift : {T : Type 0} (m : Method T) → Keeps (Both P) m → Keeps (Both P) (lift m)
  Keeps-lift m k = record { at = λ s b. let (r, t) = m s in converted_keeps r t (k.at s b) }

  settled_stores :
      {T : Type 0} (on_fault : Fault → Result RuntimeActions Failure) (f : T → Call RuntimeActions)
      (r : Result T Fault) (s : Store)
      → ((a : T) → Keeps (Both P) (f a))
      → Both P s
      → Both P (settle_with on_fault f (r, s)).1
  settled_stores on_fault f (ok a) s h b = (h a).at s b
  settled_stores on_fault f (err e) s h b = b

  pub Keeps-recovering :
      {T : Type 0} (on_fault : Fault → Result RuntimeActions Failure) (m : Method T)
      (f : T → Call RuntimeActions)
      → Keeps (Both P) m
      → ((a : T) → Keeps (Both P) (f a))
      → Keeps (Both P) (recovering on_fault m f)
  Keeps-recovering on_fault m f k h = record {
    at = λ s b. let (r, t) = m s in settled_stores on_fault f r t h (k.at s b);
  }

  module _ (w : World) (kept : IsKept w P) where
    command_record-Keeps : (command_id : String) → Keeps (Both P) (command_record command_id)
    unfolding command_record
    command_record-Keeps command_id =
        Keeps-reading
          (λ s. require (
            found_or "command disappeared from journal"
              (find (is_command command_id) s.state.commands)))
          (λ s. Keeps-require (
            found_or "command disappeared from journal"
              (find (is_command command_id) s.state.commands)))

    answer_started-Keeps :
        (r : CommandRecord) (duplicate marked : Bool)
        → Keeps (Both P) (answer_started w r duplicate marked)
    unfolding answer_started
    answer_started-Keeps r duplicate true = Keeps-pure (released r duplicate)
    answer_started-Keeps r duplicate false =
        Keeps-bind (command_record r.command_id) (λ current. pure (reported current true false))
          (command_record-Keeps r.command_id) (λ current. Keeps-pure (reported current true false))

    start-Keeps : (r : CommandRecord) (duplicate : Bool) → Keeps (Both P) (start w r duplicate)
    unfolding start mark_started
    start-Keeps r duplicate =
        Keeps-bind (mark_started w r.command_id) (answer_started w r duplicate)
          (Keeps-transact P w (ends (mark_dispatch_started r.command_id))
            (kept.by_mark r.command_id))
          (answer_started-Keeps r duplicate)

    accept_prepared-Keeps : (p : Prepared) (now : Bool) → Keeps (Both P) (accept_prepared w p now)
    unfolding accept_prepared
    accept_prepared-Keeps (r, duplicate, buffered) true = start-Keeps r duplicate
    accept_prepared-Keeps (r, duplicate, buffered) false =
        Keeps-pure (reported r duplicate buffered)

    accept_command_with_control-Keeps :
        (envelope : CommandEnvelope) (allow : Bool)
        → Keeps (Both P) (accept_command_with_control w envelope allow)
    unfolding accept_command_with_control prepare
    accept_command_with_control-Keeps envelope allow =
        let check = map_err protocol (server_validate (ServerFrame.command envelope)) in
        let decided = λ (p : Prepared) (s : Store). may_start w envelope allow p s.state in
        Keeps-bind (require check)
          (λ _. prepare w envelope >>= λ p. gets (decided p) >>= λ now. accept_prepared w p now)
          (Keeps-require check)
          (λ _.
            Keeps-bind (prepare w envelope)
              (λ p. gets (decided p) >>= λ now. accept_prepared w p now)
              (Keeps-transact P w
                (ends (
                  prepare_command w.daemon_id w.limit envelope (w.command_digest envelope)
                    (message_id_of envelope.command)))
                (kept.by_prepare envelope))
              (λ p.
                Keeps-bind (gets (decided p)) (accept_prepared w p) (Keeps-gets (decided p))
                  (accept_prepared-Keeps p)))

    pub intake-Keeps :
        (b : Bool) (command : CommandEnvelope)
        → Keeps
            (Both P)
            (if b then accept_control_command w command else accept_plain_command w command)
    unfolding accept_control_command accept_plain_command
    intake-Keeps true command = accept_command_with_control-Keeps command true
    intake-Keeps false command = accept_command_with_control-Keeps command false

    accept_ready-Keeps : (o : Option CommandRecord) → Keeps (Both P) (accept_ready w o)
    unfolding accept_ready accept_plain_command
    accept_ready-Keeps none = Keeps-pure none
    accept_ready-Keeps (some r) =
        Keeps-bind (accept_plain_command w (record_to_envelope r)) (λ a. pure (some a))
          (accept_command_with_control-Keeps (record_to_envelope r) false)
          (λ a. Keeps-pure (some a))

    pub accept_next_ready_command-Keeps :
        (session_id : String) → Keeps (Both P) (accept_next_ready_command w session_id)
    unfolding accept_next_ready_command
    accept_next_ready_command-Keeps session_id =
        Keeps-reading (λ s. accept_ready w (next_ready w session_id s.state))
          (λ s. accept_ready-Keeps (next_ready w session_id s.state))

    pub compact-Keeps : (session_id : String) → Keeps (Both P) (compact w session_id)
    unfolding compact
    compact-Keeps session_id =
        Keeps-transact P w
          (λ now state. some (ok (compact_session w.event_digest w.daemon_id session_id state, tt)))
          (λ now before after a h p.
            let same : compact_session w.event_digest w.daemon_id session_id before ≡ after =
              ground arith in
            subst P same (kept.by_compact session_id before p))

    pub complete_command-Keeps :
        (command_id : String) (outcome : DispatchOutcome) (events : List Event)
        → Keeps (Both P) (complete_command w command_id outcome events)
    unfolding complete_command finish
    complete_command-Keeps command_id outcome events =
        Keeps-bind (command_record command_id)
          (λ r. finish w command_id outcome events >>= λ emitted.
            compact w r.session_id >>= λ _. pure emitted)
          (command_record-Keeps command_id)
          (λ r.
            Keeps-bind (finish w command_id outcome events)
              (λ emitted. compact w r.session_id >>= λ _. pure emitted)
              (Keeps-transact P w
                (λ now. finish_command w.event_digest w.daemon_id now command_id outcome events)
                (kept.by_finish command_id outcome events))
              (λ emitted.
                Keeps-bind (compact w r.session_id) (λ _. pure emitted) (compact-Keeps r.session_id)
                  (λ _. Keeps-pure emitted)))
