-- ===== src/Daemon/Coordination/Invariants.antt =====
-- Invariants of the journal in every run of the coordinator of
-- crates/north-daemon/src/coordination.rs, in memory and in the file.
use north.Common.{ℕ, ◌≤◌, ◌<◌, ◌≡◌, sym, subst, String, List, ok, arith, u64_max}
use north.Common.Map.{string_eq, lookup}
use north.Daemon.Journal.{JournalFile, default_file}
use north.Daemon.Journal.Events.Sequence.{append_event-Appends, Appends-IsNumbered}
use north.Daemon.Journal.Acks.{session_of}
use north.Daemon.Journal.Acks.Tracked.{IsTracked}
use north.Daemon.Journal.Changes.{
  SameNumbers-IsNumbered, Settles-SameNumbers, acknowledge_event-Settles,
  apply_reconciliation-SameNumbers, Settles-IsTracked, apply_reconciliation-IsTracked,
}
use north.Daemon.Journal.Compact.{compact_session}
use north.Daemon.Journal.Compact.Kept.{compact_session-given}
use north.Daemon.Journal.Commands.{message_id_of}
use north.Daemon.Journal.Commands.Prepares.{
  prepare_command-Prepares, Prepares-SameButCommands, mark_dispatch_started-SameButCommands,
}
use north.Daemon.Journal.Numbers.{IsNumbered, times_given}
use north.Daemon.Journal.Reach.{Appends-IsTracked}
use north.Daemon.Journal.Store.{World}
use north.Daemon.Coordination.Keeping.{IsKept}
use north.Daemon.Coordination.Run.{Action, run, new_store}
use north.Daemon.Coordination.Keeping.Runs.{run-Both}
use north.Daemon.Journal.Finish.Numbers.{
  SameButCommands-IsNumbered, SameButCommands-IsTracked, finish_command-IsNumbered,
  finish_command-IsTracked,
}
use north.Daemon.Journal.Buffered.{acknowledge_event-IsBuffered, apply_reconciliation-IsBuffered}
use north.Daemon.Journal.Buffered.Updates.{
  mark_dispatch_started-IsBuffered, finish_command-IsBuffered, compact_session-IsBuffered,
}
use north.Daemon.Journal.Commands.{pending, expected_command_sequence}
use north.Daemon.Journal.Commands.Intake.{IsBuffered, prepare_command-IsBuffered}
use north.Daemon.Journal.Events.Sequence.{Appends}
use north.Daemon.Journal.Reach.{
  default_file-IsNumbered, reconcile_state, IsTracked-session_validate,
}
use north.Common.{inl, inr, is_blank, false}
use north.Protocol.Reconcile.{session_validate}

module _ (w : World) where
  IsNumbered-kept : IsKept w IsNumbered
  unfolding compact_session
  IsNumbered-kept = record {
    by_prepare = λ envelope now before after p h. SameButCommands-IsNumbered before after (
        Prepares-SameButCommands before after (
          prepare_command-Prepares w.daemon_id w.limit envelope (w.command_digest envelope)
            (message_id_of envelope.command) now before after p (ground arith)));
    by_mark = λ command_id now before after marked h.
        SameButCommands-IsNumbered before after
          (mark_dispatch_started-SameButCommands command_id now before after marked (ground arith));
    by_finish = λ command_id outcome events now before after sent h.
        finish_command-IsNumbered w.event_digest w.daemon_id now command_id outcome events before
          after sent h;
    by_compact = λ session_id state.
        SameNumbers-IsNumbered state (compact_session w.event_digest w.daemon_id session_id state)
          (λ session n.
            compact_session-given w.event_digest w.daemon_id session n session_id state);
    by_acknowledge = λ ack now before after a h.
        SameNumbers-IsNumbered before after
          (Settles-SameNumbers ack before after (acknowledge_event-Settles ack before after h));
    by_append = λ event_id session_id e now before after a h. Appends-IsNumbered before after (
        append_event-Appends w.event_digest w.daemon_id event_id session_id e now before after a
          (ground arith));
    by_apply = λ snapshot now before after a h.
        SameNumbers-IsNumbered before after
          (apply_reconciliation-SameNumbers snapshot before after (ground arith));
  }

  IsTracked-kept : IsKept w (λ f. IsTracked f.sessions)
  unfolding compact_session
  IsTracked-kept = record {
    by_prepare = λ envelope now before after p h. SameButCommands-IsTracked before after (
        Prepares-SameButCommands before after (
          prepare_command-Prepares w.daemon_id w.limit envelope (w.command_digest envelope)
            (message_id_of envelope.command) now before after p (ground arith)));
    by_mark = λ command_id now before after marked h.
        SameButCommands-IsTracked before after
          (mark_dispatch_started-SameButCommands command_id now before after marked (ground arith));
    by_finish = λ command_id outcome events now before after sent h.
        finish_command-IsTracked w.event_digest w.daemon_id now command_id outcome events before
          after sent h;
    by_compact = λ session_id state tracked. tracked;
    by_acknowledge = λ ack now before after a h.
        Settles-IsTracked ack before after (acknowledge_event-Settles ack before after h);
    by_append = λ event_id session_id e now before after a h. Appends-IsTracked before after (
        append_event-Appends w.event_digest w.daemon_id event_id session_id e now before after a
          (ground arith));
    by_apply = λ snapshot now before after a h.
        apply_reconciliation-IsTracked snapshot before after (ground arith);
  }

  Appends-IsBuffered :
      (limit : ℕ) (before after : JournalFile)
      → Appends before after
      → IsBuffered limit before
      → IsBuffered limit after
  Appends-IsBuffered limit before after (inl same) buffered =
      subst (IsBuffered limit) (sym same) buffered
  Appends-IsBuffered limit before after (inr (r, pushed, _)) buffered =
      subst (IsBuffered limit) (sym pushed) buffered

  IsBuffered-kept : IsKept w (IsBuffered w.limit)
  IsBuffered-kept = record {
    by_prepare = λ envelope now before after p h.
        prepare_command-IsBuffered w.daemon_id w.limit envelope (w.command_digest envelope)
          (message_id_of envelope.command) now before after p (ground arith);
    by_mark = λ command_id now before after marked h.
        mark_dispatch_started-IsBuffered w.limit command_id now before after marked (ground arith);
    by_finish = λ command_id outcome events now before after sent h.
        finish_command-IsBuffered w.event_digest w.daemon_id now w.limit command_id outcome events
          before after sent h;
    by_compact = compact_session-IsBuffered w.event_digest w.daemon_id "" w.limit;
    by_acknowledge =
        λ ack now before after a h. acknowledge_event-IsBuffered w.limit ack before after h;
    by_append = λ event_id session_id e now before after a h.
        Appends-IsBuffered w.limit before after (
          append_event-Appends w.event_digest w.daemon_id event_id session_id e now before after a
            (ground arith));
    by_apply = λ snapshot now before after a h.
        apply_reconciliation-IsBuffered w.limit snapshot before after (ground arith);
  }

  new_file-IsNumbered : IsNumbered default_file
  new_file-IsNumbered = default_file-IsNumbered w.event_digest w.daemon_id

  new_file-IsTracked : IsTracked default_file.sessions
  unfolding lookup
  new_file-IsTracked = λ session_id. (tt, tt)

  new_file-IsBuffered : IsBuffered w.limit default_file
  unfolding pending
  new_file-IsBuffered = λ session_id. omega arith

  -- In every run of the coordinator from a new journal, with restarts and writes that fail, no
  -- sequence number below `u64::MAX` is given to two events of a session, the compacted ones included,
  -- neither in memory nor in the file.
  pub run-times_given :
      (actions : List Action) (session_id : String) (n : ℕ)
      → n < u64_max
      → (times_given session_id n (run w actions new_store).1.state ≤ 1)
        × (times_given session_id n (run w actions new_store).1.disk ≤ 1)
  run-times_given actions session_id n below =
      let (in_memory, in_file) =
        run-Both IsNumbered w IsNumbered-kept actions new_store
          (new_file-IsNumbered, new_file-IsNumbered) in
      (in_memory session_id n below, in_file session_id n below)

  -- In every run of the coordinator from a new journal, with restarts and writes that fail, at most
  -- `limit` commands of a session wait behind a gap in the sequence, in memory and in the file.
  pub run-pending :
      (actions : List Action) (session_id : String)
      → (let state = (run w actions new_store).1.state in
          pending session_id (expected_command_sequence state session_id) state.commands ≤ w.limit)
        × (let disk = (run w actions new_store).1.disk in
            pending session_id (expected_command_sequence disk session_id) disk.commands ≤ w.limit)
  run-pending actions session_id =
      let (in_memory, in_file) =
        run-Both (IsBuffered w.limit) w IsBuffered-kept actions new_store
          (new_file-IsBuffered, new_file-IsBuffered) in
      (in_memory session_id, in_file session_id)

  -- In every run of the coordinator from a new journal, with restarts and writes that fail, what the
  -- journal knows of a session with a name is a valid state for reconciliation, in memory and in the
  -- file: its sparse acknowledgements are above its cursor and strictly ascending.
  pub run-session_validate :
      (actions : List Action) (session_id : String)
      → is_blank session_id ≡ false
      → (session_validate
            (reconcile_state session_id (session_of session_id (run w actions new_store).1.state))
          ≡ ok tt)
        × (session_validate
              (reconcile_state session_id (session_of session_id (run w actions new_store).1.disk))
            ≡ ok tt)
  run-session_validate actions session_id named =
      let (in_memory, in_file) =
        run-Both (λ f. IsTracked f.sessions) w IsTracked-kept actions new_store
          (new_file-IsTracked, new_file-IsTracked) in
      let state = (run w actions new_store).1.state in
      let disk = (run w actions new_store).1.disk in
      (
        IsTracked-session_validate session_id state named in_memory,
        IsTracked-session_validate session_id disk named in_file,
      )
