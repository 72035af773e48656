-- ===== src/Tests/Scheduler.antt =====
-- The scheduler at concrete inputs.
use north.Common.{◌+◌, ◌≡◌, refl, String, length, ok}
use north.Common.Map.{lookup, remove, insert, contains_key, string_eq}
use north.Protocol.Command.{CommandEnvelope, session_cancel, session_resume}
use north.Daemon.Control
use north.Daemon.Control.{Store}
use north.Daemon.Scheduler.{RuntimeScheduler, new, max_runtime_concurrency, is_cancel, is_active}
use north.Daemon.Scheduler.Methods.{
  control_for, control_entry, schedule, schedule_with, schedule_runtime_inner, admit,
  start_or_enqueue, start_with_permit, enqueue, try_acquire, spawn_runtime, claim_session,
}
use north.Daemon.Scheduler.Completion.{drain_queue}
use north.Daemon.Scheduler.Reach.{here, next, schedules, Reach-permits}
use north.Daemon.Scheduler.Conserving.{IsConserving, drain_queue_conserves}

abbrev empty_store : Store
empty_store = record { at = λ _. Control.new "" ""; next = 0 }

abbrev resume : String → String → CommandEnvelope
resume command_id session_id = record {
  command_id = command_id;
  session_id = session_id;
  server_command_seq = 1;
  sent_at = "now";
  schema_version = 1;
  command = session_resume;
}

abbrev cancel : String → String → CommandEnvelope
cancel command_id session_id = record (resume command_id session_id) {
  command = session_cancel (record { reason = "stop" });
}

abbrev started : RuntimeScheduler
started = (schedule (resume "c1" "s1") (new empty_store)).1

abbrev both : RuntimeScheduler
both = (schedule (resume "c2" "s1") started).1

-- The second command of an active session waits in the queue.
second_waits : (length both.workers ≡ 1) × (length both.queued_runtimes ≡ 1) × (both.permits ≡ 3)
unfolding new schedule schedule_with schedule_runtime_inner control_for control_entry admit
    start_or_enqueue start_with_permit enqueue try_acquire spawn_runtime claim_session is_active
    is_cancel contains_key lookup insert remove Control.new Control.allocate Control.modify
    Control.set_lifecycle Control.set_active_command_id
second_waits = (refl, refl, refl)

Reach-permits_example : both.permits + length both.workers ≡ max_runtime_concurrency
Reach-permits_example =
    Reach-permits empty_store
      (next (next here (schedules (resume "c1" "s1"))) (schedules (resume "c2" "s1")))

drain_queue_conserves_example :
    ((drain_queue (new empty_store)).0 ≡ ok tt) × IsConserving (drain_queue (new empty_store)).1
unfolding new
drain_queue_conserves_example = drain_queue_conserves (new empty_store) refl
