-- ===== src/Daemon/Scheduler/Conserving.antt =====
-- The scheduler leaves no permit idle: after the queue is drained, every runtime that is still
-- queued waits for its session or for a permit.
use mathlib.Core.List.{append_assoc, append-nil}
use north.Common.{
  ℕ, zero, suc, ◌≡◌, refl, sym, ◌∙◌, ap, ◌⊎◌, inl, inr, String, List, [], ◌∷◌, ◌++◌, length, All,
  All-append, Option, none, some, Bool, true, false, not, if◌then◌else◌, Result, ok, arith,
}
use north.Common.Map.{Map, insert, contains_key, lookup-insert, string_eq}
use north.Protocol.Command.{CommandEnvelope}
use north.Daemon.Control
use north.Daemon.Control.{RuntimeControl}
use north.Daemon.Exec.{◌>>=◌}
use north.Daemon.Scheduler.{
  M, SchedulerError, RuntimeScheduler, RuntimeCompletion, QueuedRuntime, ActiveRuntime, is_active,
  control_at, cancelled_event, dispatch_succeeded,
}
use north.Daemon.Scheduler.Methods.{
  suppress, mark_terminal, send_suppressed, report_closed, try_acquire, claim_session,
  spawn_runtime,
}
use north.Daemon.Scheduler.Completion.{
  drain_with_permit, drain_if_active, drain_if_cancelled, drain_item, pop_front, drain, drain_queue,
}

-- The completion of a command that is suppressed: it succeeded, with a terminal event unless one
-- was emitted for the session before.
abbrev pub suppressed_completion : CommandEnvelope → Bool → RuntimeCompletion
suppressed_completion c emitted = record {
  session_id = c.session_id;
  command_id = c.command_id;
  runtime_operation_id = c.command_id;
  outcome = dispatch_succeeded;
  events = if emitted then [] else cancelled_event ∷ [];
}

-- What suppressing a command makes of a scheduler whose channel is open.
abbrev pub suppressed_state : CommandEnvelope → ℕ → RuntimeScheduler → RuntimeScheduler
suppressed_state c ref s = record s {
  suppressed = insert c.command_id ref s.suppressed;
  store = Control.modify (λ d. (Control.mark_terminal_fact_emitted d).0) ref s.store;
  completions =
      s.completions
      ++ suppressed_completion c (RuntimeControl.terminal_fact_emitted (control_at ref s)) ∷ [];
}

send_suppressed_lem :
    (c : CommandEnvelope) (emitted : Bool) (s : RuntimeScheduler)
    → s.channel_open ≡ true
    → send_suppressed c (not emitted) s
      ≡ (ok tt, record s { completions = s.completions ++ suppressed_completion c emitted ∷ [] })
unfolding send_suppressed report_closed
send_suppressed_lem c true s e = rw (e, report_closed)
send_suppressed_lem c false s e = rw (e, report_closed)

suppress_lem :
    (c : CommandEnvelope) (ref : ℕ) (s : RuntimeScheduler)
    → s.channel_open ≡ true
    → suppress c ref s ≡ (ok tt, suppressed_state c ref s)
unfolding suppress mark_terminal Control.mark_terminal_fact_emitted
suppress_lem c ref s e =
    send_suppressed_lem c (RuntimeControl.terminal_fact_emitted (control_at ref s)) _ e

abbrev IsWaiting : RuntimeScheduler → QueuedRuntime → Type 0
IsWaiting s item = contains_key item.command.session_id s.active ≡ true

-- Every queued runtime waits for its session to end, or no permit is free.
abbrev pub IsConserving : RuntimeScheduler → Type 0
IsConserving s = (s.permits ≡ 0) ⊎ All (IsWaiting s) s.queued_runtimes

abbrev IsDrained : Result (Unit {0}) SchedulerError × RuntimeScheduler → Type 0
IsDrained p = (p.0 ≡ ok tt) × IsConserving p.1

contains_key-insert :
    (j k : String) (v : ActiveRuntime) (m : Map String ActiveRuntime)
    → contains_key j m ≡ true
    → contains_key j (insert k v m) ≡ true
unfolding contains_key
contains_key-insert j k v m h = ground (arith, lookup-insert j k v m)

IsWaiting-insert :
    (k : String) (v : ActiveRuntime) (s t : RuntimeScheduler) (items : List QueuedRuntime)
    → t.active ≡ insert k v s.active
    → All (IsWaiting s) items
    → All (IsWaiting t) items
IsWaiting-insert k v s t [] e h = tt
IsWaiting-insert k v s t (item ∷ items) e h = (
  rw e (contains_key-insert item.command.session_id k v s.active h.0),
  IsWaiting-insert k v s t items e h.1,
)

-- The state that a spawn leaves where the session is not active.
abbrev spawned_state : CommandEnvelope → ℕ → RuntimeScheduler → RuntimeScheduler
spawned_state c ref s = record s {
  store =
      Control.modify (Control.set_lifecycle Control.preparing) ref
        (Control.modify (Control.set_active_command_id c.command_id) ref s.store);
  active = insert c.session_id (record { command_id = c.command_id; control = ref }) s.active;
  workers =
      s.workers
      ++ record {
        session_id = c.session_id;
        command_id = c.command_id;
        runtime_operation_id = c.command_id;
        command = c.command;
        control = ref;
      }
        ∷ [];
}

spawn_runtime_lem :
    (c : CommandEnvelope) (ref : ℕ) (s : RuntimeScheduler)
    → contains_key c.session_id s.active ≡ false
    → spawn_runtime c ref s ≡ (ok tt, spawned_state c ref s)
unfolding spawn_runtime is_active claim_session
spawn_runtime_lem c ref s e = rw (e, claim_session)

pop_front_lem :
    (item : QueuedRuntime) (q : List QueuedRuntime) (s : RuntimeScheduler)
    → s.queued_runtimes ≡ item ∷ q
    → pop_front s ≡ (ok (some item), record s { queued_runtimes = q })
unfolding pop_front
pop_front_lem item q s e =
    let f : List QueuedRuntime → Result (Option QueuedRuntime) SchedulerError × RuntimeScheduler =
      elim [ [] ↦ (ok none, s) | i ∷ r ↦ (ok (some i), record s { queued_runtimes = r }) ] in
    ap f e

module _ (rest : M (Unit {0})) (front : List QueuedRuntime)
    (later : (t : RuntimeScheduler) (back : List QueuedRuntime)
      → t.queued_runtimes ≡ front ++ back
      → All (IsWaiting t) back
      → t.channel_open ≡ true
      → IsDrained (rest t)) where
  IsDrained-with_permit :
      (item : QueuedRuntime) (s : RuntimeScheduler) (back : List QueuedRuntime) (n : ℕ)
      → s.permits ≡ n
      → s.queued_runtimes ≡ front ++ back
      → All (IsWaiting s) back
      → s.channel_open ≡ true
      → contains_key item.command.session_id s.active ≡ false
      → IsDrained ((try_acquire >>= drain_with_permit rest item) s)
  unfolding try_acquire drain_with_permit
  IsDrained-with_permit item s back zero p q w is_open idle = rw (p, try_acquire) (refl, inl p)
  IsDrained-with_permit item s back (suc n) p q w is_open idle =
      let t = record s { permits = n } in
      rw (p, try_acquire)
        (rw (spawn_runtime_lem item.command item.control t idle) (
          later (spawned_state item.command item.control t) back q
            (IsWaiting-insert item.command.session_id
              (record { command_id = item.command.command_id; control = item.control }) s
              (spawned_state item.command item.control t) back refl w)
            is_open))

  IsDrained-if_active :
      (item : QueuedRuntime) (s : RuntimeScheduler) (back : List QueuedRuntime) (active : Bool)
      → contains_key item.command.session_id s.active ≡ active
      → s.queued_runtimes ≡ front ++ back
      → All (IsWaiting s) back
      → s.channel_open ≡ true
      → IsDrained (drain_if_active rest item active s)
  unfolding drain_if_active
  IsDrained-if_active item s back true busy q w is_open =
      later (record s { queued_runtimes = s.queued_runtimes ++ item ∷ [] }) (back ++ item ∷ [])
        (ap (λ l. l ++ item ∷ []) q ∙ append_assoc front back (item ∷ []))
        (All-append (IsWaiting s) back (item ∷ []) w (busy, tt)) is_open
  IsDrained-if_active item s back false idle q w is_open =
      IsDrained-with_permit item s back s.permits refl q w is_open idle

  IsDrained-if_cancelled :
      (item : QueuedRuntime) (s : RuntimeScheduler) (back : List QueuedRuntime) (cancelled : Bool)
      → s.queued_runtimes ≡ front ++ back
      → All (IsWaiting s) back
      → s.channel_open ≡ true
      → IsDrained (drain_if_cancelled rest item cancelled s)
  unfolding drain_if_cancelled is_active
  IsDrained-if_cancelled item s back true q w is_open =
      rw (suppress_lem item.command item.control s is_open)
        (later (suppressed_state item.command item.control s) back q w is_open)
  IsDrained-if_cancelled item s back false q w is_open =
      IsDrained-if_active item s back (contains_key item.command.session_id s.active) refl q w
        is_open

  IsDrained-round :
      (item : QueuedRuntime) (s : RuntimeScheduler) (back : List QueuedRuntime)
      → s.queued_runtimes ≡ item ∷ (front ++ back)
      → All (IsWaiting s) back
      → s.channel_open ≡ true
      → IsDrained ((pop_front >>= drain_item rest) s)
  unfolding drain_item
  IsDrained-round item s back q w is_open = rw (pop_front_lem item (front ++ back) s q) (
      IsDrained-if_cancelled item (record s { queued_runtimes = front ++ back }) back _ refl w
        is_open)

drain-IsDrained :
    (front : List QueuedRuntime) (s : RuntimeScheduler) (back : List QueuedRuntime)
    → s.queued_runtimes ≡ front ++ back
    → All (IsWaiting s) back
    → s.channel_open ≡ true
    → IsDrained (drain (length front) s)
unfolding drain
drain-IsDrained [] s back q w is_open = (refl, inr (rw q w))
drain-IsDrained (item ∷ front) s back q w is_open =
    IsDrained-round (drain (length front)) front (drain-IsDrained front) item s back q w is_open

-- While the channel is open, draining the queue succeeds, and leaves no permit free beside a queued
-- runtime whose session is idle.
pub drain_queue_conserves :
    (s : RuntimeScheduler)
    → s.channel_open ≡ true
    → ((drain_queue s).0 ≡ ok tt) × IsConserving (drain_queue s).1
unfolding drain_queue
drain_queue_conserves s is_open =
    drain-IsDrained s.queued_runtimes s [] (sym (append-nil s.queued_runtimes)) tt is_open
