-- ===== src/Daemon/Scheduler/Permits.antt =====
-- The permits: a worker holds one from its start to its end.
use north.Common.{
  ℕ, zero, suc, ◌+◌, ◌≡◌, refl, List, [], ◌∷◌, length, length-append, Option, none, some, Bool,
  true, false, arith,
}
use north.Common.Map.{contains_key, string_eq}
use north.Protocol.Command.{CommandEnvelope}
use north.Daemon.Exec.{Keeps, Keeps-pure, Keeps-bind, keeps_rules, ◌>>=◌}
use north.Daemon.Scheduler.{M, RuntimeScheduler, QueuedRuntime, max_runtime_concurrency, is_active}
use north.Daemon.Scheduler.Methods.{
  control_entry, control_for, mark_terminal, report_closed, claim_session, start_with_permit,
  defer_cancellation, run_cancellation, send_suppressed, suppress, try_acquire, spawn_runtime,
  enqueue, start_or_enqueue, admit, schedule_runtime_inner, remove_queued, suppress_all,
  settle_cancellation, schedule_cancellation, schedule_with, schedule, schedule_runtime,
}

-- The free permits and the workers make up the concurrency limit, `taken` permits left aside.
abbrev pub Balanced : ℕ → RuntimeScheduler → Type 0
Balanced taken s = s.permits + length s.workers + taken ≡ max_runtime_concurrency

abbrev pub IsPermitted : RuntimeScheduler → Type 0
IsPermitted s = s.permits + length s.workers ≡ max_runtime_concurrency

control_entry-IsPermitted :
    (c : CommandEnvelope) (o : Option ℕ) → Keeps IsPermitted (control_entry c o)
unfolding control_entry
control_entry-IsPermitted c none = record { at = λ s h. h }
control_entry-IsPermitted c (some ref) = record { at = λ s h. h }

control_for-IsPermitted : (c : CommandEnvelope) → Keeps IsPermitted (control_for c)
unfolding control_for
control_for-IsPermitted c = search (keeps_rules, control_entry-IsPermitted)

mark_terminal-IsPermitted : (ref : ℕ) → Keeps IsPermitted (mark_terminal ref)
unfolding mark_terminal
mark_terminal-IsPermitted ref = record { at = λ s h. h }

report_closed-IsPermitted : (b : Bool) → Keeps IsPermitted (report_closed b)
unfolding report_closed
report_closed-IsPermitted true = record { at = λ s h. h }
report_closed-IsPermitted false = record { at = λ s h. h }

send_suppressed-IsPermitted :
    (c : CommandEnvelope) (b : Bool) → Keeps IsPermitted (send_suppressed c b)
unfolding send_suppressed
send_suppressed-IsPermitted c b = record {
  at = λ s h. (report_closed-IsPermitted s.channel_open).at _ h;
}

pub suppress-IsPermitted : (c : CommandEnvelope) (ref : ℕ) → Keeps IsPermitted (suppress c ref)
unfolding suppress mark_terminal
suppress-IsPermitted c ref = record { at = λ s h. (send_suppressed-IsPermitted c _).at _ h }

enqueue-IsPermitted : (c : CommandEnvelope) (ref : ℕ) → Keeps IsPermitted (enqueue c ref)
unfolding enqueue
enqueue-IsPermitted c ref = record { at = λ s h. h }

claim_session-Balanced :
    (c : CommandEnvelope) (ref : ℕ) (active : Bool) (s : RuntimeScheduler)
    → Balanced 1 s
    → IsPermitted (claim_session c ref active s).1
unfolding claim_session
claim_session-Balanced c ref true s h = omega arith
claim_session-Balanced c ref false s h = omega (arith, length-append {0})

-- A spawned worker takes the permit that was acquired for it, or the permit is given back.
pub spawn_runtime-Balanced :
    (c : CommandEnvelope) (ref : ℕ) (s : RuntimeScheduler)
    → Balanced 1 s
    → IsPermitted (spawn_runtime c ref s).1
unfolding spawn_runtime is_active
spawn_runtime-Balanced c ref s h =
    claim_session-Balanced c ref (contains_key c.session_id s.active) _ h

-- An acquired permit is given to what follows.
acquire-IsPermitted :
    (f : Bool → M (Unit {0})) (n : ℕ) (s : RuntimeScheduler)
    → s.permits ≡ n
    → ((t : RuntimeScheduler) → Balanced 1 t → IsPermitted (f true t).1)
    → Keeps IsPermitted (f false)
    → IsPermitted s
    → IsPermitted ((try_acquire >>= f) s).1
unfolding try_acquire
acquire-IsPermitted f zero s e with_permit without h = rw (e, try_acquire) (without.at s h)
acquire-IsPermitted f (suc n) s e with_permit without h =
    rw (e, try_acquire) (with_permit (record s { permits = n }) (omega arith))

pub acquire-Keeps :
    (f : Bool → M (Unit {0}))
    → ((t : RuntimeScheduler) → Balanced 1 t → IsPermitted (f true t).1)
    → Keeps IsPermitted (f false)
    → Keeps IsPermitted (try_acquire >>= f)
acquire-Keeps f with_permit without = record {
  at = λ s h. acquire-IsPermitted f s.permits s refl with_permit without h;
}

start_or_enqueue-IsPermitted :
    (c : CommandEnvelope) (ref : ℕ) (active : Bool)
    → Keeps IsPermitted (start_or_enqueue c ref active)
unfolding start_or_enqueue start_with_permit
start_or_enqueue-IsPermitted c ref true = enqueue-IsPermitted c ref
start_or_enqueue-IsPermitted c ref false =
    acquire-Keeps (start_with_permit c ref) (spawn_runtime-Balanced c ref)
      (enqueue-IsPermitted c ref)

admit-IsPermitted :
    (c : CommandEnvelope) (ref : ℕ) (refused : Bool) → Keeps IsPermitted (admit c ref refused)
unfolding admit is_active
admit-IsPermitted c ref true = suppress-IsPermitted c ref
admit-IsPermitted c ref false = search (keeps_rules, start_or_enqueue-IsPermitted)

inner-IsPermitted :
    (c : CommandEnvelope) (ref : ℕ) → Keeps IsPermitted (schedule_runtime_inner c ref)
unfolding schedule_runtime_inner
inner-IsPermitted c ref = search (keeps_rules, admit-IsPermitted)

suppress_all-IsPermitted : (items : List QueuedRuntime) → Keeps IsPermitted (suppress_all items)
unfolding suppress_all
suppress_all-IsPermitted [] = Keeps-pure tt
suppress_all-IsPermitted (item ∷ items) =
    Keeps-bind (suppress item.command item.control) (λ _. suppress_all items)
      (suppress-IsPermitted item.command item.control) (λ _. suppress_all-IsPermitted items)

defer-IsPermitted :
    (c : CommandEnvelope) (removed : List QueuedRuntime) (pending : Bool)
    → Keeps IsPermitted (defer_cancellation c removed pending)
unfolding defer_cancellation
defer-IsPermitted c removed true = suppress_all-IsPermitted removed
defer-IsPermitted c removed false = record { at = λ s h. (suppress_all-IsPermitted removed).at _ h }

run_cancellation-IsPermitted :
    (c : CommandEnvelope) (ref : ℕ) (pending : Bool)
    → Keeps IsPermitted (run_cancellation c ref pending)
unfolding run_cancellation
run_cancellation-IsPermitted c ref true = Keeps-pure tt
run_cancellation-IsPermitted c ref false = inner-IsPermitted c ref

settle-IsPermitted :
    (c : CommandEnvelope) (ref : ℕ) (removed : List QueuedRuntime) (busy pending : Bool)
    → Keeps IsPermitted (settle_cancellation c ref removed busy pending)
unfolding settle_cancellation
settle-IsPermitted c ref removed true pending = defer-IsPermitted c removed pending
settle-IsPermitted c ref removed false pending = run_cancellation-IsPermitted c ref pending

cancellation-IsPermitted :
    (c : CommandEnvelope) (ref : ℕ) → Keeps IsPermitted (schedule_cancellation c ref)
unfolding schedule_cancellation remove_queued is_active
cancellation-IsPermitted c ref = record { at = λ s h. (settle-IsPermitted c ref _ _ _).at _ h }

schedule_with-IsPermitted :
    (c : CommandEnvelope) (ref : ℕ) (cancel cancelled : Bool)
    → Keeps IsPermitted (schedule_with c ref cancel cancelled)
unfolding schedule_with
schedule_with-IsPermitted c ref true cancelled = cancellation-IsPermitted c ref
schedule_with-IsPermitted c ref false true = suppress-IsPermitted c ref
schedule_with-IsPermitted c ref false false = inner-IsPermitted c ref

pub schedule-IsPermitted : (c : CommandEnvelope) → Keeps IsPermitted (schedule c)
unfolding schedule
schedule-IsPermitted c = search (keeps_rules, control_for-IsPermitted, schedule_with-IsPermitted)

pub schedule_runtime-IsPermitted : (c : CommandEnvelope) → Keeps IsPermitted (schedule_runtime c)
unfolding schedule_runtime
schedule_runtime-IsPermitted c = search (keeps_rules, control_for-IsPermitted, inner-IsPermitted)
