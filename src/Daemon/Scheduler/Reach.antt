-- ===== src/Daemon/Scheduler/Reach.antt =====
-- What can happen to a scheduler, as a step relation: calls of its methods, workers that end, and
-- the receiver that goes away. The concurrency limit holds in every state that can be reached.
use north.Common.{suc, ◌+◌, ◌≡◌, String, List, [], ◌∷◌, ◌++◌, length, length-append, false, arith}
use north.Common.Map.{Map}
use north.Protocol.Command.{CommandEnvelope}
use north.Daemon.Control.{Store}
use north.Daemon.Scheduler.{
  RuntimeScheduler, RuntimeCompletion, ActiveRuntime, Worker, max_runtime_concurrency, new,
}
use north.Daemon.Scheduler.Methods.{schedule, schedule_runtime}
use north.Daemon.Scheduler.Completion.{
  finish_active, finish_followup, signal_all, request_shutdown, end_worker, WorkerResult,
}
use north.Daemon.Scheduler.Permits.{IsPermitted, schedule-IsPermitted, schedule_runtime-IsPermitted}
use north.Daemon.Scheduler.Steps.{finish_active-IsPermitted, cleanup-IsPermitted}

pub data Step (s : RuntimeScheduler) : RuntimeScheduler → Type 0 where
  schedules : (c : CommandEnvelope) → Step s (schedule c s).1
  schedules_runtime : (c : CommandEnvelope) → Step s (schedule_runtime c s).1
  worker_ends :
      (before after : List Worker) (w : Worker) (result : WorkerResult)
      → s.workers ≡ before ++ (w ∷ after)
      → Step s (end_worker w result (record s { workers = before ++ after }))
  receives :
      (c : RuntimeCompletion) (rest : List RuntimeCompletion)
      → s.completions ≡ c ∷ rest
      → Step s (finish_active c (record s { completions = rest })).1
  finishes_followup : (c : CommandEnvelope) → Step s (finish_followup c s)
  shuts_down : Step s (request_shutdown s)
  receiver_closes : Step s (record s { channel_open = false })

pub data Reach (s : RuntimeScheduler) : RuntimeScheduler → Type 0 where
  here : Reach s s
  next : {t u : RuntimeScheduler} → Reach s t → Step t u → Reach s u

signal_all-IsPermitted :
    (active : Map String ActiveRuntime) (s : RuntimeScheduler)
    → IsPermitted s
    → IsPermitted (signal_all active s)
unfolding signal_all
signal_all-IsPermitted [] s h = h
signal_all-IsPermitted ((_, runtime) ∷ active) s h = signal_all-IsPermitted active _ h

worker_leaves :
    (before after : List Worker) (w : Worker) (ws : List Worker)
    → ws ≡ before ++ (w ∷ after)
    → length ws ≡ suc (length (before ++ after))
worker_leaves before after w ws e =
    rw e (omega (arith, length-append before (w ∷ after), length-append before after))

Step-IsPermitted : {s t : RuntimeScheduler} → Step s t → IsPermitted s → IsPermitted t
unfolding end_worker finish_followup request_shutdown
Step-IsPermitted {s} (schedules c) h = (schedule-IsPermitted c).at s h
Step-IsPermitted {s} (schedules_runtime c) h = (schedule_runtime-IsPermitted c).at s h
Step-IsPermitted {s} (worker_ends before after w result e) h =
    omega (arith, worker_leaves before after w s.workers e)
Step-IsPermitted {s} (receives c rest e) h =
    (finish_active-IsPermitted c).at (record s { completions = rest }) h
Step-IsPermitted {s} (finishes_followup c) h = cleanup-IsPermitted c.session_id s h
Step-IsPermitted {s} shuts_down h = signal_all-IsPermitted s.active s h
Step-IsPermitted receiver_closes h = h

Reach-IsPermitted : {s t : RuntimeScheduler} → IsPermitted s → Reach s t → IsPermitted t
Reach-IsPermitted h here = h
Reach-IsPermitted h (next r st) = Step-IsPermitted st (Reach-IsPermitted h r)

-- In every state that a new scheduler reaches, by calls of its methods with any commands, the ends
-- of its workers in any order and a receiver that may go away, the free permits and the running
-- workers together are exactly the concurrency limit: no permit is lost, and no worker runs
-- without one.
pub Reach-permits :
    (store : Store) {t : RuntimeScheduler}
    → Reach (new store) t
    → t.permits + length t.workers ≡ max_runtime_concurrency
unfolding new
Reach-permits store r = Reach-IsPermitted (omega arith) r
