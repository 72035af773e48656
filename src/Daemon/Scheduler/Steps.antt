-- ===== src/Daemon/Scheduler/Steps.antt =====
-- The completion side of the scheduler keeps the balance of the permits.
use north.Common.{
  ℕ, zero, suc, ◌≡◌, refl, String, List, [], ◌∷◌, Option, none, some, Bool, true, false, arith,
}
use north.Common.Map.{string_eq}
use north.Daemon.Exec.{Keeps, Keeps-after, Keeps-pure, Keeps-bind, keeps_rules}
use north.Daemon.Scheduler.{
  M, RuntimeScheduler, RuntimeCompletion, RuntimeFollowup, ActiveRuntime, QueuedRuntime, is_active,
}
use north.Daemon.Scheduler.Methods.{suppress, spawn_runtime}
use north.Daemon.Scheduler.Completion.{
  end_active, mark_if, cleanup_if, finish_with, finish_from, drain_with_permit, drain_if_active,
  drain_if_cancelled, drain_item, pop_front, drain, drain_queue, take_active, take_control,
  finish_active, maybe_cleanup_control,
}
use north.Daemon.Scheduler.Permits.{
  Balanced, IsPermitted, suppress-IsPermitted, spawn_runtime-Balanced, acquire-Keeps,
}

module _ (rest : M (Unit {0})) (kept : Keeps IsPermitted rest) where
  with_permit-Balanced :
      (item : QueuedRuntime) (s : RuntimeScheduler)
      → Balanced 1 s
      → IsPermitted (drain_with_permit rest item true s).1
  unfolding drain_with_permit
  with_permit-Balanced item s h =
      let spawned = spawn_runtime item.command item.control s in
      Keeps-after {P = IsPermitted} spawned.0 spawned.1 (λ _. rest)
        (spawn_runtime-Balanced item.command item.control s h) (λ _. kept)

  without_permit-IsPermitted :
      (item : QueuedRuntime) → Keeps IsPermitted (drain_with_permit rest item false)
  unfolding drain_with_permit
  without_permit-IsPermitted item = record { at = λ s h. h }

  if_active-IsPermitted :
      (item : QueuedRuntime) (active : Bool) → Keeps IsPermitted (drain_if_active rest item active)
  unfolding drain_if_active
  if_active-IsPermitted item true = record { at = λ s h. kept.at _ h }
  if_active-IsPermitted item false =
      acquire-Keeps (drain_with_permit rest item) (with_permit-Balanced item)
        (without_permit-IsPermitted item)

  if_cancelled-IsPermitted :
      (item : QueuedRuntime) (cancelled : Bool)
      → Keeps IsPermitted (drain_if_cancelled rest item cancelled)
  unfolding drain_if_cancelled is_active
  if_cancelled-IsPermitted item true =
      Keeps-bind (suppress item.command item.control) (λ _. rest)
        (suppress-IsPermitted item.command item.control) (λ _. kept)
  if_cancelled-IsPermitted item false = search (keeps_rules, if_active-IsPermitted)

  drain_item-IsPermitted : (o : Option QueuedRuntime) → Keeps IsPermitted (drain_item rest o)
  unfolding drain_item
  drain_item-IsPermitted none = Keeps-pure tt
  drain_item-IsPermitted (some item) = search (keeps_rules, if_cancelled-IsPermitted)

pop_front_from :
    (q : List QueuedRuntime) (s : RuntimeScheduler)
    → s.queued_runtimes ≡ q
    → IsPermitted s
    → IsPermitted (pop_front s).1
unfolding pop_front
pop_front_from [] s e h = rw (e, pop_front) h
pop_front_from (item ∷ q) s e h = rw (e, pop_front) h

pop_front-IsPermitted : Keeps IsPermitted pop_front
pop_front-IsPermitted = record { at = λ s h. pop_front_from s.queued_runtimes s refl h }

drain-IsPermitted : (remaining : ℕ) → Keeps IsPermitted (drain remaining)
unfolding drain
drain-IsPermitted zero = Keeps-pure tt
drain-IsPermitted (suc remaining) =
    Keeps-bind pop_front (drain_item (drain remaining)) pop_front-IsPermitted
      (drain_item-IsPermitted (drain remaining) (drain-IsPermitted remaining))

drain_queue-IsPermitted : Keeps IsPermitted drain_queue
unfolding drain_queue
drain_queue-IsPermitted = search (keeps_rules, drain-IsPermitted)

pub cleanup-IsPermitted :
    (session_id : String) (s : RuntimeScheduler)
    → IsPermitted s
    → IsPermitted (maybe_cleanup_control session_id s)
unfolding maybe_cleanup_control
cleanup-IsPermitted session_id s h = ground arith

cleanup_if-IsPermitted :
    (b : Bool) (session_id : String) (s : RuntimeScheduler)
    → IsPermitted s
    → IsPermitted (cleanup_if b session_id s)
unfolding cleanup_if
cleanup_if-IsPermitted true session_id s h = cleanup-IsPermitted session_id s h
cleanup_if-IsPermitted false session_id s h = h

mark_if-IsPermitted :
    (b : Bool) (ref : ℕ) (s : RuntimeScheduler) → IsPermitted s → IsPermitted (mark_if b ref s)
unfolding mark_if
mark_if-IsPermitted true ref s h = h
mark_if-IsPermitted false ref s h = h

finish_with-IsPermitted :
    (session_id : String) (terminal : Bool) (followup : Option RuntimeFollowup)
    → Keeps IsPermitted (finish_with session_id terminal followup)
unfolding finish_with
finish_with-IsPermitted session_id terminal followup =
    search (keeps_rules, drain_queue-IsPermitted, cleanup_if-IsPermitted)

end_active-IsPermitted :
    (c : RuntimeCompletion) (runtime : ActiveRuntime) (b : Bool)
    → Keeps IsPermitted (end_active c runtime b)
unfolding end_active
end_active-IsPermitted c runtime true = record { at = λ s h. h }
end_active-IsPermitted c runtime false = record { at = λ s h. h }

take_active-IsPermitted :
    (c : RuntimeCompletion) (o : Option ActiveRuntime) → Keeps IsPermitted (take_active c o)
unfolding take_active
take_active-IsPermitted c none = record { at = λ s h. h }
take_active-IsPermitted c (some runtime) = end_active-IsPermitted c runtime _

take_control-IsPermitted :
    (c : RuntimeCompletion) (o : Option ℕ) → Keeps IsPermitted (take_control c o)
unfolding take_control
take_control-IsPermitted c none = search (keeps_rules, take_active-IsPermitted)
take_control-IsPermitted c (some ref) = record { at = λ s h. h }

finish_from-IsPermitted : (c : RuntimeCompletion) (ref : ℕ) → Keeps IsPermitted (finish_from c ref)
unfolding finish_from
finish_from-IsPermitted c ref = record {
  at = λ s h. (finish_with-IsPermitted c.session_id _ _).at _ (mark_if-IsPermitted _ ref s h);
}

pub finish_active-IsPermitted : (c : RuntimeCompletion) → Keeps IsPermitted (finish_active c)
unfolding finish_active
finish_active-IsPermitted c =
    search (keeps_rules, take_control-IsPermitted, finish_from-IsPermitted)
