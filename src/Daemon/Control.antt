-- ===== src/Daemon/Control.antt =====
-- `RuntimeControl` of crates/north-daemon/src/journal.rs. A control is shared: its clones point to
-- the same cells. The controls of a scheduler live in a store, and a clone is a reference into it.
use north.Common.{ℕ, suc, String, Option, some, Bool, true, false, not, ◌==◌, if◌then◌else◌}

pub data RuntimeLifecycle : Type 0 where
  queued preparing running terminating : RuntimeLifecycle

pub record RuntimeControl : Type 0 where
  pub session_id : String
  pub active_command_id : Option String
  pub lifecycle : RuntimeLifecycle
  pub cancellation_requested : Bool
  pub terminal_fact_emitted : Bool

unfoldable pub new : String → String → RuntimeControl
new session_id command_id = record {
  session_id = session_id;
  active_command_id = some command_id;
  lifecycle = queued;
  cancellation_requested = false;
  terminal_fact_emitted = false;
}

unfoldable pub set_active_command_id : String → RuntimeControl → RuntimeControl
set_active_command_id command_id c = record c { active_command_id = some command_id }

unfoldable pub set_lifecycle : RuntimeLifecycle → RuntimeControl → RuntimeControl
set_lifecycle lifecycle c = record c {
  lifecycle = if c.cancellation_requested then terminating else lifecycle;
}

unfoldable pub request_cancellation : RuntimeControl → RuntimeControl
request_cancellation c = record c { cancellation_requested = true; lifecycle = terminating }

-- The `swap`: the new control, and whether the fact had not been emitted before.
unfoldable pub mark_terminal_fact_emitted : RuntimeControl → RuntimeControl × Bool
mark_terminal_fact_emitted c =
    (record c { terminal_fact_emitted = true }, not c.terminal_fact_emitted)

-- The store: the control at each reference, and the first reference that is free.
pub record Store : Type 0 where
  pub at : ℕ → RuntimeControl
  pub next : ℕ

unfoldable pub modify : (RuntimeControl → RuntimeControl) → ℕ → Store → Store
modify f ref s = record s { at = λ r. if r == ref then f (s.at ref) else s.at r }

unfoldable pub allocate : RuntimeControl → Store → Store
allocate c s = record { at = λ r. if r == s.next then c else s.at r; next = suc s.next }
