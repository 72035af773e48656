-- ===== src/Protocol/Reconcile.antt =====
-- Reconciliation snapshots (crates/north-protocol/src/lib.rs).
pub mod Laws
use north.Common.{
  ℕ, String, str_eq, List, [], ◌∷◌, any, ok, err, ◌>>=◌, ◌>>◌, refuse_if, leb, if◌then◌else◌,
}
use north.Protocol.Checks.{
  Check, non_empty, schema, sparse_not_above_through, sparse_not_ascending, duplicate_session_id,
}

pub record SessionReconcileState : Type 0 where
  pub session_id : String
  pub command_ack_through_seq : ℕ
  pub event_ack_through_seq : ℕ
  pub event_ack_sparse : List ℕ

-- The loop over the sparse acknowledgements, with its variable `previous`.
check_sparse : ℕ → ℕ → List ℕ → Check
check_sparse through previous [] = ok tt
check_sparse through previous (sequence ∷ rest) =
    let later = check_sparse through sequence rest in
    if leb sequence through
    then err sparse_not_above_through
    else if leb sequence previous
    then err sparse_not_ascending
    else later

unfoldable pub session_validate : SessionReconcileState → Check
unfolding non_empty check_sparse
session_validate s = do
  non_empty "session_id" s.session_id
  check_sparse s.event_ack_through_seq s.event_ack_through_seq s.event_ack_sparse

pub record ReconcileSnapshot : Type 0 where
  pub schema_version : ℕ
  pub sessions : List SessionReconcileState

-- The loop over the sessions, with the hash set of the identities that it has seen.
check_sessions : List String → List SessionReconcileState → Check
check_sessions seen [] = ok tt
check_sessions seen (session ∷ rest) = do
  session_validate session
  refuse_if (any (str_eq session.session_id) seen) duplicate_session_id
  check_sessions (session.session_id ∷ seen) rest

unfoldable pub snapshot_validate : ReconcileSnapshot → Check
unfolding schema check_sessions
snapshot_validate s = do schema s.schema_version; check_sessions [] s.sessions
