-- ===== src/Daemon/Journal/Compact/Kept.antt =====
-- What compaction keeps.
use north.Common.{ℕ, ◌+◌, ◌≡◌, refl, String, List, [], ◌∷◌, ◌++◌, arith}
use north.Protocol.Event.{EventEnvelope}
use north.Common.{ap, ok, ◌>>◌, map_err}
use north.Common.Sorted.{sort_by_key}
use north.Protocol.Checks.{schema_version}
use north.Protocol.Reconcile.{SessionReconcileState}
use north.Protocol.Frame.{ServerFrame, server_validate}
use north.Daemon.Journal.{protocol, JournalFile, SessionJournal, EventRecord, EventTombstone}
use north.Daemon.Journal.Compact.{drain_events, compact_session, event_tombstone}
use north.Daemon.Journal.Acks.{session_of, wanted, replay_events, number_of}
use north.Daemon.Journal.Numbers.{records_at, tombstones_at, tombstones_at-append, times_given}

module _ (payload_digest : EventEnvelope → String) (daemon_id : String) where
  drain_events-given :
      (session : String) (n : ℕ) (session_id : String) (s : SessionJournal)
      (ts : List EventTombstone) (rs : List EventRecord)
      → records_at session n (drain_events payload_digest daemon_id session_id s ts rs).1
          + tombstones_at session n (drain_events payload_digest daemon_id session_id s ts rs).0
        ≡ records_at session n rs + tombstones_at session n ts
  unfolding drain_events records_at tombstones_at
  drain_events-given session n session_id s ts [] = refl
  drain_events-given session n session_id s ts (r ∷ rs) =
      let moved = ts ++ (event_tombstone payload_digest daemon_id r ∷ []) in
      ground (
        arith,
        drain_events-given session n session_id s ts rs,
        drain_events-given session n session_id s moved rs,
        tombstones_at-append session n ts (event_tombstone payload_digest daemon_id r ∷ []),
      )

  -- Compaction gives no sequence number to another event, and takes none away.
  pub compact_session-given :
      (session : String) (n : ℕ) (session_id : String) (state : JournalFile)
      → times_given session n (compact_session payload_digest daemon_id session_id state)
        ≡ times_given session n state
  unfolding compact_session
  compact_session-given session n session_id state =
      drain_events-given session n session_id (session_of session_id state) state.event_tombstones
        state.events

  -- What is delivered is acknowledged, so it is not wanted.
  drain_events-wanted :
      (session : String) (remote : SessionReconcileState) (session_id : String) (s : SessionJournal)
      (ts : List EventTombstone) (rs : List EventRecord)
      → wanted session remote (drain_events payload_digest daemon_id session_id s ts rs).1
        ≡ wanted session remote rs
  unfolding drain_events wanted
  drain_events-wanted session remote session_id s ts [] = refl
  drain_events-wanted session remote session_id s ts (r ∷ rs) =
      let moved = ts ++ (event_tombstone payload_digest daemon_id r ∷ []) in
      ground (
        arith,
        drain_events-wanted session remote session_id s ts rs,
        drain_events-wanted session remote session_id s moved rs,
      )

  -- Compaction of any session leaves the replay of every session as it was, for any state of the
  -- server: the same events in the same order, or the same error.
  pub replay_events-compact_session :
      (session : String) (remote : SessionReconcileState) (session_id : String)
      (state : JournalFile)
      → replay_events session remote (compact_session payload_digest daemon_id session_id state)
        ≡ replay_events session remote state
  unfolding compact_session replay_events
  replay_events-compact_session session remote session_id state =
      let valid = map_err protocol (
        server_validate (
          ServerFrame.reconcile
            (record { schema_version = schema_version; sessions = remote ∷ [] }))) in
      ap (λ es. valid >> ok (sort_by_key number_of es))
        (drain_events-wanted session remote session_id (session_of session_id state)
          state.event_tombstones state.events)
