-- ===== src/Daemon/Journal/Identity.antt =====
-- The identity checks of the event journal (crates/north-daemon/src/journal.rs).
use north.Common.{
  ℕ, ◌+◌, String, str_eq, List, [], ◌∷◌, Option, none, some, Bool, true, false, not, ◌&&◌, ◌||◌,
  Result, ◌>>◌, refuse_if, any, ◌==◌, if◌then◌else◌, strs_eq, ltb, u64_max,
}
use Prim.Native.Nat.{max}
use north.Common.Map.{lookup, string_eq}
use north.Protocol.Event.{
  EventEnvelope, Event, session_started, agent_message, agent_activity, requirement_assessed,
  session_completed, session_failed, ReviewedRepositoryWire, ReadinessVerdictWire,
}
use north.Daemon.Journal.{
  JournalError, identity_conflict, JournalFile, SessionJournal, EventRecord, EventTombstone,
}

-- The derived `PartialEq` of an event.
abbrev pub verdict_eq : ReadinessVerdictWire → ReadinessVerdictWire → Bool
verdict_eq ReadinessVerdictWire.ready ReadinessVerdictWire.ready = true
verdict_eq ReadinessVerdictWire.needs_clarification ReadinessVerdictWire.needs_clarification = true
verdict_eq _ _ = false

abbrev pub reviewed_eq : List ReviewedRepositoryWire → List ReviewedRepositoryWire → Bool
reviewed_eq [] [] = true
reviewed_eq (r ∷ rs) (s ∷ ss) =
    str_eq r.repository_id s.repository_id && str_eq r.commit_sha s.commit_sha && reviewed_eq rs ss
reviewed_eq _ _ = false

abbrev pub bool_eq : Bool → Bool → Bool
bool_eq true b = b
bool_eq false b = not b

unfoldable pub event_eq : Event → Event → Bool
event_eq (session_started p) (session_started q) = str_eq p.runtime_id q.runtime_id
event_eq (agent_message p) (agent_message q) =
    str_eq p.message_id q.message_id && str_eq p.content q.content
event_eq (agent_activity p) (agent_activity q) = str_eq p.activity q.activity
event_eq (requirement_assessed p) (requirement_assessed q) =
    str_eq p.requirement_id q.requirement_id
    && p.requirement_revision == q.requirement_revision
    && verdict_eq p.verdict q.verdict
    && strs_eq p.blockers q.blockers
    && strs_eq p.assumptions q.assumptions
    && reviewed_eq p.repositories_reviewed q.repositories_reviewed
event_eq (session_completed p) (session_completed q) = str_eq p.summary q.summary
event_eq (session_failed p) (session_failed q) =
    bool_eq p.recoverable q.recoverable && str_eq p.reason q.reason
event_eq _ _ = false

-- Whether a record of the journal and an envelope conflict: `own` compares the daemon, and the rest
-- the identities, the sessions, the sequence numbers and the digests.
abbrev conflicts : Bool → Bool → Bool → Bool → Bool → Bool
conflicts own same_event same_session same_number same_digest =
    own
    && (same_event || same_session && same_number)
    && (not same_session || not same_number || not same_digest)

abbrev pub record_conflicts : String → EventEnvelope → String → EventRecord → Bool
record_conflicts daemon_id envelope digest r =
    conflicts (str_eq r.daemon_id daemon_id) (str_eq r.envelope.event_id envelope.event_id)
      (str_eq r.envelope.session_id envelope.session_id)
      (r.envelope.daemon_event_seq == envelope.daemon_event_seq) (str_eq r.payload_digest digest)

abbrev pub tombstone_conflicts : String → EventEnvelope → String → EventTombstone → Bool
tombstone_conflicts daemon_id envelope digest t =
    conflicts (str_eq t.daemon_id daemon_id) (str_eq t.event_id envelope.event_id)
      (str_eq t.session_id envelope.session_id) (t.daemon_event_seq == envelope.daemon_event_seq)
      (str_eq t.payload_digest digest)

unfoldable pub validate_event_identity :
    JournalFile → String → EventEnvelope → String → Result (Unit {0}) JournalError
validate_event_identity state daemon_id envelope digest = do
  refuse_if (any (record_conflicts daemon_id envelope digest) state.events)
      (identity_conflict "event ID or sequence was reused with different data")
  refuse_if (any (tombstone_conflicts daemon_id envelope digest) state.event_tombstones)
      (identity_conflict "event tombstone identity conflict")

-- `iter().max().unwrap_or_default()`
unfoldable pub max_of : List ℕ → ℕ
max_of [] = 0
max_of (n ∷ ns) = max n (max_of ns)

-- `saturating_add(1)`
abbrev pub saturating_inc : ℕ → ℕ
saturating_inc n = if ltb n u64_max then n + 1 else u64_max

abbrev cursor_of : Option SessionJournal → ℕ
unfolding max_of
cursor_of none = 0
cursor_of (some session) = max session.event_ack_through_seq (max_of session.event_ack_sparse)

-- The numbers that a session's events have, and those of its tombstones.
unfoldable pub event_numbers : String → List EventRecord → List ℕ
event_numbers session_id [] = []
event_numbers session_id (r ∷ rs) =
    let rest = event_numbers session_id rs in
    if str_eq r.envelope.session_id session_id then r.envelope.daemon_event_seq ∷ rest else rest

unfoldable pub tombstone_numbers : String → List EventTombstone → List ℕ
tombstone_numbers session_id [] = []
tombstone_numbers session_id (t ∷ ts) =
    let rest = tombstone_numbers session_id ts in
    if str_eq t.session_id session_id then t.daemon_event_seq ∷ rest else rest

unfoldable pub next_event_sequence : JournalFile → String → ℕ
unfolding max_of event_numbers tombstone_numbers
next_event_sequence state session_id =
    let current =
      max (max_of (event_numbers session_id state.events))
        (max_of (tombstone_numbers session_id state.event_tombstones)) in
    saturating_inc (max (cursor_of (lookup session_id state.sessions)) current)
