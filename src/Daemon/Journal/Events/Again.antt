-- ===== src/Daemon/Journal/Events/Again.antt =====
-- An event that is appended again is stored once.
use north.Common.{
  ◌≡◌, refl, ap, sym, ◌∙◌, String, eq_refl, List, [], ◌∷◌, ◌++◌, Option, none, some, Bool, true,
  false, not, Result, ok, ◌>>◌, refuse_if, find, arith, strs_eq_refl, map_err,
}
use north.Protocol.Event.{
  EventEnvelope, Event, session_started, agent_message, agent_activity, requirement_assessed,
  session_completed, session_failed, ReviewedRepositoryWire, ReadinessVerdictWire, ready,
  needs_clarification,
}
use north.Protocol.Frame.{DaemonFrame, daemon_validate}
use north.Daemon.Journal.{
  JournalError, protocol, identity_conflict, JournalFile, EventRecord, EventTombstone,
}
use north.Daemon.Journal.Identity.{
  event_eq, verdict_eq, reviewed_eq, validate_event_identity, next_event_sequence,
}
use north.Daemon.Journal.Events.{
  AppendedEvent, envelope_of, record_of, push_event, same_event, is_record_of, is_tombstone_of,
  append_new, append_tombstone, append_record, append_event,
}
use north.Daemon.Journal.Events.Sequence.{after_two-ok}

verdict_eq_refl : (v : ReadinessVerdictWire) → verdict_eq v v ≡ true
verdict_eq_refl ready = refl
verdict_eq_refl needs_clarification = refl

reviewed_eq_refl : (rs : List ReviewedRepositoryWire) → reviewed_eq rs rs ≡ true
reviewed_eq_refl [] = refl
reviewed_eq_refl (r ∷ rs) =
    ground (arith, eq_refl r.repository_id, eq_refl r.commit_sha, reviewed_eq_refl rs)

event_eq_refl : (e : Event) → event_eq e e ≡ true
unfolding event_eq
event_eq_refl (session_started p) = eq_refl p.runtime_id
event_eq_refl (agent_message p) = ground (arith, eq_refl p.message_id, eq_refl p.content)
event_eq_refl (agent_activity p) = eq_refl p.activity
event_eq_refl (requirement_assessed p) = ground (
  arith,
  eq_refl p.requirement_id,
  verdict_eq_refl p.verdict,
  strs_eq_refl p.blockers,
  strs_eq_refl p.assumptions,
  reviewed_eq_refl p.repositories_reviewed,
)
event_eq_refl (session_completed p) = eq_refl p.summary
event_eq_refl (session_failed p) = ground (arith, eq_refl p.reason)

-- A record that nothing in front of it hides is found.
find-append :
    {A : Type 0} (p : A → Bool) (xs : List A) (x : A)
    → find p xs ≡ none
    → p x ≡ true
    → find p (xs ++ (x ∷ [])) ≡ some x
unfolding find
find-append p [] x h q = ground arith
find-append p (y ∷ xs) x h q = ground (arith, find-append p xs x)

-- What a new event leaves behind.
abbrev Pushes :
    (EventEnvelope → String)
    → String
    → String
    → String
    → Event
    → JournalFile
    → JournalFile
    → AppendedEvent
    → Type 0
Pushes payload_digest daemon_id event_id session_id event state after a =
    (now : String) × (after
      ≡ push_event (record_of daemon_id a.envelope (payload_digest a.envelope)) state)
    × (a.envelope
        ≡ envelope_of event_id session_id (next_event_sequence state session_id) now event)

module _ (payload_digest : EventEnvelope → String) (daemon_id : String) where
  append_new-Pushes :
      (event_id session_id : String) (event : Event) (now : String) (state after : JournalFile)
      (a : AppendedEvent)
      → append_new payload_digest daemon_id event_id session_id event now state ≡ ok (after, a)
      → Pushes payload_digest daemon_id event_id session_id event state after a
  unfolding append_new
  append_new-Pushes event_id session_id event now state after a h =
      let envelope =
        envelope_of event_id session_id (next_event_sequence state session_id) now event in
      let digest = payload_digest envelope in
      let pushed : Result (JournalFile × AppendedEvent) JournalError = ok (
        push_event (record_of daemon_id envelope digest) state,
        record { envelope = envelope; duplicate = false },
      ) in
      let last =
        after_two-ok (map_err protocol (daemon_validate (DaemonFrame.event envelope)))
          (validate_event_identity state daemon_id envelope digest) pushed h in
      let same : envelope ≡ a.envelope = ground (arith, last) in
      let file : push_event (record_of daemon_id envelope digest) state ≡ after =
        ground (arith, last) in
      (
        now,
        sym file
            ∙ ap
                (λ (e : EventEnvelope). push_event (record_of daemon_id e (payload_digest e)) state)
                same,
        sym same,
      )

  append_tombstone-Pushes :
      (event_id session_id : String) (event : Event) (now : String) (state after : JournalFile)
      (a : AppendedEvent) (o : Option EventTombstone)
      → append_tombstone payload_digest daemon_id event_id session_id event now state o
        ≡ ok (after, a)
      → a.duplicate ≡ false
      → Pushes payload_digest daemon_id event_id session_id event state after a
  unfolding append_tombstone
  append_tombstone-Pushes event_id session_id event now state after a none h new =
      append_new-Pushes event_id session_id event now state after a h
  append_tombstone-Pushes event_id session_id event now state after a (some t) h new =
      absurd (ground arith)

  append_record-Pushes :
      (event_id session_id : String) (event : Event) (now : String) (state after : JournalFile)
      (a : AppendedEvent) (o : Option EventRecord)
      → append_record payload_digest daemon_id event_id session_id event now state o ≡ ok (after, a)
      → a.duplicate ≡ false
      → (o ≡ none) × Pushes payload_digest daemon_id event_id session_id event state after a
  unfolding append_record
  append_record-Pushes event_id session_id event now state after a none h new = (
    refl,
    append_tombstone-Pushes event_id session_id event now state after a
        (find (is_tombstone_of daemon_id event_id) state.event_tombstones) h new,
  )
  append_record-Pushes event_id session_id event now state after a (some r) h new =
      absurd (ground arith)

  append_event_found :
      (event_id session_id : String) (event : Event) (now : String) (state : JournalFile)
      (r : EventRecord)
      → find (is_record_of daemon_id event_id) state.events ≡ some r
      → same_event r.envelope session_id event ≡ true
      → append_event payload_digest daemon_id event_id session_id event now state
        ≡ ok (state, record { envelope = r.envelope; duplicate = true })
  unfolding append_event append_record
  append_event_found event_id session_id event now state r found same =
      ap (append_record payload_digest daemon_id event_id session_id event now state) found
      ∙ ap
          (λ b.
            refuse_if (not b)
              (identity_conflict "event ID is already bound to different event data")
            >> ok (state, record { envelope = r.envelope; duplicate = true }))
          same

  -- After a new event is appended, appending it again at any time changes nothing: it is reported as
  -- a duplicate, with the envelope and the sequence number that it got at first.
  pub append_event_again :
      (event_id session_id : String) (event : Event) (now later : String)
      (state after : JournalFile) (a : AppendedEvent)
      → append_event payload_digest daemon_id event_id session_id event now state ≡ ok (after, a)
      → a.duplicate ≡ false
      → append_event payload_digest daemon_id event_id session_id event later after
        ≡ ok (after, record { envelope = a.envelope; duplicate = true })
  unfolding append_event
  append_event_again event_id session_id event now later state after a h new =
      let (missing, (at, pushed, built)) =
        append_record-Pushes event_id session_id event now state after a
          (find (is_record_of daemon_id event_id) state.events) h new in
      let r = record_of daemon_id a.envelope (payload_digest a.envelope) in
      let own : is_record_of daemon_id event_id r ≡ true =
        ground (arith, built, eq_refl daemon_id, eq_refl event_id) in
      let found =
        ap (λ (f : JournalFile). find (is_record_of daemon_id event_id) f.events) pushed
        ∙ find-append (is_record_of daemon_id event_id) state.events r missing own in
      append_event_found event_id session_id event later after r found
        (ground (arith, built, eq_refl session_id, event_eq_refl event))
