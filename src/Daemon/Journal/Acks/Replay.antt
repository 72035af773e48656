-- ===== src/Daemon/Journal/Acks/Replay.antt =====
-- What `replay_events` returns.
use north.Common.{
  ◌≡◌, refl, ◌<◌, ◌↔◌, ◌++◌, sym, true, false, inl, inr, Bool-cases, eq_iff, String, List, [], ◌∷◌,
  any, Bool, ◌&&◌, ok, ◌>>◌, arith, map_err, ◌∙◌, ap,
}
use north.Common.Sorted.{
  contains_number, sort_by_key, sort_by_key-IsSorted, any-sort_by_key, IsSorted,
}
use north.Protocol.Checks.{schema_version}
use north.Protocol.Event.{EventEnvelope}
use north.Protocol.Reconcile.{SessionReconcileState, session_validate}
use north.Protocol.Reconcile.Laws.{snapshot_validate_iff}
use north.Protocol.Frame.{ServerFrame, server_validate}
use north.Daemon.Journal.{protocol, JournalFile, EventRecord}
use north.Daemon.Journal.Acks.{is_wanted, wanted, number_of, replay_events}

any-wanted :
    (p : EventEnvelope → Bool) (session_id : String) (remote : SessionReconcileState)
    (rs : List EventRecord)
    → any p (wanted session_id remote rs)
      ≡ any (λ r. is_wanted session_id remote r && p r.envelope) rs
unfolding wanted
any-wanted p session_id remote [] = refl
any-wanted p session_id remote (r ∷ rs) = ground (arith, any-wanted p session_id remote rs)

valid_remote :
    (remote : SessionReconcileState)
    → session_validate remote ≡ ok tt
    → server_validate
        (ServerFrame.reconcile (record { schema_version = schema_version; sessions = remote ∷ [] }))
      ≡ ok tt
unfolding server_validate
valid_remote remote h =
    (snapshot_validate_iff (record { schema_version = schema_version; sessions = remote ∷ [] })).1
      (refl, (h, tt), (tt, tt))

-- An event of the session that neither the server nor the journal has acknowledged.
pub record IsUnseen (session_id : String) (remote : SessionReconcileState) (r : EventRecord)
    : Type 0 where
  pub of_session : r.envelope.session_id ≡ session_id
  pub above : remote.event_ack_through_seq < r.envelope.daemon_event_seq
  pub not_sparse : contains_number r.envelope.daemon_event_seq remote.event_ack_sparse ≡ false
  pub not_acknowledged : r.acknowledged ≡ false

-- The journal has such an event, with an envelope of the kind.
abbrev pub HasUnseen :
    String → SessionReconcileState → (EventEnvelope → Bool) → List EventRecord → Type 0
HasUnseen session_id remote kind rs =
    (front : List EventRecord) × (r : EventRecord) × (back : List EventRecord) × (rs
      ≡ (front ++ (r ∷ back)))
    × IsUnseen session_id remote r
    × (kind r.envelope ≡ true)

is_wanted-IsUnseen :
    (session_id : String) (remote : SessionReconcileState) (r : EventRecord)
    → is_wanted session_id remote r ≡ true
    → IsUnseen session_id remote r
is_wanted-IsUnseen session_id remote r h = record {
  of_session = (eq_iff r.envelope.session_id session_id).0 (ground arith);
  above = ground arith;
  not_sparse = ground arith;
  not_acknowledged = ground arith;
}

IsUnseen-is_wanted :
    (session_id : String) (remote : SessionReconcileState) (r : EventRecord)
    → IsUnseen session_id remote r
    → is_wanted session_id remote r ≡ true
IsUnseen-is_wanted session_id remote r u =
    let named = (eq_iff r.envelope.session_id session_id).1 u.of_session in
    ground (arith, named, u.above, u.not_sparse, u.not_acknowledged)

any-HasUnseen :
    (session_id : String) (remote : SessionReconcileState) (kind : EventEnvelope → Bool)
    (rs : List EventRecord)
    → any (λ r. is_wanted session_id remote r && kind r.envelope) rs ≡ true
    → HasUnseen session_id remote kind rs
any-HasUnseen session_id remote kind [] h = absurd (cc h)
any-HasUnseen session_id remote kind (r ∷ rs) h =
    elim (Bool-cases (is_wanted session_id remote r && kind r.envelope)) [
      | inl own ↦
          let wanted_here : is_wanted session_id remote r ≡ true = ground arith in
          ([], r, rs, refl, is_wanted-IsUnseen session_id remote r wanted_here, ground arith)
      | inr other ↦
          let (front, q, back, whole, unseen, same) =
            any-HasUnseen session_id remote kind rs (ground arith) in
          (r ∷ front, q, back, ap (λ t. r ∷ t) whole, unseen, same)
    ]

any-append :
    (p : EventRecord → Bool) (front back : List EventRecord) (r : EventRecord)
    → p r ≡ true
    → any p (front ++ (r ∷ back)) ≡ true
any-append p [] back r h = ground arith
any-append p (x ∷ front) back r h = ground (arith, any-append p front back r h)

HasUnseen-any :
    (session_id : String) (remote : SessionReconcileState) (kind : EventEnvelope → Bool)
    (rs : List EventRecord)
    → HasUnseen session_id remote kind rs
    → any (λ r. is_wanted session_id remote r && kind r.envelope) rs ≡ true
HasUnseen-any session_id remote kind rs (front, r, back, whole, unseen, same) =
    let wanted_here = IsUnseen-is_wanted session_id remote r unseen in
    let p : EventRecord → Bool = λ q. is_wanted session_id remote q && kind q.envelope in
    ap (any p) whole ∙ any-append p front back r (ground (arith, wanted_here, same))

-- For a valid state of the server, a replay returns envelopes in the order of their sequence numbers,
-- and an envelope of any kind is among them exactly if the journal has an event of the session with
-- an envelope of that kind whose number is above the cursor of the server and not among its sparse
-- acknowledgements, and which the journal has not seen acknowledged.
pub replay_events_lem :
    (session_id : String) (remote : SessionReconcileState) (state : JournalFile)
    (kind : EventEnvelope → Bool)
    → session_validate remote ≡ ok tt
    → (events : List EventEnvelope) × (replay_events session_id remote state ≡ ok events)
      × IsSorted number_of events
      × ((any kind events ≡ true) ↔ HasUnseen session_id remote kind state.events)
unfolding replay_events
replay_events_lem session_id remote state kind h =
    let unsorted = wanted session_id remote state.events in
    let sorted = sort_by_key number_of unsorted in
    let same : any kind sorted
        ≡ any (λ r. is_wanted session_id remote r && kind r.envelope) state.events =
      any-sort_by_key number_of kind unsorted ∙ any-wanted kind session_id remote state.events in
    (
      sorted,
      ap (λ m. map_err protocol m >> ok sorted) (valid_remote remote h),
      sort_by_key-IsSorted number_of unsorted,
      (
        λ e. any-HasUnseen session_id remote kind state.events (sym same ∙ e),
        λ u. same ∙ HasUnseen-any session_id remote kind state.events u,
      ),
    )
