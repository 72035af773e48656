-- ===== src/Protocol/Reconcile/Laws.antt =====
-- What a valid snapshot is: the loops of `validate` against plain predicates.
use north.Common.{
  ℕ, inl, inr, sym, Bool-cases, ◌<◌, ◌≤◌, ◌≡◌, ◌≢◌, refl, ◌↔◌, String, str_eq, eq_iff, is_blank,
  List, [], ◌∷◌, any, All, false, ok, ◌>>◌, >>-ok, refuse_if, arith,
}
use north.Common.Sorted.{IsAscending, All-below}
use north.Protocol.Checks.{non_empty, schema, schema_version, duplicate_session_id}
use north.Protocol.Reconcile.{
  SessionReconcileState, check_sparse, session_validate, ReconcileSnapshot, check_sessions,
  snapshot_validate,
}

le_self : {n : ℕ} → n ≤ n
le_self = omega arith

check_sparse_sound :
    (through previous : ℕ) (xs : List ℕ)
    → check_sparse through previous xs ≡ ok tt
    → All (λ x. previous < x) xs × IsAscending xs
unfolding check_sparse
check_sparse_sound through previous [] h = (tt, tt)
check_sparse_sound through previous (x ∷ xs) h =
    let later : check_sparse through x xs ≡ ok tt = ground arith in
    let above : previous < x = ground arith in
    let (all, ascending) = check_sparse_sound through x xs later in
    ((above, All-below previous x xs (omega arith) all), (all, ascending))

check_sparse_complete :
    (through previous : ℕ) (xs : List ℕ)
    → through ≤ previous
    → All (λ x. previous < x) xs
    → IsAscending xs
    → check_sparse through previous xs ≡ ok tt
unfolding check_sparse
check_sparse_complete through previous [] h a s = refl
check_sparse_complete through previous (x ∷ xs) h a s =
    ground (arith, check_sparse_complete through x xs (omega arith) s.0 s.1)

-- A session's state is valid exactly if it names its session and its sparse acknowledgements are
-- all above `event_ack_through_seq` and strictly ascending.
pub session_validate_iff :
    (s : SessionReconcileState)
    → (session_validate s ≡ ok tt) ↔ (
        (is_blank s.session_id ≡ false)
        × All (λ x. s.event_ack_through_seq < x) s.event_ack_sparse
        × IsAscending s.event_ack_sparse)
unfolding session_validate
session_validate_iff s = (
  λ h.
      let (named, sparse) =
        >>-ok (non_empty "session_id" s.session_id)
          (check_sparse s.event_ack_through_seq s.event_ack_through_seq s.event_ack_sparse) h in
      let (above, ascending) =
        check_sparse_sound s.event_ack_through_seq s.event_ack_through_seq s.event_ack_sparse
          sparse in
      (ground arith, above, ascending),
  λ h. ground (
    arith,
    h.0,
    check_sparse_complete s.event_ack_through_seq s.event_ack_through_seq s.event_ack_sparse le_self
        h.1 h.2,
  ),
)

-- No two sessions have the same identity.
abbrev pub IsDistinct : List SessionReconcileState → Type 0
IsDistinct [] = Unit
IsDistinct (s ∷ sessions) = All (λ t. s.session_id ≢ t.session_id) sessions × IsDistinct sessions

abbrev IsNew : List String → SessionReconcileState → Type 0
IsNew seen t = any (str_eq t.session_id) seen ≡ false

ne_of_str_eq : (x y : String) → str_eq y x ≡ false → x ≢ y
ne_of_str_eq x y h e = ground (arith, eq_iff y x)

str_eq_of_ne : (x y : String) → x ≢ y → str_eq y x ≡ false
str_eq_of_ne x y h = elim (Bool-cases (str_eq y x)) [
  | inl same ↦ absurd (h (sym ((eq_iff y x).0 same)))
  | inr other ↦ other
]

IsNew-split :
    (x : String) (seen : List String) (sessions : List SessionReconcileState)
    → All (IsNew (x ∷ seen)) sessions
    → All (λ t. x ≢ t.session_id) sessions × All (IsNew seen) sessions
IsNew-split x seen [] a = (tt, tt)
IsNew-split x seen (t ∷ sessions) (first, rest) =
    let (apart, new) = IsNew-split x seen sessions rest in
    ((ne_of_str_eq x t.session_id (ground arith), apart), (ground arith, new))

IsNew-join :
    (x : String) (seen : List String) (sessions : List SessionReconcileState)
    → All (λ t. x ≢ t.session_id) sessions
    → All (IsNew seen) sessions
    → All (IsNew (x ∷ seen)) sessions
IsNew-join x seen [] a b = tt
IsNew-join x seen (t ∷ sessions) a b =
    (rw (str_eq_of_ne x t.session_id a.0) b.0, IsNew-join x seen sessions a.1 b.1)

check_sessions_sound :
    (seen : List String) (sessions : List SessionReconcileState)
    → check_sessions seen sessions ≡ ok tt
    → All (λ s. session_validate s ≡ ok tt) sessions
      × All (IsNew seen) sessions
      × IsDistinct sessions
unfolding check_sessions
check_sessions_sound seen [] h = (tt, tt, tt)
check_sessions_sound seen (s ∷ sessions) h =
    let again = check_sessions (s.session_id ∷ seen) sessions in
    let once = refuse_if (any (str_eq s.session_id) seen) duplicate_session_id in
    let (valid, later) = >>-ok (session_validate s) (once >> again) h in
    let (new, rest) = >>-ok once again later in
    let (all, unseen, distinct) = check_sessions_sound (s.session_id ∷ seen) sessions rest in
    let (apart, unseen') = IsNew-split s.session_id seen sessions unseen in
    ((valid, all), (ground arith, unseen'), (apart, distinct))

check_sessions_complete :
    (seen : List String) (sessions : List SessionReconcileState)
    → All (λ s. session_validate s ≡ ok tt) sessions
    → All (IsNew seen) sessions
    → IsDistinct sessions
    → check_sessions seen sessions ≡ ok tt
unfolding check_sessions
check_sessions_complete seen [] valid unseen distinct = refl
check_sessions_complete seen (s ∷ sessions) valid unseen distinct =
    rw (valid.0, unseen.0)
      (check_sessions_complete (s.session_id ∷ seen) sessions valid.1
        (IsNew-join s.session_id seen sessions distinct.0 unseen.1) distinct.1)

All-IsNew : (sessions : List SessionReconcileState) → All (IsNew []) sessions
All-IsNew [] = tt
All-IsNew (s ∷ sessions) = (refl, All-IsNew sessions)

-- A snapshot is valid exactly if it has this schema version, each of its sessions is valid, and no
-- two sessions have the same identity.
pub snapshot_validate_iff :
    (s : ReconcileSnapshot)
    → (snapshot_validate s ≡ ok tt) ↔ (
        (s.schema_version ≡ schema_version)
        × All (λ t. session_validate t ≡ ok tt) s.sessions
        × IsDistinct s.sessions)
unfolding snapshot_validate
snapshot_validate_iff s = (
  λ h.
      let (version, rest) = >>-ok (schema s.schema_version) (check_sessions [] s.sessions) h in
      let (valid, _, distinct) = check_sessions_sound [] s.sessions rest in
      (ground arith, valid, distinct),
  λ h. ground (arith, h.0, check_sessions_complete [] s.sessions h.1 (All-IsNew s.sessions) h.2),
)
