-- ===== src/Daemon/Journal/Acks/Tracked.antt =====
-- The sparse acknowledgements of a session: above its cursor, in order, each once.
use north.Common.{
  ℕ, zero, suc, ◌-◌, ◌<◌, ◌≡◌, ap, sym, ◌∙◌, subst, inl, inr, String, str_eq, List, [], ◌∷◌, ◌++◌,
  All, All-append, Bool, true, false, Option, some, ltb, u64_max, if◌then◌else◌, Bool-cases, ltb→lt,
}
use north.Common.Map.{Map, lookup, insert, string_eq, lookup-insert}
use north.Common.Sorted.{
  IsAscending, sort_unstable, sort_by_key-IsSorted, All-sort_by_key, dedup, All-dedup,
  dedup-IsAscending,
}
use north.Protocol.Event.{EventAck}
use north.Protocol.Reconcile.{SessionReconcileState}
use north.Daemon.Journal.{JournalFile, SessionJournal, EventRecord}
use north.Daemon.Journal.Acks.Cursor.{moved, advance_loop-passes, some_injective, put_if-some}
use north.Daemon.Journal.Identity.{saturating_inc}
use north.Daemon.Journal.Acks.{
  session_of, or_default, mark_acknowledged, advance_event_ack, reconcile_each, reconcile_session,
  put_session, retain_above, note_sparse, merge_session, merge_sparse, advance_loop,
  is_acknowledged,
}

abbrev pub IsSparse : SessionJournal → Type 0
IsSparse s =
    All (λ n. s.event_ack_through_seq < n) s.event_ack_sparse × IsAscending s.event_ack_sparse

abbrev pub IsTracked : Map String SessionJournal → Type 0
IsTracked sessions = (session_id : String) → IsSparse (or_default (lookup session_id sessions))

retain_above-All : (n : ℕ) (xs : List ℕ) → All (λ m. n < m) (retain_above n xs)
unfolding retain_above
retain_above-All n [] = tt
retain_above-All n (x ∷ xs) = elim (Bool-cases (ltb n x)) [
  | inl below ↦ rw below (ltb→lt n x below, retain_above-All n xs)
  | inr above ↦ rw above (retain_above-All n xs)
]

All-retain_above : (P : ℕ → Type 0) (n : ℕ) (xs : List ℕ) → All P xs → All P (retain_above n xs)
unfolding retain_above
All-retain_above P n [] a = tt
All-retain_above P n (x ∷ xs) a = elim (Bool-cases (ltb n x)) [
  | inl below ↦ rw below (a.0, All-retain_above P n xs a.1)
  | inr above ↦ rw above (All-retain_above P n xs a.1)
]

retain_above-IsAscending : (n : ℕ) (xs : List ℕ) → IsAscending xs → IsAscending (retain_above n xs)
unfolding retain_above
retain_above-IsAscending n [] a = tt
retain_above-IsAscending n (x ∷ xs) a = elim (Bool-cases (ltb n x)) [
  | inl below ↦ rw below (All-retain_above (λ m. x < m) n xs a.0, retain_above-IsAscending n xs a.1)
  | inr above ↦ rw above (retain_above-IsAscending n xs a.1)
]

-- Sorting and removing duplicates keeps what holds of all, and gives strict order.
sorted-IsAscending : (xs : List ℕ) → IsAscending (dedup (sort_unstable xs))
sorted-IsAscending xs = dedup-IsAscending (sort_unstable xs) (sort_by_key-IsSorted (λ n. n) xs)

All-sorted : (P : ℕ → Type 0) (xs : List ℕ) → All P xs → All P (dedup (sort_unstable xs))
All-sorted P xs a = All-dedup P (sort_unstable xs) (All-sort_by_key (λ n. n) P xs a)

moved-IsSparse : (s : SessionJournal) → IsSparse s → IsSparse (moved s)
unfolding moved
moved-IsSparse s a = (
  retain_above-All (saturating_inc s.event_ack_through_seq) s.event_ack_sparse,
  retain_above-IsAscending (saturating_inc s.event_ack_through_seq) s.event_ack_sparse a.1,
)

note_sparse-IsSparse : (n : ℕ) (s : SessionJournal) → IsSparse s → IsSparse (note_sparse n s)
unfolding note_sparse
note_sparse-IsSparse n s a = elim (Bool-cases (ltb s.event_ack_through_seq n)) [
  | inl below ↦
      let xs = s.event_ack_sparse ++ (n ∷ []) in
      let all =
        All-append (λ m. s.event_ack_through_seq < m) s.event_ack_sparse (n ∷ []) a.0
          (ltb→lt s.event_ack_through_seq n below, tt) in
      rw below (All-sorted (λ m. s.event_ack_through_seq < m) xs all, sorted-IsAscending xs)
  | inr above ↦ rw above a
]

merge_session-IsSparse :
    (remote : SessionReconcileState) (s : SessionJournal) → IsSparse (merge_session remote s)
unfolding merge_session merge_sparse
merge_session-IsSparse remote s =
    let xs = s.event_ack_sparse ++ remote.event_ack_sparse in
    (retain_above-All _ _, retain_above-IsAscending _ _ (sorted-IsAscending xs))

chosen-IsSparse :
    (b : Bool) (s : SessionJournal) (o : Option SessionJournal)
    → IsSparse s
    → IsSparse (or_default o)
    → IsSparse (or_default (if b then some s else o))
chosen-IsSparse true s o a c = a
chosen-IsSparse false s o a c = c

pub insert-IsTracked :
    (session_id : String) (s : SessionJournal) (sessions : Map String SessionJournal)
    → IsSparse s
    → IsTracked sessions
    → IsTracked (insert session_id s sessions)
insert-IsTracked session_id s sessions a tracked j =
    subst IsSparse (sym (ap or_default (lookup-insert j session_id s sessions)))
      (chosen-IsSparse (str_eq session_id j) s (lookup j sessions) a (tracked j))

advance_loop-IsSparse :
    (events : List EventRecord) (session_id : String) (left : ℕ) (s t : SessionJournal)
    → advance_loop events session_id left s ≡ some t
    → IsSparse s
    → IsSparse t
unfolding advance_loop
advance_loop-IsSparse events session_id zero s t h a = absurd (cc h)
advance_loop-IsSparse events session_id (suc left) s t h a =
    elim (Bool-cases (is_acknowledged events session_id (saturating_inc s.event_ack_through_seq))) [
      | inl acked ↦
          advance_loop-IsSparse events session_id left (moved s) t
            (sym (advance_loop-passes events session_id left s true acked) ∙ h) (moved-IsSparse s a)
      | inr other ↦
          subst IsSparse
            (some_injective (sym (advance_loop-passes events session_id left s false other) ∙ h)) a
    ]

advance_event_ack-IsTracked :
    (session_id : String) (before after : JournalFile)
    → advance_event_ack session_id before ≡ some after
    → IsTracked before.sessions
    → IsTracked after.sessions
unfolding advance_event_ack
advance_event_ack-IsTracked session_id before after h tracked =
    let s = session_of session_id before in
    let left = suc (u64_max - s.event_ack_through_seq) in
    let (t, runs, e) =
      put_if-some (λ advanced. put_session session_id advanced before)
        (advance_loop before.events session_id left s) after h in
    let sparse =
      advance_loop-IsSparse before.events session_id left s t runs (tracked session_id) in
    subst (λ (f : JournalFile). IsTracked f.sessions) e
      (insert-IsTracked session_id t before.sessions sparse tracked)

pub acknowledged-IsTracked :
    (ack : EventAck) (before after : JournalFile)
    → advance_event_ack ack.session_id (mark_acknowledged ack before) ≡ some after
    → IsTracked before.sessions
    → IsTracked after.sessions
unfolding mark_acknowledged
acknowledged-IsTracked ack before after h tracked =
    let s = session_of ack.session_id before in
    advance_event_ack-IsTracked ack.session_id (mark_acknowledged ack before) after h (
      insert-IsTracked ack.session_id (note_sparse ack.daemon_event_seq s) before.sessions
        (note_sparse-IsSparse ack.daemon_event_seq s (tracked ack.session_id)) tracked)

pub reconcile_each-IsTracked :
    (sessions : List SessionReconcileState) (state : JournalFile)
    → IsTracked state.sessions
    → IsTracked (reconcile_each sessions state).sessions
unfolding reconcile_each reconcile_session
reconcile_each-IsTracked [] state tracked = tracked
reconcile_each-IsTracked (remote ∷ rest) state tracked =
    let s = session_of remote.session_id state in
    reconcile_each-IsTracked rest (reconcile_session remote state) (
      insert-IsTracked remote.session_id (merge_session remote s) state.sessions
        (merge_session-IsSparse remote s) tracked)
