-- ===== src/Daemon/Journal/Acks/Cursor.antt =====
-- How far `advance_event_ack` moves the cursor of a session, and when it ends.
use north.Common.{
  ℕ, zero, suc, ◌+◌, ◌-◌, ◌≤◌, ◌<◌, ◌≡◌, refl, ap, sym, ◌∙◌, subst, inl, inr, ◌⊎◌, String, eq_iff,
  List, Bool, true, false, Option, none, some, ◌==◌, ltb, arith, u64_max, eq_of_==, if◌then◌else◌,
  Bool-cases,
}
use north.Common.Map.{string_eq, lookup-insert}
use north.Daemon.Journal.{JournalFile, SessionJournal, EventRecord}
use north.Daemon.Journal.Identity.{saturating_inc}
use north.Daemon.Journal.Acks.{
  session_of, put_session, is_acknowledged, advance_loop, advance_event_ack, retain_above, put_if,
}

-- What the cursor of a session may become: it passes acknowledged events only, and stops in front of
-- a number that is not acknowledged.
pub record Advances (events : List EventRecord) (session_id : String) (s t : SessionJournal)
    : Type 0 where
  pub forward : s.event_ack_through_seq ≤ t.event_ack_through_seq
  pub passed :
      (n : ℕ)
      → s.event_ack_through_seq < n
      → n ≤ t.event_ack_through_seq
      → is_acknowledged events session_id n ≡ true
  pub stops : is_acknowledged events session_id (saturating_inc t.event_ack_through_seq) ≡ false
  pub bounded : t.event_ack_through_seq ≤ u64_max

-- What an optional result was made of.
pub some_injective : {A : Type 0} {a b : A} → some a ≡ some b → a ≡ b
some_injective h = ground arith

pub put_if-some :
    {A : Type 0} (put : A → JournalFile) (o : Option A) (after : JournalFile)
    → put_if put o ≡ some after
    → (a : A) × (o ≡ some a) × (put a ≡ after)
put_if-some put none after h = absurd (cc h)
put_if-some put (some a) after h = (a, refl, some_injective h)

-- One round of the loop.
unfoldable pub moved : SessionJournal → SessionJournal
moved s = record s {
  event_ack_through_seq = saturating_inc s.event_ack_through_seq;
  event_ack_sparse = retain_above (saturating_inc s.event_ack_through_seq) s.event_ack_sparse;
}

-- A step over an acknowledged number, and what follows it.
Advances-moved :
    (events : List EventRecord) (session_id : String) (s t : SessionJournal)
    → s.event_ack_through_seq < u64_max
    → is_acknowledged events session_id (saturating_inc s.event_ack_through_seq) ≡ true
    → Advances events session_id (moved s) t
    → Advances events session_id s t
unfolding moved
Advances-moved events session_id s t below acked a = record {
  forward = ground (arith, a.forward);
  passed = λ n from to.
      let later = a.passed n in
      let next : saturating_inc s.event_ack_through_seq ≡ s.event_ack_through_seq + 1 =
        ground arith in
      elim (Bool-cases (n == s.event_ack_through_seq + 1)) [
        | inl same ↦
            subst (λ k. is_acknowledged events session_id k ≡ true)
              (next ∙ sym (eq_of_== n (s.event_ack_through_seq + 1) same)) acked
        | inr other ↦ later (ground (arith, next)) to
      ];
  stops = a.stops;
  bounded = a.bounded;
}

pub advance_loop-passes :
    (events : List EventRecord) (session_id : String) (left : ℕ) (s : SessionJournal) (acked : Bool)
    → is_acknowledged events session_id (saturating_inc s.event_ack_through_seq) ≡ acked
    → advance_loop events session_id (suc left) s
      ≡ (if acked then advance_loop events session_id left (moved s) else some s)
unfolding advance_loop moved
advance_loop-passes events session_id left s true h =
    ap (λ b. elim b [ false ↦ some s | true ↦ advance_loop events session_id left (moved s) ]) h
advance_loop-passes events session_id left s false h =
    ap (λ b. elim b [ false ↦ some s | true ↦ advance_loop events session_id left (moved s) ]) h

stopped :
    (events : List EventRecord) (session_id : String) (s : SessionJournal)
    → s.event_ack_through_seq ≤ u64_max
    → is_acknowledged events session_id (saturating_inc s.event_ack_through_seq) ≡ false
    → Advances events session_id s s
stopped events session_id s bound other = record {
  forward = omega arith;
  passed = λ n from to. absurd (omega arith);
  stops = other;
  bounded = bound;
}

-- One round for each number above the cursor, and one to stop, are enough.
advance_loop_lem :
    (events : List EventRecord) (session_id : String) (left : ℕ) (s : SessionJournal)
    → s.event_ack_through_seq + left ≡ u64_max
    → is_acknowledged events session_id u64_max ≡ false
    → (t : SessionJournal) × (advance_loop events session_id (suc left) s ≡ some t)
      × Advances events session_id s t
unfolding moved
advance_loop_lem events session_id zero s e top =
    let last : saturating_inc s.event_ack_through_seq ≡ u64_max = ground arith in
    let other = ap (is_acknowledged events session_id) last ∙ top in
    (
      s,
      advance_loop-passes events session_id zero s false other,
      stopped events session_id s (omega arith) other,
    )
advance_loop_lem events session_id (suc left) s e top =
    let next = saturating_inc s.event_ack_through_seq in
    elim (Bool-cases (is_acknowledged events session_id next)) [
      | inl acked ↦
          let (t, runs, advances) =
            advance_loop_lem events session_id left (moved s) (ground arith) top in
          (
            t,
            advance_loop-passes events session_id (suc left) s true acked ∙ runs,
            Advances-moved events session_id s t (omega arith) acked advances,
          )
      | inr other ↦ (
        s,
        advance_loop-passes events session_id (suc left) s false other,
        stopped events session_id s (omega arith) other,
      )
    ]

session_of-put_session :
    (session_id : String) (s : SessionJournal) (state : JournalFile)
    → session_of session_id (put_session session_id s state) ≡ s
session_of-put_session session_id s state =
    ground
      (arith, lookup-insert session_id session_id s state.sessions, eq_iff session_id session_id)

-- When no event of the session with the number `u64::MAX` is acknowledged, the advance of the
-- session's cursor ends. It passes exactly the numbers that are acknowledged without a gap: all that
-- it passes are, and the next one is not.
pub advance_event_ack_lem :
    (session_id : String) (state : JournalFile)
    → (session_of session_id state).event_ack_through_seq ≤ u64_max
    → is_acknowledged state.events session_id u64_max ≡ false
    → (after : JournalFile) × (advance_event_ack session_id state ≡ some after)
      × Advances state.events session_id (session_of session_id state) (session_of session_id after)
unfolding advance_event_ack
advance_event_ack_lem session_id state bound top =
    let s = session_of session_id state in
    let (t, runs, advances) =
      advance_loop_lem state.events session_id (u64_max - s.event_ack_through_seq) s (omega arith)
        top in
    (
      put_session session_id t state,
      ap (put_if (λ advanced. put_session session_id advanced state)) runs,
      subst (Advances state.events session_id s) (sym (session_of-put_session session_id t state))
          advances,
    )

-- Every number above the cursor is acknowledged, up to `u64::MAX`.
abbrev pub IsFull : List EventRecord → String → SessionJournal → Type 0
IsFull events session_id s =
    (n : ℕ)
    → s.event_ack_through_seq < n ⊎ (n ≡ u64_max)
    → n ≤ u64_max
    → is_acknowledged events session_id n ≡ true

-- After a round it still is, and the cursor is still a `u64`.
never_ends :
    (events : List EventRecord) (session_id : String) (rounds : ℕ) (s : SessionJournal)
    → s.event_ack_through_seq ≤ u64_max
    → IsFull events session_id s
    → advance_loop events session_id rounds s ≡ none
unfolding moved
never_ends events session_id zero s bound full = unfold advance_loop in refl
never_ends events session_id (suc rounds) s bound full =
    let above : s.event_ack_through_seq < saturating_inc s.event_ack_through_seq
        ⊎ (saturating_inc s.event_ack_through_seq ≡ u64_max) =
      elim (Bool-cases (ltb s.event_ack_through_seq u64_max)) [
        | inl below ↦ inl (ground arith)
        | inr at_top ↦ inr (ground arith)
      ] in
    let acked : is_acknowledged events session_id (saturating_inc s.event_ack_through_seq) ≡ true =
      full (saturating_inc s.event_ack_through_seq) above (ground arith) in
    advance_loop-passes events session_id rounds s true acked
    ∙ never_ends events session_id rounds (moved s) (ground arith)
        (λ n later. full n (earlier n later))
  where
    earlier :
        (n : ℕ)
        → saturating_inc s.event_ack_through_seq < n ⊎ (n ≡ u64_max)
        → s.event_ack_through_seq < n ⊎ (n ≡ u64_max)
    earlier n (inl h) = inl (ground arith)
    earlier n (inr h) = inr h

-- The loop never ends when the cursor of a session is a `u64` and every number above it is
-- acknowledged, up to and with `u64::MAX`: however many rounds it runs, it has not ended.
pub advance_event_ack_diverges :
    (session_id : String) (state : JournalFile) (rounds : ℕ)
    → (session_of session_id state).event_ack_through_seq ≤ u64_max
    → IsFull state.events session_id (session_of session_id state)
    → (advance_event_ack session_id state ≡ none)
      × (advance_loop state.events session_id rounds (session_of session_id state) ≡ none)
unfolding advance_event_ack
advance_event_ack_diverges session_id state rounds bound full =
    let s = session_of session_id state in
    (
      ap (put_if (λ advanced. put_session session_id advanced state)) (
          never_ends state.events session_id (suc (u64_max - s.event_ack_through_seq)) s bound
            full),
      never_ends state.events session_id rounds s bound full,
    )
