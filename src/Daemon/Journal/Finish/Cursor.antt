-- ===== src/Daemon/Journal/Finish/Cursor.antt =====
-- The cursor of what is processed in crates/north-daemon/src/journal.rs.
use north.Common.{
  ℕ, zero, suc, ◌-◌, ◌≤◌, ◌≡◌, String, List, some, Bool, true, false, arith, u64_max,
}
use north.Daemon.Journal.{JournalFile, SessionJournal, CommandRecord}
use north.Daemon.Journal.Identity.{saturating_inc}
use north.Daemon.Journal.Acks.{session_of, put_session}
use north.Daemon.Journal.Acks.Cursor.{put_if-some, some_injective}
use north.Daemon.Journal.Finish.{is_processed, process_next, processed_loop, advance_processed}

-- Only the cursor of what is processed moved, and it moved upwards.
abbrev pub IsAdvanced : SessionJournal → SessionJournal → Type 0
IsAdvanced s t =
    (n : ℕ) × (record s { processed_through_seq = n } ≡ t) × (s.processed_through_seq ≤ n)

saturating_inc-below : (n left : ℕ) → suc left ≤ u64_max - n → saturating_inc n ≡ suc n
saturating_inc-below n left h = ground arith

-- No round is left once the fuel is used up.
processed_loop-zero :
    (commands : List CommandRecord) (session_id : String) (s t : SessionJournal)
    → processed_loop commands session_id zero s ≡ some t
    → ⊥
unfolding processed_loop
processed_loop-zero commands session_id s t h = cc h

processed_loop-round :
    (commands : List CommandRecord) (session_id : String) (left : ℕ) (s t : SessionJournal)
    → processed_loop commands session_id (suc left) s ≡ some t
    → (processed_loop commands session_id left (process_next s) ≡ some t → IsAdvanced s t)
    → IsAdvanced s t
unfolding processed_loop
processed_loop-round commands session_id left s t h later =
    by_next (is_processed commands session_id (saturating_inc s.processed_through_seq)) h
  where
    by_next :
        (b : Bool)
        → elim b [
          | false ↦ some s
          | true ↦ processed_loop commands session_id left (process_next s)
        ]
          ≡ some t
        → IsAdvanced s t
    by_next false h = (s.processed_through_seq, some_injective h, omega arith)
    by_next true h = later h

processed_loop-IsAdvanced :
    (commands : List CommandRecord) (session_id : String) (left : ℕ) (s t : SessionJournal)
    → left ≤ suc (u64_max - s.processed_through_seq)
    → processed_loop commands session_id left s ≡ some t
    → IsAdvanced s t
processed_loop-IsAdvanced commands session_id zero s t bound h =
    absurd (processed_loop-zero commands session_id s t h)
processed_loop-IsAdvanced commands session_id (suc zero) s t bound h =
    processed_loop-round commands session_id zero s t h
      (λ runs. absurd (processed_loop-zero commands session_id (process_next s) t runs))
processed_loop-IsAdvanced commands session_id (suc (suc left)) s t bound h =
    processed_loop-round commands session_id (suc left) s t h (λ runs.
      let next = saturating_inc-below s.processed_through_seq left (omega arith) in
      let (n, same, above) =
        processed_loop-IsAdvanced commands session_id (suc left) (process_next s) t
          (omega (arith, next)) runs in
      (n, same, omega (arith, above, next)))

pub advance_processed-IsAdvanced :
    (session_id : String) (before after : JournalFile)
    → advance_processed session_id before ≡ some after
    → (t : SessionJournal) × IsAdvanced (session_of session_id before) t
      × (put_session session_id t before ≡ after)
unfolding advance_processed
advance_processed-IsAdvanced session_id before after h =
    let s = session_of session_id before in
    let left = suc (u64_max - s.processed_through_seq) in
    let (t, runs, e) =
      put_if-some (λ advanced. put_session session_id advanced before)
        (processed_loop before.commands session_id left s) after h in
    (t, processed_loop-IsAdvanced before.commands session_id left s t (omega arith) runs, e)
