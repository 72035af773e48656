-- ===== src/Daemon/Journal/Numbers.antt =====
-- How often a sequence number is given to an event of a session, in the records and the tombstones.
use north.Common.{
  ℕ, ◌+◌, ◌≤◌, ◌<◌, ◌≡◌, refl, String, str_eq, List, [], ◌∷◌, ◌++◌, map, Bool, true, false, ◌&&◌,
  ◌==◌, arith, modify_first, u64_max,
}
use north.Common.Map.{string_eq}
use north.Daemon.Journal.{JournalFile, EventRecord, EventTombstone}
use north.Daemon.Journal.Identity.{max_of, event_numbers, tombstone_numbers, next_event_sequence}

abbrev pub has_number : String → ℕ → EventRecord → Bool
has_number session_id n r =
    str_eq r.envelope.session_id session_id && r.envelope.daemon_event_seq == n

abbrev pub tombstone_has_number : String → ℕ → EventTombstone → Bool
tombstone_has_number session_id n t = str_eq t.session_id session_id && t.daemon_event_seq == n

abbrev pub one_if : Bool → ℕ
one_if true = 1
one_if false = 0

unfoldable pub records_at : String → ℕ → List EventRecord → ℕ
records_at session_id n [] = 0
records_at session_id n (r ∷ rs) = one_if (has_number session_id n r) + records_at session_id n rs

unfoldable pub tombstones_at : String → ℕ → List EventTombstone → ℕ
tombstones_at session_id n [] = 0
tombstones_at session_id n (t ∷ ts) =
    one_if (tombstone_has_number session_id n t) + tombstones_at session_id n ts

-- How many events of the session, kept or compacted, have the number.
abbrev pub times_given : String → ℕ → JournalFile → ℕ
times_given session_id n state =
    records_at session_id n state.events + tombstones_at session_id n state.event_tombstones

-- No number below `u64::MAX` is given twice in a session.
abbrev pub IsNumbered : JournalFile → Type 0
IsNumbered state = (session_id : String) (n : ℕ) → n < u64_max → times_given session_id n state ≤ 1

module _ (session_id : String) (n : ℕ) where
  pub records_at-append :
      (xs ys : List EventRecord)
      → records_at session_id n (xs ++ ys) ≡ records_at session_id n xs + records_at session_id n ys
  unfolding records_at
  records_at-append [] ys = omega arith
  records_at-append (x ∷ xs) ys = omega (arith, records_at-append xs ys)

  pub tombstones_at-append :
      (xs ys : List EventTombstone)
      → tombstones_at session_id n (xs ++ ys)
        ≡ tombstones_at session_id n xs + tombstones_at session_id n ys
  unfolding tombstones_at
  tombstones_at-append [] ys = omega arith
  tombstones_at-append (x ∷ xs) ys = omega (arith, tombstones_at-append xs ys)

  records_at-above :
      (xs : List EventRecord)
      → max_of (event_numbers session_id xs) < n
      → records_at session_id n xs ≡ 0
  unfolding records_at event_numbers max_of
  records_at-above [] h = refl
  records_at-above (x ∷ xs) h = ground (arith, records_at-above xs)

  tombstones_at-above :
      (xs : List EventTombstone)
      → max_of (tombstone_numbers session_id xs) < n
      → tombstones_at session_id n xs ≡ 0
  unfolding tombstones_at tombstone_numbers max_of
  tombstones_at-above [] h = refl
  tombstones_at-above (x ∷ xs) h = ground (arith, tombstones_at-above xs)

  -- The next number of a session is not given yet, unless it is `u64::MAX`.
  pub times_given-next :
      (state : JournalFile)
      → next_event_sequence state session_id ≡ n
      → n < u64_max
      → times_given session_id n state ≡ 0
  unfolding next_event_sequence
  times_given-next state e h =
      let kept = records_at-above state.events in
      let gone = tombstones_at-above state.event_tombstones in ground (arith, kept, gone)

  -- A change that keeps the numbers of events keeps how often they are given.
  pub records_at-modify :
      (p : EventRecord → Bool) (f : EventRecord → EventRecord) (xs : List EventRecord)
      → ((r : EventRecord) → (f r).envelope ≡ r.envelope)
      → records_at session_id n (modify_first p f xs) ≡ records_at session_id n xs
  unfolding records_at modify_first
  records_at-modify p f [] h = refl
  records_at-modify p f (x ∷ xs) h = ground (arith, h x, records_at-modify p f xs h)

  pub records_at-map :
      (f : EventRecord → EventRecord) (xs : List EventRecord)
      → ((r : EventRecord) → (f r).envelope ≡ r.envelope)
      → records_at session_id n (map f xs) ≡ records_at session_id n xs
  unfolding records_at
  records_at-map f [] h = refl
  records_at-map f (x ∷ xs) h = ground (arith, h x, records_at-map f xs h)

  pub tombstones_at-modify :
      (p : EventTombstone → Bool) (f : EventTombstone → EventTombstone) (xs : List EventTombstone)
      → ((t : EventTombstone)
          → tombstone_has_number session_id n (f t) ≡ tombstone_has_number session_id n t)
      → tombstones_at session_id n (modify_first p f xs) ≡ tombstones_at session_id n xs
  unfolding tombstones_at modify_first
  tombstones_at-modify p f [] h = refl
  tombstones_at-modify p f (x ∷ xs) h = ground (arith, h x, tombstones_at-modify p f xs h)
