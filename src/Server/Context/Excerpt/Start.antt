-- ===== src/Server/Context/Excerpt/Start.antt =====
-- The selection around the start message (crates/north-server/src/context.rs).
use north.Common.{
  ℕ, suc, ◌+◌, ◌-◌, ◌≤◌, ◌≡◌, ◌⊎◌, inl, inr, refl, ap, sym, ◌∙◌, subst, String, str_eq, eq_iff,
  byte_len, is_blank, [], ◌∷◌, ◌++◌, length, some, Bool, true, false, ok, arith, ◌==◌, u64_max,
  Bool-cases, length-append,
}
use Prim.Native.Nat.{min}
use north.Server.Context.{
  ConversationMessageSnapshot, is_over, position, total_bytes, select_loop, filter_selected,
  excerpt_from, select_conversation_excerpt,
}
use north.Server.Context.Excerpt.{
  Messages, bytes_of, exceeds, IsTight, IsExcerpt, with_earlier, with_later, append_nil,
  append_assoc, filter_selected-all, over-exceeds, bytes_of-append, select_loop-IsPassed,
}

module _ (start_index : ℕ) (start : ConversationMessageSnapshot) (later : Messages) where
  -- The loop at the start message, when what stands before it is dropped.
  at_start :
      (before : Messages) (count bytes : ℕ)
      → count ≡ suc (length later)
      → bytes ≡ byte_len start.content + bytes_of later
      → (before ≡ [])
        ⊎ ((front : Messages) × (m : ConversationMessageSnapshot) × (before ≡ (front ++ (m ∷ [])))
            × (exceeds (m ∷ start ∷ later) ≡ true))
      → IsExcerpt before start later (
          filter_selected
            (select_loop start_index start_index (start ∷ later) count bytes)
            (start ∷ later))
  unfolding select_loop filter_selected
  at_start before count bytes counted summed tight =
      let same : (start_index == start_index) ≡ true = ground arith in
      let (dropped, whole, fits, close) =
        select_loop-IsPassed start_index (start ∷ []) (suc start_index) later count bytes
          (omega arith) (omega (arith, counted)) (omega (arith, summed)) in
      elim (Bool-cases (is_over count bytes)) [
        | inl over ↦ rw over (
            rw same (
              with_later dropped _ whole
                (over-exceeds [] (start ∷ later) count bytes true (omega (arith, counted))
                  (omega (arith, summed)) over)
                fits close))
        | inr within ↦ rw within (
            subst (λ t. IsExcerpt before start later (start ∷ t)) (sym (filter_selected-all later))
              (with_earlier before [] (sym (append_nil before))
                (over-exceeds [] (start ∷ later) count bytes false (omega (arith, counted))
                  (omega (arith, summed)) within)
                (tight_of tight)))
      ]
    where
      tight_of :
          (before ≡ [])
            ⊎ ((front : Messages) × (m : ConversationMessageSnapshot) × (before
                  ≡ (front ++ (m ∷ [])))
                × (exceeds (m ∷ start ∷ later) ≡ true))
          → IsTight [] before (start ∷ later)
      tight_of (inl nothing) = inl nothing
      tight_of (inr (front, m, last, above)) = inr (front, m, last, above)

  -- What was dropped before `before`, the last of it when it did not fit.
  abbrev IsDropped : Messages → Messages → Type 0
  IsDropped dropped before =
      (dropped ≡ [])
      ⊎ ((front : Messages) × (m : ConversationMessageSnapshot) × (dropped ≡ (front ++ (m ∷ [])))
          × (exceeds (m ∷ (before ++ (start ∷ later))) ≡ true))

  before_start :
      (oldest : ℕ) (dropped before : Messages) (count bytes : ℕ)
      → oldest + length before ≡ start_index
      → count ≡ length before + suc (length later)
      → bytes ≡ bytes_of before + (byte_len start.content + bytes_of later)
      → IsDropped dropped before
      → IsExcerpt (dropped ++ before) start later (
          filter_selected
            (select_loop start_index oldest (before ++ (start ∷ later)) count bytes)
            (before ++ (start ∷ later)))
  unfolding select_loop filter_selected
  before_start oldest dropped [] count bytes here counted summed tight =
      let same : start_index ≡ oldest = omega (arith, here) in
      subst
        (λ o.
          IsExcerpt (dropped ++ []) start later (
            filter_selected (select_loop start_index o (start ∷ later) count bytes)
              (start ∷ later)))
        same
        (subst
          (λ d. IsExcerpt d start later (
            filter_selected (select_loop start_index start_index (start ∷ later) count bytes)
              (start ∷ later)))
          (sym (append_nil dropped))
          (at_start dropped count bytes (omega (arith, counted)) (omega (arith, summed)) tight))
  before_start oldest dropped (m ∷ before) count bytes here counted summed tight =
      let rest = before ++ (start ∷ later) in
      let other : (oldest == start_index) ≡ false = ground arith in
      let n : length rest ≡ length before + suc (length later) =
        length-append before (start ∷ later) in
      let k : bytes_of rest ≡ bytes_of before + (byte_len start.content + bytes_of later) =
        bytes_of-append before (start ∷ later) in
      let found = λ (b : Bool).
        over-exceeds [] (m ∷ rest) count bytes b (omega (arith, counted, n))
          (omega (arith, summed, k)) in
      let next =
        before_start (suc oldest) (dropped ++ (m ∷ [])) before (count - 1)
          (bytes - byte_len m.content) (omega (arith, here)) (omega (arith, counted))
          (omega (arith, summed)) in
      elim (Bool-cases (is_over count bytes)) [
        | inl over ↦ rw over (
            rw other (
              subst
                (λ d. IsExcerpt d start later (
                  filter_selected
                    (select_loop start_index (suc oldest) rest (count - 1)
                      (bytes - byte_len m.content))
                    rest))
                (append_assoc dropped m before) (next (inr (dropped, m, refl, found true over)))))
        | inr within ↦ rw within (
            subst (λ t. IsExcerpt (dropped ++ (m ∷ before)) start later (m ∷ t))
              (sym (filter_selected-all rest))
              (with_earlier dropped (m ∷ before) refl (found false within) (tight_of tight)))
      ]
    where
      tight_of :
          IsDropped dropped (m ∷ before) → IsTight [] dropped ((m ∷ before) ++ (start ∷ later))
      tight_of (inl nothing) = inl nothing
      tight_of (inr (front, x, last, above)) = inr (front, x, last, above)

-- No message of these has the ID.
abbrev pub IsAbsent : String → Messages → Type 0
IsAbsent start_message_id [] = Unit
IsAbsent start_message_id (m ∷ ms) =
    (str_eq m.message_id start_message_id ≡ false) × IsAbsent start_message_id ms

position-append :
    (id : String) (i : ℕ) (before : Messages) (start : ConversationMessageSnapshot)
    (later : Messages)
    → IsAbsent id before
    → str_eq start.message_id id ≡ true
    → position id i (before ++ (start ∷ later)) ≡ some (i + length before)
unfolding position
position-append id i [] start later absent own = rw own (ap some (omega arith))
position-append id i (m ∷ before) start later absent own =
    let other = absent.0 in
    rw other (position-append id (suc i) before start later absent.1 own ∙ ap some (omega arith))

total_bytes-bytes_of :
    (total : ℕ) (ms : Messages)
    → total + bytes_of ms ≤ u64_max
    → total_bytes total ms ≡ total + bytes_of ms
unfolding total_bytes
total_bytes-bytes_of total [] h = omega arith
total_bytes-bytes_of total (m ∷ ms) h =
    let next : min (total + byte_len m.content) u64_max ≡ total + byte_len m.content =
      omega arith in
    let rest = total_bytes-bytes_of (total + byte_len m.content) ms (omega arith) in
    ap (λ t. total_bytes t ms) next ∙ rest ∙ (omega arith)

-- For a start message with a name, whose ID no message before it has, in a conversation whose contents
-- have less than 2 ^ 64 bytes, an excerpt is selected. It is the start message with the newest messages
-- that fit: all that follow it and the newest ones before it, with at most 50 messages and 32 KiB,
-- such that one more would exceed a bound; or, where the start message and all that follow it exceed a
-- bound, the start message and the newest of those that follow, such that one more would exceed a
-- bound; only the start message alone may exceed one.
pub select_conversation_excerpt-IsExcerpt :
    (before : Messages) (start : ConversationMessageSnapshot) (later : Messages)
    → is_blank start.message_id ≡ false
    → IsAbsent start.message_id before
    → bytes_of (before ++ (start ∷ later)) ≤ u64_max
    → (excerpt : Messages) × (select_conversation_excerpt
          (before ++ (start ∷ later))
          start.message_id
        ≡ ok excerpt)
      × IsExcerpt before start later excerpt
unfolding select_conversation_excerpt excerpt_from
select_conversation_excerpt-IsExcerpt before start later named absent small =
    let messages = before ++ (start ∷ later) in
    let id = start.message_id in
    let at : position id 0 messages ≡ some (length before) =
      position-append id 0 before start later absent ((eq_iff id id).1 refl)
      ∙ ap some (omega arith) in
    let n : length messages ≡ length before + suc (length later) =
      length-append before (start ∷ later) in
    let b : total_bytes 0 messages ≡ bytes_of before + (byte_len start.content + bytes_of later) =
      total_bytes-bytes_of 0 messages (omega (arith, small))
      ∙ omega arith
      ∙ bytes_of-append before (start ∷ later) in
    let found =
      before_start (length before) start later 0 [] before (length messages)
        (total_bytes 0 messages) (omega arith) n b (inl refl) in
    (
      filter_selected
          (select_loop (length before) 0 messages (length messages) (total_bytes 0 messages))
          messages,
      rw named (rw at refl),
      found,
    )
