-- ===== src/Server/Context/Excerpt.antt =====
-- The excerpt of a conversation that crates/north-server/src/context.rs selects.
pub mod Start
use north.Common.{
  ℕ, suc, ◌+◌, ◌-◌, ◌≤◌, ◌≡◌, ◌⊎◌, inl, inr, refl, ap, sym, ◌∙◌, subst, byte_len, List, [], ◌∷◌,
  ◌++◌, length, Bool, true, false, arith, ◌==◌, Bool-cases, length-append,
}
use north.Server.Context.{
  ConversationMessageSnapshot, is_over, all_selected, select_loop, filter_selected,
}

abbrev pub Messages : Type 0
Messages = List ConversationMessageSnapshot

abbrev pub bytes_of : Messages → ℕ
bytes_of [] = 0
bytes_of (m ∷ ms) = byte_len m.content + bytes_of ms

-- More than 50 messages, or more than 32 KiB.
abbrev pub exceeds : Messages → Bool
exceeds ms = is_over (length ms) (bytes_of ms)

-- The last message that is dropped would not have fitted between `carried` and `rest`.
abbrev pub IsTight : Messages → Messages → Messages → Type 0
IsTight carried dropped rest =
    (dropped ≡ [])
    ⊎ ((front : Messages) × (m : ConversationMessageSnapshot) × (dropped ≡ (front ++ (m ∷ [])))
        × (exceeds (carried ++ (m ∷ rest)) ≡ true))

-- What is selected around the start message: it and all that follow it, behind the newest ones before
-- it that fit; or it alone and the newest ones that follow and fit, when all that follow do not fit.
pub data IsExcerpt (before : Messages) (start : ConversationMessageSnapshot) (later : Messages)
    : Messages → Type 0 where
  with_earlier :
      (dropped rest : Messages)
      → before ≡ (dropped ++ rest)
      → exceeds (rest ++ (start ∷ later)) ≡ false
      → IsTight [] dropped (rest ++ (start ∷ later))
      → IsExcerpt before start later (rest ++ (start ∷ later))
  with_later :
      (dropped rest : Messages)
      → later ≡ (dropped ++ rest)
      → exceeds (start ∷ later) ≡ true
      → (exceeds (start ∷ rest) ≡ false) ⊎ (rest ≡ [])
      → IsTight (start ∷ []) dropped rest
      → IsExcerpt before start later (start ∷ rest)

pub bytes_of-append : (xs ys : Messages) → bytes_of (xs ++ ys) ≡ bytes_of xs + bytes_of ys
bytes_of-append [] ys = omega arith
bytes_of-append (x ∷ xs) ys = omega (arith, bytes_of-append xs ys)

pub append_nil : (xs : Messages) → (xs ++ []) ≡ xs
append_nil [] = refl
append_nil (x ∷ xs) = ap (λ t. x ∷ t) (append_nil xs)

pub append_assoc :
    (xs : Messages) (m : ConversationMessageSnapshot) (ys : Messages)
    → ((xs ++ (m ∷ [])) ++ ys) ≡ (xs ++ (m ∷ ys))
append_assoc [] m ys = refl
append_assoc (x ∷ xs) m ys = ap (λ t. x ∷ t) (append_assoc xs m ys)

pub filter_selected-all : (ms : Messages) → filter_selected (all_selected ms) ms ≡ ms
unfolding filter_selected
filter_selected-all [] = refl
filter_selected-all (m ∷ ms) = ap (λ t. m ∷ t) (filter_selected-all ms)

pub over-exceeds :
    (carried ms : Messages) (count bytes : ℕ) (b : Bool)
    → count ≡ length carried + length ms
    → bytes ≡ bytes_of carried + bytes_of ms
    → is_over count bytes ≡ b
    → exceeds (carried ++ ms) ≡ b
over-exceeds carried ms count bytes b counted summed h =
    let n : count ≡ length (carried ++ ms) = omega (arith, counted, length-append carried ms) in
    let k : bytes ≡ bytes_of (carried ++ ms) = omega (arith, summed, bytes_of-append carried ms) in
    subst (λ x. is_over (length (carried ++ ms)) x ≡ b) k (subst (λ x. is_over x bytes ≡ b) n h)

module _ (start_index : ℕ) (carried : Messages) where
  -- The loop behind the start message.
  abbrev pub IsPassed : Messages → Messages → Type 0
  IsPassed ms kept =
      (dropped : Messages) × (ms ≡ (dropped ++ kept))
      × ((exceeds (carried ++ kept) ≡ false) ⊎ (kept ≡ []))
      × IsTight carried dropped kept

  extend_dropped :
      (m : ConversationMessageSnapshot) (dropped kept ms : Messages)
      → ms ≡ (dropped ++ kept)
      → exceeds (carried ++ (m ∷ ms)) ≡ true
      → IsTight carried dropped kept
      → IsTight carried (m ∷ dropped) kept
  extend_dropped m dropped kept ms whole over (inl nothing) =
      let same : ms ≡ kept = whole ∙ ap (λ d. d ++ kept) nothing in
      inr
        ([], m, ap (λ d. m ∷ d) nothing, subst (λ t. exceeds (carried ++ (m ∷ t)) ≡ true) same over)
  extend_dropped m dropped kept ms whole over (inr (front, x, last, above)) =
      inr (m ∷ front, x, ap (λ d. m ∷ d) last, above)

  pub select_loop-IsPassed :
      (oldest : ℕ) (ms : Messages) (count bytes : ℕ)
      → suc start_index ≤ oldest
      → count ≡ length carried + length ms
      → bytes ≡ bytes_of carried + bytes_of ms
      → IsPassed ms (filter_selected (select_loop start_index oldest ms count bytes) ms)
  unfolding select_loop filter_selected
  select_loop-IsPassed oldest [] count bytes behind counted summed = ([], refl, inr refl, inl refl)
  select_loop-IsPassed oldest (m ∷ ms) count bytes behind counted summed =
      let other : (oldest == start_index) ≡ false = ground arith in
      let (dropped, whole, fits, tight) =
        select_loop-IsPassed (suc oldest) ms (count - 1) (bytes - byte_len m.content) (omega arith)
          (omega arith) (omega arith) in
      elim (Bool-cases (is_over count bytes)) [
        | inl over ↦ rw over (
            rw other (
              m ∷ dropped,
              ap (λ t. m ∷ t) whole,
              fits,
              extend_dropped m dropped _ ms whole
                  (over-exceeds carried (m ∷ ms) count bytes true counted summed over) tight,
            ))
        | inr within ↦ rw within (
          [],
          ap (λ t. m ∷ t) (sym (filter_selected-all ms)),
          inl (
              subst (λ t. exceeds (carried ++ (m ∷ t)) ≡ false) (sym (filter_selected-all ms))
                (over-exceeds carried (m ∷ ms) count bytes false counted summed within)),
          inl refl,
        )
      ]
