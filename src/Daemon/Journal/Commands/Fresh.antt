-- ===== src/Daemon/Journal/Commands/Fresh.antt =====
-- How often the journal of crates/north-daemon/src/journal.rs may still start a command.
use north.Common.{
  ℕ, ◌+◌, ◌≤◌, ◌≡◌, refl, inl, inr, String, str_eq, List, [], ◌∷◌, ◌++◌, none, some, Bool, true,
  false, ◌&&◌, ◌||◌, arith, any, if◌then◌else◌, find, modify_first, Bool-cases, leb,
}
use north.Daemon.Journal.{
  JournalFile, CommandJournalState, received, dispatch_started, terminal, CommandRecord,
  CommandTombstone,
}
use north.Daemon.Journal.Compact.{is_terminal, is_settled, command_tombstone, drain_commands}
use north.Daemon.Journal.Commands.{is_received, push_command, is_command}

-- The records of the command that are received and not started.
unfoldable pub waiting : String → List CommandRecord → ℕ
waiting command_id [] = 0
waiting command_id (r ∷ rs) =
    (if is_command command_id r && is_received r.state then 1 else 0) + waiting command_id rs

abbrev pub is_tombstone_of : String → CommandTombstone → Bool
is_tombstone_of command_id t = str_eq t.command_id command_id

abbrev pub is_known : String → List CommandRecord → List CommandTombstone → Bool
is_known command_id commands tombstones =
    any (is_command command_id) commands || any (is_tombstone_of command_id) tombstones

-- A command that the journal has not seen may be started once, when it comes.
unfoldable pub fresh : String → JournalFile → ℕ
unfolding waiting
fresh command_id state =
    waiting command_id state.commands
    + (if is_known command_id state.commands state.command_tombstones then 0 else 1)

pub find-none : {A : Type 0} (p : A → Bool) (xs : List A) → find p xs ≡ none → any p xs ≡ false
unfolding find
find-none p [] h = refl
find-none p (x ∷ xs) h = ground (arith, find-none p xs)

pub find-any :
    {A : Type 0} (p : A → Bool) (xs : List A) (x : A) → find p xs ≡ some x → any p xs ≡ true
unfolding find
find-any p [] x h = cc
find-any p (y ∷ ys) x h = ground (arith, find-any p ys x)

pub any-append :
    {A : Type 0} (p : A → Bool) (xs ys : List A) → any p (xs ++ ys) ≡ (any p xs || any p ys)
any-append p [] ys = refl
any-append p (x ∷ xs) ys = ground (arith, any-append p xs ys)

waiting-append :
    (command_id : String) (xs ys : List CommandRecord)
    → waiting command_id (xs ++ ys) ≡ waiting command_id xs + waiting command_id ys
unfolding waiting
waiting-append command_id [] ys = omega arith
waiting-append command_id (x ∷ xs) ys = omega (arith, waiting-append command_id xs ys)

waiting-none :
    (command_id : String) (xs : List CommandRecord)
    → any (is_command command_id) xs ≡ false
    → waiting command_id xs ≡ 0
unfolding waiting
waiting-none command_id [] h = refl
waiting-none command_id (x ∷ xs) h = ground (arith, waiting-none command_id xs)

module _ (command_id : String) where
  pub fresh-push_command :
      (r : CommandRecord) (state : JournalFile)
      → (is_command command_id r ≡ true
          → is_known command_id state.commands state.command_tombstones ≡ false)
      → fresh command_id (push_command r state) ≤ fresh command_id state
  unfolding fresh waiting
  fresh-push_command r state new =
      let split = waiting-append command_id state.commands (r ∷ []) in
      let known = any-append (is_command command_id) state.commands (r ∷ []) in
      elim (Bool-cases (is_command command_id r)) [
        | inl own ↦ let unknown = new own in ground (arith, split, known, own, unknown)
        | inr other ↦ ground (arith, split, known, other)
      ]

  pub waiting-modify_first :
      (p : CommandRecord → Bool) (f : CommandRecord → CommandRecord) (xs : List CommandRecord)
      → ((r : CommandRecord) → is_command command_id (f r) ≡ is_command command_id r)
      → ((r : CommandRecord) → is_received (f r).state ≡ false)
      → waiting command_id (modify_first p f xs) ≤ waiting command_id xs
  unfolding waiting modify_first
  waiting-modify_first p f [] same done = omega arith
  waiting-modify_first p f (x ∷ xs) same done =
      ground (arith, same x, done x, waiting-modify_first p f xs same done)

  pub any-modify_first :
      (p : CommandRecord → Bool) (f : CommandRecord → CommandRecord) (xs : List CommandRecord)
      → ((r : CommandRecord) → is_command command_id (f r) ≡ is_command command_id r)
      → any (is_command command_id) (modify_first p f xs) ≡ any (is_command command_id) xs
  unfolding modify_first
  any-modify_first p f [] same = refl
  any-modify_first p f (x ∷ xs) same = ground (arith, same x, any-modify_first p f xs same)

  pub waiting_started :
      (f : CommandRecord → CommandRecord) (xs : List CommandRecord) (r : CommandRecord)
      → ((r : CommandRecord) → is_command command_id (f r) ≡ is_command command_id r)
      → ((r : CommandRecord) → is_received (f r).state ≡ false)
      → find (is_command command_id) xs ≡ some r
      → is_received r.state ≡ true
      → 1 + waiting command_id (modify_first (is_command command_id) f xs) ≤ waiting command_id xs
  unfolding waiting modify_first find
  waiting_started f [] r same done h q = cc
  waiting_started f (x ∷ xs) r same done h q = elim (Bool-cases (is_command command_id x)) [
    | inl own ↦ ground (arith, own, same x, done x, h, q)
    | inr other ↦ ground (arith, other, waiting_started f xs r same done)
  ]

  is_settled-is_received :
      (session_id : String) (processed : ℕ) (r : CommandRecord)
      → is_settled session_id processed r ≡ true
      → is_received r.state ≡ false
  is_settled-is_received session_id processed r h = terminal_not_received r.state (
      and_middle (str_eq r.session_id session_id) (is_terminal r.state)
        (leb r.server_command_seq processed) h)
    where
      and_middle : (a b c : Bool) → (a && b && c) ≡ true → b ≡ true
      and_middle true true c h = refl
      and_middle true false c h = absurd (cc h)
      and_middle false b c h = absurd (cc h)

      terminal_not_received :
          (s : CommandJournalState) → is_terminal s ≡ true → is_received s ≡ false
      terminal_not_received received h = absurd (cc h)
      terminal_not_received dispatch_started h = refl
      terminal_not_received terminal h = refl

  pub waiting-drain_commands :
      (session_id : String) (processed : ℕ) (ts : List CommandTombstone) (rs : List CommandRecord)
      → waiting command_id (drain_commands session_id processed ts rs).1 ≡ waiting command_id rs
  unfolding waiting drain_commands
  waiting-drain_commands session_id processed ts [] = refl
  waiting-drain_commands session_id processed ts (r ∷ rs) =
      let moved =
        waiting-drain_commands session_id processed (ts ++ (command_tombstone r ∷ [])) rs in
      let kept = waiting-drain_commands session_id processed ts rs in
      let finished = is_settled-is_received session_id processed r in
      elim (Bool-cases (is_settled session_id processed r)) [
        | inl settled ↦ rw settled (rw (finished settled) (ground (arith, moved)))
        | inr not_yet ↦ rw not_yet (omega (arith, kept))
      ]

  pub known-drain_commands :
      (session_id : String) (processed : ℕ) (ts : List CommandTombstone) (rs : List CommandRecord)
      → is_known command_id
          (drain_commands session_id processed ts rs).1
          (drain_commands session_id processed ts rs).0
        ≡ is_known command_id rs ts
  unfolding drain_commands
  known-drain_commands session_id processed ts [] = refl
  known-drain_commands session_id processed ts (r ∷ rs) =
      let moved = known-drain_commands session_id processed (ts ++ (command_tombstone r ∷ [])) rs in
      let kept = known-drain_commands session_id processed ts rs in
      let added = any-append (is_tombstone_of command_id) ts (command_tombstone r ∷ []) in
      elim (Bool-cases (is_settled session_id processed r)) [
        | inl settled ↦ rw settled (ground (arith, moved, added))
        | inr not_yet ↦ rw not_yet (ground (arith, kept))
      ]
