-- ===== src/Daemon/Journal/Durable.antt =====
-- What crates/north-daemon/src/journal.rs has on the disk before it answers.
pub mod Answer
pub mod Acceptance
use north.Common.{
  ℕ, ◌≡◌, refl, ap, sym, ◌∙◌, subst, String, str_eq, eq_iff, [], ◌∷◌, Option, none, some, true,
  false, Result, ok, err, >>-ok, arith, find, modify_first, ltb,
}
use north.Protocol.Command.{CommandEnvelope}
use north.Daemon.Exec.{Exec, ◌>>=◌, after}
use north.Daemon.Journal.{
  JournalError, JournalFile, dispatch_started, CommandRecord, CommandTombstone,
}
use north.Daemon.Journal.Commands.{
  Prepared, push_command, check_sequence, prepare_new, prepare_tombstone, prepare_record,
  prepare_command, command_record_of, validate_command_identity, expected_command_sequence,
  is_command, begin, start_record, mark_dispatch_started,
}
use north.Daemon.Journal.Commands.Fresh.{is_known, is_tombstone_of, find-any, any-append}
use north.Daemon.Journal.Commands.Intake.{find-holds, find-modify_first}
use north.Daemon.Journal.Store.{Write, done, failed, Store, concludes}
use north.Daemon.Journal.Accept.{CommandAcceptance}

-- The file holds the command with its dispatch started.
abbrev pub IsStarted : Option CommandEnvelope → JournalFile → Type 0
IsStarted none f = Unit
IsStarted (some c) f =
    (r : CommandRecord) × (find (is_command c.command_id) f.commands ≡ some r)
    × (r.state ≡ dispatch_started)

-- The file knows the command that is acknowledged, and holds the one that is handed out as started.
abbrev pub IsRecorded : CommandAcceptance → JournalFile → Type 0
IsRecorded a f =
    (is_known a.result.acknowledgement.command_id f.commands f.command_tombstones ≡ true)
    × IsStarted a.command f

module _ {S E A B : Type 0} where
  -- A chain that succeeds is two methods that succeed.
  pub >>=-ok :
      (m : Exec S E A) (f : A → Exec S E B) (s t : S) (b : B)
      → (m >>= f) s ≡ (ok b, t)
      → (a : A) × (u : S) × (m s ≡ (ok a, u)) × (f a u ≡ (ok b, t))
  >>=-ok m f s t b h = by_result (m s) refl h
    where
      by_result :
          (r : Result A E × S)
          → m s ≡ r
          → after r f ≡ (ok b, t)
          → (a : A) × (u : S) × (m s ≡ (ok a, u)) × (f a u ≡ (ok b, t))
      by_result (ok a, u) e h = (a, u, e, h)
      by_result (err e', u) e h = absurd (cc (ap (λ r. r.0) h))

pub concludes-ok :
    {T : Type 0} (leftover : JournalFile) (write : Write) (s t : Store)
    (ran : Option (Result (JournalFile × T) JournalError)) (value : T)
    → concludes leftover write s ran ≡ (ok value, t)
    → (f : JournalFile) × (ran ≡ some (ok (f, value))) × (t.state ≡ f) × (t.disk ≡ f)
unfolding concludes
concludes-ok l write s t none value h = absurd (cc (ap (λ r. r.0) h))
concludes-ok l done s t (some (err error)) value h = absurd (cc (ap (λ r. r.0) h))
concludes-ok l (failed e true true) s t (some (err error)) value h = absurd (cc (ap (λ r. r.0) h))
concludes-ok l (failed e true false) s t (some (err error)) value h = absurd (cc (ap (λ r. r.0) h))
concludes-ok l (failed e false true) s t (some (err error)) value h = absurd (cc (ap (λ r. r.0) h))
concludes-ok l (failed e false false) s t (some (err error)) value h = absurd (cc (ap (λ r. r.0) h))
concludes-ok l done s t (some (ok (f, v))) value h =
    let same : v ≡ value = ground arith in
    (f, ap (λ u. some (ok (f, u))) same, sym (ap (λ r. r.1.state) h), sym (ap (λ r. r.1.disk) h))
concludes-ok l (failed e true true) s t (some (ok (f, v))) value h = absurd (cc (ap (λ r. r.0) h))
concludes-ok l (failed e true false) s t (some (ok (f, v))) value h = absurd (cc (ap (λ r. r.0) h))
concludes-ok l (failed e false true) s t (some (ok (f, v))) value h = absurd (cc (ap (λ r. r.0) h))
concludes-ok l (failed e false false) s t (some (ok (f, v))) value h = absurd (cc (ap (λ r. r.0) h))

module _ (daemon_id : String) (limit : ℕ) (envelope : CommandEnvelope) (digest : String)
    (message_id : Option String) (now : String) where
  prepare_new-is_known :
      (before after : JournalFile) (p : Prepared)
      → prepare_new daemon_id limit envelope digest message_id now before ≡ ok (after, p)
      → is_known p.0.command_id after.commands after.command_tombstones ≡ true
  unfolding prepare_new
  prepare_new-is_known before after p h =
      let r = command_record_of daemon_id envelope digest message_id now in
      let expected = expected_command_sequence before envelope.session_id in
      let pushed : Result (JournalFile × Prepared) JournalError =
        ok (push_command r before, (r, false, ltb expected envelope.server_command_seq)) in
      let (checked, last) = >>-ok (check_sequence limit envelope before) pushed h in
      let same : push_command r before ≡ after = ground (arith, last) in
      let itself : r.command_id ≡ p.0.command_id = ground (arith, last) in
      let own : str_eq envelope.command_id envelope.command_id ≡ true =
        (eq_iff envelope.command_id envelope.command_id).1 refl in
      let split = any-append (is_command envelope.command_id) before.commands (r ∷ []) in
      subst (λ (f : JournalFile). is_known p.0.command_id f.commands f.command_tombstones ≡ true)
        same
        (subst (λ i. is_known i (push_command r before).commands before.command_tombstones ≡ true)
          itself (ground (arith, split, own)))

  prepare_tombstone-is_known :
      (before after : JournalFile) (p : Prepared) (o : Option CommandTombstone)
      → find (is_tombstone_of envelope.command_id) before.command_tombstones ≡ o
      → prepare_tombstone daemon_id limit envelope digest message_id now before o ≡ ok (after, p)
      → is_known p.0.command_id after.commands after.command_tombstones ≡ true
  unfolding prepare_tombstone
  prepare_tombstone-is_known before after p none e h = prepare_new-is_known before after p h
  prepare_tombstone-is_known before after p (some t) e h =
      let same : before ≡ after = ground arith in
      let itself : t.command_id ≡ p.0.command_id = ground arith in
      let own =
        (eq_iff t.command_id envelope.command_id).0
          (find-holds (is_tombstone_of envelope.command_id) before.command_tombstones t e) in
      let there = find-any (is_tombstone_of envelope.command_id) before.command_tombstones t e in
      subst (λ (f : JournalFile). is_known p.0.command_id f.commands f.command_tombstones ≡ true)
        same
        (subst (λ i. is_known i before.commands before.command_tombstones ≡ true) (sym own ∙ itself)
          (ground (arith, there)))

  prepare_record-is_known :
      (before after : JournalFile) (p : Prepared) (o : Option CommandRecord)
      → find (is_command envelope.command_id) before.commands ≡ o
      → prepare_record daemon_id limit envelope digest message_id now before o ≡ ok (after, p)
      → is_known p.0.command_id after.commands after.command_tombstones ≡ true
  unfolding prepare_record
  prepare_record-is_known before after p none e h =
      prepare_tombstone-is_known before after p
        (find (is_tombstone_of envelope.command_id) before.command_tombstones) refl h
  prepare_record-is_known before after p (some r) e h =
      let same : before ≡ after = ground arith in
      let itself : r.command_id ≡ p.0.command_id = ground arith in
      let own =
        (eq_iff r.command_id envelope.command_id).0
          (find-holds (is_command envelope.command_id) before.commands r e) in
      let there = find-any (is_command envelope.command_id) before.commands r e in
      subst (λ (f : JournalFile). is_known p.0.command_id f.commands f.command_tombstones ≡ true)
        same
        (subst (λ i. is_known i before.commands before.command_tombstones ≡ true) (sym own ∙ itself)
          (ground (arith, there)))

  pub prepare_command-is_known :
      (before after : JournalFile) (p : Prepared)
      → prepare_command daemon_id limit envelope digest message_id now before ≡ ok (after, p)
      → is_known p.0.command_id after.commands after.command_tombstones ≡ true
  unfolding prepare_command
  prepare_command-is_known before after p h =
      let o = find (is_command envelope.command_id) before.commands in
      prepare_record-is_known before after p o refl
        (>>-ok (validate_command_identity daemon_id envelope digest message_id before)
          (prepare_record daemon_id limit envelope digest message_id now before o) h).1

start_record-started :
    (command_id now : String) (before after : JournalFile) (o : Option CommandRecord)
    → find (is_command command_id) before.commands ≡ o
    → start_record command_id now before o ≡ ok (after, true)
    → (r : CommandRecord) × (find (is_command command_id) after.commands ≡ some r)
      × (r.state ≡ dispatch_started)
unfolding start_record
start_record-started command_id now before after none e h = absurd (cc h)
start_record-started command_id now before after (some r) e h =
    let begun = modify_first (is_command command_id) (begin now) before.commands in
    let file : begun ≡ after.commands = ground arith in
    let held = find-holds (is_command command_id) before.commands r e in
    let there = find-modify_first (is_command command_id) (begin now) before.commands r e held in
    (begin now r, ap (find (is_command command_id)) (sym file) ∙ there, refl)

pub mark_dispatch_started-started :
    (command_id now : String) (before after : JournalFile)
    → mark_dispatch_started command_id now before ≡ ok (after, true)
    → (r : CommandRecord) × (find (is_command command_id) after.commands ≡ some r)
      × (r.state ≡ dispatch_started)
unfolding mark_dispatch_started
mark_dispatch_started-started command_id now before after h =
    start_record-started command_id now before after (find (is_command command_id) before.commands)
      refl h

start_record-same :
    (command_id now : String) (before after : JournalFile) (o : Option CommandRecord)
    → start_record command_id now before o ≡ ok (after, false)
    → before ≡ after
unfolding start_record
start_record-same command_id now before after none h = absurd (cc h)
start_record-same command_id now before after (some r) h = ground arith

mark_dispatch_started-same :
    (command_id now : String) (before after : JournalFile)
    → mark_dispatch_started command_id now before ≡ ok (after, false)
    → before ≡ after
unfolding mark_dispatch_started
mark_dispatch_started-same command_id now before after h =
    start_record-same command_id now before after (find (is_command command_id) before.commands) h
