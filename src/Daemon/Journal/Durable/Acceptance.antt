-- ===== src/Daemon/Journal/Durable/Acceptance.antt =====
-- The acceptance of a command in crates/north-daemon/src/journal.rs, once it is answered.
use north.Common.{
  ◌≡◌, ap, sym, ◌∙◌, subst, String, eq_iff, Option, none, some, Bool, true, false, Result, ok, err,
  map_err, arith, find,
}
use north.Protocol.Command.{CommandEnvelope}
use north.Protocol.Frame.{ServerFrame, server_validate}
use north.Daemon.Exec.{pure, gets, ◌>>=◌}
use north.Daemon.Journal.{JournalError, protocol, JournalFile, CommandRecord}
use north.Daemon.Journal.Commands.{
  Prepared, prepare_command, is_command, mark_dispatch_started, message_id_of,
}
use north.Daemon.Journal.Commands.Fresh.{is_known, find-any}
use north.Daemon.Journal.Commands.Intake.{find-holds}
use north.Daemon.Journal.Store.{World, Store, transact, ends, require}
use north.Daemon.Journal.Accept.{
  CommandAcceptance, found_or, command_record, reported, released, prepare, mark_started,
  answer_started, start, may_start, accept_prepared, accept_command_with_control,
  record_to_envelope, command_ack,
}
use north.Daemon.Journal.Durable.{
  IsRecorded, >>=-ok, concludes-ok, prepare_command-is_known, mark_dispatch_started-started,
}

abbrev Knows : String → JournalFile → Type 0
Knows command_id f = is_known command_id f.commands f.command_tombstones ≡ true

transact-ok :
    {T : Type 0} (w : World)
    (operation : String → JournalFile → Option (Result (JournalFile × T) JournalError))
    (s t : Store) (value : T)
    → transact w operation s ≡ (ok value, t)
    → (f : JournalFile) × (operation (w.clock s.tick) s.state ≡ some (ok (f, value)))
      × (t.state ≡ f)
      × (t.disk ≡ f)
unfolding transact
transact-ok w operation s t value h =
    concludes-ok (w.leftovers s.tick) (w.writes s.tick) s t (operation (w.clock s.tick) s.state)
      value h

module _ (w : World) where
  prepare-Knows :
      (envelope : CommandEnvelope) (s t : Store) (p : Prepared)
      → prepare w envelope s ≡ (ok p, t)
      → Knows p.0.command_id t.disk
  unfolding prepare
  prepare-Knows envelope s t p h =
      let operation =
        prepare_command w.daemon_id w.limit envelope (w.command_digest envelope)
          (message_id_of envelope.command) in
      let (f, ran, _, disk) = transact-ok w (ends operation) s t p h in
      subst (Knows p.0.command_id) (sym disk) (
        prepare_command-is_known w.daemon_id w.limit envelope (w.command_digest envelope)
          (message_id_of envelope.command) (w.clock s.tick) s.state f p (ground arith))

  command_record-found :
      (command_id : String) (s t : Store) (r : CommandRecord)
      → command_record command_id s ≡ (ok r, t)
      → (find (is_command command_id) s.state.commands ≡ some r) × (s ≡ t)
  unfolding command_record
  command_record-found command_id s t r h =
      by_option (find (is_command command_id) s.state.commands) h
    where
      by_option :
          (o : Option CommandRecord)
          → require (found_or "command disappeared from journal" o) s ≡ (ok r, t)
          → (o ≡ some r) × (s ≡ t)
      by_option none h = absurd (cc (ap (λ q. q.0) h))
      by_option (some q) h = (ground arith, ap (λ q. q.1) h)

  found-Knows :
      (command_id : String) (f : JournalFile) (r : CommandRecord)
      → find (is_command command_id) f.commands ≡ some r
      → Knows command_id f
  found-Knows command_id f r found =
      let there = find-any (is_command command_id) f.commands r found in ground (arith, there)

  answer_started-IsRecorded :
      (r : CommandRecord) (duplicate marked : Bool) (before f : JournalFile) (now : String)
      (u t : Store) (a : CommandAcceptance)
      → mark_dispatch_started r.command_id now before ≡ ok (f, marked)
      → u.state ≡ f
      → u.disk ≡ f
      → answer_started w r duplicate marked u ≡ (ok a, t)
      → IsRecorded a t.disk
  unfolding answer_started command_ack record_to_envelope
  answer_started-IsRecorded r duplicate true before f now u t a ran state disk h =
      let (q, found, started) = mark_dispatch_started-started r.command_id now before f ran in
      let answer : released r duplicate ≡ a = ground arith in
      let file : f ≡ t.disk = sym disk ∙ ap (λ q. q.1.disk) h in
      subst (λ g. IsRecorded a g) file
        (subst (λ b. IsRecorded b f) answer
          (found-Knows r.command_id f q found, (q, found, started)))
  answer_started-IsRecorded r duplicate false before f now u t a ran state disk h =
      let (current, v, first, second) =
        >>=-ok (command_record r.command_id) (λ current. pure (reported current true false)) u t a
          h in
      let (found, same) = command_record-found r.command_id u v current first in
      let answer : reported current true false ≡ a = ground arith in
      let file : f ≡ t.disk =
        sym disk ∙ ap (λ (q : Store). q.disk) same ∙ ap (λ q. q.1.disk) second in
      let here : find (is_command r.command_id) f.commands ≡ some current =
        subst (λ (g : JournalFile). find (is_command r.command_id) g.commands ≡ some current) state
          found in
      let own =
        (eq_iff current.command_id r.command_id).0
          (find-holds (is_command r.command_id) f.commands current here) in
      subst (λ g. IsRecorded a g) file
        (subst (λ b. IsRecorded b f) answer
          (subst (λ i. Knows i f) (sym own) (found-Knows r.command_id f current here), tt))

  start-IsRecorded :
      (r : CommandRecord) (duplicate : Bool) (s t : Store) (a : CommandAcceptance)
      → start w r duplicate s ≡ (ok a, t)
      → IsRecorded a t.disk
  unfolding start mark_started
  start-IsRecorded r duplicate s t a h =
      let (marked, u, first, second) =
        >>=-ok (mark_started w r.command_id) (answer_started w r duplicate) s t a h in
      let (f, ran, state, disk) =
        transact-ok w (ends (mark_dispatch_started r.command_id)) s u marked first in
      answer_started-IsRecorded r duplicate marked s.state f (w.clock s.tick) u t a (ground arith)
        state disk second

  accept_prepared-IsRecorded :
      (p : Prepared) (now : Bool) (s t : Store) (a : CommandAcceptance)
      → Knows p.0.command_id s.disk
      → accept_prepared w p now s ≡ (ok a, t)
      → IsRecorded a t.disk
  unfolding accept_prepared command_ack
  accept_prepared-IsRecorded (r, duplicate, buffered) true s t a known h =
      start-IsRecorded r duplicate s t a h
  accept_prepared-IsRecorded (r, duplicate, buffered) false s t a known h =
      let answer : reported r duplicate buffered ≡ a = ground arith in
      let file : s.disk ≡ t.disk = ap (λ q. q.1.disk) h in
      subst (λ g. IsRecorded a g) file (subst (λ b. IsRecorded b s.disk) answer (known, tt))

  require-same :
      (r : Result (Unit {0}) JournalError) (s t : Store) (a : Unit {0})
      → require r s ≡ (ok a, t)
      → s ≡ t
  require-same (ok value) s t a h = ap (λ q. q.1) h
  require-same (err e) s t a h = absurd (cc (ap (λ q. q.0) h))

  -- The journal is ahead of what it answers: whenever a command is accepted, the file on the disk
  -- knows the command that is acknowledged, and if the command is handed out, the file holds it with
  -- its dispatch started. This is so for every answer, whatever the clock shows and the writes do.
  pub accept_command_with_control-IsRecorded :
      (envelope : CommandEnvelope) (allow_control_interrupt : Bool) (s t : Store)
      (a : CommandAcceptance)
      → accept_command_with_control w envelope allow_control_interrupt s ≡ (ok a, t)
      → IsRecorded a t.disk
  unfolding accept_command_with_control
  accept_command_with_control-IsRecorded envelope allow s t a h =
      let decided = λ (p : Prepared) (s : Store). may_start w envelope allow p s.state in
      let (_, u, first, second) =
        >>=-ok (require (map_err protocol (server_validate (ServerFrame.command envelope))))
          (λ _. prepare w envelope >>= λ p. gets (decided p) >>= λ now. accept_prepared w p now) s t
          a h in
      let (p, v, third, fourth) =
        >>=-ok (prepare w envelope) (λ p. gets (decided p) >>= λ now. accept_prepared w p now) u t a
          second in
      accept_prepared-IsRecorded p (decided p v) v t a (prepare-Knows envelope u v p third) fourth
