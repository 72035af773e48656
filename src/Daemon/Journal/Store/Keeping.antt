-- ===== src/Daemon/Journal/Store/Keeping.antt =====
-- What holds of both files before an update holds of both after it.
use north.Common.{◌≡◌, refl, String, Option, none, some, true, false, Result, ok, err}
use north.Daemon.Exec.{Keeps}
use north.Daemon.Journal.{JournalError, JournalFile}
use north.Daemon.Journal.Store.{Write, done, failed, World, Store, concludes, transact}

abbrev pub Both : (JournalFile → Type 0) → Store → Type 0
Both P s = P s.state × P s.disk

-- An operation keeps `P` when it succeeds.
abbrev pub Preserves :
    {T : Type 0}
    → (JournalFile → Type 0)
    → (String → JournalFile → Option (Result (JournalFile × T) JournalError))
    → Type 0
Preserves {T} P operation =
    (now : String) (before after : JournalFile) (value : T)
    → operation now before ≡ some (ok (after, value))
    → P before
    → P after

module _ {T : Type 0} (P : JournalFile → Type 0) where
  concludes-Both :
      (leftover : JournalFile) (write : Write) (s : Store)
      (ran : Option (Result (JournalFile × T) JournalError))
      → ((after : JournalFile) (value : T) → ran ≡ some (ok (after, value)) → P after)
      → Both P s
      → Both P (concludes leftover write s ran).1
  unfolding concludes
  concludes-Both l write s none h b = b
  concludes-Both l done s (some (err error)) h b = b
  concludes-Both l (failed e true true) s (some (err error)) h b = b
  concludes-Both l (failed e true false) s (some (err error)) h b = b
  concludes-Both l (failed e false true) s (some (err error)) h b = b
  concludes-Both l (failed e false false) s (some (err error)) h b = b
  concludes-Both l done s (some (ok (after, value))) h b = (h after value refl, h after value refl)
  concludes-Both l (failed e true true) s (some (ok (after, value))) h b =
      (h after value refl, h after value refl)
  concludes-Both l (failed e true false) s (some (ok (after, value))) h b =
      (b.0, h after value refl)
  concludes-Both l (failed e false true) s (some (ok (after, value))) h b = (b.1, b.1)
  concludes-Both l (failed e false false) s (some (ok (after, value))) h b = (b.0, b.1)

  pub Keeps-transact :
      (w : World)
      (operation : String → JournalFile → Option (Result (JournalFile × T) JournalError))
      → Preserves P operation
      → Keeps (Both P) (transact w operation)
  unfolding transact
  Keeps-transact w operation h = record {
    at = λ s b.
        concludes-Both (w.leftovers s.tick) (w.writes s.tick) s (operation (w.clock s.tick) s.state)
          (λ after value e. h (w.clock s.tick) s.state after value e b.0) b;
  }
