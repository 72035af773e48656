-- ===== src/Daemon/Journal/Store/Paying.antt =====
-- Methods that pay for their results with a potential of the two files. A result is worth nothing
-- when the method fails.
use north.Common.{
  ℕ, ◌+◌, ◌≤◌, ◌≡◌, refl, String, Option, none, some, true, false, Result, ok, err, arith,
}
use Prim.Native.Nat.{max}
use north.Daemon.Exec.{Exec, pure, raise, gets, ◌>>=◌, after}
use north.Daemon.Journal.{JournalError, JournalFile}
use north.Daemon.Journal.Store.{Write, done, failed, World, Store, concludes, transact, require}

-- The greater potential of the two files.
abbrev pub potential : (JournalFile → ℕ) → Store → ℕ
potential fresh s = max (fresh s.state) (fresh s.disk)

-- What a result is worth.
abbrev pub worth : {T E : Type 0} → (T → ℕ) → Result T E → ℕ
worth count (ok value) = count value
worth count (err fault) = 0

-- A method pays for the worth of its result with the potential, and with `k` that it is given.
pub record Pays {E T : Type 0} (fresh : JournalFile → ℕ) (k : ℕ) (count : T → ℕ)
    (m : Exec Store E T) : Type 0 where
  pub pays : (s : Store) → worth count (m s).0 + potential fresh (m s).1 ≤ k + potential fresh s

-- An operation pays for its value when it succeeds, from the potential of the state.
abbrev pub Affords :
    {T : Type 0}
    → (JournalFile → ℕ)
    → (T → ℕ)
    → (String → JournalFile → Option (Result (JournalFile × T) JournalError))
    → Type 0
Affords {T} fresh count operation =
    (now : String) (before after : JournalFile) (value : T)
    → operation now before ≡ some (ok (after, value))
    → count value + fresh after ≤ fresh before

module _ (fresh : JournalFile → ℕ) where
  pub Pays-pure :
      {E T : Type 0} (k : ℕ) (count : T → ℕ) (a : T)
      → count a ≤ k
      → Pays {E = E} fresh k count (pure a)
  Pays-pure k count a h = record { pays = λ s. omega arith }

  pub Pays-raise : {E T : Type 0} (k : ℕ) (count : T → ℕ) (e : E) → Pays fresh k count (raise e)
  Pays-raise k count e = record { pays = λ s. omega arith }

  pub Pays-gets :
      {E T : Type 0} (k : ℕ) (count : T → ℕ) (f : Store → T)
      → ((s : Store) → count (f s) ≤ k)
      → Pays {E = E} fresh k count (gets f)
  Pays-gets k count f h = record { pays = λ s. omega (arith, h s) }

  pub Pays-require :
      {T : Type 0} (k : ℕ) (count : T → ℕ) (r : Result T JournalError)
      → ((a : T) → count a ≤ k)
      → Pays fresh k count (require r)
  Pays-require k count (ok a) h = record { pays = λ s. omega (arith, h a) }
  Pays-require k count (err e) h = record { pays = λ s. omega arith }

  -- A method that reads the store first.
  pub Pays-reading :
      {E T : Type 0} (k : ℕ) (count : T → ℕ) (m : Store → Exec Store E T)
      → ((s : Store) → Pays fresh k count (m s))
      → Pays fresh k count (λ s. m s s)
  Pays-reading k count m h = record { pays = λ s. (h s).pays s }

  worth_frame :
      {E T : Type 0} (n : ℕ) (count : T → ℕ) (r : Result T E)
      → worth (λ a. n + count a) r ≤ n + worth count r
  worth_frame n count (ok a) = omega arith
  worth_frame n count (err e) = omega arith

  -- What a method is given on top it can hand on.
  pub Pays-frame :
      {E T : Type 0} (n : ℕ) (count : T → ℕ) (m : Exec Store E T)
      → Pays fresh 0 count m
      → Pays fresh n (λ a. n + count a) m
  Pays-frame n count m p = record {
    pays = λ s.
        let paid = p.pays s in let more = worth_frame n count (m s).0 in omega (arith, paid, more);
  }

  worth-after :
      {A B E : Type 0} (c : A → ℕ) (d : B → ℕ) (r : Result A E) (s : Store) (f : A → Exec Store E B)
      → ((a : A) → Pays fresh (c a) d (f a))
      → worth d (after (r, s) f).0 + potential fresh (after (r, s) f).1
        ≤ worth c r + potential fresh s
  worth-after c d (ok a) s f h = (h a).pays s
  worth-after c d (err e) s f h = omega arith

  pub Pays-bind :
      {A B E : Type 0} (k : ℕ) (c : A → ℕ) (d : B → ℕ) (m : Exec Store E A) (f : A → Exec Store E B)
      → Pays fresh k c m
      → ((a : A) → Pays fresh (c a) d (f a))
      → Pays fresh k d (m >>= f)
  Pays-bind k c d m f pm pf = record {
    pays = λ s.
        let paid = pm.pays s in
        let rest = worth-after c d (m s).0 (m s).1 f pf in omega (arith, paid, rest);
  }

  concludes_pays :
      {T : Type 0} (count : T → ℕ) (leftover : JournalFile) (write : Write) (s : Store)
      (ran : Option (Result (JournalFile × T) JournalError))
      → ((after : JournalFile) (value : T)
          → ran ≡ some (ok (after, value))
          → count value + fresh after ≤ fresh s.state)
      → worth count (concludes leftover write s ran).0
          + potential fresh (concludes leftover write s ran).1
        ≤ potential fresh s
  unfolding concludes
  concludes_pays count l write s none h = omega arith
  concludes_pays count l done s (some (err error)) h = omega arith
  concludes_pays count l (failed e true true) s (some (err error)) h = omega arith
  concludes_pays count l (failed e true false) s (some (err error)) h = omega arith
  concludes_pays count l (failed e false true) s (some (err error)) h = omega arith
  concludes_pays count l (failed e false false) s (some (err error)) h = omega arith
  concludes_pays count l done s (some (ok (after, value))) h = omega (arith, h after value refl)
  concludes_pays count l (failed e true true) s (some (ok (after, value))) h =
      omega (arith, h after value refl)
  concludes_pays count l (failed e true false) s (some (ok (after, value))) h =
      omega (arith, h after value refl)
  concludes_pays count l (failed e false true) s (some (ok (after, value))) h =
      omega (arith, h after value refl)
  concludes_pays count l (failed e false false) s (some (ok (after, value))) h =
      omega (arith, h after value refl)

  pub Pays-transact :
      {T : Type 0} (count : T → ℕ) (w : World)
      (operation : String → JournalFile → Option (Result (JournalFile × T) JournalError))
      → Affords fresh count operation
      → Pays fresh 0 count (transact w operation)
  unfolding transact
  Pays-transact count w operation afforded = record {
    pays = λ s.
        let paid =
          concludes_pays count (w.leftovers s.tick) (w.writes s.tick) s
            (operation (w.clock s.tick) s.state)
            (λ after value e. afforded (w.clock s.tick) s.state after value e) in
        omega (arith, paid);
  }
