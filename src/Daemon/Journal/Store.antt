-- ===== src/Daemon/Journal/Store.antt =====
-- The journal of crates/north-daemon/src/journal.rs as an object: the state behind its mutex, and the
-- file that `persist_locked` writes.
pub mod Keeping
pub mod Paying
use north.Common.{
  ℕ, suc, String, Option, none, some, Bool, true, false, Result, ok, err, if◌then◌else◌,
}
use north.Protocol.Command.{CommandEnvelope}
use north.Protocol.Event.{EventEnvelope}
use north.Daemon.Exec.{Exec}
use north.Daemon.Journal.{JournalError, JournalFile, Persisted, Ran, written, not_written, commit}

-- What the file system does with a write: it is done, or it fails with an error, before or after the
-- rename that puts the new file in place; and then the file can be read back, or it cannot.
pub data Write : Type 0 where
  done : Write
  failed : JournalError → Bool → Bool → Write

-- What surrounds one journal: who owns it and its limit, the digests, and for each update what the
-- clock shows, what the file system does, and what the closure has made of the locked state where it
-- fails: nothing is assumed of that.
pub record World : Type 0 where
  pub daemon_id : String
  pub limit : ℕ
  pub event_digest : EventEnvelope → String
  pub command_digest : CommandEnvelope → String
  pub clock : ℕ → String
  pub writes : ℕ → Write
  pub leftovers : ℕ → JournalFile

-- The state in memory, the file on the disk, and how many updates there were.
pub record Store : Type 0 where
  pub state : JournalFile
  pub disk : JournalFile
  pub tick : ℕ

-- A method fails with an error, or it never returns.
pub data Fault : Type 0 where
  fails : JournalError → Fault
  hangs : Fault

abbrev pub Method : Type 0 → Type 0
Method = Exec Store Fault

-- The file on the disk after the write.
abbrev pub disk_after :
    {T : Type 0}
    → Write
    → JournalFile
    → Option (Result (JournalFile × T) JournalError)
    → JournalFile
disk_after write disk none = disk
disk_after write disk (some (err error)) = disk
disk_after done disk (some (ok (after, value))) = after
disk_after (failed error renamed readable) disk (some (ok (after, value))) =
    if renamed then after else disk

-- What the update sees of the write.
abbrev pub persisted_of : Write → JournalFile → Persisted
persisted_of done disk = written
persisted_of (failed error renamed true) disk = not_written error (some disk)
persisted_of (failed error renamed false) disk = not_written error none

-- The state that the closure leaves behind: `leftover` where it fails.
abbrev pub leaving :
    {T : Type 0} → JournalFile → Option (Result (JournalFile × T) JournalError) → Ran T
leaving leftover none = none
leaving leftover (some (err error)) = some (leftover, err error)
leaving leftover (some (ok (after, value))) = some (after, ok value)

abbrev pub settle : {T : Type 0} → JournalFile → Store → Ran T → Result T Fault × Store
settle disk s none = (err hangs, s)
settle disk s (some (state, ok value)) =
    (ok value, record { state = state; disk = disk; tick = suc s.tick })
settle disk s (some (state, err error)) =
    (err (fails error), record { state = state; disk = disk; tick = suc s.tick })

unfoldable pub concludes :
    {T : Type 0}
    → JournalFile
    → Write
    → Store
    → Option (Result (JournalFile × T) JournalError)
    → Result T Fault × Store
unfolding commit
concludes leftover write s ran =
    let disk = disk_after write s.disk ran in
    settle disk s (commit (persisted_of write disk) s.state (leaving leftover ran))

-- `update`, at the time that the clock shows.
unfoldable pub transact :
    {T : Type 0}
    → World
    → (String → JournalFile → Option (Result (JournalFile × T) JournalError))
    → Method T
unfolding concludes
transact w operation s =
    concludes (w.leftovers s.tick) (w.writes s.tick) s (operation (w.clock s.tick) s.state)

-- An operation that always ends.
abbrev pub ends :
    {T : Type 0}
    → (String → JournalFile → Result (JournalFile × T) JournalError)
    → String
    → JournalFile
    → Option (Result (JournalFile × T) JournalError)
ends operation now state = some (operation now state)

-- A check in front of a method.
abbrev pub require : {T : Type 0} → Result T JournalError → Method T
require (ok value) s = (ok value, s)
require (err error) s = (err (fails error), s)
