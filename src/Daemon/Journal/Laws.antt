-- ===== src/Daemon/Journal/Laws.antt =====
-- An update of the journal in crates/north-daemon/src/journal.rs is all or nothing, in memory and on
-- the disk.
use north.Common.{◌≡◌, Bool, true, ◌⊎◌, Option, some, Result, ok, err, if◌then◌else◌}
use north.Daemon.Journal.{JournalError, JournalFile}
use north.Daemon.Journal.Store.{Write, done, failed, Store, Fault}

-- Whether the file can be read after the write.
abbrev pub is_readable : Write → Bool
is_readable done = true
is_readable (failed error renamed readable) = readable

-- What an update may leave in memory and on the disk, by its result.
abbrev pub Leaves :
    {T : Type 0}
    → Write
    → Option (Result (JournalFile × T) JournalError)
    → Store
    → Store
    → Result T Fault
    → Type 0
Leaves write ran before after (ok value) =
    (ran ≡ some (ok (after.state, value))) × (after.disk ≡ after.state)
Leaves {T} write ran before after (err fault) =
    ((after.state ≡ before.state) × (after.disk ≡ before.disk))
    ⊎ ((made : JournalFile) × (value : T) × (ran ≡ some (ok (made, value)))
        × (after.disk ≡ made)
        × (after.state ≡ (if is_readable write then made else before.state)))
