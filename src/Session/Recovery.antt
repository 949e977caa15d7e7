-- ===== src/Session/Recovery.antt =====
-- src/syncstate.go: what survives a crash, and what the next start does with it. A session writes the
-- local state file, the remote state file and the remote payload in a fixed order, and may be cut off
-- between any two of these writes; the next start decides by the two files alone. A write of the
-- remote file may land and still not be verified, as when its read-back fails: the process then goes
-- on from the file that it saw last.
pub mod Invariant
pub mod Restart
use rclonewatch.Prelude.{String, ◌+◌, Bool, true, false, Option, none, some, ◌≡◌, ◌≢◌, ◌⊎◌, str_eq}
use rclonewatch.SyncFile.{SyncFileData, max_generation, needs_sync_from_remote}
use rclonewatch.Session.Local.{u64}
use rclonewatch.Session.Generation.{local_record}

-- Where a running process stands between two durable writes.
pub data Phase : Type 0 where
  stopped running advanced published transferred cleared : Phase

-- What lies on disk and in the remote, and what the process knows: `view` is the remote file that it
-- counts as its own (`s.remote`), and `pending` the one that it may have written since. Locks are
-- left out. `dirty` says that the remote payload may lack a change that the loop has received since
-- the session was marked active.
pub record Durable : Type 0 where
  pub phase : Phase
  pub local : SyncFileData
  pub remote : SyncFileData
  pub view : SyncFileData
  pub pending : Option SyncFileData
  pub dirty : Bool

-- The candidate of `BeforeRemoteChange`.
abbrev pub next_of : SyncFileData → String → SyncFileData
next_of r sync_id = record r {
  generation = u64 (r.generation + 1);
  sync_id = sync_id;
  syncing = true;
}

-- The candidate of `AfterRemoteChange`.
abbrev pub cleared_of : SyncFileData → SyncFileData
cleared_of r = record r { syncing = false }

-- `replaceOwnedRemote` goes on only from the file seen last, or from the one that it may have written.
abbrev pub Admits : Durable → Type 0
Admits d = (d.remote ≡ d.view) ⊎ (d.pending ≡ some d.remote)

-- Between the operations on the generation, where a refresh of the lock may come.
pub data IsBetween : Phase → Type 0 where
  while_running : IsBetween running
  while_published : IsBetween published
  while_transferred : IsBetween transferred

-- What becomes of a write of the remote file: it is verified; it lands and is not verified; or it does
-- not land.
abbrev pub written : Durable → SyncFileData → Phase → Durable
written d file phase = record d { phase = phase; remote = file; view = file; pending = none }

abbrev pub landed : Durable → SyncFileData → Phase → Durable
landed d file phase = record d { phase = phase; remote = file; pending = some file }

abbrev pub not_landed : Durable → SyncFileData → Phase → Durable
not_landed d file phase = record d { phase = phase; pending = some file }

-- How a start leaves a process.
abbrev pub started : Durable → SyncFileData → Durable
started d local = record d { phase = running; local = local; view = d.remote; pending = none }

-- The durable writes of one writer at a time, the changes that its loop receives, and crashes. A failed
-- operation is retried from `running`, with the same view. A start that downloads overwrites what
-- the remote lacks. Starts that the code refuses are steps here too.
pub data Step (d : Durable) : Durable → Type 0 where
  mark_active : d.phase ≡ stopped → Step d (record d { local = record d.local { active = true } })
  start :
      needs_sync_from_remote d.local true d.remote ≡ false
      → d.phase ≡ stopped
      → Step d (started d (record d.local { active = true }))
  start_fetch :
      needs_sync_from_remote d.local true d.remote ≡ true
      → d.phase ≡ stopped
      → Step d (started (record d { dirty = false }) (local_record d.remote d.remote.syncing))
  change : d.phase ≢ stopped → Step d (record d { dirty = true })
  advance_local :
      (sync_id : String)
      → d.phase ≡ running
      → str_eq sync_id "" ≡ false
      → d.view.generation ≢ 0
      → d.view.generation ≢ max_generation
      → Step d (record d { phase = advanced; local = local_record (next_of d.view sync_id) true })
  publish :
      (sync_id : String)
      → d.phase ≡ advanced
      → d.local ≡ local_record (next_of d.view sync_id) true
      → d.view.generation ≢ max_generation
      → Admits d
      → Step d (written d (next_of d.view sync_id) published)
  publish_unverified :
      (sync_id : String)
      → d.phase ≡ advanced
      → d.local ≡ local_record (next_of d.view sync_id) true
      → d.view.generation ≢ max_generation
      → Admits d
      → Step d (landed d (next_of d.view sync_id) running)
  publish_lost :
      (sync_id : String)
      → d.phase ≡ advanced
      → d.local ≡ local_record (next_of d.view sync_id) true
      → Admits d
      → Step d (not_landed d (next_of d.view sync_id) running)
  transfer :
      (left : Bool) → d.phase ≡ published → Step d (record d { phase = transferred; dirty = left })
  clear_remote : d.phase ≡ transferred → Admits d → Step d (written d (cleared_of d.view) cleared)
  clear_remote_unverified :
      d.phase ≡ transferred → Admits d → Step d (landed d (cleared_of d.view) running)
  clear_remote_lost :
      d.phase ≡ transferred → Admits d → Step d (not_landed d (cleared_of d.view) running)
  clear_local :
      d.phase ≡ cleared → Step d (record d { phase = running; local = local_record d.view false })
  refresh : IsBetween d.phase → Admits d → Step d (written d d.view d.phase)
  refresh_unverified : IsBetween d.phase → Admits d → Step d (landed d d.view d.phase)
  refresh_lost : IsBetween d.phase → Admits d → Step d (not_landed d d.view d.phase)
  fail_over : d.phase ≢ stopped → Step d (record d { phase = running })
  finish :
      d.phase ≡ running
      → d.dirty ≡ false
      → Step d (record d { phase = stopped; local = record d.local { active = false } })
  crash : Step d (record d { phase = stopped })

pub data Reach (d : Durable) : Durable → Type 0 where
  here : Reach d d
  next : {e f : Durable} → Reach d e → Step e f → Reach d f

-- What `InitializeRemote` leaves behind a file that it has published.
abbrev pub first_state : SyncFileData → Durable
first_state r = record {
  phase = running;
  local = local_record r false;
  remote = r;
  view = r;
  pending = none;
  dirty = false;
}
