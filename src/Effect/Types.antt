-- ===== src/Effect/Types.antt =====
-- Errors, the outside world, and the state monad of src/syncstate.go. What the program calls and
-- does not implement (rclone, the kernel, encoding/json, randomness, the clock and its timers) is
-- the parameter `Env`: a command or system call is one atomic step of an unknown world, which also
-- does whatever other processes do in the meantime.
use rclonewatch.Prelude.{
  ℕ, String, Bool, true, false, ◌||◌, Option, Text, List, ◌==◌, if◌then◌else◌, is_empty, trim_space,
}
use rclonewatch.SyncFile.{SyncFileData, RemoteSyncFile}

-- Go's errors. `wrap` is `fmt.Errorf("…: %w", err)`; interpolated values are left out of the texts.
pub data Error : Type 0 where
  text : String → Error
  wrap : String → Error → Error
  with_output : Text → Error → Error
  exited : ℕ → Error
  failed : Error
  interrupted : ℕ → String → Error
  lock_ownership_lost : Error

-- `errors.Is(err, errLockOwnershipLost)`
unfoldable pub is_ownership_lost : Error → Bool
is_ownership_lost (wrap _ e) = is_ownership_lost e
is_ownership_lost (with_output _ e) = is_ownership_lost e
is_ownership_lost lock_ownership_lost = true
is_ownership_lost _ = false

-- `isRcloneNotFound`: exit status 3 or 4.
unfoldable pub is_rclone_not_found : Error → Bool
is_rclone_not_found (wrap _ e) = is_rclone_not_found e
is_rclone_not_found (with_output _ e) = is_rclone_not_found e
is_rclone_not_found (exited code) = code == 3 || code == 4
is_rclone_not_found _ = false

unfoldable pub command_error : Error → Text → Error
command_error err output =
    let message = trim_space output in if is_empty message then err else with_output message err

-- The rclone commands that src/syncstate.go issues. A payload command carries its arguments.
pub data Condition : Type 0 where
  if_none_match : Condition
  if_match : Text → Condition

pub data Command : Type 0 where
  cat : Text → Bool → Command
  copyto : Text → Text → Option Condition → Command
  lsjson : Text → Option Text → Command
  payload : List Text → Command

pub data Status : Type 0 where
  success : Status
  exit : ℕ → Status
  not_run : Status

pub record Reply : Type 0 where
  pub status : Status
  pub stdout : Text
  pub stderr : Text

pub data FileRead : Type 0 where
  absent : FileRead
  unreadable : FileRead
  contents : Text → FileRead

pub data DiskOp : Type 0 where
  mkdir_all : Text → DiskOp
  create_temp : Text → DiskOp
  write : Text → DiskOp
  sync_file : DiskOp
  close_file : DiskOp
  rename : Text → DiskOp
  open_dir : Text → DiskOp
  sync_dir : DiskOp

pub record Env : Type 1 where
  pub World : Type 0
  -- `runner.Run`, on the main runner or on the one for the release of the lock
  pub run : Bool → Command → World → Reply × World
  -- `time.Now()`
  pub now : World → ℕ × World
  -- the wait of a `select` for a signal or a timer: the signal that came first, if one did
  pub wait_until : ℕ → World → Option ℕ × World
  -- `watchdog.Stop()` failed for a watchdog armed to that instant: it has fired
  pub timer_fired : ℕ → World → Bool × World
  -- `rand.Text()`
  pub random_text : World → String × World
  pub read_file : Text → World → FileRead × World
  -- whether the system call succeeded
  pub disk : DiskOp → World → Bool × World
  -- encoding/json on the state file, remote and local, and on listings
  pub marshal : SyncFileData → Option Text
  pub marshal_local : SyncFileData → Option Text
  pub unmarshal : Text → Option SyncFileData
  pub unmarshal_listing : Text → Option (List Text)

pub record LockWait : Type 0 where
  pub duration : ℕ
  pub infinite : Bool
  pub explicit : Bool

pub record SyncFilePaths : Type 0 where
  pub local : Text
  pub remote : Text
  pub local_filter : Text
  pub remote_filter : Text

-- The fields of `syncState` that nothing changes after `newSyncState` and its caller have set them.
pub record Settings : Type 0 where
  pub paths : SyncFilePaths
  pub source : Text
  pub dest : Text
  pub timeout : ℕ
  pub lock_wait : LockWait
  pub poll_interval : ℕ
  pub consistent_writes : Bool
  pub fail_on_incomplete : Bool
  pub logs : Bool
  pub owner : String
  pub repository_id : String
  pub persistent : Bool
  pub excludes : List Text
  pub force_delete_untracked_remote : Bool

-- The fields that change. `releasing` says that `runner` is `releaseRunner`.
pub record SyncState : Type 0 where
  pub remote : RemoteSyncFile
  pub lock_expiry : ℕ
  pub pending : Option SyncFileData
  pub pending_expiry : ℕ
  pub releasing : Bool
  pub closed : Bool
  pub release_err : Option Error

pub data Result {ℓ} (A : Type ℓ) : Type ℓ where
  ok : A → Result A
  err : Error → Result A

-- What a step has done: the commands and the system calls issued, the latest first.
pub data Event : Type 0 where
  ran : Command → Event
  did : DiskOp → Event

module _ (E : Env) where
  open E use {World}

  -- The state, the world, and the record of the events so far, which no operation reads.
  pub record Machine : Type 0 where
    pub state : SyncState
    pub world : World
    pub trace : List Event

  abbrev pub M : Type 0 → Type 0
  M A = Machine → Result A × Machine
