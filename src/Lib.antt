-- ===== src/Lib.antt =====
-- rclonewatch runs a program while it keeps a directory and a remote of rclone in step: it watches
-- the directory, uploads what has changed, and guards the remote against a second writer by a lock in
-- a state file that lies in the remote. A copy of the state file lies on the local disk, and at the
-- next start the two decide whether to download, to upload, or to do nothing.
--
-- The parts and the files:
--   Prelude        numbers, texts, lists and Boolean tests that the components share.
--   SyncFile       src/syncstate.go: the state file (syncFileData, syncFileLock, remoteSyncFile), its
--                  comparisons, and needsSyncFromRemote.
--   Effect         src/syncstate.go: errors, the fields of syncState, the outside world, and the
--                  state and error monad in which the operations are written. `Settings` holds the
--                  fields that nothing changes after construction, `SyncState` the others.
--   Path           src/syncpath.go: parseRemote, and where the two state files lie. Path/Clean models
--                  the functions of Go's path and path/filepath that the code calls.
--   Payload        src/payload.go: literalFilterPath, payloadSyncArgs, reconciliationScopes, and the
--                  names and patterns of a filter file (standardLocalPath, scopeFilterPath).
--   Remote         src/syncstate.go: readRemote, writeRemote, replaceOwnedRemote, run, the payload
--                  commands. Every change of an owned remote state file goes through
--                  replace_owned_remote.
--   Session        src/syncstate.go: InitializeRemote, InitializeGeneration, BeforeRemoteChange,
--                  AfterRemoteChange, FinishSession, Close. Session/Recovery has the writes that
--                  survive a crash as a step relation, Session/Recovery/Restart what the next start
--                  does with the files that they leave.
--   Config         src/options.go and src/main.go: the flags, parseConfig and main. Config/Duration
--                  models time.ParseDuration, Config/FlagSet models flag.FlagSet.Parse.
--   Backend        src/backend.go: useConsistentWrites, destinationBackend and the check of rclone's
--                  version.
--   Acquire        src/syncstate.go: Acquire, validateAcquisition, verifyAcquiredLock.
--   Refresh        src/syncstate.go: a turn of refreshLoop, with its watchdogs and delays.
--   Sync           src/main.go and src/payload.go: Sync, fullSync, syncScopes, syncScopeGroup.
--   Watcher        src/watcher_linux.go: the maps of watches (Maps, State), addTree, removeTree and
--                  rebuild (Tree), handle (Handle), process and readLoop (Buffer).
--   Watch          src/main.go: batches of changes (addPending, queueChange, mergeFailedBatch),
--                  initializeWatching, and the event loop of run, as a function from an event to a
--                  state and actions.
--   Main           src/main.go and src/terminal_linux.go: exit codes, the wait for a command that has
--                  the terminal, newSyncState, and run with its session from its configuration to its
--                  exit status (Main/Run), over Acquire, Session, Sync and Watch.
--   Examples       the theorems at concrete inputs.
--
-- How they interact: main parses the command line (Config) and runs (Main). run asks Backend whether
-- to write under conditions, calls acquire, then initialize_generation within initialize_watching,
-- then the loop of Watch, and closes the session at its end. The changes that the loop receives are
-- those that Watcher sends. A sync of the loop is an action, whose result, that of sync of Sync, comes
-- back as an event; Main/Run runs it where the loop starts it. Around an upload sync calls
-- before_remote_change and after_remote_change of Session, which write the local file and call
-- replace_owned_remote of Remote, as a turn of Refresh does in the background.
--
-- How the code is modelled:
--   - The outside world is the record `Env`, a parameter of every operation: the run of an rclone
--     command, the clock, timers, signals, randomness, disk operations, and encoding/json are
--     functions on an unknown world. What other processes do happens inside these steps.
--   - `Machine` is the state, the world, and a trace of the commands and disk operations issued. The
--     trace is there for the theorems; no operation reads it.
--   - An instant is a number of nanoseconds since Go's zero time, and 0 is that zero. Paths, arguments
--     and output are lists of code points; IDs are strings. Generations are 64 bit, with the
--     wrap-around of `Generation+1` written out.
--   - Errors keep their wrapping and their kind, which the code tests, and drop interpolated values.
--     Log lines are left out. A mutex makes an operation atomic.
--   - The identity of a lock is kept as its three fields, where the code formats them to a string.
--   - The loops of Acquire take fuel, and their result `none` says that it ran out: the remote may
--     be locked forever under --lock-wait=inf. Where a loop has a deadline, one more than the
--     nanoseconds up to it is enough, since a poll takes a nanosecond or more (Acquire/Ends). The loop
--     of parseRemote has the length of its text, since an option takes a character or more.
--   - reconciliationScopes and syncScopes each see one state of the directory tree, a function `lstat`.
--     Paths are bytes there, and patterns are runes; a command that reads a temporary file carries the
--     contents of the file.
--   - A turn of the refresh takes as arguments the change that holds the mutex when it asks for it,
--     and whether a watchdog that fired did so before the expiry was moved.
--   - The batch in flight stands in the state of the loop, in place of `active` and the goroutine.
--   - The command line is a list of texts. What the digits behind a point add to a duration is float64
--     arithmetic and a parameter, `fraction_of`; the working directory, os.Stat and
--     filepath.EvalSymlinks are parameters. The loop over the parts of a duration has one more than the
--     length of its text, since a part takes a character or more (Config/Duration/Total).
--   - rclone's answers, the environment, and upper case outside ASCII are parameters of Backend.
--   - The watcher sees the record `Kernel`: the calls of inotify are steps of an unknown world, and a
--     walk of a directory gives a list of entries and errors. Events are the bytes that a read
--     returns, reads are a list, and a descriptor is kept as its 32-bit pattern. What is sent to the
--     channels is recorded; a full channel, which delays the sender, is not modelled. `process` has one
--     more than the length of its buffer, since an event takes a byte or more (Watcher/Total).
--   - The terminal is the record `Tty`, and the waits for the command are a list, each with what
--     others have done to the terminal meanwhile.
--   - A run meets a `Course`: whether the watcher starts, the events of the startup, and the events of
--     the loop, each with the directory tree that a sync sees which starts there.
--
-- Not modelled: the process attributes of the command (configure, started), the help text,
-- lockWait.String, log lines, and rclone itself.
pub mod Prelude
pub mod SyncFile
pub mod Effect
pub mod Path
pub mod Payload
pub mod Remote
pub mod Config
pub mod Backend
pub mod Session
pub mod Acquire
pub mod Refresh
pub mod Sync
pub mod Watcher
pub mod Watch
pub mod Main
mod Examples
