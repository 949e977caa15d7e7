-- ===== src/Main/SetUp.antt =====
-- src/main.go and src/syncstate.go: what `run` sets up before its loop.
use rclonewatch.Prelude.{
  ℕ, String, Bool, true, false, not, ◌&&◌, Option, none, some, Text, List, [], ◌∷◌, if◌then◌else◌,
  is_empty, ltb, is_some,
}
use rclonewatch.Prelude.Int.{ℤ, pos, negsuc}
use rclonewatch.SyncFile.{no_remote}
use rclonewatch.Effect.{
  Error, wrap, with_output, interrupted, failed, Settings, SyncState, Result, ok, err,
}
use rclonewatch.Backend.{Outside, use_consistent_writes}
use rclonewatch.Config.Flags.{ParsedConfig}
use rclonewatch.Watch.Batch.{Batch}
use rclonewatch.Watch.State.{Action, close_watcher, Loop, initial_retry_delay}
use rclonewatch.Main.ExitCode.{StartError, start_exit_code}

-- The randomness of `newSyncState`: the lock's owner and the repository ID, unless it fails. A text of
-- the command line is held as a string by `string_of`.
pub record Fresh : Type 0 where
  pub owner_token : Option String
  pub repository_id : Option String
  pub string_of : Text → String

-- One second, in nanoseconds.
abbrev pub lock_poll_interval : ℕ
lock_poll_interval = 1000000000

-- A duration that is not negative.
abbrev pub magnitude : ℤ → ℕ
magnitude (pos n) = n
magnitude (negsuc n) = 0

abbrev or_error : {A : Type 0} → Error → Option A → Result A
or_error e none = err e
or_error e (some a) = ok a

abbrev owner_of : Fresh → Text → Result String
owner_of f persistent =
    if is_empty persistent
    then or_error (wrap "create lock owner token" failed) f.owner_token
    else ok (f.string_of persistent)

abbrev pub settings_of : ParsedConfig → Bool → String → String → Settings
settings_of cfg consistent owner repository = record {
  paths = cfg.sync_paths;
  source = cfg.source;
  dest = cfg.dest;
  timeout = magnitude cfg.lock_timeout;
  lock_wait = cfg.lock_wait;
  poll_interval = lock_poll_interval;
  consistent_writes = consistent;
  fail_on_incomplete = cfg.fail_on_incomplete;
  logs = cfg.logs;
  owner = owner;
  repository_id = repository;
  persistent = not (is_empty cfg.persistent_lock);
  excludes = cfg.excludes;
  force_delete_untracked_remote = cfg.force_delete_remote;
}

abbrev with_owner : Fresh → ParsedConfig → Bool → Result String → Result Settings
with_owner f cfg consistent (err e) = err e
with_owner f cfg consistent (ok owner) = elim f.repository_id [
  | none ↦ err (wrap "create repository ID" failed)
  | some repository ↦ ok (settings_of cfg consistent owner repository)
]

-- `newSyncState`, and the fields that `run` sets behind it.
unfoldable pub new_sync_state : Fresh → ParsedConfig → Bool → Result Settings
new_sync_state f cfg consistent = with_owner f cfg consistent (owner_of f cfg.persistent_lock)

abbrev pub new_state : SyncState
new_state = record {
  remote = no_remote;
  lock_expiry = 0;
  pending = none;
  pending_expiry = 0;
  releasing = false;
  closed = false;
  release_err = none;
}

-- The session of a run, or its lack with `--upload-only`.
unfoldable pub set_up : Outside → Fresh → ParsedConfig → Result (Option Settings)
unfolding use_consistent_writes new_sync_state
set_up o f cfg =
    if cfg.upload_only
    then ok none
    else (elim (use_consistent_writes o cfg.dest cfg.no_consistent_writes) [
      | err e ↦ err (wrap "configure lock writes" e)
      | ok consistent ↦ elim (new_sync_state f cfg consistent) [
        | err e ↦ err (wrap "initialize sync state" e)
        | ok c ↦ ok (some c)
      ]
    ])

-- `errors.As(err, &interrupted)`
unfoldable pub interrupted_by : Error → Option ℕ
interrupted_by (wrap _ e) = interrupted_by e
interrupted_by (with_output _ e) = interrupted_by e
interrupted_by (interrupted sig _) = some sig
interrupted_by _ = none

-- The wrapped command: none, one that has been started, or one that could not be.
pub data Wrapped : Type 0 where
  no_command : Wrapped
  command_started : Wrapped
  not_started : StartError → Wrapped

abbrev start_failure : Wrapped → Option ℕ
unfolding start_exit_code
start_failure (not_started e) = some (start_exit_code e)
start_failure _ = none

abbrev or_zero : Option ℕ → ℕ
or_zero none = 0
or_zero (some code) = code

abbrev is_running : Wrapped → Bool
is_running command_started = true
is_running _ = false

-- The variables at the head of the loop, with the changes that the startup has queued. A command that
-- cannot start ends the run as one that has exited does.
unfoldable pub initial_loop : ℕ → Bool → Wrapped → Batch → Loop
unfolding start_exit_code
initial_loop interval tracked command pending = record {
  pending = pending;
  flight = none;
  stopping = is_some (start_failure command);
  watcher_closed = false;
  errors_open = true;
  locks_open = tracked;
  timer_armed = ltb 0 interval && not (is_some (start_failure command));
  command_runs = is_running command;
  final_attempted = false;
  sync_ready = false;
  abandoned = false;
  watcher_err = none;
  lock_err = none;
  last_sync_err = none;
  wrapped_exit_code = or_zero (start_failure command);
  signals_seen = 0;
  retry_delay = initial_retry_delay;
}

-- A command that cannot start closes the watcher.
unfoldable pub initial_actions : Wrapped → List Action
initial_actions (not_started e) = close_watcher ∷ []
initial_actions _ = []
