-- ===== src/Watch/State.antt =====
-- src/main.go: the events of the loop of `run`, its actions, and its variables.
use rclonewatch.Prelude.{ℕ, Bool, Option}
use rclonewatch.Effect.{Error, Settings}
use rclonewatch.Watch.Batch.{Change, Batch}

abbrev pub initial_retry_delay : ℕ
initial_retry_delay = 1000000000

abbrev pub max_retry_delay : ℕ
max_retry_delay = 60000000000

abbrev pub sigterm : ℕ
sigterm = 15

abbrev pub sigkill : ℕ
sigkill = 9

-- What `select` can pick. `none` of a result is a sync that succeeded.
pub data Event : Type 0 where
  item : Change → Event
  events_closed : Event
  watch_error : Error → Event
  errors_closed : Event
  lock_error : Error → Event
  locks_closed : Event
  tick : Event
  result : Option Error → Event
  command_exit : ℕ → Event
  signal : ℕ → Event

pub data Action : Type 0 where
  start_sync : Batch → Action
  close_watcher : Action
  cancel_runner : Action
  signal_group : ℕ → Action
  arm : ℕ → Action

-- `state` is missing with `--upload-only`; an interval of 0 is none.
pub record Config : Type 0 where
  pub interval : ℕ
  pub state : Option Settings

-- The variables of the loop. The channels that may be nil are Booleans: the watcher's errors and the
-- lock's are open, the timer is armed, the command runs. The batch in flight is there exactly while
-- `active` is set in the source.
pub record Loop : Type 0 where
  pub pending : Batch
  pub flight : Option Batch
  pub stopping : Bool
  pub watcher_closed : Bool
  pub errors_open : Bool
  pub locks_open : Bool
  pub timer_armed : Bool
  pub command_runs : Bool
  pub final_attempted : Bool
  pub sync_ready : Bool
  pub abandoned : Bool
  pub watcher_err : Option Error
  pub lock_err : Option Error
  pub last_sync_err : Option Error
  pub wrapped_exit_code : ℕ
  pub signals_seen : ℕ
  pub retry_delay : ℕ
