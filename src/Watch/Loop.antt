-- ===== src/Watch/Loop.antt =====
-- src/main.go: the event loop of `run`, from the start of watching to the exit status. A step takes
-- the one event that `select` picks; what the step asks of the outside world is its list of
-- actions, whose effects come back as later events.
use rclonewatch.Prelude.{
  ℕ, ◌+◌, ◌*◌, Bool, true, false, not, ◌&&◌, ◌||◌, Option, none, some, List, [], ◌∷◌, ◌++◌,
  if◌then◌else◌, ltb, is_some, is_empty,
}
use rclonewatch.Effect.{Error, text, is_ownership_lost}
use rclonewatch.Watch.Batch.{Change, Batch, queue_change, merge_failed_batch}
use rclonewatch.Watch.State.{
  Action, Config, Event, Loop, arm, cancel_runner, close_watcher, command_exit, errors_closed,
  events_closed, initial_retry_delay, item, lock_error, locks_closed, max_retry_delay, result,
  sigkill, signal, signal_group, sigterm, start_sync, tick, watch_error,
}

abbrev active : Loop → Bool
active s = is_some s.flight

-- `startSync`
unfoldable pub start : Bool → Loop → Loop × List Action
start final s = if active s || is_empty s.pending then (s, []) else (
  record s { pending = []; flight = some s.pending; final_attempted = s.final_attempted || final },
  start_sync s.pending ∷ [],
)

abbrev kill_if : Bool → ℕ → List Action
kill_if true sig = signal_group sig ∷ []
kill_if false sig = []

-- `abortForLockFailure`
unfoldable pub abort_for_lock_failure : Error → Loop → Loop × List Action
abort_for_lock_failure e s = if is_some s.lock_err then (s, []) else (
  record s { lock_err = some e; stopping = true; timer_armed = false; sync_ready = false },
  cancel_runner ∷ (kill_if s.command_runs sigkill ++ (close_watcher ∷ [])),
)

unfoldable pub on_item : Config → Change → Loop → Loop × List Action
unfolding start queue_change
on_item cfg c s =
    let t = record s { pending = queue_change cfg.state s.pending c } in
    if s.sync_ready && not (active s) && not s.stopping
    then start false (record t { sync_ready = false })
    else (t, [])

unfoldable pub on_watch_error : Error → Loop → Loop × List Action
on_watch_error e s = if is_some s.watcher_err then (s, []) else (
  record s { watcher_err = some e; stopping = true; timer_armed = false },
  kill_if s.command_runs sigterm ++ (close_watcher ∷ []),
)

unfoldable pub on_tick : Loop → Loop × List Action
unfolding start
on_tick s =
    let t = record s { timer_armed = false } in
    if is_empty s.pending then (record t { sync_ready = true }, []) else start false t

abbrev double_delay : ℕ → ℕ
double_delay d = if ltb max_retry_delay (d * 2) then max_retry_delay else d * 2

-- The batch of the sync that has just ended.
abbrev pub ended : Option Batch → Batch
ended none = []
ended (some b) = b

abbrev on_failure : Error → Batch → Loop → Loop × List Action
on_failure e failed s =
    let t = record s { pending = merge_failed_batch s.pending failed } in
    if s.stopping then (t, []) else (
      record t { sync_ready = false; timer_armed = true; retry_delay = double_delay s.retry_delay },
      arm s.retry_delay ∷ [],
    )

abbrev on_success : Config → Loop → Loop × List Action
on_success cfg s =
    let t = record s { retry_delay = initial_retry_delay } in
    if not s.stopping && ltb 0 cfg.interval
    then (record t { sync_ready = false; timer_armed = true }, arm cfg.interval ∷ [])
    else (t, [])

unfoldable pub on_result : Config → Option Error → Loop → Loop × List Action
unfolding abort_for_lock_failure
on_result cfg outcome s =
    let t = record s {
      flight = none;
      last_sync_err = if s.abandoned then s.last_sync_err else outcome;
    } in
    elim outcome [
      | none ↦ on_success cfg t
      | some e ↦
          if is_ownership_lost e
          then abort_for_lock_failure e t
          else on_failure e (ended s.flight) t
    ]

unfoldable pub on_command_exit : ℕ → Loop → Loop × List Action
on_command_exit code s =
    let t = record s { command_runs = false; wrapped_exit_code = code } in
    (
      if s.stopping
          then t
          else record t { stopping = true; timer_armed = false; sync_ready = false },
      close_watcher ∷ [],
    )

unfoldable pub on_signal : ℕ → Loop → Loop × List Action
on_signal sig s =
    let forwarded = kill_if s.command_runs sig in
    let t = if s.command_runs then s else record s { signals_seen = s.signals_seen + 1 } in
    if not s.stopping
    then (
      record t { stopping = true; timer_armed = false; sync_ready = false },
      forwarded ++ (if s.command_runs then [] else close_watcher ∷ []),
    )
    else (if s.command_runs || s.abandoned
        then (t, forwarded)
        else (if ltb t.signals_seen 2 then (t, forwarded) else (
          record t {
            abandoned = true;
            final_attempted = true;
            last_sync_err = some (text "abandoned after repeated signal");
          },
          forwarded ++ (cancel_runner ∷ []),
        )))

-- The `select`.
unfoldable pub handle : Config → Event → Loop → Loop × List Action
handle cfg (item c) s = on_item cfg c s
handle cfg events_closed s = (record s { watcher_closed = true }, [])
handle cfg (watch_error e) s = on_watch_error e s
handle cfg errors_closed s = (record s { errors_open = false }, [])
handle cfg (lock_error e) s = abort_for_lock_failure e s
handle cfg locks_closed s = (record s { locks_open = false }, [])
handle cfg tick s = on_tick s
handle cfg (result outcome) s = on_result cfg outcome s
handle cfg (command_exit code) s = on_command_exit code s
handle cfg (signal sig) s = on_signal sig s

-- Which events the channels can deliver: a nil or closed channel delivers none.
unfoldable pub enabled : Loop → Event → Bool
enabled s (item _) = not s.watcher_closed
enabled s events_closed = not s.watcher_closed
enabled s (watch_error _) = s.errors_open
enabled s errors_closed = s.errors_open
enabled s (lock_error _) = s.locks_open
enabled s locks_closed = s.locks_open
enabled s tick = s.timer_armed
enabled s (result _) = active s
enabled s (command_exit _) = s.command_runs
enabled s (signal _) = true

-- The head of the loop: whether everything but a last batch has come to rest.
abbrev pub settled : Loop → Bool
settled s =
    s.stopping && s.watcher_closed && not s.errors_open && not (active s) && not s.command_runs

-- What the head of the loop decides: an exit status, the final sync, or the next event. The result of
-- `FinishSession` is given; it is called only where the status is the command's.
pub data Head : Type 0 where
  leave : ℕ → Head
  final_sync : Head
  select : Head

unfoldable pub head : Option Error → Loop → Head
head finish s =
    if not (settled s)
    then select
    else (if is_some s.lock_err
        then leave 1
        else (if not (is_empty s.pending) && not s.final_attempted
            then final_sync
            else (if is_some s.watcher_err || not (is_empty s.pending) || is_some finish
                then leave 1
                else leave s.wrapped_exit_code)))

-- One turn of the loop: the exit status, or the state after the event and the actions.
pub data Turn : Type 0 where
  exited : ℕ → Turn
  running : Loop → List Action → Turn

abbrev after_final : Config → Event → Loop × List Action → Turn
after_final cfg e (s, acts) = let (t, more) = handle cfg e s in running t (acts ++ more)

abbrev turn_at : Config → Event → Loop → Head → Turn
turn_at cfg e s (leave code) = exited code
turn_at cfg e s final_sync = after_final cfg e (start true s)
turn_at cfg e s select = after_final cfg e (s, [])

unfoldable pub turn : Config → Option Error → Event → Loop → Turn
turn cfg finish e s = turn_at cfg e s (head finish s)
