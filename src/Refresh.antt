-- ===== src/Refresh.antt =====
-- src/syncstate.go: the refresh of the lock in the background, one turn of `refreshLoop` at a time.
pub mod Deadline
use rclonewatch.Prelude.{
  ℕ, ◌+◌, ◌-◌, ◌/◌, max, min, Bool, true, false, ◌&&◌, ◌||◌, Option, none, some, if◌then◌else◌, leb,
  ◌==◌,
}
use rclonewatch.Prelude.Int.{pos}
use rclonewatch.SyncFile.{SyncFileLock, SyncFileData, RemoteSyncFile}
use rclonewatch.Effect.{
  Error, text, wrap, is_ownership_lost, Env, Settings, SyncState, Result, ok, err, M, ◌>>=◌, ◌>>◌,
  return, attempt, get, now, timer_fired,
}
use rclonewatch.Remote.Replace.{replace_owned_remote}
use rclonewatch.Acquire.Wait.{refresh_safety_window}

-- What a turn comes to: the timer is set again, or the loop cancels the commands, reports the error,
-- and is over.
pub data Outcome : Type 0 where
  again : ℕ → Outcome
  over : Error → Outcome

abbrev pub too_late : Outcome
too_late = over (text "could not refresh remote lock before expiry")

module _ (E : Env) (c : Settings) where
  -- The end of the time in which a lock with that expiry may be refreshed.
  abbrev pub refresh_deadline : ℕ → ℕ
  refresh_deadline expires = expires - refresh_safety_window c.timeout

  -- `stopRefreshWatchdog`, for a watchdog that was started with the expiry `armed`. One that has fired
  -- compared the expiry at that moment: `early` says that it fired before the expiry was moved.
  unfoldable pub stop_refresh_watchdog : ℕ → Bool → M E Bool
  unfolding timer_fired
  stop_refresh_watchdog armed early = do
    fired ← timer_fired E (refresh_deadline armed)
    s ← get
    return (fired && (early || leb s.lock_expiry armed))

  -- `refreshDeadlinePassed`
  unfoldable pub refresh_deadline_passed : M E Bool
  unfolding now
  refresh_deadline_passed = do
    s ← get
    if s.lock_expiry == 0
        then return true
        else (do t ← now E; return (leb (refresh_deadline s.lock_expiry) t))

  -- `refreshRetryDelay`
  unfoldable pub refresh_retry_delay : M E (Option ℕ)
  unfolding now
  refresh_retry_delay = do
    s ← get
    if s.lock_expiry == 0 then return none else (do
      t ← now E
      return (
          if leb (refresh_deadline s.lock_expiry) t
          then none
          else some (min c.poll_interval (refresh_deadline s.lock_expiry - t))))

  -- `refreshDelay`: half a timeout before the expiry.
  unfoldable pub refresh_delay : M E ℕ
  unfolding now
  refresh_delay = do
    s ← get
    if s.lock_expiry == 0
        then return 0
        else (do t ← now E; return ((s.lock_expiry + max (c.timeout / 2) 1) - c.timeout - t))

  abbrev or_over : Error → Option ℕ → Outcome
  or_over e none = over (wrap "refresh remote lock before expiry" e)
  or_over e (some delay) = again delay

  abbrev pub refreshed : Result (Unit {0}) → M E Outcome
  refreshed (ok _) = do delay ← refresh_delay; return (again delay)
  refreshed (err e) =
      if is_ownership_lost e
      then return (over e)
      else (do delay ← refresh_retry_delay; return (or_over e delay))

  -- The write of the new lock, between the start and the stop of the second watchdog.
  unfoldable pub refresh_from : Bool → SyncState → M E Outcome
  unfolding now
  refresh_from early s = do
    t ← now E
    let lock : SyncFileLock = record { owner = c.owner; timestamp = t; ttl = pos c.timeout }
    r ← attempt (replace_owned_remote E c s.remote (record s.remote.contents { lock = some lock }))
    expired ← stop_refresh_watchdog s.lock_expiry early
    if expired then return too_late else refreshed r

  abbrev pub unless_passed : Bool → Bool → M E Outcome
  unless_passed early true = return too_late
  unless_passed early false = do s ← get; refresh_from early s

  abbrev pub unless_expired : Bool → Bool → M E Outcome
  unless_expired early true = return too_late
  unless_expired early false = do passed ← refresh_deadline_passed; unless_passed early passed

  -- One turn, after the timer has fired. `other` is the change of the remote that holds the mutex
  -- when the turn asks for it.
  unfoldable pub refresh_turn : Bool → Bool → M E (Unit {0}) → M E Outcome
  refresh_turn early early' other = do
    s ← get
    r ← attempt other
    expired ← stop_refresh_watchdog s.lock_expiry early
    unless_expired early' expired
