-- ===== src/Refresh/Deadline.antt =====
-- When the refresh goes on, and when it gives up.
use rclonewatch.Prelude.{ℕ, ◌+◌, ◌≤◌, Bool, true, none, some, ◌≡◌, ◌≢◌, ◌⊎◌, refl, arith}
use rclonewatch.SyncFile.{owned_by}
use rclonewatch.Prelude.Int.{pos}
use rclonewatch.Effect.{Env, Settings, ok, Machine, now, timer_fired}
use rclonewatch.Remote.ReadBack.{published}
use rclonewatch.Remote.Verified.{IsWritten}
use rclonewatch.Acquire.Wait.{refresh_safety_window}
use rclonewatch.Refresh.{refresh_deadline, stop_refresh_watchdog, refresh_delay}

module _ (E : Env) (c : Settings) where
  -- Where the lock has an expiry and its timeout is 2 nanoseconds or more, a refresh that is set
  -- before the end of the time for it also comes due before that end.
  pub refresh_delay_in_time :
      (h : Machine E) {d : ℕ}
      → 2 ≤ c.timeout
      → h.state.lock_expiry ≢ 0
      → (E.now h.world).0 ≤ refresh_deadline E c h.state.lock_expiry
      → (refresh_delay E c h).0 ≡ ok d
      → (E.now h.world).0 + d ≤ refresh_deadline E c h.state.lock_expiry
  unfolding refresh_delay now refresh_safety_window
  refresh_delay_in_time h {d} b x t q = ground arith

  stop_refresh_watchdog-state :
      (armed : ℕ) (early : Bool) (h : Machine E)
      → (stop_refresh_watchdog E c armed early h).1.state ≡ h.state
  unfolding stop_refresh_watchdog timer_fired
  stop_refresh_watchdog-state armed early h = refl

  -- This process has just renewed its lock: from a machine in which nothing had been uploaded since
  -- the first one, the state file with the new lock was uploaded and read back, and it is this
  -- process's.
  pub record IsRenewed (o i : Machine E) : Type 0 where
    pub from : Machine E
    pub behind : Machine E
    pub stamp : ℕ
    pub unchanged : from.state ≡ o.state
    pub nothing_before : published from.trace ≡ published o.trace
    pub written :
        IsWritten E c o.state.remote
          (record o.state.remote.contents {
            lock = some (record { owner = c.owner; timestamp = stamp; ttl = pos c.timeout });
          })
          from
          behind
    pub kept : i.state ≡ behind.state
    pub nothing_behind : published i.trace ≡ published behind.trace
    pub owned : owned_by i.state.remote c.owner ≡ true
    pub verified : i.state.pending ≡ none

  -- The timer fires at once, or by the clock no later than the end of the time for a refresh.
  abbrev pub IsOnTime : ℕ → Machine E → Type 0
  IsOnTime d i =
      (d ≡ 0)
      ⊎ ((m : Machine E) × ((E.now m.world).0 + d ≤ refresh_deadline E c i.state.lock_expiry)
          × (i ≡ record m { world = (E.now m.world).1 }))

  -- Why a turn sets the timer again, from the machine that it has found: the lock has been renewed, or
  -- the refresh has failed and is to be retried, in time in either case.
  abbrev pub GoesOn : Machine E → ℕ → Machine E → Type 0
  GoesOn o d i =
      (IsRenewed o i × IsOnTime d i)
      ⊎ ((m : Machine E) × ((E.now m.world).0 + d ≤ refresh_deadline E c i.state.lock_expiry)
          × (i ≡ record m { world = (E.now m.world).1 }))
