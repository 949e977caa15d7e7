-- ===== src/Acquire/Wait.antt =====
-- src/syncstate.go: the waits of `Acquire`, for a lock that another process holds and for the
-- verification of its own. The loops take fuel, and the result `none` says that it ran out.
use rclonewatch.Prelude.{
  ℕ, zero, suc, ◌+◌, ◌-◌, ◌/◌, min, max, String, Bool, true, false, not, ◌&&◌, ◌||◌, Option, none,
  some, if◌then◌else◌, ltb, leb, ◌==◌, is_none,
}
use rclonewatch.SyncFile.{
  RemoteSyncFile, LockIdentity, unlocked, lock_identity, identity_eq, lock_ttl,
}
use rclonewatch.Effect.{
  text, wrap, interrupted, Env, Settings, Result, ok, err, M, ◌>>=◌, ◌>>◌, return, fail, attempt,
  now, wait_until,
}
use rclonewatch.Remote.Read.{read_remote}

abbrev pub second : ℕ
second = 1000000000

-- `refreshSafetyWindow`
unfoldable pub refresh_safety_window : ℕ → ℕ
refresh_safety_window timeout = max (min (timeout / 20) second) 1

-- The lock last seen, and when it was first seen; `unlocked` before any is.
pub record Observed : Type 0 where
  pub identity : LockIdentity
  pub at : ℕ

abbrev pub nothing_observed : Observed
nothing_observed = record { identity = unlocked; at = 0 }

abbrev pub is_observed : LockIdentity → Bool
is_observed unlocked = false
is_observed (LockIdentity.held _ _ _) = true

module _ (E : Env) (c : Settings) where
  -- `defaultWait` and `canWait`
  abbrev pub default_wait : Bool
  default_wait = not c.lock_wait.explicit && not c.lock_wait.infinite && c.lock_wait.duration == 0

  abbrev pub can_wait : Bool
  can_wait = default_wait || c.lock_wait.infinite || ltb 0 c.lock_wait.duration

  -- The lock that is seen now: a refresh ends a default wait, and otherwise restarts the clock.
  unfoldable pub observe : RemoteSyncFile → Observed → M E Observed
  observe remote seen =
      if identity_eq seen.identity (lock_identity remote)
      then return seen
      else (if default_wait && is_observed seen.identity
          then fail (text "remote lock was refreshed while waiting")
          else (do t ← now E; return (record { identity = lock_identity remote; at = t })))

  -- Whether waiting for an active lock is over; a deadline of 0 is none.
  abbrev pub still_allowed : ℕ → ℕ → M E (Unit {0})
  still_allowed deadline t =
      if not can_wait
      then fail (text "remote lock is active")
      else (if not (deadline == 0) && leb deadline t
          then fail (text "timed out waiting for remote lock")
          else return tt)

  abbrev pub wake_at : ℕ → ℕ → ℕ → ℕ
  wake_at t expires deadline =
      let soon = min (t + c.poll_interval) expires in
      if deadline == 0 then soon else min soon deadline

  abbrev pub not_interrupted : Option ℕ → String → M E (Unit {0})
  not_interrupted none phase = return tt
  not_interrupted (some signal) phase = fail (interrupted signal phase)

  -- One poll of a lock that is still active: the wait, and the remote read after it.
  unfoldable pub poll : ℕ → ℕ → M E RemoteSyncFile
  unfolding now wait_until
  poll expires deadline = do
    t ← now E
    still_allowed deadline t
    u ← now E
    signal ← wait_until E (wake_at u expires deadline)
    not_interrupted signal "waiting for remote lock"
    read_remote E c

  abbrev pub expiry : RemoteSyncFile → Observed → ℕ
  expiry remote seen = seen.at + lock_ttl remote c.timeout

  -- The loop over an active lock: what is read once it is gone, or has outlived its TTL since it
  -- was first seen.
  unfoldable pub wait_loop :
      ℕ → ℕ → RemoteSyncFile → Observed → M E (Option (RemoteSyncFile × Observed))
  wait_loop zero deadline remote seen = return none
  wait_loop (suc fuel) deadline remote seen =
      let again = λ (s : Observed). λ (r : RemoteSyncFile). wait_loop fuel deadline r s in
      if is_none remote.contents.lock then return (some (remote, seen)) else (do
        s ← observe remote seen
        t ← now E
        if leb (expiry remote s) t
            then return (some (remote, s))
            else (do r ← poll (expiry remote s) deadline; again s r))

  abbrev pub retry_verify :
      ℕ → M E (Option RemoteSyncFile) → Result RemoteSyncFile → M E (Option RemoteSyncFile)
  retry_verify deadline again (ok r) = return (some r)
  retry_verify deadline again (err e) = do
    t ← now E
    if leb deadline t then fail (wrap "verify acquired lock before expiry" e) else (do
      signal ← wait_until E (t + min c.poll_interval (deadline - t))
      not_interrupted signal "verifying the acquired lock"
      again)

  -- `verifyAcquiredLock`
  unfoldable pub verify_acquired_lock : ℕ → ℕ → M E (Option RemoteSyncFile)
  verify_acquired_lock zero deadline = return none
  verify_acquired_lock (suc fuel) deadline =
      let again = verify_acquired_lock fuel deadline in
      (do r ← attempt (read_remote E c); retry_verify deadline again r)
