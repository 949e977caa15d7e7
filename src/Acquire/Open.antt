-- ===== src/Acquire/Open.antt =====
-- `Acquire` does not close the session, and where it succeeds it leaves it open.
use rclonewatch.Prelude.{
  ◌≡◌, ℕ, zero, suc, ◌+◌, ◌-◌, min, ◌&&◌, Bool, true, false, none, some, Option, arith, is_none,
}
use rclonewatch.Prelude.Int.{pos}
use rclonewatch.SyncFile.{SyncFileLock, SyncFileData, RemoteSyncFile, owned_by}
use rclonewatch.Effect.{
  wrap, Env, Settings, SyncState, Result, ok, err, Machine, M, on_error, now, timer_fired,
  wait_until, run_command,
}
use rclonewatch.Effect.Keeps.{Keeps, bind-Keeps, then-Keeps, if-Keeps, same-Keeps}
use rclonewatch.Remote.Read.{read_remote}
use rclonewatch.Remote.Run.{remote_payload_empty}
use rclonewatch.Remote.Replace.{replace_owned_remote, write_remote}
use rclonewatch.Remote.Frame.{read_remote-state, write_remote-state}
use rclonewatch.Remote.Ownership.{owned_by-lock}
use rclonewatch.Session.Local.{read_local_sync_file}
use rclonewatch.Session.Open.{IsOpen, read_local_sync_file-state}
use rclonewatch.Session.Release.{replace_owned_remote-closed}
use rclonewatch.Acquire.Validate.{validate_acquisition}
use rclonewatch.Acquire.Wait.{
  Observed, observe, poll, expiry, wait_loop, retry_verify, verify_acquired_lock, wake_at,
  nothing_observed, refresh_safety_window,
}
use rclonewatch.Acquire.Loop.{
  Round, candidate_of, verified, write_lock, try_lock, continue_with, attempt_lock, unless_fired,
  acquire_loop, wait_deadline, start_acquire, acquire,
}
use rclonewatch.Acquire.Owned.{acquire_done}

abbrev NotClosed : SyncState → Type 0
NotClosed s = s.closed ≡ false

module _ (E : Env) (c : Settings) where
  read_remote-NotClosed : Keeps {E = E} NotClosed (read_remote E c)
  read_remote-NotClosed = same-Keeps NotClosed (read_remote E c) (read_remote-state E c)

  replace_owned_remote-NotClosed :
      (previous : RemoteSyncFile) (candidate : SyncFileData)
      → Keeps {E = E} NotClosed (replace_owned_remote E c previous candidate)
  replace_owned_remote-NotClosed previous candidate =
      λ h p. ground (arith, replace_owned_remote-closed E c previous candidate h)

  validate_acquisition-NotClosed :
      (local : Option SyncFileData) (remote : RemoteSyncFile)
      → Keeps {E = E} NotClosed (validate_acquisition E c local remote)
  unfolding validate_acquisition remote_payload_empty run_command
  validate_acquisition-NotClosed local remote h p = ground arith

  observe-NotClosed :
      (remote : RemoteSyncFile) (seen : Observed)
      → Keeps {E = E} NotClosed (observe E c remote seen)
  unfolding observe now
  observe-NotClosed remote seen h p = ground arith

  now-NotClosed : Keeps {E = E} NotClosed (now E)
  unfolding now
  now-NotClosed h p = p

  poll-NotClosed : (expires deadline : ℕ) → Keeps {E = E} NotClosed (poll E c expires deadline)
  unfolding poll
  poll-NotClosed expires deadline h p =
      let t = E.now h.world in
      let u = E.now t.1 in
      let w = E.wait_until (wake_at E c u.0 expires deadline) u.1 in
      ground (arith, read_remote-state E c (record h { world = w.1 }))

  wait_loop-NotClosed :
      (fuel deadline : ℕ) (remote : RemoteSyncFile) (seen : Observed)
      → Keeps {E = E} NotClosed (wait_loop E c fuel deadline remote seen)
  unfolding wait_loop
  wait_loop-NotClosed zero deadline remote seen h p = p
  wait_loop-NotClosed (suc fuel) deadline remote seen h p =
      if-Keeps NotClosed (is_none remote.contents.lock) _ _ (λ h p. p)
        (bind-Keeps NotClosed (observe E c remote seen) _ (observe-NotClosed remote seen) (λ s.
          bind-Keeps NotClosed (now E) _ now-NotClosed (λ t.
            if-Keeps NotClosed _ _ _ (λ h p. p)
              (bind-Keeps NotClosed (poll E c (expiry E c remote s) deadline) _
                (poll-NotClosed (expiry E c remote s) deadline)
                (λ r. wait_loop-NotClosed fuel deadline r s)))))
        h p

  retry_verify-NotClosed :
      (deadline : ℕ) (again : M E (Option RemoteSyncFile)) (r : Result RemoteSyncFile)
      → Keeps {E = E} NotClosed again
      → Keeps {E = E} NotClosed (retry_verify E c deadline again r)
  unfolding now wait_until
  retry_verify-NotClosed deadline again (ok r) k h p = p
  retry_verify-NotClosed deadline again (err e) k h p =
      let t = E.now h.world in
      let w = E.wait_until (t.0 + min c.poll_interval (deadline - t.0)) t.1 in
      ground (arith, k (record h { world = w.1 }) p)

  verify_acquired_lock-NotClosed :
      (fuel deadline : ℕ) → Keeps {E = E} NotClosed (verify_acquired_lock E c fuel deadline)
  unfolding verify_acquired_lock
  verify_acquired_lock-NotClosed zero deadline h p = p
  verify_acquired_lock-NotClosed (suc fuel) deadline h p =
      let r = read_remote E c h in
      retry_verify-NotClosed deadline (verify_acquired_lock E c fuel deadline) r.0
        (verify_acquired_lock-NotClosed fuel deadline) r.1 (read_remote-NotClosed h p)

  verified-NotClosed :
      (remote : RemoteSyncFile) (seen : Observed) (candidate : SyncFileData) (t : ℕ)
      (w : Result (Unit {0})) (r : Result (Option RemoteSyncFile))
      → Keeps {E = E} NotClosed (verified E c remote seen candidate t w r)
  unfolding verified
  verified-NotClosed remote seen candidate t w (err e) h p = ground arith
  verified-NotClosed remote seen candidate t w (ok none) h p = p
  verified-NotClosed remote seen candidate t w (ok (some current)) h p = ground arith

  unless_fired-NotClosed :
      (b : Bool) (m : M E (Option (Round E c)))
      → Keeps {E = E} NotClosed m
      → Keeps {E = E} NotClosed (unless_fired E c b m)
  unless_fired-NotClosed true m k h p = p
  unless_fired-NotClosed false m k h p = k h p

  write_lock-NotClosed :
      (fuel : ℕ) (remote : RemoteSyncFile) (seen : Observed) (candidate : SyncFileData) (t : ℕ)
      → Keeps {E = E} NotClosed (write_lock E c fuel remote seen candidate t)
  unfolding write_lock timer_fired
  write_lock-NotClosed fuel remote seen candidate t h p =
      let deadline = t + (c.timeout - refresh_safety_window c.timeout) in
      let w = write_remote E c candidate remote.etag h in
      let v = verify_acquired_lock E c fuel deadline w.1 in
      let f = E.timer_fired deadline v.1.world in
      let q : NotClosed w.1.state =
        same-Keeps NotClosed (write_remote E c candidate remote.etag)
          (write_remote-state E c candidate remote.etag) h p in
      unless_fired-NotClosed f.0 (verified E c remote seen candidate t w.0 v.0)
        (verified-NotClosed remote seen candidate t w.0 v.0) (record v.1 { world = f.1 })
        (verify_acquired_lock-NotClosed fuel deadline w.1 q)

  try_lock-NotClosed :
      (fuel : ℕ) (local : Option SyncFileData) (remote : RemoteSyncFile) (seen : Observed)
      → Keeps {E = E} NotClosed (try_lock E c fuel local remote seen)
  unfolding try_lock
  try_lock-NotClosed fuel local remote seen =
      then-Keeps NotClosed (validate_acquisition E c local remote) _
        (validate_acquisition-NotClosed local remote)
        (bind-Keeps NotClosed (now E) _ now-NotClosed (λ t.
          bind-Keeps NotClosed (now E) _ now-NotClosed
            (λ u. write_lock-NotClosed fuel remote seen (candidate_of E c local remote t) u)))

  continue_with-NotClosed :
      (seen : Observed) (again : RemoteSyncFile → Observed → M E (Option (Unit {0})))
      (r : Option (Round E c))
      → ((x : RemoteSyncFile) (s : Observed) → Keeps {E = E} NotClosed (again x s))
      → Keeps {E = E} NotClosed (continue_with E c seen again r)
  continue_with-NotClosed seen again none k h p = p
  continue_with-NotClosed seen again (some none) k h p = p
  continue_with-NotClosed seen again (some (some x)) k h p = k x seen h p

  attempt_lock-NotClosed :
      (fuel : ℕ) (local : Option SyncFileData)
      (again : RemoteSyncFile → Observed → M E (Option (Unit {0})))
      (w : Option (RemoteSyncFile × Observed))
      → ((x : RemoteSyncFile) (s : Observed) → Keeps {E = E} NotClosed (again x s))
      → Keeps {E = E} NotClosed (attempt_lock E c fuel local again w)
  attempt_lock-NotClosed fuel local again none k h p = p
  attempt_lock-NotClosed fuel local again (some (remote, seen)) k h p =
      bind-Keeps NotClosed (try_lock E c fuel local remote seen) (continue_with E c seen again)
        (try_lock-NotClosed fuel local remote seen) (λ r. continue_with-NotClosed seen again r k) h
        p

  acquire_loop-NotClosed :
      (fuel deadline : ℕ) (local : Option SyncFileData) (remote : RemoteSyncFile) (seen : Observed)
      → Keeps {E = E} NotClosed (acquire_loop E c fuel deadline local remote seen)
  unfolding acquire_loop
  acquire_loop-NotClosed zero deadline local remote seen h p = p
  acquire_loop-NotClosed (suc fuel) deadline local remote seen h p =
      bind-Keeps NotClosed (wait_loop E c fuel deadline remote seen) _
        (wait_loop-NotClosed fuel deadline remote seen)
        (λ w.
          attempt_lock-NotClosed fuel local _ w
            (λ x s. acquire_loop-NotClosed fuel deadline local x s))
        h p

  wait_deadline-NotClosed : Keeps {E = E} NotClosed (wait_deadline E c)
  unfolding now
  wait_deadline-NotClosed h p = ground arith

  start_acquire-NotClosed :
      (fuel : ℕ) (local : Option SyncFileData) (remote : RemoteSyncFile)
      → Keeps {E = E} NotClosed (start_acquire E c fuel local remote)
  unfolding start_acquire
  start_acquire-NotClosed fuel local remote =
      if-Keeps NotClosed (c.persistent && owned_by remote c.owner) _ _
        (bind-Keeps NotClosed (now E) _ now-NotClosed (λ t.
          let lock : SyncFileLock = record {
            owner = c.owner;
            timestamp = t;
            ttl = pos c.timeout;
          } in
          let n : SyncFileData = record remote.contents { lock = some lock } in
          then-Keeps NotClosed
            (on_error (wrap "refresh persistent lock") (replace_owned_remote E c remote n)) _
            (replace_owned_remote-NotClosed remote n) (λ h p. p)))
        (bind-Keeps NotClosed (wait_deadline E c) _ wait_deadline-NotClosed
          (λ d. acquire_loop-NotClosed fuel d local remote nothing_observed))

  acquire-NotClosed : (fuel : ℕ) → Keeps {E = E} NotClosed (acquire E c fuel)
  unfolding acquire
  acquire-NotClosed fuel =
      bind-Keeps NotClosed (read_local_sync_file E c) _
        (same-Keeps NotClosed (read_local_sync_file E c) (read_local_sync_file-state E c))
        (λ local. bind-Keeps NotClosed (read_remote E c) _ read_remote-NotClosed (λ remote.
          then-Keeps NotClosed (validate_acquisition E c local remote) _
            (validate_acquisition-NotClosed local remote)
            (start_acquire-NotClosed fuel local remote)))

  pub acquire-IsOpen :
      (fuel : ℕ) (h : Machine E)
      → h.state.closed ≡ false
      → (acquire E c fuel h).0 ≡ ok (some tt)
      → IsOpen (acquire E c fuel h).1.state
  acquire-IsOpen fuel h n p = (
    acquire-NotClosed fuel h n,
    owned_by-lock (acquire E c fuel h).1.state.remote c.owner (acquire_done E c fuel h p),
  )
