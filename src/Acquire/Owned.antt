-- ===== src/Acquire/Owned.antt =====
-- What a successful `Acquire` establishes.
use rclonewatch.Prelude.{
  ℕ, zero, suc, ◌+◌, ◌-◌, min, str_eq_iff, is_none, Bool, true, false, Option, none, some, ◌≡◌, ◌⊎◌,
  refl, inl, inr, arith,
}
use rclonewatch.SyncFile.{SyncFileLock, SyncFileData, RemoteSyncFile, owned_by, same_sync_file_data}
use rclonewatch.SyncFile.Same.{same_sync_file_data_iff}
use rclonewatch.Effect.{
  Env, Settings, Result, ok, err, Machine, M, now, timer_fired, wait_until, run_command,
  Result-cases,
}
use rclonewatch.Remote.Read.{read_remote, remote_state_exists}
use rclonewatch.Remote.Verified.{replace_owned_remote_done}
use rclonewatch.Remote.Replace.{write_remote}
use rclonewatch.Acquire.Validate.{validate_acquisition}
use rclonewatch.Prelude.Int.{pos}
use rclonewatch.Session.Local.{read_local_sync_file}
use rclonewatch.Acquire.Wait.{
  nothing_observed, Observed, wait_loop, verify_acquired_lock, refresh_safety_window,
}
use rclonewatch.Acquire.Loop.{
  start_acquire, try_lock, acquire_loop, acquire, candidate_of, unless_fired, verified, write_lock,
}

module _ (E : Env) (c : Settings) where
  -- A file that is missing has no lock.
  abbrev ExistsIfLocked : RemoteSyncFile → Type 0
  ExistsIfLocked r = (is_none r.contents.lock ≡ true) ⊎ (r.exists ≡ true)

  read_remote-ExistsIfLocked :
      (h : Machine E) {r : RemoteSyncFile} → (read_remote E c h).0 ≡ ok r → ExistsIfLocked r
  unfolding read_remote remote_state_exists run_command
  read_remote-ExistsIfLocked h e = ground arith

  verify_acquired_lock-ExistsIfLocked :
      (fuel deadline : ℕ) (h : Machine E) {r : RemoteSyncFile}
      → (verify_acquired_lock E c fuel deadline h).0 ≡ ok (some r)
      → ExistsIfLocked r
  unfolding verify_acquired_lock now wait_until
  verify_acquired_lock-ExistsIfLocked zero deadline h e = cc
  verify_acquired_lock-ExistsIfLocked (suc fuel) deadline h {r} e =
      elim (Result-cases (read_remote E c h).0) [
        | inl (s, p) ↦ ground (arith, read_remote-ExistsIfLocked h {r = s} p, p)
        | inr (f, p) ↦
            let k : Machine E = (read_remote E c h).1 in
            let t : Machine E = record k { world = (E.now k.world).1 } in
            let w =
              E.wait_until ((E.now k.world).0 + min c.poll_interval (deadline - (E.now k.world).0))
                t.world in
            ground (
              arith,
              p,
              verify_acquired_lock-ExistsIfLocked fuel deadline (record t { world = w.1 }) {r = r},
            )
      ]

  same-candidate_of :
      (local : Option SyncFileData) (remote r : RemoteSyncFile) (t : ℕ)
      → same_sync_file_data r.contents (candidate_of E c local remote t) ≡ true
      → ExistsIfLocked r
      → owned_by r c.owner ≡ true
  unfolding candidate_of owned_by
  same-candidate_of local remote r t e x = ground (
    arith,
    same_sync_file_data_iff r.contents (candidate_of E c local remote t),
    str_eq_iff c.owner c.owner,
  )

  -- A round holds the lock only if the file read back is the candidate.
  verified_done :
      (remote : RemoteSyncFile) (seen : Observed) (candidate : SyncFileData) (written_at : ℕ)
      (write : Result (Unit {0})) (r : Result (Option RemoteSyncFile)) (h : Machine E)
      → (verified E c remote seen candidate written_at write r h).0 ≡ ok (some none)
      → (current : RemoteSyncFile) × (r ≡ ok (some current))
        × (same_sync_file_data current.contents candidate ≡ true)
        × ((verified E c remote seen candidate written_at write r h).1.state.remote ≡ current)
        × ((verified E c remote seen candidate written_at write r h).1.state.lock_expiry
            ≡ written_at + c.timeout)
  unfolding verified
  verified_done remote seen candidate written_at (ok _) (err e) h p = cc
  verified_done remote seen candidate written_at (err _) (err e) h p = cc
  verified_done remote seen candidate written_at write (ok none) h p = cc
  verified_done remote seen candidate written_at (ok _) (ok (some current)) h p =
      (current, refl, ground arith, ground arith, ground arith)
  verified_done remote seen candidate written_at (err _) (ok (some current)) h p =
      (current, refl, ground arith, ground arith, ground arith)

  fired_done :
      (fired : Bool) (m : M E (Option (Option RemoteSyncFile))) (h : Machine E)
      → (unless_fired E c fired m h).0 ≡ ok (some none)
      → unless_fired E c fired m h ≡ m h
  fired_done true m h p = cc
  fired_done false m h p = refl

  -- The lock of a round's machine: the file that was read back, and the expiry of the lock.
  abbrev LockedAs : SyncFileData → ℕ → Machine E → Type 0
  LockedAs candidate written_at h =
      ExistsIfLocked h.state.remote
      × (same_sync_file_data h.state.remote.contents candidate ≡ true)
      × (h.state.lock_expiry ≡ written_at + c.timeout)

  write_lock_done :
      (fuel : ℕ) (remote : RemoteSyncFile) (seen : Observed) (candidate : SyncFileData)
      (written_at : ℕ) (h : Machine E)
      → (write_lock E c fuel remote seen candidate written_at h).0 ≡ ok (some none)
      → LockedAs candidate written_at (write_lock E c fuel remote seen candidate written_at h).1
  unfolding write_lock timer_fired
  write_lock_done fuel remote seen candidate written_at h p =
      let deadline = written_at + (c.timeout - refresh_safety_window c.timeout) in
      let w = write_remote E c candidate remote.etag h in
      let v = verify_acquired_lock E c fuel deadline w.1 in
      let f = E.timer_fired deadline v.1.world in
      let m : Machine E = record v.1 { world = f.1 } in
      let tail = verified E c remote seen candidate written_at w.0 v.0 in
      let q = fired_done f.0 tail m p in
      let (current, e, s, r, x) =
        verified_done remote seen candidate written_at w.0 v.0 m (rw q at p) in
      let g = verify_acquired_lock-ExistsIfLocked fuel deadline w.1 {r = current} e in
      rw (q, r) (g, s, x)

  try_lock_done :
      (fuel : ℕ) (local : Option SyncFileData) (remote : RemoteSyncFile) (seen : Observed)
      (h : Machine E)
      → (try_lock E c fuel local remote seen h).0 ≡ ok (some none)
      → owned_by (try_lock E c fuel local remote seen h).1.state.remote c.owner ≡ true
  unfolding try_lock now
  try_lock_done fuel local remote seen h p =
      elim (Result-cases (validate_acquisition E c local remote h).0) [
        | inr (f, e) ↦ ground (arith, e)
        | inl (_, e) ↦
            let v : Machine E = (validate_acquisition E c local remote h).1 in
            let t = E.now v.world in
            let u = E.now t.1 in
            let candidate = candidate_of E c local remote t.0 in
            let m : Machine E = record v { world = u.1 } in
            let q : try_lock E c fuel local remote seen h
                ≡ write_lock E c fuel remote seen candidate u.0 m =
              ground (arith, e) in
            let d = write_lock_done fuel remote seen candidate u.0 m (rw q at p) in
            rw q (same-candidate_of local remote _ t.0 d.1 d.0)
      ]

  acquire_loop_done :
      (fuel deadline : ℕ) (local : Option SyncFileData) (remote : RemoteSyncFile) (seen : Observed)
      (h : Machine E)
      → (acquire_loop E c fuel deadline local remote seen h).0 ≡ ok (some tt)
      → owned_by (acquire_loop E c fuel deadline local remote seen h).1.state.remote c.owner ≡ true
  unfolding acquire_loop
  acquire_loop_done zero deadline local remote seen h p = cc
  acquire_loop_done (suc fuel) deadline local remote seen h p =
      elim (Result-cases (wait_loop E c fuel deadline remote seen h).0) [
        | inr (f, e) ↦ ground (arith, e)
        | inl (none, e) ↦ ground (arith, e)
        | inl (some (r, s), e) ↦
            let w : Machine E = (wait_loop E c fuel deadline remote seen h).1 in
            let t = try_lock E c fuel local r s w in
            elim (Result-cases t.0) [
              | inr (f, d) ↦ ground (arith, e, d)
              | inl (none, d) ↦ ground (arith, e, d)
              | inl (some none, d) ↦ ground (arith, e, d, try_lock_done fuel local r s w d)
              | inl (some (some current), d) ↦
                  ground (arith, e, d, acquire_loop_done fuel deadline local current s t.1)
            ]
      ]

  start_acquire_done :
      (fuel : ℕ) (local : Option SyncFileData) (remote : RemoteSyncFile) (h : Machine E)
      → (start_acquire E c fuel local remote h).0 ≡ ok (some tt)
      → owned_by (start_acquire E c fuel local remote h).1.state.remote c.owner ≡ true
  unfolding start_acquire now
  start_acquire_done fuel local remote h p =
      let t = E.now h.world in
      let m : Machine E = record h { world = t.1 } in
      let lock : SyncFileLock = record { owner = c.owner; timestamp = t.0; ttl = pos c.timeout } in
      ground (
        arith,
        replace_owned_remote_done E c remote (record remote.contents { lock = some lock }) m,
        acquire_loop_done fuel (t.0 + c.lock_wait.duration) local remote nothing_observed m,
        acquire_loop_done fuel 0 local remote nothing_observed h,
      )

  -- When `Acquire` succeeds (which the fuel must reach), the remote file that this process counts as its own exists and
  -- carries its lock, on every path: a new lock, one taken over after waiting, or a persistent one.
  pub acquire_done :
      (fuel : ℕ) (h : Machine E)
      → (acquire E c fuel h).0 ≡ ok (some tt)
      → owned_by (acquire E c fuel h).1.state.remote c.owner ≡ true
  unfolding acquire
  acquire_done fuel h p =
      let a = read_local_sync_file E c h in
      let b = read_remote E c a.1 in
      elim (Result-cases a.0) [
        | inr (f, e) ↦ ground (arith, e)
        | inl (local, e) ↦ elim (Result-cases b.0) [
          | inr (f, d) ↦ ground (arith, e, d)
          | inl (remote, d) ↦
              let v = validate_acquisition E c local remote b.1 in
              elim (Result-cases v.0) [
                | inr (f, k) ↦ ground (arith, e, d, k)
                | inl (_, k) ↦ ground (arith, e, d, k, start_acquire_done fuel local remote v.1)
              ]
        ]
      ]
