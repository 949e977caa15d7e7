-- ===== src/Acquire/Loop.antt =====
-- src/syncstate.go: the rounds of `Acquire`. Its loop takes fuel, and the result `none` says that it ran
-- out.
use rclonewatch.Prelude.{
  ℕ, zero, suc, ◌+◌, ◌-◌, Bool, true, false, not, ◌&&◌, ◌||◌, Option, none, some, if◌then◌else◌,
  str_eq, ltb, ◌==◌, is_none,
}
use rclonewatch.Prelude.Int.{pos}
use rclonewatch.SyncFile.{
  SyncFileLock, SyncFileData, RemoteSyncFile, lock_identity, identity_eq, owned_by,
  same_sync_file_data, bool_eq,
}
use rclonewatch.Effect.{
  Error, text, wrap, lock_ownership_lost, Env, Settings, Result, ok, err, M, ◌>>=◌, ◌>>◌, return,
  fail, attempt, on_error, now, timer_fired,
}
use rclonewatch.Remote.Read.{read_remote}
use rclonewatch.Remote.Replace.{write_remote, set_owned_remote, replace_owned_remote}
use rclonewatch.Session.Local.{read_local_sync_file}
use rclonewatch.Acquire.Validate.{validate_acquisition}
use rclonewatch.Acquire.Wait.{
  Observed, can_wait, default_wait, is_observed, nothing_observed, refresh_safety_window,
  verify_acquired_lock, wait_loop,
}

module _ (E : Env) (c : Settings) where
  -- The state file to write: the one read, or a first one, under a new lock of this process.
  unfoldable pub candidate_of : Option SyncFileData → RemoteSyncFile → ℕ → SyncFileData
  candidate_of local remote t =
      let repository =
        if remote.exists
        then remote.contents.repository_id
        else (elim local [ none ↦ c.repository_id | some l ↦ l.repository_id ]) in
      record remote.contents {
        repository_id = repository;
        lock = some (record { owner = c.owner; timestamp = t; ttl = pos c.timeout });
      }

  -- What a round of the loop comes to: the lock is held, or another state file is to be looked at.
  abbrev pub Round : Type 0
  Round = Option RemoteSyncFile

  -- Another lock than the one that a default wait has seen ends it.
  abbrev pub look_again : Observed → RemoteSyncFile → M E Round
  look_again seen current =
      if default_wait E c
        && is_observed seen.identity
        && not (identity_eq (lock_identity current) seen.identity)
      then fail (text "remote lock was refreshed while waiting")
      else return (some current)

  abbrev pub not_ours : RemoteSyncFile → SyncFileData → Bool
  not_ours current candidate =
      not (owned_by current c.owner)
      || not (str_eq current.contents.repository_id candidate.repository_id)
      || not (current.contents.generation == candidate.generation)
      || not (str_eq current.contents.sync_id candidate.sync_id)
      || not (bool_eq current.contents.syncing candidate.syncing)

  -- The file read back is not the candidate, and the write had reported the given result.
  abbrev pub lost_race :
      RemoteSyncFile → Observed → SyncFileData → RemoteSyncFile → Result (Unit {0}) → M E Round
  lost_race remote seen candidate current (err e) =
      if c.consistent_writes
        && can_wait E c
        && not (identity_eq (lock_identity current) (lock_identity remote))
      then look_again seen current
      else fail e
  lost_race remote seen candidate current (ok _) =
      if not_ours current candidate
      then (if can_wait E c && not (is_none current.contents.lock)
          then look_again seen current
          else fail (text "remote state file changed while acquiring lock"))
      else fail lock_ownership_lost

  -- The error of a failed write comes before that of the verification.
  abbrev pub unverified : Result (Unit {0}) → Error → M E Round
  unverified (err w) e = fail w
  unverified (ok _) e = fail e

  unfoldable pub verified :
      RemoteSyncFile
      → Observed
      → SyncFileData
      → ℕ
      → Result (Unit {0})
      → Result (Option RemoteSyncFile)
      → M E (Option Round)
  verified remote seen candidate written_at write (err e) = do
    r ← unverified write e
    return (some r)
  verified remote seen candidate written_at write (ok none) = return none
  verified remote seen candidate written_at write (ok (some current)) =
      if same_sync_file_data current.contents candidate
      then (do set_owned_remote E c current (written_at + c.timeout); return (some none))
      else (do r ← lost_race remote seen candidate current write; return (some r))

  abbrev pub unless_fired : Bool → M E (Option Round) → M E (Option Round)
  unless_fired true m = fail (text "could not verify acquired lock before expiry")
  unless_fired false m = m

  -- The write of the lock and its verification, under the watchdog.
  unfoldable pub write_lock : ℕ → RemoteSyncFile → Observed → SyncFileData → ℕ → M E (Option Round)
  write_lock fuel remote seen candidate written_at =
      let deadline = written_at + (c.timeout - refresh_safety_window c.timeout) in
      (do
        write ← attempt (write_remote E c candidate remote.etag)
        current ← attempt (verify_acquired_lock E c fuel deadline)
        fired ← timer_fired E deadline
        unless_fired fired (verified remote seen candidate written_at write current))

  -- One attempt at the lock.
  unfoldable pub try_lock : ℕ → Option SyncFileData → RemoteSyncFile → Observed → M E (Option Round)
  try_lock fuel local remote seen = do
    validate_acquisition E c local remote
    t ← now E
    written_at ← now E
    write_lock fuel remote seen (candidate_of local remote t) written_at

  abbrev pub continue_with :
      Observed
      → (RemoteSyncFile → Observed → M E (Option (Unit {0})))
      → Option Round
      → M E (Option (Unit {0}))
  continue_with seen again none = return none
  continue_with seen again (some none) = return (some tt)
  continue_with seen again (some (some current)) = again current seen

  abbrev pub attempt_lock :
      ℕ
      → Option SyncFileData
      → (RemoteSyncFile → Observed → M E (Option (Unit {0})))
      → Option (RemoteSyncFile × Observed)
      → M E (Option (Unit {0}))
  attempt_lock fuel local again none = return none
  attempt_lock fuel local again (some (remote, seen)) = do
    r ← try_lock fuel local remote seen
    continue_with seen again r

  -- The loop of `Acquire`.
  unfoldable pub acquire_loop :
      ℕ → ℕ → Option SyncFileData → RemoteSyncFile → Observed → M E (Option (Unit {0}))
  acquire_loop zero deadline local remote seen = return none
  acquire_loop (suc fuel) deadline local remote seen =
      let again = λ (r : RemoteSyncFile). λ (s : Observed). acquire_loop fuel deadline local r s in
      (do w ← wait_loop E c fuel deadline remote seen; attempt_lock fuel local again w)

  abbrev pub wait_deadline : M E ℕ
  wait_deadline =
      if not c.lock_wait.infinite && ltb 0 c.lock_wait.duration
      then (do t ← now E; return (t + c.lock_wait.duration))
      else return 0

  -- A lock that an earlier run of the same persistent ID holds is refreshed at once.
  unfoldable pub start_acquire : ℕ → Option SyncFileData → RemoteSyncFile → M E (Option (Unit {0}))
  start_acquire fuel local remote =
      if c.persistent && owned_by remote c.owner
      then (do
        t ← now E
        let lock : SyncFileLock = record { owner = c.owner; timestamp = t; ttl = pos c.timeout }
        on_error (wrap "refresh persistent lock")
            (replace_owned_remote E c remote (record remote.contents { lock = some lock }))
        return (some tt))
      else (do d ← wait_deadline; acquire_loop fuel d local remote nothing_observed)

  -- `Acquire`
  unfoldable pub acquire : ℕ → M E (Option (Unit {0}))
  acquire fuel = do
    local ← read_local_sync_file E c
    remote ← read_remote E c
    validate_acquisition E c local remote
    start_acquire fuel local remote
