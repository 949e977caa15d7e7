-- ===== src/Remote/Replace.antt =====
-- src/syncstate.go: `writeRemote`, and `replaceOwnedRemote`, which every change of an owned state
-- file goes through.
use rclonewatch.Prelude.{
  ℕ, ◌+◌, Bool, true, false, not, ◌&&◌, ◌||◌, Option, none, some, Text, [], ◌∷◌, ◌++◌,
  if◌then◌else◌, is_empty, str_eq, is_none,
}
use rclonewatch.SyncFile.{
  SyncFileLock, SyncFileData, RemoteSyncFile, owned_by, same_lock, same_sync_file_data, ttl_or,
}
use rclonewatch.Effect.{
  text, lock_ownership_lost, Condition, if_none_match, if_match, copyto, create_temp, write,
  close_file, Env, Settings, SyncState, Result, ok, err, M, ◌>>=◌, ◌>>◌, fail, get, modify, disk,
  now,
}
use rclonewatch.Remote.Run.{run}
use rclonewatch.Remote.Read.{read_remote}

abbrev pub write_condition : Bool → Text → Option Condition
write_condition false etag = none
write_condition true etag = some (if is_empty etag then if_none_match else if_match etag)

module _ (E : Env) (c : Settings) where
  -- `encodeSyncFile`, which ends the text with a newline.
  unfoldable pub encode_sync_file : SyncFileData → Result Text
  encode_sync_file d =
      if str_eq d.repository_id ""
      then err (text "repository ID must be set")
      else (elim (E.marshal d) [
        | none ↦ err (text "encode state file")
        | some t ↦ ok (t ++ (10 ∷ []))
      ])

  abbrev write_contents : Text → Result Text → M E (Unit {0})
  write_contents etag (err e) = fail e
  write_contents etag (ok contents) = do
    disk E (create_temp [])
    disk E (write contents)
    disk E close_file
    run E c (copyto contents c.paths.remote (write_condition c.consistent_writes etag))

  -- `writeRemote`: the contents go to a temporary file, which rclone uploads.
  unfoldable pub write_remote : SyncFileData → Text → M E (Unit {0})
  unfolding encode_sync_file run
  write_remote d previous_etag =
      write_contents previous_etag (encode_sync_file (record d { active = false }))

  abbrev clear_pending : M E (Unit {0})
  clear_pending = modify λ s. record s { pending = none; pending_expiry = 0 }

  abbrev lose_ownership : M E (Unit {0})
  lose_ownership = do clear_pending; fail lock_ownership_lost

  -- `setOwnedRemote`
  abbrev pub set_owned_remote : RemoteSyncFile → ℕ → M E (Unit {0})
  set_owned_remote remote expires = modify λ s. record s { remote = remote; lock_expiry = expires }

  -- Whether the file read is the one that an earlier, unverified write left.
  abbrev pub is_pending : SyncState → RemoteSyncFile → Bool
  is_pending s latest = elim s.pending [
    | none ↦ false
    | some p ↦ same_sync_file_data latest.contents p
  ]

  -- The candidate's lock, where the caller leaves the previous one and a pending one has replaced it.
  unfoldable pub adopt_lock : Bool → RemoteSyncFile → RemoteSyncFile → SyncFileData → SyncFileData
  adopt_lock pending latest previous candidate =
      if pending && same_lock candidate.lock previous.contents.lock
      then record candidate { lock = latest.contents.lock }
      else candidate

  abbrev pub new_expiry : Option SyncFileLock → Option SyncFileLock → ℕ → ℕ → ℕ
  new_expiry none latest expires written_at = 0
  new_expiry (some l) latest expires written_at =
      if same_lock (some l) latest then expires else written_at + ttl_or (some l) c.timeout

  -- The checks on the file that is read back after the write.
  abbrev pub check_verified : RemoteSyncFile → RemoteSyncFile → SyncFileData → ℕ → M E (Unit {0})
  check_verified verified latest candidate expires =
      if not (same_sync_file_data verified.contents candidate)
      then (if same_sync_file_data verified.contents latest.contents
          then fail (text "remote state file changed while updating it")
          else lose_ownership)
      else (if not (is_none candidate.lock) && not (owned_by verified c.owner)
          then lose_ownership
          else (do clear_pending; set_owned_remote verified expires))

  -- The write, once the file read is known to be this process's.
  unfoldable pub commit : RemoteSyncFile → SyncFileData → ℕ → M E (Unit {0})
  commit latest candidate expires = do
    modify λ s. record s { pending = some candidate; pending_expiry = expires }
    write_remote candidate latest.etag
    verified ← read_remote E c
    check_verified verified latest candidate expires

  abbrev pub replace_from :
      RemoteSyncFile → SyncFileData → RemoteSyncFile → SyncState → M E (Unit {0})
  replace_from previous candidate latest s =
      let pending = is_pending s latest in
      if not (owned_by latest c.owner)
        || (not (same_sync_file_data latest.contents previous.contents) && not pending)
      then lose_ownership
      else (do
        written_at ← now E
        let next = adopt_lock pending latest previous candidate
        let expires = if pending then s.pending_expiry else s.lock_expiry
        commit latest next (new_expiry next.lock latest.contents.lock expires written_at))

  -- `replaceOwnedRemote`
  unfoldable pub replace_owned_remote : RemoteSyncFile → SyncFileData → M E (Unit {0})
  replace_owned_remote previous candidate = do
    latest ← read_remote E c
    s ← get
    replace_from previous candidate latest s
