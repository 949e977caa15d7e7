-- ===== src/Acquire/Validate.antt =====
-- src/syncstate.go: `validateAcquisition`, the conditions under which a session may start.
use rclonewatch.Prelude.{
  ◌+◌, ◌<◌, Bool, true, false, not, ◌&&◌, Option, some, ◌≡◌, ◌⊎◌, ◌↔◌, arith, if◌then◌else◌, str_eq,
  str_eq_iff, ltb, is_some,
}
use rclonewatch.SyncFile.{SyncFileData, RemoteSyncFile, needs_sync_from_remote}
use rclonewatch.Effect.{
  text, wrap, Env, Settings, ok, Machine, M, ◌>>=◌, ◌>>◌, return, fail, on_error,
}
use rclonewatch.Remote.Run.{remote_payload_empty}
use rclonewatch.Session.Local.{or_no_data, u64}
use rclonewatch.Session.Generation.{incomplete_advance}

module _ (E : Env) (c : Settings) where
  -- The destination of a missing state file must be empty, unless it may be cleared.
  abbrev untracked : RemoteSyncFile → M E (Unit {0})
  untracked remote =
      if not remote.exists && not c.force_delete_untracked_remote
      then (do
        empty ← on_error (wrap "inspect untracked remote destination") (remote_payload_empty E c)
        if empty
            then return tt
            else fail (text "remote destination has no state file and is not empty"))
      else return tt

  -- The local side may be ahead only by an advance that was cut off.
  abbrev local_ahead : Option SyncFileData → RemoteSyncFile → Bool
  local_ahead local remote =
      let l = or_no_data local in
      let advance = is_some local && remote.exists && incomplete_advance l remote.contents in
      remote.exists
      && ltb 0 remote.contents.generation
      && is_some local
      && ltb remote.contents.generation l.generation
      && not advance

  abbrev other_repository : Option SyncFileData → RemoteSyncFile → Bool
  other_repository local remote =
      is_some local
      && remote.exists
      && not (str_eq (or_no_data local).repository_id remote.contents.repository_id)

  abbrev incomplete_remote : Option SyncFileData → RemoteSyncFile → Bool
  incomplete_remote local remote =
      c.fail_on_incomplete
      && remote.exists
      && remote.contents.syncing
      && needs_sync_from_remote (or_no_data local) (is_some local) remote.contents

  -- `validateAcquisition`
  unfoldable pub validate_acquisition : Option SyncFileData → RemoteSyncFile → M E (Unit {0})
  unfolding needs_sync_from_remote
  validate_acquisition local remote =
      if other_repository local remote
      then fail (text "local repository ID does not match remote repository ID")
      else (if incomplete_remote local remote
          then fail (text "remote state indicates an incomplete sync")
          else (do
            untracked remote
            if local_ahead local remote
                then fail (text "local generation is ahead of remote generation")
                else return tt))

  -- Over a remote state file, the checks of a local one pass exactly when the repositories agree,
  -- the local generation is not ahead of an initialized remote but by one cut-off advance, and no
  -- incomplete remote would be downloaded against `--fail-on-incomplete-sync`; they run no command.
  pub validate_acquisition_existing :
      (local : SyncFileData) (remote : RemoteSyncFile) (h : Machine E)
      → remote.exists ≡ true
      → (validate_acquisition (some local) remote h ≡ (ok tt, h)) ↔ (
          (local.repository_id ≡ remote.contents.repository_id)
          × ((c.fail_on_incomplete
                && remote.contents.syncing
                && needs_sync_from_remote local true remote.contents)
              ≡ false)
          × ((remote.contents.generation ≡ 0)
              ⊎ (¬ (remote.contents.generation < local.generation))
              ⊎ ((local.syncing ≡ true)
                  × (local.generation ≡ u64 (remote.contents.generation + 1)))))
  unfolding validate_acquisition
  validate_acquisition_existing local remote h x =
      ground (arith, str_eq_iff local.repository_id remote.contents.repository_id)
