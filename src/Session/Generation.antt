-- ===== src/Session/Generation.antt =====
-- src/syncstate.go: the generation of the payload, advanced on both sides around every upload.
use rclonewatch.Prelude.{
  ◌+◌, String, Bool, true, false, not, ◌&&◌, ◌||◌, Option, none, some, if◌then◌else◌, str_eq, ◌==◌,
  ltb, is_some,
}
use rclonewatch.SyncFile.{SyncFileData, RemoteSyncFile, max_generation, needs_sync_from_remote}
use rclonewatch.Effect.{
  text, wrap, Env, Settings, M, ◌>>=◌, ◌>>◌, return, fail, on_error, get, random_text,
}
use rclonewatch.Remote.Run.{sync_from_remote, sync_to_remote, delete_remote_payload}
use rclonewatch.Remote.Replace.{replace_owned_remote}
use rclonewatch.Session.Local.{read_local_sync_file, write_local_sync_file, or_no_data, u64}

-- The local record of a remote file's generation, in an active session.
abbrev pub local_record : SyncFileData → Bool → SyncFileData
local_record d syncing = record {
  repository_id = d.repository_id;
  generation = d.generation;
  sync_id = d.sync_id;
  syncing = syncing;
  active = true;
  lock = none;
}

-- `local.Syncing && local.Generation == remote.Generation+1`
abbrev pub incomplete_advance : SyncFileData → SyncFileData → Bool
incomplete_advance local remote = local.syncing && local.generation == u64 (remote.generation + 1)

module _ (E : Env) (c : Settings) where
  abbrev pub advance : RemoteSyncFile → String → M E (Unit {0})
  advance remote sync_id =
      let next = record remote.contents {
        generation = u64 (remote.contents.generation + 1);
        sync_id = sync_id;
        syncing = true;
      } in
      (do
        on_error (wrap "increment local generation")
            (write_local_sync_file E c (local_record next true))
        on_error (wrap "publish generation") (replace_owned_remote E c remote next))

  abbrev pub before_from : RemoteSyncFile → M E (Unit {0})
  before_from remote =
      if remote.contents.generation == 0
      then fail (text "remote repository is not initialized")
      else (if remote.contents.generation == max_generation
          then fail (text "generation number cannot be incremented")
          else (do sync_id ← random_text E; advance remote sync_id))

  -- `BeforeRemoteChange`: the local file is written first.
  unfoldable pub before_remote_change : M E (Unit {0})
  before_remote_change = do s ← get; before_from s.remote

  abbrev pub after_from : RemoteSyncFile → M E (Unit {0})
  after_from remote =
      let candidate = record remote.contents { syncing = false } in
      (do
        on_error (wrap "clear remote syncing flag") (replace_owned_remote E c remote candidate)
        on_error (wrap "clear local syncing flag")
            (write_local_sync_file E c (local_record candidate false)))

  -- `AfterRemoteChange`: the remote file is written first.
  unfoldable pub after_remote_change : M E (Unit {0})
  after_remote_change = do s ← get; after_from s.remote

  abbrev pub complete_initialization : RemoteSyncFile → String → M E (Unit {0})
  complete_initialization remote sync_id =
      let candidate = record remote.contents {
        generation = 1;
        sync_id = sync_id;
        syncing = false;
      } in
      (do
        on_error (wrap "complete remote initialization") (replace_owned_remote E c remote candidate)
        on_error (wrap "write initial local state")
            (write_local_sync_file E c (local_record candidate false)))

  abbrev pub initialize_from : RemoteSyncFile → M E (Unit {0})
  initialize_from remote = if not (remote.contents.generation == 0) then return tt else (do
    on_error (wrap "clear untracked remote payload") (delete_remote_payload E c)
    on_error (wrap "initial local-to-remote sync") (sync_to_remote E c)
    s ← get
    sync_id ← random_text E
    complete_initialization s.remote sync_id)

  -- `InitializeRemote`
  unfoldable pub initialize_remote : M E (Unit {0})
  initialize_remote = do s ← get; initialize_from s.remote

  -- The previous marker is kept for the decision below; a missing file stays missing.
  abbrev pub mark_active : Option SyncFileData → M E (Unit {0})
  mark_active none = return tt
  mark_active (some local) =
      on_error (wrap "mark local session active")
        (write_local_sync_file E c (record local { active = true }))

  abbrev pub download : SyncFileData → M E (Unit {0})
  download remote = do
    sync_from_remote E c
    write_local_sync_file E c (local_record remote remote.syncing)

  abbrev pub recover : M E (Unit {0})
  recover = do
    before_remote_change
    on_error (wrap "recover incomplete local-to-remote sync") (sync_to_remote E c)
    after_remote_change

  -- The cases of a remote that is not ahead of the local side.
  abbrev pub upload_if_incomplete : SyncFileData → SyncFileData → M E (Unit {0})
  upload_if_incomplete local remote =
      let incomplete = local.syncing || remote.syncing in
      if ltb remote.generation local.generation && not (incomplete_advance local remote)
      then fail (text "local generation is ahead of remote generation")
      else (if incomplete || local.active
          then (if incomplete && local.generation == remote.generation && str_eq local.sync_id ""
              then fail
                  (text "cannot recover incomplete sync at equal generations without sync IDs")
              else recover)
          else return tt)

  abbrev pub reconcile : Option SyncFileData → RemoteSyncFile → M E (Unit {0})
  reconcile local remote =
      if remote.contents.generation == 0
      then initialize_remote
      else (if needs_sync_from_remote (or_no_data local) (is_some local) remote.contents
          then download remote.contents
          else upload_if_incomplete (or_no_data local) remote.contents)

  -- `InitializeGeneration`
  unfoldable pub initialize_generation : M E (Unit {0})
  initialize_generation = do
    local ← read_local_sync_file E c
    mark_active local
    s ← get
    reconcile local s.remote
