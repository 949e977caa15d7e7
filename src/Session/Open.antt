-- ===== src/Session/Open.antt =====
-- A session is open while `Close` has not been called and this process counts on a lock. The operations
-- on the generation keep it open, whatever their results.
use rclonewatch.Prelude.{
  ◌+◌, ◌≡◌, inl, inr, String, true, false, not, ◌==◌, ltb, ◌&&◌, ◌||◌, Option, none, some, is_none,
  is_some, str_eq, arith,
}
use rclonewatch.SyncFile.{SyncFileData, RemoteSyncFile, max_generation, needs_sync_from_remote}
use rclonewatch.Effect.{
  wrap, Env, Settings, SyncState, Machine, return, on_error, random_text, read_file, run_command,
  get, ◌>>=◌, ◌>>◌,
}
use rclonewatch.Effect.Keeps.{Keeps, bind-Keeps, then-Keeps, if-Keeps, same-Keeps, get-Keeps}
use rclonewatch.Remote.Run.{run, sync_from_remote, sync_to_remote, delete_remote_payload}
use rclonewatch.Remote.Replace.{replace_owned_remote}
use rclonewatch.Remote.Ownership.{owned_by-lock}
use rclonewatch.Remote.Verified.{replace_owned_remote_moves, replace_owned_remote-fields}
use rclonewatch.Session.Local.{read_local_sync_file, write_local_sync_file, or_no_data, u64}
use rclonewatch.Session.Generation.{
  advance, before_from, before_remote_change, after_remote_change, complete_initialization,
  initialize_from, initialize_remote, mark_active, download, recover, upload_if_incomplete,
  reconcile, initialize_generation, local_record, incomplete_advance,
}
use rclonewatch.Session.Advance.{write_local_sync_file-state}
use rclonewatch.Session.Close.{finish_session, mark_inactive}
use rclonewatch.Session.Release.{replace_owned_remote-closed}

abbrev pub IsOpen : SyncState → Type 0
IsOpen s = (s.closed ≡ false) × (is_none s.remote.contents.lock ≡ false)

module _ (E : Env) (c : Settings) where
  replace_owned_remote-IsOpen :
      (previous : RemoteSyncFile) (candidate : SyncFileData)
      → is_none candidate.lock ≡ false
      → Keeps {E = E} IsOpen (replace_owned_remote E c previous candidate)
  replace_owned_remote-IsOpen previous candidate l h p =
      let k = replace_owned_remote-closed E c previous candidate h in
      elim (replace_owned_remote_moves E c previous candidate h) [
        | inl same ↦ (ground (arith, k), ground (arith, same))
        | inr (done, _) ↦
            let f = replace_owned_remote-fields E c previous candidate h done in
            (
              ground (arith, k),
              ground (
                arith,
                f.5,
                owned_by-lock (replace_owned_remote E c previous candidate h).1.state.remote
                    c.owner,
              ),
            )
      ]

  write_local_sync_file-IsOpen :
      (d : SyncFileData) → Keeps {E = E} IsOpen (write_local_sync_file E c d)
  write_local_sync_file-IsOpen d =
      same-Keeps IsOpen (write_local_sync_file E c d) (write_local_sync_file-state E c d)

  pub read_local_sync_file-state : (h : Machine E) → (read_local_sync_file E c h).1.state ≡ h.state
  unfolding read_local_sync_file read_file
  read_local_sync_file-state h = ground arith

  random_text-IsOpen : Keeps {E = E} IsOpen (random_text E)
  unfolding random_text
  random_text-IsOpen h p = p

  return-IsOpen : Keeps {E = E} IsOpen {A = Unit {0}} (return tt)
  return-IsOpen h p = p

  advance-IsOpen :
      (remote : RemoteSyncFile) (sync_id : String)
      → is_none remote.contents.lock ≡ false
      → Keeps {E = E} IsOpen (advance E c remote sync_id)
  advance-IsOpen remote sync_id l =
      let n : SyncFileData = record remote.contents {
        generation = u64 (remote.contents.generation + 1);
        sync_id = sync_id;
        syncing = true;
      } in
      then-Keeps IsOpen
        (on_error (wrap "increment local generation")
          (write_local_sync_file E c (local_record n true)))
        (on_error (wrap "publish generation") (replace_owned_remote E c remote n))
        (write_local_sync_file-IsOpen (local_record n true))
        (replace_owned_remote-IsOpen remote n l)

  before_from-IsOpen :
      (remote : RemoteSyncFile)
      → is_none remote.contents.lock ≡ false
      → Keeps {E = E} IsOpen (before_from E c remote)
  before_from-IsOpen remote l =
      if-Keeps IsOpen (remote.contents.generation == 0) _ _ (λ h p. p)
        (if-Keeps IsOpen (remote.contents.generation == max_generation) _ _ (λ h p. p)
          (bind-Keeps IsOpen (random_text E) (advance E c remote) random_text-IsOpen
            (λ sync_id. advance-IsOpen remote sync_id l)))

  pub before_remote_change-IsOpen : Keeps {E = E} IsOpen (before_remote_change E c)
  unfolding before_remote_change
  before_remote_change-IsOpen h p = before_from-IsOpen h.state.remote p.1 h p

  pub after_remote_change-IsOpen : Keeps {E = E} IsOpen (after_remote_change E c)
  unfolding after_remote_change
  after_remote_change-IsOpen h p =
      let r = h.state.remote in
      let n : SyncFileData = record r.contents { syncing = false } in
      then-Keeps IsOpen (on_error (wrap "clear remote syncing flag") (replace_owned_remote E c r n))
        (on_error (wrap "clear local syncing flag")
          (write_local_sync_file E c (local_record n false)))
        (replace_owned_remote-IsOpen r n p.1) (write_local_sync_file-IsOpen (local_record n false))
        h p

  sync_to_remote-IsOpen : Keeps {E = E} IsOpen (sync_to_remote E c)
  unfolding sync_to_remote run run_command
  sync_to_remote-IsOpen h p = ground arith

  sync_from_remote-IsOpen : Keeps {E = E} IsOpen (sync_from_remote E c)
  unfolding sync_from_remote run run_command
  sync_from_remote-IsOpen h p = ground arith

  delete_remote_payload-IsOpen : Keeps {E = E} IsOpen (delete_remote_payload E c)
  unfolding delete_remote_payload run run_command
  delete_remote_payload-IsOpen h p = ground arith

  complete_initialization-IsOpen :
      (remote : RemoteSyncFile) (sync_id : String)
      → is_none remote.contents.lock ≡ false
      → Keeps {E = E} IsOpen (complete_initialization E c remote sync_id)
  complete_initialization-IsOpen remote sync_id l =
      let n : SyncFileData = record remote.contents {
        generation = 1;
        sync_id = sync_id;
        syncing = false;
      } in
      then-Keeps IsOpen
        (on_error (wrap "complete remote initialization") (replace_owned_remote E c remote n))
        (on_error (wrap "write initial local state")
          (write_local_sync_file E c (local_record n false)))
        (replace_owned_remote-IsOpen remote n l)
        (write_local_sync_file-IsOpen (local_record n false))

  initialize_from-IsOpen :
      (remote : RemoteSyncFile) → Keeps {E = E} IsOpen (initialize_from E c remote)
  initialize_from-IsOpen remote =
      if-Keeps IsOpen (not (remote.contents.generation == 0)) _ _ return-IsOpen (
        then-Keeps IsOpen
          (on_error (wrap "clear untracked remote payload") (delete_remote_payload E c)) _
          delete_remote_payload-IsOpen
          (then-Keeps IsOpen (on_error (wrap "initial local-to-remote sync") (sync_to_remote E c)) _
            sync_to_remote-IsOpen
            (get-Keeps IsOpen
              (λ s. random_text E >>= λ sync_id. complete_initialization E c s.remote sync_id)
              (λ s q.
                bind-Keeps IsOpen (random_text E) (complete_initialization E c s.remote)
                  random_text-IsOpen
                  (λ sync_id. complete_initialization-IsOpen s.remote sync_id q.1)))))

  initialize_remote-IsOpen : Keeps {E = E} IsOpen (initialize_remote E c)
  unfolding initialize_remote
  initialize_remote-IsOpen h p = initialize_from-IsOpen h.state.remote h p

  mark_active-IsOpen : (local : Option SyncFileData) → Keeps {E = E} IsOpen (mark_active E c local)
  mark_active-IsOpen none = return-IsOpen
  mark_active-IsOpen (some local) = write_local_sync_file-IsOpen (record local { active = true })

  download-IsOpen : (d : SyncFileData) → Keeps {E = E} IsOpen (download E c d)
  download-IsOpen d =
      then-Keeps IsOpen (sync_from_remote E c)
        (write_local_sync_file E c (local_record d d.syncing)) sync_from_remote-IsOpen
        (write_local_sync_file-IsOpen (local_record d d.syncing))

  recover-IsOpen : Keeps {E = E} IsOpen (recover E c)
  recover-IsOpen = then-Keeps IsOpen (before_remote_change E c) _ before_remote_change-IsOpen (
      then-Keeps IsOpen
        (on_error (wrap "recover incomplete local-to-remote sync") (sync_to_remote E c))
        (after_remote_change E c) sync_to_remote-IsOpen after_remote_change-IsOpen)

  upload_if_incomplete-IsOpen :
      (local remote : SyncFileData) → Keeps {E = E} IsOpen (upload_if_incomplete E c local remote)
  upload_if_incomplete-IsOpen local remote =
      let incomplete = local.syncing || remote.syncing in
      if-Keeps IsOpen
        (ltb remote.generation local.generation && not (incomplete_advance local remote)) _ _
        (λ h p. p)
        (if-Keeps IsOpen (incomplete || local.active) _ _
          (if-Keeps IsOpen
            (incomplete && local.generation == remote.generation && str_eq local.sync_id "") _ _
            (λ h p. p) recover-IsOpen)
          return-IsOpen)

  reconcile-IsOpen :
      (local : Option SyncFileData) (remote : RemoteSyncFile)
      → Keeps {E = E} IsOpen (reconcile E c local remote)
  reconcile-IsOpen local remote =
      if-Keeps IsOpen (remote.contents.generation == 0) _ _ initialize_remote-IsOpen (
        if-Keeps IsOpen (needs_sync_from_remote (or_no_data local) (is_some local) remote.contents)
          _ _ (download-IsOpen remote.contents)
          (upload_if_incomplete-IsOpen (or_no_data local) remote.contents))

  pub initialize_generation-IsOpen : Keeps {E = E} IsOpen (initialize_generation E c)
  unfolding initialize_generation
  initialize_generation-IsOpen =
      bind-Keeps IsOpen (read_local_sync_file E c)
        (λ local. mark_active E c local >> (get >>= λ s. reconcile E c local s.remote))
        (same-Keeps IsOpen (read_local_sync_file E c) read_local_sync_file-state)
        (λ local.
          then-Keeps IsOpen (mark_active E c local) (get >>= λ s. reconcile E c local s.remote)
            (mark_active-IsOpen local)
            (get-Keeps IsOpen (λ s. reconcile E c local s.remote)
              (λ s q. reconcile-IsOpen local s.remote)))

  mark_inactive-IsOpen :
      (local : Option SyncFileData) → Keeps {E = E} IsOpen (mark_inactive E c local)
  mark_inactive-IsOpen none h p = p
  mark_inactive-IsOpen (some local) h p =
      write_local_sync_file-IsOpen (record local { active = false }) h p

  pub finish_session-IsOpen : Keeps {E = E} IsOpen (finish_session E c)
  unfolding finish_session
  finish_session-IsOpen =
      bind-Keeps IsOpen (read_local_sync_file E c) (mark_inactive E c)
        (same-Keeps IsOpen (read_local_sync_file E c) read_local_sync_file-state)
        mark_inactive-IsOpen
