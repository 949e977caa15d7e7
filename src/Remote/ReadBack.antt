-- ===== src/Remote/ReadBack.antt =====
-- An upload of the state file that has been read back: what `replaceOwnedRemote` calls a verified
-- write.
use rclonewatch.Prelude.{◌≡◌, ℕ, Bool, false, some, Text, List, [], ◌∷◌, inl, inr, arith}
use rclonewatch.SyncFile.{SyncFileData, RemoteSyncFile}
use rclonewatch.Effect.{
  Command, copyto, create_temp, write, close_file, success, ran, did, Event, Env, Settings, ok,
  Machine, run_command, disk, Result-cases,
}
use rclonewatch.Remote.Run.{run}
use rclonewatch.Remote.Read.{read_remote, remote_state_exists}
use rclonewatch.Remote.Replace.{
  write_remote, write_condition, commit, encode_sync_file, check_verified,
}

-- The contents of the uploads to the state file, the latest first.
abbrev pub published : List Event → List Text
published [] = []
published (did _ ∷ es) = published es
published (ran (copyto text _ _) ∷ es) = text ∷ published es
published (ran _ ∷ es) = published es

module _ (E : Env) (c : Settings) where
  open E use {World}

  pub published-read_remote :
      (h : Machine E) → published (read_remote E c h).1.trace ≡ published h.trace
  unfolding read_remote remote_state_exists run_command
  published-read_remote h = ground arith

  -- The command that uploads a text to the state file.
  abbrev pub upload_command : Text → Text → Command
  upload_command text etag = copyto text c.paths.remote (write_condition c.consistent_writes etag)

  -- Between two machines one text has been uploaded to the state file, the encoding of the data; the
  -- upload has succeeded; and the remote file that the program goes by is what a read of the remote
  -- has returned in the world that the upload left.
  pub record ReadBack (d : SyncFileData) (h i : Machine E) : Type 0 where
    pub text : Text
    pub etag : Text
    pub encoded : encode_sync_file E c (record d { active = false }) ≡ ok text
    pub uploaded : published i.trace ≡ text ∷ published h.trace
    pub before : World
    pub releasing : Bool
    pub succeeded : (E.run releasing (upload_command text etag) before).0.status ≡ success
    pub behind : Machine E
    pub left : behind.world ≡ (E.run releasing (upload_command text etag) before).1
    pub read : (read_remote E c behind).0 ≡ ok i.state.remote

  -- An upload that succeeds.
  record IsUploaded (d : SyncFileData) (etag : Text) (h i : Machine E) : Type 0 where
    pub text : Text
    pub encoded : encode_sync_file E c (record d { active = false }) ≡ ok text
    pub uploaded : published i.trace ≡ text ∷ published h.trace
    pub before : World
    pub releasing : Bool
    pub succeeded : (E.run releasing (upload_command text etag) before).0.status ≡ success
    pub left : i.world ≡ (E.run releasing (upload_command text etag) before).1

  write_remote_done :
      (d : SyncFileData) (etag : Text) (h : Machine E)
      → (write_remote E c d etag h).0 ≡ ok tt
      → IsUploaded d etag h (write_remote E c d etag h).1
  unfolding write_remote run run_command disk
  write_remote_done d etag h p =
      let e : SyncFileData = record d { active = false } in
      elim (Result-cases (encode_sync_file E c e)) [
        | inr (x, q) ↦ absurd (ground (arith, q))
        | inl (t, q) ↦
            let v : World = (E.disk (create_temp []) h.world).1 in
            let w : World = (E.disk (write t) v).1 in
            record {
              text = t;
              encoded = q;
              uploaded = ground (arith, q);
              before = (E.disk close_file w).1;
              releasing = h.state.releasing;
              succeeded = ground (arith, q);
              left = ground (arith, q);
            }
      ]

  check_verified-read :
      (verified latest : RemoteSyncFile) (candidate : SyncFileData) (expires : ℕ) (h : Machine E)
      → (check_verified E c verified latest candidate expires h).0 ≡ ok tt
      → ((check_verified E c verified latest candidate expires h).1.state.remote ≡ verified)
        × ((check_verified E c verified latest candidate expires h).1.trace ≡ h.trace)
  check_verified-read verified latest candidate expires h p = ground arith

  pub commit-ReadBack :
      (latest : RemoteSyncFile) (candidate : SyncFileData) (expires : ℕ) (h : Machine E)
      → (commit E c latest candidate expires h).0 ≡ ok tt
      → ReadBack candidate h (commit E c latest candidate expires h).1
  unfolding commit
  commit-ReadBack latest candidate expires h p =
      let g : Machine E = record h {
        state = record h.state { pending = some candidate; pending_expiry = expires };
      } in
      let w = write_remote E c candidate latest.etag g in
      elim (Result-cases w.0) [
        | inr (x, q) ↦ absurd (ground (arith, q))
        | inl (_, q) ↦
            let u = write_remote_done candidate latest.etag g q in
            elim (Result-cases (read_remote E c w.1).0) [
              | inr (x, r) ↦ absurd (ground (arith, q, r))
              | inl (v, r) ↦
                  let k : commit E c latest candidate expires h
                      ≡ check_verified E c v latest candidate expires (read_remote E c w.1).1 =
                    ground (arith, q, r) in
                  let o =
                    check_verified-read v latest candidate expires (read_remote E c w.1).1
                      (rw k at p) in
                  record {
                    text = u.text;
                    etag = latest.etag;
                    encoded = u.encoded;
                    uploaded = rw (k, o.1, published-read_remote w.1) (u.uploaded);
                    before = u.before;
                    releasing = u.releasing;
                    succeeded = u.succeeded;
                    behind = w.1;
                    left = u.left;
                    read = rw (k, o.0) r;
                  }
            ]
      ]
