-- ===== src/Remote/Verified.antt =====
-- What a successful `replaceOwnedRemote` has uploaded and read back.
use rclonewatch.Prelude.{Bool, true, false, none, ◌≡◌, ◌⊎◌, inl, inr, arith, is_none, ap}
use rclonewatch.SyncFile.{SyncFileData, RemoteSyncFile, owned_by, same_lock, same_sync_file_data}
use rclonewatch.SyncFile.Same.{same_sync_file_data_iff}
use rclonewatch.Effect.{Env, Settings, ok, Machine, Result-cases}
use rclonewatch.Remote.Read.{read_remote}
use rclonewatch.Remote.Replace.{replace_owned_remote, is_pending, adopt_lock}
use rclonewatch.Remote.ReadBack.{published, ReadBack, commit-ReadBack, published-read_remote}
use rclonewatch.Remote.Ownership.{
  owned_by-lock, commit_done, adopt_lock_fields, admitted_commit, replace_owned_remote-cases,
  replace_owned_remote_failed,
}

module _ (E : Env) (c : Settings) where
  -- The data that has been uploaded for a candidate: the candidate, or, where the candidate keeps the
  -- lock of the previous file, the candidate under the lock of the file that was read.
  pub record IsWritten (previous : RemoteSyncFile) (candidate : SyncFileData) (h i : Machine E)
      : Type 0 where
    pub data_written : SyncFileData
    pub repository : data_written.repository_id ≡ candidate.repository_id
    pub generation : data_written.generation ≡ candidate.generation
    pub sync_id : data_written.sync_id ≡ candidate.sync_id
    pub syncing : data_written.syncing ≡ candidate.syncing
    pub lock :
        (data_written.lock ≡ candidate.lock)
        ⊎ (same_lock candidate.lock previous.contents.lock ≡ true)
    pub read_back : ReadBack E c data_written h i
    pub same : same_sync_file_data i.state.remote.contents data_written ≡ true

  adopt_lock_kept :
      (pending : Bool) (latest previous : RemoteSyncFile) (candidate : SyncFileData)
      → ((adopt_lock E c pending latest previous candidate).lock ≡ candidate.lock)
        ⊎ (same_lock candidate.lock previous.contents.lock ≡ true)
  unfolding adopt_lock
  adopt_lock_kept pending latest previous candidate = ground arith

  pub ReadBack-from :
      (d : SyncFileData) (h g i : Machine E)
      → published g.trace ≡ published h.trace
      → ReadBack E c d g i
      → ReadBack E c d h i
  ReadBack-from d h g i e r = record {
    text = r.text;
    etag = r.etag;
    encoded = r.encoded;
    uploaded = ground arith;
    before = r.before;
    releasing = r.releasing;
    succeeded = r.succeeded;
    behind = r.behind;
    left = r.left;
    read = r.read;
  }

  pub replace_owned_remote-IsWritten :
      (previous : RemoteSyncFile) (candidate : SyncFileData) (h : Machine E)
      → (replace_owned_remote E c previous candidate h).0 ≡ ok tt
      → IsWritten previous candidate h (replace_owned_remote E c previous candidate h).1
  replace_owned_remote-IsWritten previous candidate h p =
      let g : Machine E = (read_remote E c h).1 in
      elim (replace_owned_remote-cases E c previous candidate h) [
        | inl (f, q) ↦ absurd (cc (ap (λ t. t.0) q))
        | inr (inl q) ↦ absurd (cc (ap (λ t. t.0) q))
        | inr (inr (latest, r, a, q)) ↦
            let pending = is_pending E c g.state latest in
            let next = adopt_lock E c pending latest previous candidate in
            let k : Machine E = record g { world = (E.now g.world).1 } in
            let f = adopt_lock_fields E c pending latest previous candidate in
            let b = commit-ReadBack E c latest next _ k (rw q at p) in
            let d = commit_done E c latest next _ k (rw q at p) in
            record {
              data_written = next;
              repository = f.0;
              generation = f.1;
              sync_id = f.2;
              syncing = f.3;
              lock = adopt_lock_kept pending latest previous candidate;
              read_back = rw q (ReadBack-from next h k _ (published-read_remote E c h) b);
              same = rw q (d.2);
            }
      ]

  pub replace_owned_remote-fields :
      (previous : RemoteSyncFile) (candidate : SyncFileData) (h : Machine E)
      → (replace_owned_remote E c previous candidate h).0 ≡ ok tt
      → let s = (replace_owned_remote E c previous candidate h).1.state in
        (s.pending ≡ none)
        × (s.remote.contents.repository_id ≡ candidate.repository_id)
        × (s.remote.contents.generation ≡ candidate.generation)
        × (s.remote.contents.sync_id ≡ candidate.sync_id)
        × (s.remote.contents.syncing ≡ candidate.syncing)
        × ((candidate.lock ≡ none) ⊎ (owned_by s.remote c.owner ≡ true))
  replace_owned_remote-fields previous candidate h p =
      let g : Machine E = (read_remote E c h).1 in
      elim (replace_owned_remote-cases E c previous candidate h) [
        | inl (f, q) ↦ absurd (cc (ap (λ t. t.0) q))
        | inr (inl q) ↦ absurd (cc (ap (λ t. t.0) q))
        | inr (inr (latest, r, a, q)) ↦
            let pending = is_pending E c g.state latest in
            let next = adopt_lock E c pending latest previous candidate in
            let d = commit_done E c latest next _ _ (rw q at p) in
            let o : is_none latest.contents.lock ≡ false =
              owned_by-lock latest c.owner (ground arith) in
            rw q (
              ground (
                arith,
                d,
                o,
                adopt_lock_fields E c pending latest previous candidate,
                same_sync_file_data_iff
                    (admitted_commit E c previous candidate latest g).1.state.remote.contents next,
              ))
      ]

  -- On success the remote file that this process counts as its own is the candidate in every
  -- published field but the lock, and is locked by this process unless the candidate gives the lock
  -- up; no unverified write is left on record; the operation has uploaded one text, the encoding of
  -- those fields, and the file is what a read of the remote has returned in the world that the
  -- upload left.
  pub replace_owned_remote_done :
      (previous : RemoteSyncFile) (candidate : SyncFileData) (h : Machine E)
      → (replace_owned_remote E c previous candidate h).0 ≡ ok tt
      → let i = (replace_owned_remote E c previous candidate h).1 in
        (i.state.pending ≡ none)
        × (i.state.remote.contents.repository_id ≡ candidate.repository_id)
        × (i.state.remote.contents.generation ≡ candidate.generation)
        × (i.state.remote.contents.sync_id ≡ candidate.sync_id)
        × (i.state.remote.contents.syncing ≡ candidate.syncing)
        × ((candidate.lock ≡ none) ⊎ (owned_by i.state.remote c.owner ≡ true))
        × IsWritten previous candidate h i
  replace_owned_remote_done previous candidate h p =
      let f = replace_owned_remote-fields previous candidate h p in
      (f.0, f.1, f.2, f.3, f.4, f.5, replace_owned_remote-IsWritten previous candidate h p)

  -- Only a verified write moves the remote file that this process counts as its own, or the time until
  -- which it counts on its lock: after the operation either both are as they were, or it has
  -- succeeded, and has uploaded the candidate and read it back.
  pub replace_owned_remote_moves :
      (previous : RemoteSyncFile) (candidate : SyncFileData) (h : Machine E)
      → let r = replace_owned_remote E c previous candidate h in
        ((r.1.state.remote ≡ h.state.remote) × (r.1.state.lock_expiry ≡ h.state.lock_expiry))
        ⊎ ((r.0 ≡ ok tt) × IsWritten previous candidate h r.1)
  replace_owned_remote_moves previous candidate h =
      elim (Result-cases (replace_owned_remote E c previous candidate h).0) [
        | inl (_, q) ↦ inr (q, replace_owned_remote-IsWritten previous candidate h q)
        | inr (e, q) ↦ inl (replace_owned_remote_failed E c previous candidate h q)
      ]
