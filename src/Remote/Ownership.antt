-- ===== src/Remote/Ownership.antt =====
-- What `replaceOwnedRemote` does to this process's view of the lock.
use rclonewatch.Prelude.{
  String, ℕ, Bool, true, false, ◌&&◌, ◌||◌, none, some, ◌≡◌, ◌⊎◌, Bool-cases, inl, inr, arith,
  is_none, if◌then◌else◌, ap, ◌∙◌,
}
use rclonewatch.SyncFile.{SyncFileData, RemoteSyncFile, owned_by, same_sync_file_data}
use rclonewatch.Effect.{
  Error, lock_ownership_lost, Env, Settings, SyncState, Result, ok, err, Machine, now, Result-cases,
}
use rclonewatch.Remote.Read.{read_remote}
use rclonewatch.Remote.Replace.{
  write_remote, replace_owned_remote, is_pending, commit, adopt_lock, new_expiry,
}
use rclonewatch.Remote.Frame.{read_remote-state, write_remote-state}

pub owned_by-lock :
    (r : RemoteSyncFile) (owner : String)
    → owned_by r owner ≡ true
    → is_none r.contents.lock ≡ false
unfolding owned_by
owned_by-lock r owner h = ground arith

module _ (E : Env) (c : Settings) where
  -- The state after ownership is found to be lost.
  abbrev pub forget_pending : Machine E → Machine E
  forget_pending h = record h { state = record h.state { pending = none; pending_expiry = 0 } }

  -- If the file read is not this process's, or is neither what it saw last nor what it may have
  -- written since, nothing is written: the operation ends right behind the read, with the loss of
  -- the lock as its error, and only the record of an unverified write is dropped.
  pub replace_owned_remote_refused :
      (previous : RemoteSyncFile) (candidate : SyncFileData) (latest : RemoteSyncFile)
      (h h' : Machine E)
      → read_remote E c h ≡ (ok latest, h')
      → (owned_by latest c.owner ≡ false)
        ⊎ ((same_sync_file_data latest.contents previous.contents ≡ false)
            × (is_pending E c h'.state latest ≡ false))
      → replace_owned_remote E c previous candidate h ≡ (err lock_ownership_lost, forget_pending h')
  unfolding replace_owned_remote
  replace_owned_remote_refused previous candidate latest h h' e refused = ground arith

  -- What a verified or failed write leaves, from the state before it.
  commit_failed :
      (latest : RemoteSyncFile) (candidate : SyncFileData) (expires : ℕ) (h : Machine E) {e : Error}
      → (commit E c latest candidate expires h).0 ≡ err e
      → ((commit E c latest candidate expires h).1.state.remote ≡ h.state.remote)
        × ((commit E c latest candidate expires h).1.state.lock_expiry ≡ h.state.lock_expiry)
  unfolding commit
  commit_failed latest candidate expires h p =
      let g : Machine E = record h {
        state = record h.state { pending = some candidate; pending_expiry = expires };
      } in
      ground (
        arith,
        write_remote-state E c candidate latest.etag g,
        read_remote-state E c (write_remote E c candidate latest.etag g).1,
      )

  pub commit_done :
      (latest : RemoteSyncFile) (candidate : SyncFileData) (expires : ℕ) (h : Machine E)
      → (commit E c latest candidate expires h).0 ≡ ok tt
      → let s = (commit E c latest candidate expires h).1.state in
        (s.pending ≡ none)
        × (s.lock_expiry ≡ expires)
        × (same_sync_file_data s.remote.contents candidate ≡ true)
        × ((is_none candidate.lock ≡ true) ⊎ (owned_by s.remote c.owner ≡ true))
  unfolding commit
  commit_done latest candidate expires h p = ground arith

  pub adopt_lock_fields :
      (pending : Bool) (latest previous : RemoteSyncFile) (candidate : SyncFileData)
      → let next = adopt_lock E c pending latest previous candidate in
        (next.repository_id ≡ candidate.repository_id)
        × (next.generation ≡ candidate.generation)
        × (next.sync_id ≡ candidate.sync_id)
        × (next.syncing ≡ candidate.syncing)
        × ((next.lock ≡ candidate.lock) ⊎ (next.lock ≡ latest.contents.lock))
  unfolding adopt_lock
  adopt_lock_fields pending latest previous candidate = ground arith

  -- Whether the file read may be replaced.
  abbrev pub admits : RemoteSyncFile → RemoteSyncFile → SyncState → Bool
  admits previous latest s =
      owned_by latest c.owner
      && (same_sync_file_data latest.contents previous.contents || is_pending E c s latest)

  -- The write that follows a read which admits it.
  abbrev pub admitted_commit :
      RemoteSyncFile → SyncFileData → RemoteSyncFile → Machine E → Result (Unit {0}) × Machine E
  admitted_commit previous candidate latest h =
      let pending = is_pending E c h.state latest in
      let next = adopt_lock E c pending latest previous candidate in
      commit E c latest next
        (new_expiry E c next.lock latest.contents.lock
          (if pending then h.state.pending_expiry else h.state.lock_expiry) (E.now h.world).0)
        (record h { world = (E.now h.world).1 })

  pub replace_owned_remote_admitted :
      (previous : RemoteSyncFile) (candidate : SyncFileData) (latest : RemoteSyncFile)
      (h h' : Machine E)
      → read_remote E c h ≡ (ok latest, h')
      → admits previous latest h'.state ≡ true
      → replace_owned_remote E c previous candidate h ≡ admitted_commit previous candidate latest h'
  unfolding replace_owned_remote now
  replace_owned_remote_admitted previous candidate latest h h' e a = ground arith

  -- The three ways of the operation: the read fails, it refuses, or the write is made.
  pub replace_owned_remote-cases :
      (previous : RemoteSyncFile) (candidate : SyncFileData) (h : Machine E)
      → let g = (read_remote E c h).1 in
        ((e : Error) × (replace_owned_remote E c previous candidate h ≡ (err e, g)))
        ⊎ (replace_owned_remote E c previous candidate h
            ≡ (err lock_ownership_lost, forget_pending g))
        ⊎ ((latest : RemoteSyncFile) × ((read_remote E c h).0 ≡ ok latest)
            × (admits previous latest g.state ≡ true)
            × (replace_owned_remote E c previous candidate h
                ≡ admitted_commit previous candidate latest g))
  unfolding replace_owned_remote
  replace_owned_remote-cases previous candidate h = elim (Result-cases (read_remote E c h).0) [
    | inr f ↦ inl (f.0, ground (arith, f.1))
    | inl r ↦ elim (Bool-cases (admits previous r.0 (read_remote E c h).1.state)) [
      | inl a ↦ inr (
          inr (
            r.0,
            r.1,
            a,
            replace_owned_remote_admitted previous candidate r.0 h (read_remote E c h).1
                (ground (arith, r.1)) a,
          ))
      | inr a ↦ inr (
          inl (
            replace_owned_remote_refused previous candidate r.0 h (read_remote E c h).1
              (ground (arith, r.1)) (ground arith)))
    ]
  ]

  admitted_commit_failed :
      (previous : RemoteSyncFile) (candidate : SyncFileData) (latest : RemoteSyncFile)
      (h : Machine E) {e : Error}
      → (admitted_commit previous candidate latest h).0 ≡ err e
      → let s = (admitted_commit previous candidate latest h).1.state in
        (s.remote ≡ h.state.remote) × (s.lock_expiry ≡ h.state.lock_expiry)
  admitted_commit_failed previous candidate latest h p = commit_failed latest _ _ _ p

  -- An error of any kind leaves the remote file that this process counts as its own, and the time
  -- until which it counts on its lock, as they were.
  pub replace_owned_remote_failed :
      (previous : RemoteSyncFile) (candidate : SyncFileData) (h : Machine E) {e : Error}
      → (replace_owned_remote E c previous candidate h).0 ≡ err e
      → ((replace_owned_remote E c previous candidate h).1.state.remote ≡ h.state.remote)
        × ((replace_owned_remote E c previous candidate h).1.state.lock_expiry
            ≡ h.state.lock_expiry)
  replace_owned_remote_failed previous candidate h p =
      let g : Machine E = (read_remote E c h).1 in
      let k : g.state ≡ h.state = read_remote-state E c h in
      elim (replace_owned_remote-cases previous candidate h) [
        | inl (f, q) ↦ rw q (ground arith)
        | inr (inl q) ↦ rw q (ground arith)
        | inr (inr (latest, r, a, q)) ↦
            let f = admitted_commit_failed previous candidate latest g (rw q at p) in
            rw q (f.0 ∙ ap (λ s. s.remote) k, f.1 ∙ ap (λ s. s.lock_expiry) k)
      ]
