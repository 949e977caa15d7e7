-- ===== src/Sync/Order.antt =====
-- The payload is not touched before the generation has been advanced.
use rclonewatch.Prelude.{
  ℕ, suc, ◌+◌, true, some, Text, List, [], ◌∷◌, ◌≡◌, ◌⊎◌, inl, inr, refl, arith,
}
use rclonewatch.SyncFile.{SyncFileData, RemoteSyncFile}
use rclonewatch.Effect.{
  Event, ran, payload, Env, Settings, Result, ok, err, Machine, run_command, disk, random_text,
  Result-cases,
}
use rclonewatch.Payload.Scopes.{Stat}
use rclonewatch.Remote.Run.{run}
use rclonewatch.Remote.Read.{read_remote, remote_state_exists}
use rclonewatch.Remote.Replace.{write_remote, commit, replace_owned_remote, is_pending, adopt_lock}
use rclonewatch.Remote.Ownership.{replace_owned_remote-cases}
use rclonewatch.Session.Local.{write_local_sync_file, u64}
use rclonewatch.Session.Generation.{before_remote_change, local_record}
use rclonewatch.Sync.{sync_reconciled, sync}

-- How many commands have touched the payload.
abbrev pub payload_runs : List Event → ℕ
payload_runs [] = 0
payload_runs (ran (payload _) ∷ t) = suc (payload_runs t)
payload_runs (_ ∷ t) = payload_runs t

module _ (E : Env) (c : Settings) where
  payload_runs-read_remote :
      (h : Machine E) → payload_runs (read_remote E c h).1.trace ≡ payload_runs h.trace
  unfolding read_remote remote_state_exists run_command
  payload_runs-read_remote h = ground arith

  payload_runs-write_remote :
      (d : SyncFileData) (etag : Text) (h : Machine E)
      → payload_runs (write_remote E c d etag h).1.trace ≡ payload_runs h.trace
  unfolding write_remote run run_command disk
  payload_runs-write_remote d etag h = ground arith

  payload_runs-write_local_sync_file :
      (d : SyncFileData) (h : Machine E)
      → payload_runs (write_local_sync_file E c d h).1.trace ≡ payload_runs h.trace
  unfolding write_local_sync_file disk
  payload_runs-write_local_sync_file d h = ground arith

  payload_runs-commit :
      (latest : RemoteSyncFile) (candidate : SyncFileData) (expires : ℕ) (h : Machine E)
      → payload_runs (commit E c latest candidate expires h).1.trace ≡ payload_runs h.trace
  unfolding commit
  payload_runs-commit latest candidate expires h =
      let g : Machine E = record h {
        state = record h.state { pending = some candidate; pending_expiry = expires };
      } in
      ground (
        arith,
        payload_runs-write_remote candidate latest.etag g,
        payload_runs-read_remote (write_remote E c candidate latest.etag g).1,
      )

  payload_runs-replace_owned_remote :
      (previous : RemoteSyncFile) (candidate : SyncFileData) (h : Machine E)
      → payload_runs (replace_owned_remote E c previous candidate h).1.trace ≡ payload_runs h.trace
  payload_runs-replace_owned_remote previous candidate h =
      let g : Machine E = (read_remote E c h).1 in
      elim (replace_owned_remote-cases E c previous candidate h) [
        | inl (f, q) ↦ rw q (payload_runs-read_remote h)
        | inr (inl q) ↦ rw q (payload_runs-read_remote h)
        | inr (inr (latest, r, a, q)) ↦
            let pending = is_pending E c g.state latest in
            rw
              (
                q,
                payload_runs-commit latest (adopt_lock E c pending latest previous candidate) _
                    (record g { world = (E.now g.world).1 }),
              )
              (payload_runs-read_remote h)
      ]

  payload_runs-before_remote_change :
      (h : Machine E) → payload_runs (before_remote_change E c h).1.trace ≡ payload_runs h.trace
  unfolding before_remote_change random_text
  payload_runs-before_remote_change h =
      let r = h.state.remote in
      let g : Machine E = record h { world = (E.random_text h.world).1 } in
      let n : SyncFileData = record r.contents {
        generation = u64 (r.contents.generation + 1);
        sync_id = (E.random_text h.world).0;
        syncing = true;
      } in
      ground (
        arith,
        payload_runs-write_local_sync_file (local_record n true) g,
        payload_runs-replace_owned_remote r n (write_local_sync_file E c (local_record n true) g).1,
      )

  sync_reconciled_order :
      (lstat : Text → Stat) (scopes : Result (List Text)) (h : Machine E)
      → (payload_runs (sync_reconciled E c true lstat scopes h).1.trace ≡ payload_runs h.trace)
        ⊎ ((before_remote_change E c h).0 ≡ ok tt)
  sync_reconciled_order lstat (err e) h = inl refl
  sync_reconciled_order lstat (ok []) h = inl refl
  sync_reconciled_order lstat (ok (s ∷ ss)) h = elim (Result-cases (before_remote_change E c h).0) [
    | inl b ↦ inr b.1
    | inr b ↦ inl (ground (arith, b.1, payload_runs-before_remote_change h))
  ]

  -- A sync with a state file touches the payload only if `BeforeRemoteChange` has succeeded from
  -- where the sync began: no scope, an invalid path, a failed write of the local record or a lost
  -- lock leave the payload alone.
  pub sync_order :
      (lstat lstat' : Text → Stat) (paths : List Text) (h : Machine E)
      → (payload_runs (sync E c true lstat lstat' paths h).1.trace ≡ payload_runs h.trace)
        ⊎ ((before_remote_change E c h).0 ≡ ok tt)
  unfolding sync
  sync_order lstat lstat' [] h = inl refl
  sync_order lstat lstat' (q ∷ qs) h = sync_reconciled_order lstat' _ h
