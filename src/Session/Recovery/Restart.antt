-- ===== src/Session/Recovery/Restart.antt =====
-- What the start behind a crash does with the two state files: `reconcile` of Session/Generation, at the
-- files that a reachable state leaves.
use rclonewatch.Prelude.{
  String, true, false, some, Text, ◌≡◌, ◌≢◌, ◌⊎◌, inl, inr, refl, arith, Bool-cases, str_eq,
  str_eq_iff,
}
use rclonewatch.SyncFile.{SyncFileData, RemoteSyncFile, max_generation, needs_sync_from_remote}
use rclonewatch.Effect.{Env, Settings, Machine, Result}
use rclonewatch.Session.Generation.{local_record, reconcile, recover, download}
use rclonewatch.Session.Recovery.{
  Durable, stopped, change, advance_local, publish_unverified, crash, Reach, first_state, next_of,
}
use rclonewatch.Session.Recovery.Invariant.{
  IsRecoverable, Reach-IsRecoverable, first_state-IsRecoverable,
}

-- An upload that has landed and was not verified, and the local record of its retry: both files name
-- one generation whose upload has not ended, under two sync IDs.
abbrev pub IsCutRetry : Durable → Type 0
IsCutRetry d =
    (d.local.generation ≡ d.remote.generation)
    × (d.local.syncing ≡ true)
    × (d.remote.syncing ≡ true)
    × (str_eq d.local.sync_id d.remote.sync_id ≡ false)

-- The files that are left where an upload of the generation behind r has landed unverified under the
-- first sync ID, and its retry under the second was cut off behind the write of the local file.
abbrev pub cut_retry : SyncFileData → String → String → Durable
cut_retry r landed_id retry_id = record {
  phase = stopped;
  local = local_record (next_of r retry_id) true;
  remote = next_of r landed_id;
  view = r;
  pending = some (next_of r landed_id);
  dirty = true;
}

cut_retry-Reach :
    (r : SyncFileData) (landed_id retry_id : String)
    → r.generation ≡ 1
    → str_eq landed_id "" ≡ false
    → str_eq retry_id "" ≡ false
    → Reach (first_state r) (cut_retry r landed_id retry_id)
cut_retry-Reach r landed_id retry_id g m n =
    let z : r.generation ≢ 0 = omega (arith, g) in
    let b : r.generation ≢ max_generation = omega (arith, g) in
    Reach.next
      (Reach.next
        (Reach.next
          (Reach.next (Reach.next Reach.here (change (λ e. cc)))
            (advance_local landed_id refl m z b))
          (publish_unverified landed_id refl refl b (inl refl)))
        (advance_local retry_id refl n z b))
      crash

module _ (E : Env) (c : Settings) (etag : Text) (h : Machine E) where
  -- The remote file of a state, as the start has read it.
  abbrev pub remote_of : Durable → RemoteSyncFile
  remote_of d = record { contents = d.remote; etag = etag; exists = true }

  -- What the start does with the files of a state.
  abbrev pub reconciled : Durable → Result (Unit {0}) × Machine E
  reconciled d = reconcile E c (some d.local) (remote_of d) h

  reconciled_cut :
      (d : Durable) → IsRecoverable d → IsCutRetry d → reconciled d ≡ download E c d.remote h
  unfolding needs_sync_from_remote
  reconciled_cut d v k = ground arith

  reconciled_dirty :
      (d : Durable)
      → IsRecoverable d
      → d.dirty ≡ true
      → (reconciled d ≡ recover E c h) ⊎ (IsCutRetry d × (reconciled d ≡ download E c d.remote h))
  unfolding needs_sync_from_remote
  reconciled_dirty d v k = elim (Bool-cases (str_eq d.local.sync_id d.remote.sync_id)) [
    | inl same ↦ inl (ground (arith, same, str_eq_iff d.local.sync_id d.remote.sync_id))
    | inr differ ↦ elim (v.linked) [
      | inl a ↦ absurd (ground (arith, a, differ, str_eq_iff d.local.sync_id d.remote.sync_id))
      | inr (inl a) ↦ inl (ground (arith, a))
      | inr (inr a) ↦
          let cut : IsCutRetry d = (a.0, a.1, a.2, differ) in inr (cut, reconciled_cut d v cut)
    ]
  ]

  -- From a current copy of a remote of generation 1 that has a sync ID, with one writer at a time,
  -- however a session is cut off and restarted, and whichever writes of the remote file land or are
  -- verified: while a change that the loop has received may be missing from the remote payload, the
  -- next start uploads, or else the two files are those of an upload that has landed unverified and
  -- a retry of it that was cut off, and then the start downloads.
  pub dirty_uploads :
      (r : SyncFileData) {d : Durable}
      → r.generation ≡ 1
      → str_eq r.sync_id "" ≡ false
      → Reach (first_state r) d
      → d.dirty ≡ true
      → (reconciled d ≡ recover E c h) ⊎ (IsCutRetry d × (reconciled d ≡ download E c d.remote h))
  dirty_uploads r {d} g n p k =
      reconciled_dirty d (Reach-IsRecoverable (first_state-IsRecoverable r g n) p) k

  -- The exception is reached: a change is received, its upload lands under one sync ID and is not
  -- verified, and the retry under another is cut off behind the write of the local file. The change is
  -- then missing from the remote, and the next start downloads over it.
  pub cut_retry_downloads :
      (r : SyncFileData) (landed_id retry_id : String)
      → r.generation ≡ 1
      → str_eq r.sync_id "" ≡ false
      → str_eq landed_id "" ≡ false
      → str_eq retry_id "" ≡ false
      → str_eq retry_id landed_id ≡ false
      → let d = cut_retry r landed_id retry_id in
        Reach (first_state r) d × (d.dirty ≡ true) × (reconciled d ≡ download E c d.remote h)
  cut_retry_downloads r landed_id retry_id g n l m k =
      let p = cut_retry-Reach r landed_id retry_id g l m in
      let d = cut_retry r landed_id retry_id in
      (
        p,
        refl,
        reconciled_cut d (Reach-IsRecoverable (first_state-IsRecoverable r g n) p)
            (refl, refl, refl, k),
      )
