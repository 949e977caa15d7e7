-- ===== src/Remote/Conditional.antt =====
-- The conditions of the uploads: an owned state file is replaced only under the ETag that was read.
use rclonewatch.Prelude.{
  ℕ, String, true, false, Option, some, Text, List, [], ◌∷◌, ◌≡◌, ◌⊎◌, inl, inr, arith, ◌∙◌,
  is_empty,
}
use rclonewatch.SyncFile.{SyncFileData, RemoteSyncFile, owned_by}
use rclonewatch.Effect.{
  Condition, if_match, copyto, ran, did, Event, Env, Settings, ok, Machine, run_command, disk,
}
use rclonewatch.Remote.Run.{run}
use rclonewatch.Remote.Read.{read_remote, remote_state_exists}
use rclonewatch.Remote.Replace.{
  write_remote, write_condition, replace_owned_remote, commit, is_pending, adopt_lock,
}
use rclonewatch.Remote.Ownership.{admits, replace_owned_remote-cases}

-- The conditions of the uploads to the state file, the latest first.
abbrev pub uploads : List Event → List (Option Condition)
uploads [] = []
uploads (did _ ∷ es) = uploads es
uploads (ran (copyto _ _ condition) ∷ es) = condition ∷ uploads es
uploads (ran _ ∷ es) = uploads es

owned_by-exists : (r : RemoteSyncFile) (owner : String) → owned_by r owner ≡ true → r.exists ≡ true
unfolding owned_by
owned_by-exists r owner h = ground arith

module _ (E : Env) (c : Settings) where
  pub uploads-read_remote : (h : Machine E) → uploads (read_remote E c h).1.trace ≡ uploads h.trace
  unfolding read_remote remote_state_exists run_command
  uploads-read_remote h = ground arith

  pub uploads-write_remote :
      (d : SyncFileData) (etag : Text) (h : Machine E)
      → (uploads (write_remote E c d etag h).1.trace ≡ uploads h.trace)
        ⊎ (uploads (write_remote E c d etag h).1.trace
            ≡ write_condition c.consistent_writes etag ∷ uploads h.trace)
  unfolding write_remote run run_command disk
  uploads-write_remote d etag h = ground arith

  uploads-commit :
      (latest : RemoteSyncFile) (candidate : SyncFileData) (expires : ℕ) (h : Machine E)
      → (uploads (commit E c latest candidate expires h).1.trace ≡ uploads h.trace)
        ⊎ (uploads (commit E c latest candidate expires h).1.trace
            ≡ write_condition c.consistent_writes latest.etag ∷ uploads h.trace)
  unfolding commit
  uploads-commit latest candidate expires h =
      let g : Machine E = record h {
        state = record h.state { pending = some candidate; pending_expiry = expires };
      } in
      ground (
        arith,
        uploads-write_remote candidate latest.etag g,
        uploads-read_remote (write_remote E c candidate latest.etag g).1,
      )

  -- With conditional writes on, a file is read only with an ETag.
  pub read_remote-etag :
      (h : Machine E) {r : RemoteSyncFile}
      → c.consistent_writes ≡ true
      → (read_remote E c h).0 ≡ ok r
      → r.exists ≡ true
      → is_empty r.etag ≡ false
  unfolding read_remote remote_state_exists run_command
  read_remote-etag h w e x = ground arith

  -- With conditional writes on, the operation uploads nothing, or uploads once, over a file that
  -- it has read and that was its own, under the condition that the file still has the ETag it was
  -- read with.
  pub uploads-replace_owned_remote :
      (previous : RemoteSyncFile) (candidate : SyncFileData) (h : Machine E)
      → c.consistent_writes ≡ true
      → (uploads (replace_owned_remote E c previous candidate h).1.trace ≡ uploads h.trace)
        ⊎ ((latest : RemoteSyncFile) × ((read_remote E c h).0 ≡ ok latest)
            × (admits E c previous latest (read_remote E c h).1.state ≡ true)
            × (uploads (replace_owned_remote E c previous candidate h).1.trace
                ≡ some (if_match latest.etag) ∷ uploads h.trace))
  uploads-replace_owned_remote previous candidate h w =
      let g : Machine E = (read_remote E c h).1 in
      elim (replace_owned_remote-cases E c previous candidate h) [
        | inl (f, q) ↦ inl (rw q (uploads-read_remote h))
        | inr (inl q) ↦ inl (rw q (uploads-read_remote h))
        | inr (inr (latest, r, a, q)) ↦
            let pending = is_pending E c g.state latest in
            let u =
              uploads-commit latest (adopt_lock E c pending latest previous candidate) _
                (record g { world = (E.now g.world).1 }) in
            elim u [
              | inl v ↦ inl (rw q (v ∙ uploads-read_remote h))
              | inr v ↦ inr (
                latest,
                r,
                a,
                rw (q, v, uploads-read_remote h)
                    (ground (
                      arith,
                      read_remote-etag h w r (owned_by-exists latest c.owner (ground arith)),
                    )),
              )
            ]
      ]
