-- ===== src/Session/Release.antt =====
-- The release of the lock happens once.
use rclonewatch.Prelude.{
  ℕ, true, false, Option, none, some, ◌≡◌, ◌⊎◌, inl, inr, refl, arith, is_none, Bool-cases,
}
use rclonewatch.SyncFile.{SyncFileLock, SyncFileData, RemoteSyncFile, same_lock}
use rclonewatch.Effect.{Error, Env, Settings, Machine, Result, ok, err, Result-cases}
use rclonewatch.Session.Close.{close, close_once, released, record_release}
use rclonewatch.Remote.Read.{read_remote}
use rclonewatch.Remote.Replace.{write_remote, commit, replace_owned_remote, is_pending, adopt_lock}
use rclonewatch.Remote.Frame.{read_remote-state, write_remote-state}
use rclonewatch.Remote.ReadBack.{ReadBack}
use rclonewatch.Remote.Ownership.{replace_owned_remote-cases}
use rclonewatch.Remote.Verified.{replace_owned_remote-IsWritten}

module _ (E : Env) (c : Settings) where
  commit-closed :
      (latest : RemoteSyncFile) (candidate : SyncFileData) (expires : ℕ) (h : Machine E)
      → (commit E c latest candidate expires h).1.state.closed ≡ h.state.closed
  unfolding commit
  commit-closed latest candidate expires h =
      let g : Machine E = record h {
        state = record h.state { pending = some candidate; pending_expiry = expires };
      } in
      ground (
        arith,
        write_remote-state E c candidate latest.etag g,
        read_remote-state E c (write_remote E c candidate latest.etag g).1,
      )

  pub replace_owned_remote-closed :
      (previous : RemoteSyncFile) (candidate : SyncFileData) (h : Machine E)
      → (replace_owned_remote E c previous candidate h).1.state.closed ≡ h.state.closed
  replace_owned_remote-closed previous candidate h =
      let g : Machine E = (read_remote E c h).1 in
      elim (replace_owned_remote-cases E c previous candidate h) [
        | inl (f, q) ↦ rw q (ground (arith, read_remote-state E c h))
        | inr (inl q) ↦ rw q (ground (arith, read_remote-state E c h))
        | inr (inr (latest, r, a, q)) ↦
            let pending = is_pending E c g.state latest in
            rw
              (
                q,
                commit-closed latest (adopt_lock E c pending latest previous candidate) _
                    (record g { world = (E.now g.world).1 }),
              )
              (ground (arith, read_remote-state E c h))
      ]

  -- What `Close` does but for its result.
  pub close_once-closed : (h : Machine E) → (close_once E c h.state h).1.state.closed ≡ true
  close_once-closed h =
      let g : Machine E = record h { state = record h.state { closed = true; releasing = true } } in
      ground (
        arith,
        replace_owned_remote-closed h.state.remote (record h.state.remote.contents { lock = none })
            g,
      )

  pub released-state : (e : Option Error) (h : Machine E) → (released E c e h).1 ≡ h
  released-state none h = refl
  released-state (some e) h = refl

  close_of_closed :
      (h : Machine E) → h.state.closed ≡ true → close E c h ≡ released E c h.state.release_err h
  unfolding close
  close_of_closed h p = ground (arith, p)

  record_release-ok : (r : Result (Unit {0})) (h : Machine E) → (record_release E c r h).0 ≡ ok tt
  record_release-ok (ok _) h = refl
  record_release-ok (err e) h = refl

  close_once-ok : (h : Machine E) → (close_once E c h.state h).0 ≡ ok tt
  close_once-ok h = ground arith

  pub close-released :
      (h : Machine E)
      → let g = (close_once E c h.state h).1 in close E c h ≡ released E c g.state.release_err g
  unfolding close
  close-released h = ground (arith, close_once-ok h)

  -- A second `Close` gives the result of the first, runs nothing, and changes nothing.
  pub close_again : (h : Machine E) → close E c (close E c h).1 ≡ close E c h
  close_again h =
      let g = (close_once E c h.state h).1 in
      rw (close-released h, released-state g.state.release_err g)
        (close_of_closed g (close_once-closed h))

  -- Between two machines this process has given its lock up: one state file without a lock has been
  -- uploaded and read back.
  abbrev pub IsGivenUp : Machine E → Machine E → Type 0
  IsGivenUp h i = (d : SyncFileData) × (d.lock ≡ none) × ReadBack E c d h i

  -- What a `Close` that reports no error has done with the lock: it is to persist, or has been given up.
  abbrev pub IsReleased : Machine E → Machine E → Type 0
  IsReleased h i = (c.persistent ≡ true) ⊎ IsGivenUp h i

  ReadBack-recorded :
      (d : SyncFileData) (h g i : Machine E) (e : Option Error)
      → g.trace ≡ h.trace
      → ReadBack E c d g i
      → ReadBack E c d h (record i { state = record i.state { release_err = e } })
  ReadBack-recorded d h g i e t r = record {
    text = r.text;
    etag = r.etag;
    encoded = r.encoded;
    uploaded = rw (← t) (r.uploaded);
    before = r.before;
    releasing = r.releasing;
    succeeded = r.succeeded;
    behind = r.behind;
    left = r.left;
    read = r.read;
  }

  same_lock-none : (l : Option SyncFileLock) → same_lock none l ≡ true → is_none l ≡ true
  unfolding same_lock
  same_lock-none none h = refl
  same_lock-none (some l) h = h

  -- The first `Close` of a session with a lock, where it reports no error, has given the lock up by a
  -- verified write, unless the lock is to persist.
  pub close_done :
      (h : Machine E)
      → h.state.closed ≡ false
      → is_none h.state.remote.contents.lock ≡ false
      → (close E c h).0 ≡ ok tt
      → IsReleased h (close E c h).1
  unfolding close
  close_done h first locked p = elim (Bool-cases c.persistent) [
    | inl keep ↦ inl keep
    | inr drop ↦
        let g : Machine E = record h {
          state = record h.state { closed = true; releasing = true };
        } in
        let n : SyncFileData = record h.state.remote.contents { lock = none } in
        let r = replace_owned_remote E c h.state.remote n g in
        elim (Result-cases r.0) [
          | inr (e, x) ↦ absurd (ground (arith, first, drop, x))
          | inl (_, x) ↦
              let same : (close E c h).1
                  ≡ record r.1 { state = record r.1.state { release_err = none } } =
                ground (arith, first, drop, x) in
              let w = replace_owned_remote-IsWritten E c h.state.remote n g x in
              elim (w.lock) [
                | inr l ↦ absurd (ground (arith, same_lock-none h.state.remote.contents.lock l, l))
                | inl l ↦ inr (
                  w.data_written,
                  l,
                  rw same (ReadBack-recorded (w.data_written) h g r.1 none refl (w.read_back)),
                )
              ]
        ]
  ]
