-- ===== src/Session/Advance.antt =====
-- What the changes of the generation leave, and in which order they write.
use rclonewatch.Prelude.{
  ℕ, Bool, refl, String, ◌+◌, ◌≤◌, true, false, none, ◌≡◌, ◌≢◌, ◌⊎◌, inl, inr, arith, ◌∙◌,
}
use rclonewatch.SyncFile.{SyncFileData, RemoteSyncFile, max_generation}
use rclonewatch.Effect.{Env, Settings, ok, Machine, random_text, disk, Result-cases}
use rclonewatch.Remote.Replace.{replace_owned_remote}
use rclonewatch.Remote.ReadBack.{published, ReadBack}
use rclonewatch.Remote.Verified.{
  replace_owned_remote-fields, IsWritten, ReadBack-from, replace_owned_remote-IsWritten,
}
use rclonewatch.Remote.Conditional.{uploads}
use rclonewatch.Session.Local.{write_local_sync_file, u64}
use rclonewatch.Session.Generation.{
  before_remote_change, after_remote_change, advance, local_record,
}

module _ (E : Env) (c : Settings) where
  pub write_local_sync_file-state :
      (d : SyncFileData) (h : Machine E) → (write_local_sync_file E c d h).1.state ≡ h.state
  unfolding write_local_sync_file disk
  write_local_sync_file-state d h = ground arith

  pub uploads-write_local_sync_file :
      (d : SyncFileData) (h : Machine E)
      → uploads (write_local_sync_file E c d h).1.trace ≡ uploads h.trace
  unfolding write_local_sync_file disk
  uploads-write_local_sync_file d h = ground arith

  pub published-write_local_sync_file :
      (d : SyncFileData) (h : Machine E)
      → published (write_local_sync_file E c d h).1.trace ≡ published h.trace
  unfolding write_local_sync_file disk
  published-write_local_sync_file d h = ground arith

  -- One state file of a generation has been uploaded between two machines, and read back.
  pub record IsPublished (generation : ℕ) (syncing : Bool) (h i : Machine E) : Type 0 where
    pub data_sent : SyncFileData
    pub of_generation : data_sent.generation ≡ generation
    pub marked : data_sent.syncing ≡ syncing
    pub read_back : ReadBack E c data_sent h i

  IsWritten-IsPublished :
      (previous : RemoteSyncFile) (candidate : SyncFileData) (h g i : Machine E)
      → published g.trace ≡ published h.trace
      → IsWritten E c previous candidate g i
      → IsPublished candidate.generation candidate.syncing h i
  IsWritten-IsPublished previous candidate h g i e w = record {
    data_sent = w.data_written;
    of_generation = w.generation;
    marked = w.syncing;
    read_back = ReadBack-from E c w.data_written h g i e w.read_back;
  }

  -- A step before or behind it that uploads nothing changes nothing of that.
  pub IsPublished-widened :
      (generation generation' : ℕ) (syncing : Bool) (h h' g i : Machine E)
      → published h'.trace ≡ published h.trace
      → published i.trace ≡ published g.trace
      → i.state ≡ g.state
      → generation ≡ generation'
      → IsPublished generation syncing h' g
      → IsPublished generation' syncing h i
  IsPublished-widened generation generation' syncing h h' g i b e k n w = record {
    data_sent = w.data_sent;
    of_generation = w.of_generation ∙ n;
    marked = w.marked;
    read_back = record {
      text = w.read_back.text;
      etag = w.read_back.etag;
      encoded = w.read_back.encoded;
      uploaded = e ∙ rw (← b) (w.read_back.uploaded);
      before = w.read_back.before;
      releasing = w.read_back.releasing;
      succeeded = w.read_back.succeeded;
      behind = w.read_back.behind;
      left = w.read_back.left;
      read = rw k (w.read_back.read);
    };
  }

  advance-IsPublished :
      (remote : RemoteSyncFile) (sync_id : String) (h : Machine E)
      → (advance E c remote sync_id h).0 ≡ ok tt
      → IsPublished (u64 (remote.contents.generation + 1)) true h (advance E c remote sync_id h).1
  advance-IsPublished remote sync_id h p =
      let n : SyncFileData = record remote.contents {
        generation = u64 (remote.contents.generation + 1);
        sync_id = sync_id;
        syncing = true;
      } in
      let l = write_local_sync_file E c (local_record n true) h in
      elim (Result-cases l.0) [
        | inr (f, q) ↦ absurd (ground (arith, q))
        | inl (_, q) ↦
            let r = replace_owned_remote E c remote n l.1 in
            let done : r.0 ≡ ok tt = elim (Result-cases r.0) [
              | inl (_, k) ↦ k
              | inr (f, k) ↦ absurd (ground (arith, q, k))
            ] in
            let same : (advance E c remote sync_id h).1 ≡ r.1 = ground (arith, q, done) in
            rw same (
              IsWritten-IsPublished remote n h l.1 r.1
                (published-write_local_sync_file (local_record n true) h)
                (replace_owned_remote-IsWritten E c remote n l.1 done))
      ]

  advance_done :
      (remote : RemoteSyncFile) (sync_id : String) (h : Machine E)
      → (advance E c remote sync_id h).0 ≡ ok tt
      → let s = (advance E c remote sync_id h).1.state in
        (s.pending ≡ none)
        × (s.remote.contents.repository_id ≡ remote.contents.repository_id)
        × (s.remote.contents.generation ≡ u64 (remote.contents.generation + 1))
        × (s.remote.contents.sync_id ≡ sync_id)
        × (s.remote.contents.syncing ≡ true)
  advance_done remote sync_id h p =
      let n : SyncFileData = record remote.contents {
        generation = u64 (remote.contents.generation + 1);
        sync_id = sync_id;
        syncing = true;
      } in
      ground (
        arith,
        replace_owned_remote-fields E c remote n
            (write_local_sync_file E c (local_record n true) h).1,
      )

  pub before_remote_change-fields :
      (h : Machine E)
      → h.state.remote.contents.generation ≤ max_generation
      → (before_remote_change E c h).0 ≡ ok tt
      → let r = h.state.remote.contents in
        let s = (before_remote_change E c h).1.state in
        (r.generation ≢ 0)
        × (s.remote.contents.generation ≡ r.generation + 1)
        × (s.remote.contents.generation ≤ max_generation)
        × (s.remote.contents.syncing ≡ true)
        × (s.remote.contents.repository_id ≡ r.repository_id)
        × (s.pending ≡ none)
  unfolding before_remote_change random_text
  before_remote_change-fields h bound p = ground (
    arith,
    advance_done h.state.remote (E.random_text h.world).0
        (record h { world = (E.random_text h.world).1 }),
  )

  pub before_remote_change-IsPublished :
      (h : Machine E)
      → h.state.remote.contents.generation ≤ max_generation
      → (before_remote_change E c h).0 ≡ ok tt
      → IsPublished (h.state.remote.contents.generation + 1) true h (before_remote_change E c h).1
  unfolding before_remote_change random_text
  before_remote_change-IsPublished h bound p =
      let r = h.state.remote in
      let m : Machine E = record h { world = (E.random_text h.world).1 } in
      let a = advance E c r (E.random_text h.world).0 m in
      let same : before_remote_change E c h ≡ a = ground arith in
      let n : u64 (r.contents.generation + 1) ≡ r.contents.generation + 1 = ground arith in
      IsPublished-widened (u64 (r.contents.generation + 1)) (r.contents.generation + 1) true h m a.1
        (before_remote_change E c h).1 refl (rw same) (rw same) n
        (advance-IsPublished r (E.random_text h.world).0 m (rw same at p))

  -- Where a generation can be advanced, success means that one state file of the next generation,
  -- marked as syncing, has been uploaded and then read back, and that the remote file which this
  -- process goes by is the one read back: it is of that generation and marked so, with the
  -- repository ID kept and no unverified write on record; the generation has not wrapped around its
  -- 64 bits, and the remote was initialized.
  pub before_remote_change_done :
      (h : Machine E)
      → h.state.remote.contents.generation ≤ max_generation
      → (before_remote_change E c h).0 ≡ ok tt
      → let r = h.state.remote.contents in
        let i = (before_remote_change E c h).1 in
        (r.generation ≢ 0)
        × (i.state.remote.contents.generation ≡ r.generation + 1)
        × (i.state.remote.contents.generation ≤ max_generation)
        × (i.state.remote.contents.syncing ≡ true)
        × (i.state.remote.contents.repository_id ≡ r.repository_id)
        × (i.state.pending ≡ none)
        × IsPublished (r.generation + 1) true h i
  before_remote_change_done h bound p =
      let f = before_remote_change-fields h bound p in
      (f.0, f.1, f.2, f.3, f.4, f.5, before_remote_change-IsPublished h bound p)

  -- The local file is written first: if the write of the record of the next generation fails, the
  -- operation fails, nothing is uploaded, and this process's view of the remote file stays.
  pub before_remote_change_local_first :
      (h : Machine E)
      → let r = h.state.remote.contents in
        let next = record r {
          generation = u64 (r.generation + 1);
          sync_id = (E.random_text h.world).0;
          syncing = true;
        } in
        let m : Machine E = record h { world = (E.random_text h.world).1 } in
        ((write_local_sync_file E c (local_record next true) m).0 ≡ ok tt)
        ⊎ (((before_remote_change E c h).0 ≢ ok tt)
            × (uploads (before_remote_change E c h).1.trace ≡ uploads h.trace)
            × ((before_remote_change E c h).1.state ≡ h.state))
  unfolding before_remote_change random_text
  before_remote_change_local_first h =
      let r = h.state.remote.contents in
      let n : SyncFileData = record r {
        generation = u64 (r.generation + 1);
        sync_id = (E.random_text h.world).0;
        syncing = true;
      } in
      let m : Machine E = record h { world = (E.random_text h.world).1 } in
      elim (Result-cases (write_local_sync_file E c (local_record n true) m).0) [
        | inl w ↦ inl (ground (arith, w.1))
        | inr w ↦ inr (
            ground (
              arith,
              w.1,
              write_local_sync_file-state (local_record n true) m,
              uploads-write_local_sync_file (local_record n true) m,
            ))
      ]

  -- Success means that the remote file that this process goes by holds the same generation and sync ID
  -- as before, no longer marked as syncing.
  pub after_remote_change_done :
      (h : Machine E)
      → (after_remote_change E c h).0 ≡ ok tt
      → let r = h.state.remote.contents in
        let s = (after_remote_change E c h).1.state in
        (s.remote.contents.generation ≡ r.generation)
        × (s.remote.contents.sync_id ≡ r.sync_id)
        × (s.remote.contents.repository_id ≡ r.repository_id)
        × (s.remote.contents.syncing ≡ false)
        × (s.pending ≡ none)
  unfolding after_remote_change
  after_remote_change_done h p =
      let r = h.state.remote in
      let n : SyncFileData = record r.contents { syncing = false } in
      let w = replace_owned_remote E c r n h in
      ground (
        arith,
        replace_owned_remote-fields E c r n h,
        write_local_sync_file-state (local_record n false) w.1,
      )

  pub after_remote_change-IsPublished :
      (h : Machine E)
      → (after_remote_change E c h).0 ≡ ok tt
      → IsPublished h.state.remote.contents.generation false h (after_remote_change E c h).1
  unfolding after_remote_change
  after_remote_change-IsPublished h p =
      let r = h.state.remote in
      let n : SyncFileData = record r.contents { syncing = false } in
      let w = replace_owned_remote E c r n h in
      elim (Result-cases w.0) [
        | inr (f, q) ↦ absurd (ground (arith, q))
        | inl (_, q) ↦
            let l = write_local_sync_file E c (local_record n false) w.1 in
            let same : (after_remote_change E c h).1 ≡ l.1 = ground (arith, q) in
            rw same (
              IsPublished-widened n.generation n.generation false h h w.1 l.1 refl
                (published-write_local_sync_file (local_record n false) w.1)
                (write_local_sync_file-state (local_record n false) w.1) refl
                (IsWritten-IsPublished r n h h w.1 refl
                  (replace_owned_remote-IsWritten E c r n h q)))
      ]
