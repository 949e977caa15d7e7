-- ===== src/Examples/Protocol.antt =====
-- The theorems on the state files, at concrete inputs.
use rclonewatch.Prelude.{
  ℕ, ◌+◌, ◌≤◌, ◌<◌, String, Bool, true, false, ◌&&◌, Option, none, some, [], ◌∷◌, ◌≡◌, ◌≢◌, ◌⊎◌,
  ◌↔◌, refl, arith,
}
use rclonewatch.Prelude.Int.{pos}
use rclonewatch.SyncFile.{
  SyncFileLock, SyncFileData, RemoteSyncFile, held, max_generation, lock_ttl, identity_eq,
  lock_identity, owned_by, same_sync_file_data, needs_sync_from_remote,
}
use rclonewatch.Effect.{
  ok, if_match, run_command, now, disk, timer_fired, wait_until, random_text, read_file,
}
use rclonewatch.Remote.Run.{run}
use rclonewatch.Remote.Read.{read_remote, decode_sync_file, response_etag}
use rclonewatch.Remote.Replace.{replace_owned_remote, write_remote, commit, adopt_lock}
use rclonewatch.Remote.Ownership.{admits}
use rclonewatch.Remote.Verified.{IsWritten, replace_owned_remote_moves, replace_owned_remote_done}
use rclonewatch.Remote.Conditional.{uploads, uploads-replace_owned_remote}
use rclonewatch.Acquire.Wait.{wait_loop, verify_acquired_lock, observe, poll, nothing_observed}
use rclonewatch.Acquire.Loop.{
  acquire, acquire_loop, try_lock, write_lock, verified, start_acquire, candidate_of,
}
use rclonewatch.Acquire.Validate.{validate_acquisition, validate_acquisition_existing}
use rclonewatch.Acquire.Owned.{acquire_done}
use rclonewatch.Acquire.Waiting.{MayTake, wait_loop_done}
use rclonewatch.Session.Local.{read_local_sync_file, write_local_sync_file, u64}
use rclonewatch.Session.Generation.{before_remote_change, local_record, recover, download}
use rclonewatch.Session.Advance.{
  IsPublished, before_remote_change_done, before_remote_change_local_first,
}
use rclonewatch.Session.Recovery.{
  Durable, stopped, next_of, change, advance_local, crash, Reach, first_state,
}
use rclonewatch.Session.Recovery.Restart.{
  IsCutRetry, reconciled, cut_retry, dirty_uploads, cut_retry_downloads,
}
use rclonewatch.Examples.Demo.{demo, demo_settings, demo_machine, demo_data, demo_remote}

read_it : (read_remote demo demo_settings (demo_machine 3 5)).0 ≡ ok (demo_remote 3 5)
unfolding read_remote run_command decode_sync_file response_etag
read_it = refl

acquire_done_example :
    owned_by (acquire demo demo_settings 5 (demo_machine 3 0)).1.state.remote "me" ≡ true
unfolding acquire read_local_sync_file read_file read_remote run_command decode_sync_file
    response_etag validate_acquisition start_acquire acquire_loop wait_loop try_lock candidate_of
    now write_lock write_remote run disk verify_acquired_lock timer_fired verified
    same_sync_file_data
acquire_done_example = acquire_done demo demo_settings 5 (demo_machine 3 0) refl

-- A lock of another writer that has outlived its TTL: 100 after it is first seen.
wait_loop_done_example :
    (uploads
        (wait_loop demo demo_settings 40 0
          (demo_remote 3 5)
          nothing_observed
          (demo_machine 3 5)).1.trace
      ≡ [])
    × MayTake demo demo_settings nothing_observed
        (demo_remote 3 5)
        (demo_machine 3 5)
        (demo_remote 3 5)
        (record { identity = held "me" 5 (pos 100); at = 7 })
        (wait_loop demo demo_settings 40 0 (demo_remote 3 5) nothing_observed (demo_machine 3 5)).1
unfolding wait_loop observe poll now wait_until read_remote run_command decode_sync_file
    response_etag lock_ttl identity_eq lock_identity
wait_loop_done_example =
    wait_loop_done demo demo_settings 40 0 (demo_remote 3 5) nothing_observed (demo_machine 3 5)
      {r = demo_remote 3 5} {s = record { identity = held "me" 5 (pos 100); at = 7 }} refl

uploads-replace_owned_remote_example :
    let w =
      replace_owned_remote demo demo_settings
        (demo_remote 3 5)
        (demo_data 4 5)
        (demo_machine 3 5) in
    let g = read_remote demo demo_settings (demo_machine 3 5) in
    (uploads w.1.trace ≡ [])
    ⊎ ((latest : RemoteSyncFile) × (g.0 ≡ ok latest)
        × (admits demo demo_settings (demo_remote 3 5) latest g.1.state ≡ true)
        × (uploads w.1.trace ≡ some (if_match latest.etag) ∷ []))
uploads-replace_owned_remote_example =
    uploads-replace_owned_remote demo demo_settings (demo_remote 3 5) (demo_data 4 5)
      (demo_machine 3 5) refl

-- Another writer has advanced the remote since generation 3 was seen.
replace_owned_remote_moves_example :
    let w =
      replace_owned_remote demo demo_settings
        (demo_remote 3 5)
        (demo_data 4 5)
        (demo_machine 9 5) in
    ((w.1.state.remote ≡ demo_remote 9 5) × (w.1.state.lock_expiry ≡ 105))
    ⊎ ((w.0 ≡ ok tt)
        × IsWritten demo demo_settings (demo_remote 3 5) (demo_data 4 5) (demo_machine 9 5) w.1)
replace_owned_remote_moves_example =
    replace_owned_remote_moves demo demo_settings (demo_remote 3 5) (demo_data 4 5)
      (demo_machine 9 5)

replace_owned_remote_done_example :
    let i =
      (replace_owned_remote demo demo_settings
        (demo_remote 3 5)
        (demo_data 4 5)
        (demo_machine 3 5)).1 in
    let s = i.state in
    (s.pending ≡ none)
    × (s.remote.contents.repository_id ≡ "repo")
    × (s.remote.contents.generation ≡ 4)
    × (s.remote.contents.sync_id ≡ "id")
    × (s.remote.contents.syncing ≡ false)
    × ((◌≡◌ {A = Option SyncFileLock} (demo_data 4 5).lock none) ⊎ (owned_by s.remote "me" ≡ true))
    × IsWritten demo demo_settings (demo_remote 3 5) (demo_data 4 5) (demo_machine 3 5) i
unfolding replace_owned_remote commit adopt_lock now write_remote run disk read_remote run_command
    decode_sync_file response_etag same_sync_file_data owned_by
replace_owned_remote_done_example =
    replace_owned_remote_done demo demo_settings (demo_remote 3 5) (demo_data 4 5)
      (demo_machine 3 5) refl

before_remote_change_done_example :
    let i = (before_remote_change demo demo_settings (demo_machine 3 5)).1 in
    let s = i.state in
    (◌≢◌ {A = ℕ} 3 0)
    × (s.remote.contents.generation ≡ 4)
    × (s.remote.contents.generation ≤ max_generation)
    × (s.remote.contents.syncing ≡ true)
    × (s.remote.contents.repository_id ≡ "repo")
    × (s.pending ≡ none)
    × IsPublished demo demo_settings 4 true (demo_machine 3 5) i
unfolding before_remote_change random_text write_local_sync_file replace_owned_remote commit
    adopt_lock now write_remote run disk read_remote run_command decode_sync_file response_etag
    same_sync_file_data owned_by
before_remote_change_done_example =
    before_remote_change_done demo demo_settings (demo_machine 3 5) (omega arith) refl

before_remote_change_local_first_example :
    let m = demo_machine 3 5 in
    let n : SyncFileData = record (demo_data 3 5) { generation = 4; syncing = true } in
    ((write_local_sync_file demo demo_settings (local_record n true) m).0 ≡ ok tt)
    ⊎ (((before_remote_change demo demo_settings m).0 ≢ ok tt)
        × (uploads (before_remote_change demo demo_settings m).1.trace ≡ [])
        × ((before_remote_change demo demo_settings m).1.state ≡ m.state))
before_remote_change_local_first_example =
    before_remote_change_local_first demo demo_settings (demo_machine 3 5)

-- A crash between the two files: the local one is already at the next generation.
abbrev crashed : Durable
crashed = record {
  phase = stopped;
  local = local_record (next_of (demo_data 1 5) "new") true;
  remote = demo_data 1 5;
  view = demo_data 1 5;
  pending = none;
  dirty = true;
}

crashed_reached : Reach (first_state (demo_data 1 5)) crashed
crashed_reached =
    Reach.next
      (Reach.next (Reach.next Reach.here (change (λ e. cc)))
        (advance_local "new" refl refl (λ e. omega (arith, e)) (λ e. omega arith)))
      crash

dirty_uploads_example :
    let r = reconciled demo demo_settings [] (demo_machine 1 5) crashed in
    (r ≡ recover demo demo_settings (demo_machine 1 5))
    ⊎ (IsCutRetry crashed × (r ≡ download demo demo_settings crashed.remote (demo_machine 1 5)))
dirty_uploads_example =
    dirty_uploads demo demo_settings [] (demo_machine 1 5) (demo_data 1 5) {d = crashed} refl refl
      crashed_reached refl

cut_retry_downloads_example :
    let d = cut_retry (demo_data 1 5) "one" "two" in
    Reach (first_state (demo_data 1 5)) d
    × (d.dirty ≡ true)
    × (reconciled demo demo_settings [] (demo_machine 1 5) d
        ≡ download demo demo_settings d.remote (demo_machine 1 5))
cut_retry_downloads_example =
    cut_retry_downloads demo demo_settings [] (demo_machine 1 5) (demo_data 1 5) "one" "two" refl
      refl refl refl refl

validate_acquisition_existing_example :
    (validate_acquisition demo demo_settings
        (some (demo_data 5 0))
        (demo_remote 3 5)
        (demo_machine 3 5)
      ≡ (ok tt, demo_machine 3 5))
    ↔ ((◌≡◌ {A = String} "repo" "repo")
        × ((demo_settings.fail_on_incomplete
              && false
              && needs_sync_from_remote (demo_data 5 0) true (demo_data 3 5))
            ≡ false)
        × ((◌≡◌ {A = ℕ} 3 0) ⊎ (¬ (3 < 5)) ⊎ ((◌≡◌ {A = Bool} false true) × (5 ≡ u64 (3 + 1)))))
validate_acquisition_existing_example =
    validate_acquisition_existing demo demo_settings (demo_data 5 0) (demo_remote 3 5)
      (demo_machine 3 5) refl
