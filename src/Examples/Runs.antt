-- ===== src/Examples/Runs.antt =====
-- Whole runs over the small world, at concrete inputs.
use rclonewatch.Prelude.{
  codes, ℕ, true, false, Option, none, some, [], ◌∷◌, ◌≡◌, ◌≢◌, ◌≤◌, refl, arith,
}
use rclonewatch.Effect.{ok}
use rclonewatch.Effect.{random_text, run_command, now, disk, timer_fired, read_file}
use rclonewatch.SyncFile.{same_sync_file_data, needs_sync_from_remote, owned_by}
use rclonewatch.Remote.Run.{run, protects}
use rclonewatch.Path.Clean.{clean}
use rclonewatch.Remote.Read.{read_remote, decode_sync_file, response_etag}
use rclonewatch.Remote.Replace.{replace_owned_remote, write_remote, commit, adopt_lock}
use rclonewatch.Acquire.Wait.{wait_loop, verify_acquired_lock}
use rclonewatch.Acquire.Loop.{
  acquire, acquire_loop, try_lock, write_lock, verified, start_acquire, candidate_of,
}
use rclonewatch.Acquire.Validate.{validate_acquisition}
use rclonewatch.Session.Local.{read_local_sync_file, write_local_sync_file}
use rclonewatch.Session.Generation.{
  before_remote_change, after_remote_change, initialize_generation,
}
use rclonewatch.Session.Close.{close, finish_session}
use rclonewatch.Watch.State.{
  Config, Event, Loop, signal, events_closed, errors_closed, command_exit, item, result,
}
use rclonewatch.Watch.Delivery.{run_events}
use rclonewatch.Watch.Loop.{
  start, on_item, on_result, turn, head, handle, on_signal, on_command_exit,
}
use rclonewatch.Watch.Shutdown.{IsSound, IsBounded}
use rclonewatch.Main.ExitCode.{
  exit_codes_agree, command_exit_code, wait_result, wait_status_exit_code,
}
use rclonewatch.Main.Terminal.{Tty, interrupted, status, wait_command, wait_command_returns}
use rclonewatch.Main.SetUp.{command_started, initial_loop}
use rclonewatch.Main.Run.{
  Course, Input, run_session, close_behind, watch, run_loop, finish, perform,
}
use rclonewatch.Watch.Startup.{initialize_watching, drain}
use rclonewatch.Main.Started.{started_loop-IsSound}
use rclonewatch.Main.Closed.{HasClosed, run_session_closed}
use rclonewatch.Watch.Batch.{queue_change}
use rclonewatch.Sync.{sync, sync_scopes, sync_scope_group}
use rclonewatch.Payload.Scopes.{
  first_valid, promote, parents, select, sort, covered, reconciliation_scopes, normalize_all,
  normalize, missing,
}
use rclonewatch.Examples.Demo.{demo, demo_settings, demo_machine}

exit_codes_agree_example :
    (command_exit_code (wait_result 0x300) ≡ wait_status_exit_code 0x300)
    × (wait_status_exit_code 0x300 ≤ 255)
exit_codes_agree_example = exit_codes_agree 0x300

-- A terminal that holds its foreground group.
abbrev demo_tty : Tty
demo_tty = record {
  World = Option ℕ;
  get_group = λ w. w;
  set_group = λ g w. some g;
  ignores_stop = λ w. false;
  stop_group = λ w. (true, w);
  wait_continued = λ w. w;
  continue_command = λ w. w;
}

-- The command 50 is stopped by a key, continued, and exits with 3.
wait_command_returns_example :
    ((wait_command demo_tty 50 40
        ((status 0x147f, λ w. some 50) ∷ (interrupted, λ w. w) ∷ (status 0x300, λ w. w) ∷ [])
        (some 50)).0
      ≡ some 3)
    × ((wait_command demo_tty 50 40
          ((status 0x147f, λ w. some 50) ∷ (interrupted, λ w. w) ∷ (status 0x300, λ w. w) ∷ [])
          (some 50)).1
        ≢ some 50)
unfolding wait_status_exit_code
wait_command_returns_example =
    wait_command_returns demo_tty 50 40 (λ g w. refl) (λ h. omega (arith, h))
      ((status 0x147f, λ w. some 50) ∷ (interrupted, λ w. w) ∷ []) (status 0x300, λ w. w) [] 3
      (some 50) (refl, (tt, tt)) (refl, refl)

abbrev demo_loop_config : Config
demo_loop_config = record { interval = 5; state = some demo_settings }

abbrev loop_after : Loop
loop_after = record (initial_loop 5 true command_started []) {
  stopping = true;
  timer_armed = false;
}

started_loop-IsSound_example : IsSound loop_after × IsBounded loop_after
unfolding run_events turn head handle on_signal initial_loop
started_loop-IsSound_example =
    started_loop-IsSound demo_loop_config none 5 true command_started [] (signal 2 ∷ [])
      {u = loop_after} {acts = []} refl

abbrev input : Event → Input
input e = record { event = e; scoped = λ p. missing; visited = λ p. missing }

-- A file is removed while a command runs and exits; the watcher closes, and the final sync succeeds.
abbrev demo_course : Course
demo_course = record {
  watcher_error = none;
  startup = [];
  lock_failure = none;
  command = command_started;
  inputs =
      input (item (record { path = codes "a"; is_dir = false; removed = true }))
      ∷ input (command_exit 0)
      ∷ input events_closed
      ∷ input errors_closed
      ∷ input (result none)
      ∷ [];
}

demo_acquired : (acquire demo demo_settings 5 (demo_machine 3 0)).0 ≡ ok (some tt)
unfolding acquire read_local_sync_file read_file read_remote run_command decode_sync_file
    response_etag validate_acquisition start_acquire acquire_loop wait_loop try_lock candidate_of
    now write_lock write_remote run disk verify_acquired_lock timer_fired verified
    same_sync_file_data
demo_acquired = refl

demo_exits : (run_session demo demo_settings 5 5 demo_course (demo_machine 3 0)).0 ≡ some 0
unfolding acquire read_local_sync_file read_file read_remote run_command decode_sync_file
    response_etag validate_acquisition start_acquire acquire_loop wait_loop try_lock candidate_of
    now write_lock write_remote run disk verify_acquired_lock timer_fired verified
    same_sync_file_data run_session close_behind watch run_loop initial_loop finish perform start
    on_item on_result queue_change sync reconciliation_scopes normalize_all normalize head handle
    initialize_watching drain initialize_generation finish_session write_local_sync_file close
    replace_owned_remote commit owned_by adopt_lock needs_sync_from_remote on_command_exit protects
    clean first_valid promote parents select sort covered before_remote_change random_text
    sync_scopes sync_scope_group after_remote_change
demo_exits = refl

run_session_closed_example :
    HasClosed demo demo_settings 0
      (watch demo demo_settings true 5 demo_course
        (acquire demo demo_settings 5 (demo_machine 3 0)).1).1
      (run_session demo demo_settings 5 5 demo_course (demo_machine 3 0)).1
run_session_closed_example =
    run_session_closed demo demo_settings 5 5 demo_course (demo_machine 3 0) 0 refl demo_acquired
      demo_exits
