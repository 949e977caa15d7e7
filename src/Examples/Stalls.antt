-- ===== src/Examples/Stalls.antt =====
-- A change of the local state file after the interval has passed.
use rclonewatch.Prelude.{true, false, some, none, [], ◌∷◌, ◌≡◌, codes, refl, text_eq, has_prefix}
use rclonewatch.Watch.Batch.{Change}
use rclonewatch.Remote.Run.{protects}
use rclonewatch.Watch.State.{Config, Loop}
use rclonewatch.Watch.Stall.{after_items, after_items-protected}
use rclonewatch.Examples.Demo.{demo_settings}

abbrev tracked : Config
tracked = record { interval = 30000000000; state = some demo_settings }

abbrev state_file_change : Change
state_file_change = record { path = codes ".rcw-state"; is_dir = false; removed = false }

abbrev payload_change : Change
payload_change = record { path = codes "a/b"; is_dir = false; removed = false }

abbrev ready : Loop
ready = record {
  pending = [];
  flight = none;
  stopping = false;
  watcher_closed = false;
  errors_open = true;
  locks_open = true;
  timer_armed = false;
  command_runs = true;
  final_attempted = false;
  sync_ready = true;
  abandoned = false;
  watcher_err = none;
  lock_err = none;
  last_sync_err = none;
  wrapped_exit_code = 0;
  signals_seen = 0;
  retry_delay = 1000000000;
}

after_items-protected_example :
    let t = after_items tracked (state_file_change ∷ payload_change ∷ []) ready in
    (t.1 ≡ 0) × (t.0.sync_ready ≡ false) × (t.0.timer_armed ≡ false)
unfolding protects text_eq has_prefix
after_items-protected_example =
    after_items-protected tracked demo_settings state_file_change (payload_change ∷ []) ready refl
      refl refl refl refl refl refl
