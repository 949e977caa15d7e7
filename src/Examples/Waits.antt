-- ===== src/Examples/Waits.antt =====
-- The waits of `Acquire` and the refresh of the lock, at concrete inputs.
use rclonewatch.Prelude.{ℕ, ◌≤◌, none, ◌≡◌, ◌≢◌, arith}
use rclonewatch.Effect.{Command, ok, now}
use rclonewatch.Acquire.Wait.{nothing_observed, wait_loop}
use rclonewatch.Acquire.Ends.{HasClock, wait_loop_ends}
use rclonewatch.Examples.Demo.{demo, Place, demo_run, demo_settings, demo_remote, demo_machine}

demo_run-clock : (b : _) (cmd : Command) (w : Place) → (demo_run b cmd w).1.clock ≡ w.clock
demo_run-clock b cmd w = ground arith

demo_now-clock : (w : Place) → (w.clock ≤ (demo.now w).0) × ((demo.now w).0 ≤ (demo.now w).1.clock)
demo_now-clock w = ground arith

demo_wait-clock :
    (t : ℕ) (w : Place)
    → (t ≤ (demo.wait_until t w).1.clock) × (w.clock ≤ (demo.wait_until t w).1.clock)
demo_wait-clock t w = ground arith

demo_run_keeps : (b : _) (cmd : Command) (w : Place) → w.clock ≤ (demo_run b cmd w).1.clock
demo_run_keeps b cmd w = ground (arith, demo_run-clock b cmd w)

abbrev demo_clock : HasClock demo
demo_clock = record {
  time = λ w. w.clock;
  now_reads = demo_now-clock;
  wait_reaches = λ t w e. demo_wait-clock t w;
  run_keeps = demo_run_keeps;
}

wait_loop_ends_example :
    (wait_loop demo demo_settings 101 107 (demo_remote 4 5) nothing_observed (demo_machine 4 5)).0
    ≢ ok none
wait_loop_ends_example =
    wait_loop_ends demo demo_clock demo_settings 100 107 (demo_remote 4 5) nothing_observed
      (demo_machine 4 5) (ground arith) (ground arith) (ground arith)
