-- ===== src/Examples/Syncs.antt =====
-- The theorems on a sync and on the release of the lock, at concrete inputs.
use rclonewatch.Prelude.{true, Text, [], ◌∷◌, codes, ◌≡◌, ◌⊎◌}
use rclonewatch.Effect.{Machine, ok}
use rclonewatch.Payload.Scopes.{Stat, directory}
use rclonewatch.Session.Generation.{before_remote_change}
use rclonewatch.Sync.{sync}
use rclonewatch.Sync.Order.{payload_runs, sync_order}
use rclonewatch.Examples.Demo.{demo, demo_settings, demo_machine}

abbrev all_directories : Text → Stat
all_directories p = directory

abbrev owned : Machine demo
owned = demo_machine 3 5

sync_order_example :
    (payload_runs
        (sync demo demo_settings true all_directories all_directories
          (codes "a" ∷ [])
          owned).1.trace
      ≡ 0)
    ⊎ ((before_remote_change demo demo_settings owned).0 ≡ ok tt)
sync_order_example =
    sync_order demo demo_settings all_directories all_directories (codes "a" ∷ []) owned
