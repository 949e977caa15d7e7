-- ===== src/Remote/Frame.antt =====
-- Reading and writing the remote state file changes nothing in the program's own state.
use rclonewatch.Prelude.{Text, ◌≡◌, arith}
use rclonewatch.SyncFile.{SyncFileData}
use rclonewatch.Effect.{Env, Settings, run_command, disk, Machine}
use rclonewatch.Remote.Run.{run}
use rclonewatch.Remote.Read.{remote_state_exists, read_remote}
use rclonewatch.Remote.Replace.{write_remote}

module _ (E : Env) (c : Settings) where
  pub read_remote-state : (h : Machine E) → (read_remote E c h).1.state ≡ h.state
  unfolding read_remote remote_state_exists run_command
  read_remote-state h = ground arith

  pub write_remote-state :
      (d : SyncFileData) (etag : Text) (h : Machine E)
      → (write_remote E c d etag h).1.state ≡ h.state
  unfolding write_remote disk run run_command
  write_remote-state d etag h = ground arith
