-- ===== src/Main/Rclone.antt =====
-- src/main.go: `rcloneCommand`, which runs rclone.
use rclonewatch.Prelude.{Bool, ◌++◌, Option, none, some, Text, List, [], ◌∷◌, codes, if◌then◌else◌}
use rclonewatch.Effect.{Error, Status, command_error, status_error}

-- The arguments that rclone gets.
unfoldable pub rclone_args : List Text → List Text
rclone_args args = args ++ (codes "--s3-no-check-bucket" ∷ [])

abbrev pub with_captured : Text → Option Error → Option Error
unfolding command_error
with_captured output none = none
with_captured output (some e) = some (command_error e output)

-- The error of `Run`: where the caller takes none of the output, the error holds it.
unfoldable pub rclone_error : Bool → Status → Text → Option Error
rclone_error taken status output =
    if taken then status_error status else with_captured output (status_error status)
