-- ===== src/Main/ExitCode.antt =====
-- src/main.go and src/terminal_linux.go: the exit status that a command's end stands for.
use rclonewatch.Prelude.{
  ℕ, ◌+◌, ◌/◌, ◌%◌, ◌≤◌, Bool, not, ◌&&◌, Option, none, some, ◌≡◌, arith, if◌then◌else◌, ◌==◌,
}

-- `syscall.WaitStatus`, as the kernel's number.
abbrev pub is_exited : ℕ → Bool
is_exited w = w % 128 == 0

abbrev pub is_signaled : ℕ → Bool
is_signaled w = not (w % 128 == 127) && not (w % 128 == 0)

abbrev pub is_stopped : ℕ → Bool
is_stopped w = w % 256 == 127

abbrev pub exit_status : ℕ → ℕ
exit_status w = w / 256 % 256

abbrev pub term_signal : ℕ → ℕ
term_signal w = w % 128

-- `waitStatusExitCode`
unfoldable pub wait_status_exit_code : ℕ → ℕ
wait_status_exit_code w =
    if is_exited w then exit_status w else (if is_signaled w then 128 + term_signal w else 1)

-- The error of `(*exec.Cmd).Wait`: an `*exec.ExitError` with its status, or another one.
pub data WaitError : Type 0 where
  exit_error : ℕ → WaitError
  wait_failed : WaitError

-- What `Wait` makes of a status: an error unless the command has exited with 0.
abbrev pub wait_result : ℕ → Option WaitError
wait_result w = if is_exited w && exit_status w == 0 then none else some (exit_error w)

-- `commandExitCode`
unfoldable pub command_exit_code : Option WaitError → ℕ
command_exit_code none = 0
command_exit_code (some wait_failed) = 1
command_exit_code (some (exit_error w)) =
    if is_exited w then exit_status w else (if is_signaled w then 128 + term_signal w else 1)

-- `signalExitCode`, for the signals of the operating system
unfoldable pub signal_exit_code : ℕ → ℕ
signal_exit_code sig = 128 + sig

-- Why a command does not start: `exec.ErrNotFound`, `os.ErrNotExist`, or another error.
pub data StartError : Type 0 where
  executable_not_found : StartError
  does_not_exist : StartError
  not_startable : StartError

-- `startExitCode`
unfoldable pub start_exit_code : StartError → ℕ
start_exit_code executable_not_found = 127
start_exit_code does_not_exist = 127
start_exit_code not_startable = 126

-- A command's exit status does not depend on whether the terminal was handed to it: both ways of
-- waiting make the same of what the kernel reports, and it is at most 255.
pub exit_codes_agree :
    (w : ℕ)
    → (command_exit_code (wait_result w) ≡ wait_status_exit_code w)
      × (wait_status_exit_code w ≤ 255)
unfolding command_exit_code wait_status_exit_code
exit_codes_agree w = ground arith
