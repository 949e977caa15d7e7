-- ===== src/Examples/Startup.antt =====
-- The command line and the choice of the backend, at concrete inputs.
use rclonewatch.Prelude.{
  ℕ, true, false, some, Text, List, [], ◌∷◌, ◌++◌, codes, ◌≡◌, ◌↔◌, ◌⊎◌, ◌<◌, ◌≤◌, refl, arith,
  text_eq,
}
use rclonewatch.Effect.{ok}
use rclonewatch.Path.Clean.{clean}
use rclonewatch.Backend.{check_version}
use rclonewatch.Backend.Version.{version_output, check_version_iff}
use rclonewatch.Config.Duration.Units.{seconds}
use rclonewatch.Config.LockWaitFlag.{set_lock_wait}
use rclonewatch.Config.WaitUnits.{set_lock_wait-decimal}
use rclonewatch.Config.Flags.{no_wait, ParsedConfig, flag_text, is_bool_flag, set_value, parse_bool}
use rclonewatch.Config.FlagSet.{
  parse_loop, parse_one, argument_of, split_value, find_flag, set_flag,
}
use rclonewatch.Config.Parse.{
  Files, Outcome, config, start_set, parse_config, split_command, parse_before, with_options,
  check_options, with_arguments, with_source, source_of, is_set, upload_only_conflict,
}
use rclonewatch.Config.Valid.{IsValid, parse_config-IsValid}
use rclonewatch.Prelude.Decimal.{decimal}

abbrev no_fraction : ℕ → ℕ → ℕ → ℕ
no_fraction f scale unit = 0

-- `rclonewatch --logs --upload-only /data r:b -- make`
abbrev demo_args : List Text
demo_args =
    codes "--logs"
    ∷ codes "--upload-only"
    ∷ codes "/data"
    ∷ codes "r:b"
    ∷ codes "--"
    ∷ codes "make"
    ∷ []

abbrev demo_files : Files
demo_files = record { stat = λ p. some true; eval_symlinks = λ p. some p }

abbrev demo_config : Outcome → ParsedConfig
demo_config (config c) = c
demo_config _ = (start_set []).config

demo_accepted :
    parse_config (codes "/") demo_files no_fraction demo_args
    ≡ config (demo_config (parse_config (codes "/") demo_files no_fraction demo_args))
unfolding parse_config parse_before split_command parse_loop parse_one argument_of split_value
    find_flag flag_text set_flag set_value is_bool_flag parse_bool with_options check_options is_set
    upload_only_conflict with_arguments source_of with_source text_eq clean
demo_accepted = refl

parse_config-IsValid_example :
    IsValid
      (codes "/")
      demo_files
      demo_args
      (demo_config (parse_config (codes "/") demo_files no_fraction demo_args))
parse_config-IsValid_example =
    parse_config-IsValid (codes "/") demo_files no_fraction demo_args
      (demo_config (parse_config (codes "/") demo_files no_fraction demo_args)) demo_accepted

set_lock_wait-decimal_example :
    (set_lock_wait no_fraction (decimal 90 ++ (b's' ∷ [])) no_wait).0
    ≡ ok (record { duration = 90000000000; infinite = false; explicit = true })
set_lock_wait-decimal_example =
    set_lock_wait-decimal no_fraction 90 seconds no_wait (omega arith) (omega arith)

check_version_iff_example :
    (check_version (version_output 1 73 (codes "0") (codes "- os")) ≡ ok tt)
    ↔ ((1 < 1) ⊎ ((◌≡◌ {A = ℕ} 1 1) × (73 ≤ 73)))
check_version_iff_example =
    check_version_iff 1 73 (codes "0") (codes "- os") (refl, tt) (omega arith) (omega arith)
