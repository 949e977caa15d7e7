-- ===== src/Config/Parse.antt =====
-- src/main.go: `parseConfig`, and what `main` does with its result.
use rclonewatch.Prelude.{
  ℕ, zero, suc, Bool, true, false, not, ◌&&◌, ◌||◌, Option, none, some, Text, List, [], ◌∷◌, codes,
  text_eq, if◌then◌else◌, is_empty,
}
use rclonewatch.Prelude.Int.{ℤ, pos, negsuc}
use rclonewatch.Effect.{Error, text, wrap, failed, SyncFilePaths, Result, ok, err}
use rclonewatch.Path.Resolve.{absolute, resolve_sync_file_paths}
use rclonewatch.Config.Flags.{
  FlagName, lock_ttl, lock_wait, persistent_lock, state_file, state_file_local, state_file_remote,
  ParsedConfig, default_config, flag_text,
}
use rclonewatch.Config.FlagSet.{FlagSet, Parsed, parsed, help, bad, parse_loop}

abbrev pub default_state_file : Text
default_state_file = codes ".rcw-state"

-- The arguments before the first `--`, and those behind it, if there is one.
unfoldable pub split_command : List Text → List Text × Option (List Text)
unfolding text_eq
split_command [] = ([], none)
split_command (a ∷ args) =
    let (front, command) = split_command args in
    if text_eq a (codes "--") then ([], some args) else (a ∷ front, command)

-- `flags.Visit`: whether an option was given.
unfoldable pub is_set : FlagName → List FlagName → Bool
unfolding text_eq flag_text
is_set f [] = false
is_set f (g ∷ gs) = text_eq (flag_text f) (flag_text g) || is_set f gs

-- The operating system's part: `os.Stat`, with whether the file is a directory, and
-- `filepath.EvalSymlinks`.
pub record Files : Type 0 where
  pub stat : Text → Option Bool
  pub eval_symlinks : Text → Option Text

-- How `parseConfig` ends.
pub data Outcome : Type 0 where
  config : ParsedConfig → Outcome
  show_help : Outcome
  usage : Error → Outcome

abbrev pub is_negative : ℤ → Bool
is_negative (pos _) = false
is_negative (negsuc _) = true

abbrev pub is_positive : ℤ → Bool
is_positive (pos zero) = false
is_positive (pos (suc _)) = true
is_positive (negsuc _) = false

-- The tests of `--upload-only`, in their order.
unfoldable pub upload_only_conflict : List FlagName → ParsedConfig → Option Error
unfolding is_set
upload_only_conflict set c =
    if is_set lock_ttl set
    then some (text "--lock-ttl cannot be used with --upload-only")
    else (if is_set lock_wait set
        then some (text "--lock-wait cannot be used with --upload-only")
        else (if is_set persistent_lock set
            then some (text "--persistent-lock cannot be used with --upload-only")
            else (if c.force_delete_remote
                then some (text "--force-delete-untracked-remote cannot be used with --upload-only")
                else (if c.no_consistent_writes
                    then some (text "--no-consistent-writes cannot be used with --upload-only")
                    else (if c.fail_on_incomplete
                        then some
                            (text "--fail-on-incomplete-sync cannot be used with --upload-only")
                        else (if is_set state_file set || is_set state_file_local set
                            then some
                                (text "state file path options cannot be used with --upload-only")
                            else none))))))

abbrev same : Bool → Bool → Bool
same a b = if a then b else not b

-- The tests of the options.
unfoldable pub check_options : FlagSet → Option Error
unfolding is_set upload_only_conflict
check_options s =
    let c = s.config in
    let both = is_set state_file s.given in
    let local = is_set state_file_local s.given in
    let remote = is_set state_file_remote s.given in
    if is_negative c.interval
    then some (text "--interval must not be negative")
    else (if not (is_positive c.lock_timeout)
        then some (text "--lock-ttl must be greater than zero")
        else (if is_set persistent_lock s.given && is_empty c.persistent_lock
            then some (text "--persistent-lock must not be empty")
            else (if both && (local || remote)
                then some (
                    text
                      "--state-file cannot be combined with --state-file-local or --state-file-remote")
                else (if not (same local remote)
                    then some (
                        text
                          "--state-file-local and --state-file-remote must be specified together")
                    else (if c.upload_only then upload_only_conflict s.given c else none)))))

-- The paths of the state file relative to both sides.
unfoldable pub state_file_names : FlagSet → Text × Text
unfolding is_set
state_file_names s =
    let c = s.config in
    if is_set state_file s.given
    then (c.state_file, c.state_file)
    else (if is_set state_file_local s.given
        then (c.state_file_local, c.state_file_remote)
        else (default_state_file, default_state_file))

abbrev pub with_paths : ParsedConfig → Result SyncFilePaths → Outcome
with_paths c (err e) = usage (wrap "resolve state file paths" e)
with_paths c (ok paths) = config (record c { sync_paths = paths })

-- The flag set before the arguments are read.
abbrev pub start_set : List Text → FlagSet
start_set command = record { config = record default_config { command = command }; given = [] }

module _ (wd : Text) (files : Files) where
  -- The directory to watch, without symbolic links.
  unfoldable pub source_of : Text → Result Text
  source_of argument = elim (files.stat (absolute wd argument)) [
    | none ↦ err (wrap "source folder" failed)
    | some false ↦ err (text "source folder is not a directory")
    | some true ↦ elim (files.eval_symlinks (absolute wd argument)) [
      | none ↦ err (wrap "resolve source folder" failed)
      | some path ↦ ok path
    ]
  ]

  unfoldable pub with_source : FlagSet → Text → Result Text → Outcome
  unfolding state_file_names resolve_sync_file_paths
  with_source s dest (err e) = usage e
  with_source s dest (ok path) =
      let c = record s.config { source = path; dest = dest } in
      let names = state_file_names s in
      if s.config.upload_only
      then config c
      else with_paths c (resolve_sync_file_paths wd path dest names.0 names.1)

  unfoldable pub with_arguments : FlagSet → List Text → Outcome
  unfolding source_of with_source
  with_arguments s (argument ∷ dest ∷ []) = with_source s dest (source_of argument)
  with_arguments s _ = usage (text "expected a source folder and rclone destination")

  abbrev pub checked : FlagSet → List Text → Option Error → Outcome
  checked s args (some e) = usage e
  checked s args none = with_arguments s args

  unfoldable pub with_options : Parsed → Outcome
  unfolding check_options with_arguments
  with_options help = show_help
  with_options (bad e) = usage e
  with_options (parsed s args) = checked s args (check_options s)

  module _ (fraction_of : ℕ → ℕ → ℕ → ℕ) where
    unfoldable pub parse_before : List Text → Option (List Text) → Outcome
    unfolding parse_loop with_options
    parse_before args none = with_options (parse_loop fraction_of none (start_set []) args)
    parse_before args (some []) = usage (text "expected a command after --")
    parse_before args (some (c ∷ cs)) =
        with_options (parse_loop fraction_of none (start_set (c ∷ cs)) args)

    -- `parseConfig`
    unfoldable pub parse_config : List Text → Outcome
    unfolding split_command parse_before
    parse_config args = parse_before (split_command args).0 (split_command args).1

    -- The exit status of `main`, which ends with that of `run`.
    unfoldable pub main_exit_code : (ParsedConfig → ℕ) → List Text → ℕ
    unfolding parse_config
    main_exit_code run args = elim (parse_config args) [
      | config c ↦ run c
      | show_help ↦ 0
      | usage _ ↦ 2
    ]
