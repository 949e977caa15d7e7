-- ===== src/Config/FlagSet.antt =====
-- `flag.FlagSet.Parse`, by which `parseConfig` of src/main.go reads its options.
use rclonewatch.Prelude.{
  ℕ, ◌||◌, Option, none, some, Text, List, [], ◌∷◌, codes, text_eq, if◌then◌else◌, ◌==◌,
}
use rclonewatch.Effect.{Error, text, wrap, Result, ok, err}
use rclonewatch.Config.Flags.{FlagName, flag_text, all_flags, is_bool_flag, ParsedConfig, set_value}

-- The flag set: the values, and the options that were given, the latest first.
pub record FlagSet : Type 0 where
  pub config : ParsedConfig
  pub given : List FlagName

-- How `Parse` ends: the arguments that are left, a request for help, or an error.
pub data Parsed : Type 0 where
  parsed : FlagSet → List Text → Parsed
  help : Parsed
  bad : Error → Parsed

-- What one argument is.
pub data Argument : Type 0 where
  positional : Argument
  terminator : Argument
  flag : Text → Option Text → Argument
  bad_syntax : Argument

-- The name before the first `=` behind the first character, and the value behind it.
unfoldable pub split_value : Text → Text × Option Text
split_value [] = ([], none)
split_value (c ∷ s) =
    let (name, value) = split_value s in if c == b'=' then ([], some s) else (c ∷ name, value)

abbrev named : Text → Argument
named [] = bad_syntax
named (c ∷ s) =
    let (name, value) = split_value s in
    if c == b'-' || c == b'=' then bad_syntax else flag (c ∷ name) value

unfoldable pub argument_of : Text → Argument
unfolding split_value
argument_of [] = positional
argument_of (c ∷ []) = positional
argument_of (c ∷ d ∷ []) =
    if c == b'-' then (if d == b'-' then terminator else named (d ∷ [])) else positional
argument_of (c ∷ d ∷ e ∷ s) =
    if c == b'-' then (if d == b'-' then named (e ∷ s) else named (d ∷ e ∷ s)) else positional

-- `f.formal[name]`
unfoldable pub find_flag : List FlagName → Text → Option FlagName
unfolding flag_text text_eq
find_flag [] name = none
find_flag (f ∷ fs) name = if text_eq name (flag_text f) then some f else find_flag fs name

-- What one argument does: its option may need the next one.
pub data Step : Type 0 where
  stop : Step
  stop_behind : Step
  ask_help : Step
  refuse : Error → Step
  done : FlagSet → Step
  needs : FlagName → Step

abbrev pub of_set : Result FlagSet → Step
of_set (ok s) = done s
of_set (err e) = refuse e

abbrev pub unknown : Text → Step
unknown name =
    if text_eq name (codes "help") || text_eq name (codes "h")
    then ask_help
    else refuse (text "flag provided but not defined")

abbrev pub flagged : FlagName → FlagSet → Result ParsedConfig → Result FlagSet
flagged f s (err e) = err (wrap "invalid value for flag" e)
flagged f s (ok c) = ok (record { config = c; given = f ∷ s.given })

module _ (fraction_of : ℕ → ℕ → ℕ → ℕ) where
  -- An option with its value.
  unfoldable pub set_flag : FlagName → Text → FlagSet → Result FlagSet
  unfolding set_value
  set_flag f v s = flagged f s (set_value fraction_of f v s.config)

  abbrev pub use_flag : FlagSet → FlagName → Option Text → Step
  use_flag s f (some v) = of_set (set_flag f v s)
  use_flag s f none = if is_bool_flag f then of_set (set_flag f (codes "true") s) else needs f

  abbrev pub step_found : FlagSet → Text → Option Text → Option FlagName → Step
  step_found s name value none = unknown name
  step_found s name value (some f) = use_flag s f value

  abbrev pub step_at : FlagSet → Argument → Step
  step_at s positional = stop
  step_at s terminator = stop_behind
  step_at s bad_syntax = refuse (text "bad flag syntax")
  step_at s (flag name value) = step_found s name value (find_flag all_flags name)

  unfoldable pub parse_one : FlagSet → Text → Step
  unfolding argument_of find_flag set_flag is_bool_flag text_eq
  parse_one s a = step_at s (argument_of a)

  -- `Parse`: the option that waits for its value, if one does, and the arguments.
  unfoldable pub parse_loop : Option FlagName → FlagSet → List Text → Parsed
  unfolding parse_one
  parse_loop none s [] = parsed s []
  parse_loop (some f) s [] = bad (text "flag needs an argument")
  parse_loop (some f) s (a ∷ args) = elim (set_flag f a s) [
    | err e ↦ bad e
    | ok t ↦ parse_loop none t args
  ]
  parse_loop none s (a ∷ args) = elim (parse_one s a) [
    | stop ↦ parsed s (a ∷ args)
    | stop_behind ↦ parsed s args
    | ask_help ↦ help
    | refuse e ↦ bad e
    | done t ↦ parse_loop none t args
    | needs f ↦ parse_loop (some f) s args
  ]
