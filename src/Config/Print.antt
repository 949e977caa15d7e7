-- ===== src/Config/Print.antt =====
-- The options as they are written on a command line, and that `Parse` reads them back.
use rclonewatch.Prelude.{
  ◌≡◌, refl, ap, ◌∙◌, ℕ, true, false, none, some, Text, List, [], ◌∷◌, ◌++◌, codes, text_eq, All,
}
use rclonewatch.Effect.{Result, ok, err}
use rclonewatch.Config.Flags.{
  FlagName, interval, lock_ttl, lock_wait, persistent_lock, exclude, logs, upload_only,
  force_delete_untracked_remote, fail_on_incomplete_sync, no_consistent_writes, state_file,
  state_file_local, state_file_remote, flag_text, all_flags, is_bool_flag,
}
use rclonewatch.Config.FlagSet.{
  FlagSet, Parsed, parsed, bad, positional, flag, split_value, argument_of, find_flag, set_flag,
  parse_one, parse_loop, of_set, stop, needs,
}
use rclonewatch.Config.Invariant.{loop_on, set_on, option_place, value_place}

-- An option as `--name=value`, as `--name value`, or as `--name`.
pub data Given : Type 0 where
  joined : FlagName → Text → Given
  apart : FlagName → Text → Given
  bare : FlagName → Given

-- A value stands apart from its option only if the option needs one, and is left out only if it does
-- not.
abbrev pub IsGiven : Given → Type 0
unfolding is_bool_flag
IsGiven (joined f v) = Unit
IsGiven (apart f v) = is_bool_flag f ≡ false
IsGiven (bare f) = is_bool_flag f ≡ true

abbrev pub dashed : FlagName → Text → Text
unfolding flag_text
dashed f s = b'-' ∷ b'-' ∷ (flag_text f ++ s)

abbrev pub print : Given → List Text → List Text
print (joined f v) args = dashed f (b'=' ∷ v) ∷ args
print (apart f v) args = dashed f [] ∷ v ∷ args
print (bare f) args = dashed f [] ∷ args

abbrev pub print_all : List Given → List Text → List Text
print_all [] args = args
print_all (g ∷ gs) args = print g (print_all gs args)

-- The arguments that are left do not begin with an option.
abbrev pub IsPositional : List Text → Type 0
unfolding argument_of
IsPositional [] = Unit
IsPositional (a ∷ args) = argument_of a ≡ positional

joined_argument :
    (f : FlagName) (v : Text) → argument_of (dashed f (b'=' ∷ v)) ≡ flag (flag_text f) (some v)
unfolding argument_of split_value flag_text
joined_argument interval v = refl
joined_argument lock_ttl v = refl
joined_argument lock_wait v = refl
joined_argument persistent_lock v = refl
joined_argument exclude v = refl
joined_argument logs v = refl
joined_argument upload_only v = refl
joined_argument force_delete_untracked_remote v = refl
joined_argument fail_on_incomplete_sync v = refl
joined_argument no_consistent_writes v = refl
joined_argument state_file v = refl
joined_argument state_file_local v = refl
joined_argument state_file_remote v = refl

bare_argument : (f : FlagName) → argument_of (dashed f []) ≡ flag (flag_text f) none
unfolding argument_of split_value flag_text
bare_argument interval = refl
bare_argument lock_ttl = refl
bare_argument lock_wait = refl
bare_argument persistent_lock = refl
bare_argument exclude = refl
bare_argument logs = refl
bare_argument upload_only = refl
bare_argument force_delete_untracked_remote = refl
bare_argument fail_on_incomplete_sync = refl
bare_argument no_consistent_writes = refl
bare_argument state_file = refl
bare_argument state_file_local = refl
bare_argument state_file_remote = refl

find_flag-flag_text : (f : FlagName) → find_flag all_flags (flag_text f) ≡ some f
unfolding find_flag flag_text text_eq
find_flag-flag_text interval = refl
find_flag-flag_text lock_ttl = refl
find_flag-flag_text lock_wait = refl
find_flag-flag_text persistent_lock = refl
find_flag-flag_text exclude = refl
find_flag-flag_text logs = refl
find_flag-flag_text upload_only = refl
find_flag-flag_text force_delete_untracked_remote = refl
find_flag-flag_text fail_on_incomplete_sync = refl
find_flag-flag_text no_consistent_writes = refl
find_flag-flag_text state_file = refl
find_flag-flag_text state_file_local = refl
find_flag-flag_text state_file_remote = refl

module _ (fraction_of : ℕ → ℕ → ℕ → ℕ) where
  abbrev pub given_value : Given → FlagSet → Result FlagSet
  unfolding set_flag
  given_value (joined f v) s = set_flag fraction_of f v s
  given_value (apart f v) s = set_flag fraction_of f v s
  given_value (bare f) s = set_flag fraction_of f (codes "true") s

  -- The options set one after the other, up to the first error.
  unfoldable pub set_all : List Given → List Text → FlagSet → Parsed
  set_all [] rest s = parsed s rest
  set_all (g ∷ gs) rest s = elim (given_value g s) [ err e ↦ bad e | ok t ↦ set_all gs rest t ]

  -- What follows an option.
  set_next : List Given → List Text → Result FlagSet → Parsed
  set_next gs rest (err e) = bad e
  set_next gs rest (ok t) = set_all gs rest t

  step_joined :
      (f : FlagName) (v : Text) (s : FlagSet)
      → parse_one fraction_of s (dashed f (b'=' ∷ v)) ≡ of_set (set_flag fraction_of f v s)
  unfolding parse_one
  step_joined f v s = rw (joined_argument f v, find_flag-flag_text f) refl

  step_apart :
      (f : FlagName) (s : FlagSet)
      → is_bool_flag f ≡ false
      → parse_one fraction_of s (dashed f []) ≡ needs f
  unfolding parse_one
  step_apart f s h = rw (bare_argument f, find_flag-flag_text f, h) refl

  step_bare :
      (f : FlagName) (s : FlagSet)
      → is_bool_flag f ≡ true
      → parse_one fraction_of s (dashed f []) ≡ of_set (set_flag fraction_of f (codes "true") s)
  unfolding parse_one
  step_bare f s h = rw (bare_argument f, find_flag-flag_text f, h) refl

  step_positional :
      (a : Text) (s : FlagSet) → argument_of a ≡ positional → parse_one fraction_of s a ≡ stop
  unfolding parse_one
  step_positional a s h = rw h refl

  behind_option :
      (gs : List Given) (rest args : List Text) (s : FlagSet) (a : Text) (r : Result FlagSet)
      → ((t : FlagSet) → parse_loop fraction_of none t args ≡ set_all gs rest t)
      → loop_on fraction_of s a args (of_set r) ≡ set_next gs rest r
  unfolding loop_on set_next
  behind_option gs rest args s a (ok t) h = h t
  behind_option gs rest args s a (err x) h = refl

  behind_value :
      (gs : List Given) (rest args : List Text) (r : Result FlagSet)
      → ((t : FlagSet) → parse_loop fraction_of none t args ≡ set_all gs rest t)
      → set_on fraction_of args r ≡ set_next gs rest r
  unfolding set_on set_next
  behind_value gs rest args (ok t) h = h t
  behind_value gs rest args (err x) h = refl

  -- What options stand on the command line, in whichever form, is set in their order, up to the first
  -- error; the arguments behind them are left.
  pub parse_loop-print_all :
      (gs : List Given) (rest : List Text) (s : FlagSet)
      → All IsGiven gs
      → IsPositional rest
      → parse_loop fraction_of none s (print_all gs rest) ≡ set_all gs rest s
  unfolding parse_loop set_all loop_on set_next
  parse_loop-print_all [] [] s h p = refl
  parse_loop-print_all [] (a ∷ rest) s h p = rw (parse_loop, step_positional a s p) refl
  parse_loop-print_all (joined f v ∷ gs) rest s h p =
      option_place fraction_of s (dashed f (b'=' ∷ v)) (print_all gs rest)
      ∙ ap (loop_on fraction_of s (dashed f (b'=' ∷ v)) (print_all gs rest)) (step_joined f v s)
      ∙ behind_option gs rest (print_all gs rest) s (dashed f (b'=' ∷ v))
          (set_flag fraction_of f v s) (λ t. parse_loop-print_all gs rest t h.1 p)
  parse_loop-print_all (apart f v ∷ gs) rest s h p =
      option_place fraction_of s (dashed f []) (v ∷ print_all gs rest)
      ∙ ap (loop_on fraction_of s (dashed f []) (v ∷ print_all gs rest)) (step_apart f s h.0)
      ∙ value_place fraction_of f s v (print_all gs rest)
      ∙ behind_value gs rest (print_all gs rest) (set_flag fraction_of f v s)
          (λ t. parse_loop-print_all gs rest t h.1 p)
  parse_loop-print_all (bare f ∷ gs) rest s h p =
      option_place fraction_of s (dashed f []) (print_all gs rest)
      ∙ ap (loop_on fraction_of s (dashed f []) (print_all gs rest)) (step_bare f s h.0)
      ∙ behind_option gs rest (print_all gs rest) s (dashed f [])
          (set_flag fraction_of f (codes "true") s) (λ t. parse_loop-print_all gs rest t h.1 p)
