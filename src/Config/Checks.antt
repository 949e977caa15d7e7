-- ===== src/Config/Checks.antt =====
-- What the tests of `parseConfig` leave.
use rclonewatch.Prelude.{
  ◌≡◌, refl, ap, ◌⊎◌, inl, inr, ◌≢◌, ℕ, zero, suc, Bool, true, false, Option, none, some, Text,
  List, [], ◌∷◌, ◌++◌, codes, text_eq, text_eq_iff, if◌then◌else◌, Bool-cases, All, arith,
}
use rclonewatch.Prelude.Int.{ℤ, pos, negsuc}
use rclonewatch.Effect.{Error, SyncFilePaths, Result, ok, err}
use rclonewatch.Path.Resolve.{absolute, resolve_sync_file_paths}
use rclonewatch.Config.Flags.{FlagName, lock_ttl, lock_wait, persistent_lock, ParsedConfig}
use rclonewatch.Config.FlagSet.{FlagSet}
use rclonewatch.Config.Parse.{
  is_set, split_command, Files, config, is_negative, is_positive, upload_only_conflict,
  check_options, state_file_names, source_of, with_source, with_arguments, with_paths, checked,
}

abbrev pub NotDashes : Text → Type 0
unfolding text_eq
NotDashes a = text_eq a (codes "--") ≡ false

-- The command is what stands behind the first `--`, or there is neither.
abbrev pub IsCommand : List Text → List Text → Type 0
IsCommand args command =
    ((front : List Text) × (args ≡ front ++ (codes "--" ∷ command))
      × All NotDashes front
      × (command ≢ []))
    ⊎ (All NotDashes args × (command ≡ []))

pub check_options-none :
    (s : FlagSet)
    → check_options s ≡ none
    → (is_negative s.config.interval ≡ false)
      × (is_positive s.config.lock_timeout ≡ true)
      × (s.config.upload_only ≡ true → upload_only_conflict s.given s.config ≡ none)
unfolding check_options
check_options-none s e = ground arith

pub upload_only_conflict-none :
    (set : List FlagName) (c : ParsedConfig)
    → upload_only_conflict set c ≡ none
    → (is_set lock_ttl set ≡ false)
      × (is_set lock_wait set ≡ false)
      × (is_set persistent_lock set ≡ false)
      × (c.force_delete_remote ≡ false)
      × (c.no_consistent_writes ≡ false)
      × (c.fail_on_incomplete ≡ false)
unfolding upload_only_conflict
upload_only_conflict-none set c e = ground arith

pub split_command-some :
    (args command : List Text)
    → (split_command args).1 ≡ some command
    → (args ≡ (split_command args).0 ++ (codes "--" ∷ command))
      × All NotDashes (split_command args).0
unfolding split_command
split_command-some [] command e = absurd cc
split_command-some (a ∷ args) command e = elim (Bool-cases (text_eq a (codes "--"))) [
  | inl p ↦
      let q : a ≡ codes "--" = (text_eq_iff a (codes "--")).0 p in
      let r : args ≡ command = ground arith in rw p (rw (q, r) (refl, tt))
  | inr p ↦
      let r : (split_command args).1 ≡ some command = ground arith in
      let h = split_command-some args command r in
      rw p (ap (λ (u : List Text). a ∷ u) h.0, (p, h.1))
]

pub split_command-none : (args : List Text) → (split_command args).1 ≡ none → All NotDashes args
unfolding split_command
split_command-none [] e = tt
split_command-none (a ∷ args) e = elim (Bool-cases (text_eq a (codes "--"))) [
  | inl p ↦ absurd (ground arith)
  | inr p ↦ let r : (split_command args).1 ≡ none = ground arith in (p, split_command-none args r)
]

pub source_of_ok :
    (wd : Text) (files : Files) (argument path : Text)
    → source_of wd files argument ≡ ok path
    → (files.stat (absolute wd argument) ≡ some true)
      × (files.eval_symlinks (absolute wd argument) ≡ some path)
unfolding source_of
source_of_ok wd files argument path e = ground arith

with_paths_config :
    (d c : ParsedConfig) (r : Result SyncFilePaths)
    → with_paths d r ≡ config c
    → (paths : SyncFilePaths) × (r ≡ ok paths) × (c ≡ record d { sync_paths = paths })
with_paths_config d c (err x) e = absurd cc
with_paths_config d c (ok paths) e = (paths, refl, cc)

-- What a configuration keeps of the options.
unfoldable pub IsFrom : Text → FlagSet → Result Text → ParsedConfig → Type 0
unfolding state_file_names
IsFrom wd s r c =
    (dest path : Text) × (paths : SyncFilePaths) × (c
      ≡ record s.config { source = path; dest = dest; sync_paths = paths })
    × (r ≡ ok path)
    × (s.config.upload_only ≡ false
        → resolve_sync_file_paths wd path dest (state_file_names s).0 (state_file_names s).1
          ≡ ok paths)

-- With and without `--upload-only`.
by_mode :
    (wd path dest : Text) (s : FlagSet) (c : ParsedConfig) (b : Bool)
    → s.config.upload_only ≡ b
    → (let d = record s.config { source = path; dest = dest } in
        if b
        then config d
        else with_paths d
            (resolve_sync_file_paths wd path dest (state_file_names s).0 (state_file_names s).1))
      ≡ config c
    → IsFrom wd s (ok path) c
unfolding IsFrom
by_mode wd path dest s c true b e = (dest, path, s.config.sync_paths, cc, refl, λ n. absurd cc)
by_mode wd path dest s c false b e =
    let (paths, p, q) =
      with_paths_config (record s.config { source = path; dest = dest }) c
        (resolve_sync_file_paths wd path dest (state_file_names s).0 (state_file_names s).1) e in
    (dest, path, paths, q, refl, λ n. p)

with_source-IsFrom :
    (wd : Text) (files : Files) (dest : Text) (s : FlagSet) (r : Result Text) (c : ParsedConfig)
    → with_source wd files s dest r ≡ config c
    → IsFrom wd s r c
unfolding with_source
with_source-IsFrom wd files dest s (err x) c e = absurd cc
with_source-IsFrom wd files dest s (ok path) c e =
    by_mode wd path dest s c s.config.upload_only refl e

pub with_arguments-IsFrom :
    (wd : Text) (files : Files) (s : FlagSet) (rest : List Text) (c : ParsedConfig)
    → with_arguments wd files s rest ≡ config c
    → (argument : Text) × IsFrom wd s (source_of wd files argument) c
unfolding with_arguments
with_arguments-IsFrom wd files s [] c e = absurd cc
with_arguments-IsFrom wd files s (a ∷ []) c e = absurd cc
with_arguments-IsFrom wd files s (a ∷ b ∷ d ∷ rest) c e = absurd cc
with_arguments-IsFrom wd files s (a ∷ b ∷ []) c e =
    (a, with_source-IsFrom wd files b s (source_of wd files a) c e)

pub is_negative-false : (z : ℤ) → is_negative z ≡ false → (n : ℕ) × (z ≡ pos n)
is_negative-false (pos n) e = (n, refl)
is_negative-false (negsuc n) e = absurd cc

pub is_positive-true : (z : ℤ) → is_positive z ≡ true → (n : ℕ) × (z ≡ pos (suc n))
is_positive-true (pos zero) e = absurd cc
is_positive-true (pos (suc n)) e = (n, refl)
is_positive-true (negsuc n) e = absurd cc

pub checked_config :
    (wd : Text) (files : Files) (s : FlagSet) (rest : List Text) (o : Option Error)
    (c : ParsedConfig)
    → checked wd files s rest o ≡ config c
    → (o ≡ none) × (with_arguments wd files s rest ≡ config c)
checked_config wd files s rest none c e = (refl, e)
checked_config wd files s rest (some x) c e = absurd cc
