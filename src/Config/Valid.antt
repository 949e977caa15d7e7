-- ===== src/Config/Valid.antt =====
-- What holds of every configuration that `parseConfig` accepts.
use rclonewatch.Prelude.{
  ◌≡◌, refl, sym, subst, inl, inr, ℕ, suc, true, false, Option, none, some, Text, List, [], ◌∷◌,
}
use rclonewatch.Prelude.Int.{pos}
use rclonewatch.Effect.{ok}
use rclonewatch.Path.Resolve.{absolute, resolve_sync_file_paths}
use rclonewatch.Config.Flags.{ParsedConfig, default_lock_ttl, no_wait}
use rclonewatch.Config.FlagSet.{FlagSet, Parsed, parsed, help, bad, parse_loop}
use rclonewatch.Config.Parse.{
  start_set, split_command, Files, config, check_options, state_file_names, parse_before,
  parse_config, with_options,
}
use rclonewatch.Config.Invariant.{IsUntouched, parse_loop-IsUntouched}
use rclonewatch.Config.Checks.{
  IsCommand, check_options-none, upload_only_conflict-none, split_command-some, split_command-none,
  source_of_ok, with_arguments-IsFrom, IsFrom, is_negative-false, is_positive-true, checked_config,
}

-- What `parseConfig` promises of a configuration that it accepts.
pub record IsValid (wd : Text) (files : Files) (args : List Text) (c : ParsedConfig) : Type 0 where
  pub interval : (n : ℕ) × (c.interval ≡ pos n)
  pub lock_timeout : (n : ℕ) × (c.lock_timeout ≡ pos (suc n))
  -- No option of the lock or of the state file is in force with `--upload-only`.
  pub upload_only :
      c.upload_only ≡ true
      → (c.lock_timeout ≡ pos default_lock_ttl)
        × (c.lock_wait ≡ no_wait)
        × (c.persistent_lock ≡ [])
        × (c.force_delete_remote ≡ false)
        × (c.no_consistent_writes ≡ false)
        × (c.fail_on_incomplete ≡ false)
  -- Without it, the paths of the state file have been resolved for this source and destination.
  pub sync_paths :
      c.upload_only ≡ false
      → (names : Text × Text) × (resolve_sync_file_paths wd c.source c.dest names.0 names.1
          ≡ ok c.sync_paths)
  -- The source is a directory, without symbolic links.
  pub source :
      (argument : Text) × (files.stat (absolute wd argument) ≡ some true)
      × (files.eval_symlinks (absolute wd argument) ≡ some c.source)
  pub command : IsCommand args c.command

start_set-IsUntouched : (command : List Text) → IsUntouched command (start_set command)
start_set-IsUntouched command = record {
  has_command = refl;
  has_lock_ttl = λ _. refl;
  has_lock_wait = λ _. refl;
  has_persistent_lock = λ _. refl;
}

-- From the options that have been read to the configuration.
checked-IsValid :
    (wd : Text) (files : Files) (args command : List Text) (s : FlagSet) (rest : List Text)
    (c : ParsedConfig)
    → IsCommand args command
    → IsUntouched command s
    → with_options wd files (parsed s rest) ≡ config c
    → IsValid wd files args c
unfolding with_options IsFrom
checked-IsValid wd files args command s rest c h u e =
    let (k, f) = checked_config wd files s rest (check_options s) c e in
    let (fresh, ttl, conflict) = check_options-none s k in
    let (argument, from) = with_arguments-IsFrom wd files s rest c f in
    let (dest, path, paths, q, r, t) = from in
    let (stat, links) = source_of_ok wd files argument path r in
    rw q record {
      interval = is_negative-false s.config.interval fresh;
      lock_timeout = is_positive-true s.config.lock_timeout ttl;
      upload_only = λ b.
          let (l, w, p, x, y, z) = upload_only_conflict-none s.given s.config (conflict b) in
          (u.has_lock_ttl l, u.has_lock_wait w, u.has_persistent_lock p, x, y, z);
      sync_paths = λ b. (state_file_names s, t b);
      source = (argument, stat, links);
      command = subst (IsCommand args) (sym u.has_command) h;
    }

from_options :
    (wd : Text) (files : Files) (fraction_of : ℕ → ℕ → ℕ → ℕ) (args command front : List Text)
    (c : ParsedConfig)
    → IsCommand args command
    → with_options wd files (parse_loop fraction_of none (start_set command) front) ≡ config c
    → IsValid wd files args c
unfolding with_options
from_options wd files fraction_of args command front c h e =
    go (parse_loop fraction_of none (start_set command) front) refl e
  where
    go :
        (p : Parsed)
        → parse_loop fraction_of none (start_set command) front ≡ p
        → with_options wd files p ≡ config c
        → IsValid wd files args c
    go help p q = absurd cc
    go (bad x) p q = absurd cc
    go (parsed s rest) p q =
        checked-IsValid wd files args command s rest c h
          (parse_loop-IsUntouched fraction_of none (start_set command) s front rest p
            (start_set-IsUntouched command))
          q

parse_before-IsValid :
    (wd : Text) (files : Files) (fraction_of : ℕ → ℕ → ℕ → ℕ) (args : List Text) (c : ParsedConfig)
    (o : Option (List Text))
    → (split_command args).1 ≡ o
    → parse_before wd files fraction_of (split_command args).0 o ≡ config c
    → IsValid wd files args c
unfolding parse_before
parse_before-IsValid wd files fraction_of args c none p e =
    from_options wd files fraction_of args [] (split_command args).0 c
      (inr (split_command-none args p, refl)) e
parse_before-IsValid wd files fraction_of args c (some []) p e = absurd cc
parse_before-IsValid wd files fraction_of args c (some (x ∷ xs)) p e =
    let (q, d) = split_command-some args (x ∷ xs) p in
    from_options wd files fraction_of args (x ∷ xs) (split_command args).0 c
      (inl ((split_command args).0, q, d, λ n. cc)) e

-- A configuration that `parseConfig` accepts has an interval that is not negative and a lock timeout
-- above zero; with `--upload-only`, every option of the lock has its default; without it, the
-- paths of the state file have been resolved for its source and destination; its source is a
-- directory, without symbolic links; and its command is what stands behind the first `--`.
pub parse_config-IsValid :
    (wd : Text) (files : Files) (fraction_of : ℕ → ℕ → ℕ → ℕ) (args : List Text) (c : ParsedConfig)
    → parse_config wd files fraction_of args ≡ config c
    → IsValid wd files args c
unfolding parse_config
parse_config-IsValid wd files fraction_of args c e =
    parse_before-IsValid wd files fraction_of args c (split_command args).1 refl e
