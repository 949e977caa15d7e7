-- ===== src/Config/Flags.antt =====
-- src/main.go: the options of `parseConfig`, and the setting of their values.
use rclonewatch.Prelude.{
  ℕ, String, Bool, true, false, ◌||◌, Option, none, some, Text, List, [], ◌∷◌, codes, text_eq,
  if◌then◌else◌,
}
use rclonewatch.Prelude.Int.{ℤ, pos}
use rclonewatch.Effect.{text, LockWait, SyncFilePaths, Result, ok, err}
use rclonewatch.Config.Duration.{parse_duration}
use rclonewatch.Config.LockWaitFlag.{set_exclude, set_lock_wait}

-- The options by their names on the command line.
pub data FlagName : Type 0 where
  interval : FlagName
  lock_ttl : FlagName
  lock_wait : FlagName
  persistent_lock : FlagName
  exclude : FlagName
  logs : FlagName
  upload_only : FlagName
  force_delete_untracked_remote : FlagName
  fail_on_incomplete_sync : FlagName
  no_consistent_writes : FlagName
  state_file : FlagName
  state_file_local : FlagName
  state_file_remote : FlagName

unfoldable pub flag_text : FlagName → Text
flag_text interval = codes "interval"
flag_text lock_ttl = codes "lock-ttl"
flag_text lock_wait = codes "lock-wait"
flag_text persistent_lock = codes "persistent-lock"
flag_text exclude = codes "exclude"
flag_text logs = codes "logs"
flag_text upload_only = codes "upload-only"
flag_text force_delete_untracked_remote = codes "force-delete-untracked-remote"
flag_text fail_on_incomplete_sync = codes "fail-on-incomplete-sync"
flag_text no_consistent_writes = codes "no-consistent-writes"
flag_text state_file = codes "state-file"
flag_text state_file_local = codes "state-file-local"
flag_text state_file_remote = codes "state-file-remote"

abbrev pub all_flags : List FlagName
all_flags =
    interval ∷ lock_ttl ∷ lock_wait ∷ persistent_lock ∷ exclude ∷ logs ∷ upload_only
    ∷ force_delete_untracked_remote ∷ fail_on_incomplete_sync ∷ no_consistent_writes ∷ state_file
    ∷ state_file_local ∷ state_file_remote ∷ []

-- The options that need no value.
unfoldable pub is_bool_flag : FlagName → Bool
is_bool_flag logs = true
is_bool_flag upload_only = true
is_bool_flag force_delete_untracked_remote = true
is_bool_flag fail_on_incomplete_sync = true
is_bool_flag no_consistent_writes = true
is_bool_flag _ = false

-- `config`
pub record ParsedConfig : Type 0 where
  pub interval : ℤ
  pub lock_timeout : ℤ
  pub lock_wait : LockWait
  pub persistent_lock : Text
  pub excludes : List Text
  pub logs : Bool
  pub upload_only : Bool
  pub force_delete_remote : Bool
  pub fail_on_incomplete : Bool
  pub no_consistent_writes : Bool
  pub state_file : Text
  pub state_file_local : Text
  pub state_file_remote : Text
  pub sync_paths : SyncFilePaths
  pub source : Text
  pub dest : Text
  pub command : List Text

-- Two minutes, in nanoseconds.
abbrev pub default_lock_ttl : ℕ
default_lock_ttl = 120000000000

abbrev pub no_wait : LockWait
no_wait = record { duration = 0; infinite = false; explicit = false }

-- The configuration before the options are read.
abbrev pub default_config : ParsedConfig
default_config = record {
  interval = pos 0;
  lock_timeout = pos default_lock_ttl;
  lock_wait = no_wait;
  persistent_lock = [];
  excludes = [];
  logs = false;
  upload_only = false;
  force_delete_remote = false;
  fail_on_incomplete = false;
  no_consistent_writes = false;
  state_file = [];
  state_file_local = [];
  state_file_remote = [];
  sync_paths = record { local = []; remote = []; local_filter = []; remote_filter = [] };
  source = [];
  dest = [];
  command = [];
}

abbrev one_of : List String → Text → Bool
one_of [] s = false
one_of (t ∷ ts) s = text_eq s (codes t) || one_of ts s

-- `strconv.ParseBool`
unfoldable pub parse_bool : Text → Option Bool
unfolding text_eq
parse_bool s =
    if one_of ("1" ∷ "t" ∷ "T" ∷ "true" ∷ "TRUE" ∷ "True" ∷ []) s
    then some true
    else (if one_of ("0" ∷ "f" ∷ "F" ∷ "false" ∷ "FALSE" ∷ "False" ∷ []) s
        then some false
        else none)

abbrev pub of_option : {A : Type 0} → (A → ParsedConfig) → Option A → Result ParsedConfig
of_option f none = err (text "parse error")
of_option f (some a) = ok (f a)

abbrev pub of_result : {A : Type 0} → (A → ParsedConfig) → Result A → Result ParsedConfig
of_result f (err e) = err e
of_result f (ok a) = ok (f a)

module _ (fraction_of : ℕ → ℕ → ℕ → ℕ) where
  -- The `Set` of an option's value.
  unfoldable pub set_value : FlagName → Text → ParsedConfig → Result ParsedConfig
  unfolding parse_duration parse_bool set_exclude set_lock_wait
  set_value interval v c =
      of_option (λ (d : ℤ). record c { interval = d }) (parse_duration fraction_of v)
  set_value lock_ttl v c =
      of_option (λ (d : ℤ). record c { lock_timeout = d }) (parse_duration fraction_of v)
  set_value lock_wait v c =
      of_result (λ (w : LockWait). record c { lock_wait = w })
        (set_lock_wait fraction_of v c.lock_wait).0
  set_value persistent_lock v c = ok (record c { persistent_lock = v })
  set_value exclude v c =
      of_result (λ (ps : List Text). record c { excludes = ps }) (set_exclude v c.excludes)
  set_value logs v c = of_option (λ (b : Bool). record c { logs = b }) (parse_bool v)
  set_value upload_only v c = of_option (λ (b : Bool). record c { upload_only = b }) (parse_bool v)
  set_value force_delete_untracked_remote v c =
      of_option (λ (b : Bool). record c { force_delete_remote = b }) (parse_bool v)
  set_value fail_on_incomplete_sync v c =
      of_option (λ (b : Bool). record c { fail_on_incomplete = b }) (parse_bool v)
  set_value no_consistent_writes v c =
      of_option (λ (b : Bool). record c { no_consistent_writes = b }) (parse_bool v)
  set_value state_file v c = ok (record c { state_file = v })
  set_value state_file_local v c = ok (record c { state_file_local = v })
  set_value state_file_remote v c = ok (record c { state_file_remote = v })
