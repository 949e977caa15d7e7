-- ===== src/Backend.antt =====
-- src/backend.go: which backend the destination has, and whether its state file is written under
-- conditions. The environment variables, the upper case of characters outside ASCII, and rclone's
-- answers to the two queries are parameters.
pub mod Version
pub mod Choice
use rclonewatch.Prelude.{
  ℕ, zero, suc, ◌-◌, Bool, true, false, not, ◌&&◌, ◌||◌, Option, none, some, Text, List, [], ◌∷◌,
  ◌++◌, codes, text_eq, has_prefix, if◌then◌else◌, is_empty, is_space, ltb, leb, ◌==◌, split, cut,
  map,
}
use rclonewatch.Prelude.Int.{ℤ, pos, negsuc}
use rclonewatch.Prelude.Decimal.{atoi}
use rclonewatch.Effect.{Error, text, wrap, command_error, Reply, Result, ok, err, status_error}
use rclonewatch.Path.Remote.{RemoteSpec, parse_remote}

-- `rclone listremotes --long` and `rclone version`.
pub data Query : Type 0 where
  list_remotes : Query
  version : Query

pub record Outside : Type 0 where
  -- `os.LookupEnv`
  pub lookup_env : Text → Option Text
  -- `unicode.ToUpper` outside ASCII
  pub upper : ℕ → ℕ
  pub ask : Query → Reply

-- `strings.Fields`: a field that has begun is given.
unfoldable pub fields_loop : Text → Text → List Text
fields_loop acc [] = if is_empty acc then [] else acc ∷ []
fields_loop acc (c ∷ s) =
    let stop = if is_empty acc then fields_loop [] s else acc ∷ fields_loop [] s in
    let go = fields_loop (acc ++ (c ∷ [])) s in if is_space c then stop else go

unfoldable pub fields : Text → List Text
unfolding fields_loop
fields = fields_loop []

-- `strings.TrimPrefix(s, c)` for one character.
abbrev pub trim_prefix : ℕ → Text → Text
trim_prefix p [] = []
trim_prefix p (c ∷ s) = if c == p then s else c ∷ s

-- What stands before the first separator, or all: the first result of `strings.Cut`.
abbrev pub before : ℕ → Text → Text
before sep [] = []
before sep (c ∷ s) = if c == sep then [] else c ∷ before sep s

unfoldable pub option_of : Text → List (Text × Text) → Option Text
option_of k [] = none
option_of k ((j, v) ∷ os) = if text_eq j k then some v else option_of k os

-- The backend that a line of the list gives for the remote.
abbrev listed_on : Text → Option (Text × Text) → Option Text
listed_on name none = none
listed_on name (some (found, rest)) = elim (fields rest) [
  | [] ↦ none
  | backend ∷ _ ↦ if text_eq found name then some backend else none
]

unfoldable pub listed : Text → List Text → Option Text
unfolding fields cut
listed name [] = none
listed name (line ∷ lines) =
    let rest = listed name lines in
    elim (listed_on name (cut b':' line)) [ some b ↦ some b | none ↦ rest ]

module _ (O : Outside) where
  abbrev to_upper : ℕ → ℕ
  to_upper c = if leb b'a' c && leb c b'z' then c - 32 else (if ltb c 128 then c else O.upper c)

  abbrev type_variable : Text → Text
  type_variable name = codes "RCLONE_CONFIG_" ++ (map to_upper name ++ codes "_TYPE")

  abbrev listing : Text → Reply → Option Error → Result Text
  listing name r (some e) = err (wrap "detect destination backend" (command_error e r.stderr))
  listing name r none = elim (listed name (split 10 r.stdout)) [
    | some b ↦ ok b
    | none ↦ err (text "cannot determine backend type for remote")
  ]

  abbrev configured : RemoteSpec → Result Text
  configured remote = elim (option_of (codes "type") remote.options) [
    | some b ↦ ok b
    | none ↦ elim (O.lookup_env (type_variable remote.name)) [
      | some b ↦ ok b
      | none ↦ let r = O.ask list_remotes in listing remote.name r (status_error r.status)
    ]
  ]

  abbrev pub backend_of : RemoteSpec → Option ℕ → Result Text
  backend_of remote none = ok (codes "local")
  backend_of remote (some _) =
      if has_prefix remote.name (b':' ∷ [])
      then ok (trim_prefix b':' remote.name)
      else configured remote

  -- `destinationBackend`
  unfoldable pub destination_backend : Text → Result Text
  unfolding listed option_of command_error split has_prefix
  destination_backend destination = elim (parse_remote destination) [
    | err e ↦ err e
    | ok remote ↦ backend_of remote remote.colon
  ]

-- Whether a version has conditional writes: `!(major < 1 || major == 1 && minor < 73)`.
abbrev pub is_recent : ℤ → ℤ → Bool
is_recent (pos zero) _ = false
is_recent (pos (suc zero)) (pos n) = leb 73 n
is_recent (pos (suc zero)) (negsuc _) = false
is_recent (pos (suc (suc _))) _ = true
is_recent (negsuc _) _ = false

abbrev pub unparsed_version : Result (Unit {0})
unparsed_version = err (text "cannot parse rclone version")

abbrev pub check_numbers : Option ℤ → Option ℤ → Result (Unit {0})
check_numbers (some major) (some minor) =
    if is_recent major minor
    then ok tt
    else err (text "S3 consistent writes require rclone v1.73.0 or newer")
check_numbers _ _ = unparsed_version

abbrev pub check_parts : List Text → Result (Unit {0})
check_parts (major ∷ minor ∷ _) = check_numbers (atoi major) (atoi minor)
check_parts _ = unparsed_version

abbrev pub check_fields : List Text → Result (Unit {0})
check_fields (name ∷ tag ∷ _) =
    if text_eq name (codes "rclone")
    then check_parts (split b'.' (before b'-' (trim_prefix b'v' tag)))
    else unparsed_version
check_fields _ = unparsed_version

-- The check of the first line of the output.
unfoldable pub check_version : Text → Result (Unit {0})
unfolding fields atoi split text_eq
check_version output = check_fields (fields (before 10 output))

module _ (O : Outside) where
  abbrev pub version_reply : Reply → Option Error → Result (Unit {0})
  version_reply r (some e) = err (wrap "check rclone version" (command_error e r.stderr))
  version_reply r none = check_version r.stdout

  -- `requireConditionalWriteVersion`
  unfoldable pub require_conditional_write_version : Result (Unit {0})
  unfolding check_version command_error
  require_conditional_write_version =
      let r = O.ask version in version_reply r (status_error r.status)

  abbrev pub conditional_writes : Result (Unit {0}) → Result Bool
  conditional_writes (ok _) = ok true
  conditional_writes (err e) = err e

  -- `useConsistentWrites`
  unfoldable pub use_consistent_writes : Text → Bool → Result Bool
  unfolding text_eq
  use_consistent_writes destination disabled =
      if disabled then ok false else (elim (destination_backend O destination) [
        | err e ↦ err e
        | ok backend ↦
            if text_eq backend (codes "s3")
            then conditional_writes require_conditional_write_version
            else ok false
      ])
