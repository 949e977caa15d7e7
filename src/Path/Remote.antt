-- ===== src/Path/Remote.antt =====
-- src/syncpath.go: remote names with connection strings, and where the state files lie.
use rclonewatch.Prelude.{
  ℕ, zero, suc, ◌-◌, Bool, false, not, ◌||◌, Option, none, some, Text, List, [], ◌∷◌, ◌++◌, codes,
  text_eq, contains_rune, if◌then◌else◌, is_empty, ◌==◌, length,
}
use rclonewatch.Effect.{text, Result, ok, err}
use rclonewatch.Path.Clean.{slash}

-- `remoteSpec`; `none` is the colon at -1.
pub record RemoteSpec : Type 0 where
  pub name : Text
  pub options : List (Text × Text)
  pub colon : Option ℕ

abbrev pub not_remote : RemoteSpec
not_remote = record { name = []; options = []; colon = none }

-- What stands before the first character of the set, and the rest from there.
unfoldable pub span_until : Text → Text → Text × Text
span_until stops [] = ([], [])
span_until stops (c ∷ s) =
    let (front, rest) = span_until stops s in
    if contains_rune stops c then ([], c ∷ s) else (c ∷ front, rest)

-- The rest of a quoted value, behind the opening quote: a doubled quote stands for one.
unfoldable pub quoted : ℕ → Text → Text → Option (Text × Text)
quoted quote acc [] = none
quoted quote acc (c ∷ []) = if c == quote then some (acc, []) else none
quoted quote acc (c ∷ d ∷ s) =
    let stop = some (acc, d ∷ s) in
    let both = quoted quote (acc ++ (d ∷ [])) s in
    let plain = quoted quote (acc ++ (c ∷ [])) (d ∷ s) in
    if c == quote then (if d == quote then both else stop) else plain

-- The value of an option, behind its `=`.
unfoldable pub option_value : Text → Result (Text × Text)
unfolding quoted span_until
option_value [] = ok ([], [])
option_value (c ∷ s) =
    if c == 0x27 || c == b'"'
    then (elim (quoted c [] s) [
      | none ↦ err (text "unterminated remote connection-string quote")
      | some r ↦ ok r
    ])
    else ok (span_until (codes ",:") (c ∷ s))

-- One option, behind its comma: the key, its value and the rest.
unfoldable pub key_value : Text → Text → Result (Text × Text × Text)
unfolding option_value
key_value key [] = err (text "invalid remote connection-string option")
key_value key (c ∷ s) =
    if is_empty key
    then err (text "invalid remote connection-string option")
    else (if c == b'='
        then (elim (option_value s) [ err e ↦ err e | ok r ↦ ok (key, r.0, r.1) ])
        else ok (key, codes "true", c ∷ s))

unfoldable pub one_option : Text → Result (Text × Text × Text)
unfolding key_value span_until
one_option s = let (key, rest) = span_until (codes "=,:") s in key_value key rest

-- `remote.options[key] = option`
unfoldable pub set_option : Text → Text → List (Text × Text) → List (Text × Text)
set_option k v [] = (k, v) ∷ []
set_option k v ((j, w) ∷ os) = if text_eq j k then (k, v) ∷ os else (j, w) ∷ set_option k v os

abbrev pub ends_option : Text → Bool
ends_option [] = false
ends_option (c ∷ _) = c == b',' || c == b':'

-- The loop over the options, at `value[end]`; the outer `none` means that the fuel ran out.
unfoldable pub options_loop :
    ℕ → List (Text × Text) → Text → Option (Result (List (Text × Text) × Text))
unfolding set_option
options_loop zero os rest = none
options_loop (suc fuel) os [] = some (ok (os, []))
options_loop (suc fuel) os (c ∷ s) =
    if c == b','
    then (elim (one_option s) [
      | err e ↦ some (err e)
      | ok r ↦
          let next = options_loop fuel (set_option r.0 r.1 os) r.2 in
          if ends_option r.2
          then next
          else some (err (text "remote connection string needs a trailing colon"))
    ])
    else some (ok (os, c ∷ s))

unfoldable pub finish_remote :
    Text → Text → Option (Result (List (Text × Text) × Text)) → Option (Result RemoteSpec)
finish_remote value name none = none
finish_remote value name (some (err e)) = some (err e)
finish_remote value name (some (ok (os, rest))) =
    some (ok (record { name = name; options = os; colon = some (length value - length rest) }))

unfoldable pub named : Text → Text → Text → Option (Result RemoteSpec)
unfolding finish_remote
named value name [] = some (ok not_remote)
named value name (c ∷ rest) =
    if c == slash || c == 0x5c
    then some (ok not_remote)
    else finish_remote value name (options_loop (suc (length value)) [] (c ∷ rest))

-- `parseRemote`
unfoldable pub parse_remote_fuel : Text → Option (Result RemoteSpec)
unfolding named
parse_remote_fuel [] = some (ok not_remote)
parse_remote_fuel (c ∷ s) =
    if not (contains_rune (c ∷ s) b':')
    then some (ok not_remote)
    else (let (front, rest) = span_until (codes ":,/\\") (if c == b':' then s else c ∷ s) in
        named (c ∷ s) (if c == b':' then c ∷ front else front) rest)

unfoldable pub parse_remote : Text → Result RemoteSpec
parse_remote value = elim (parse_remote_fuel value) [ none ↦ ok not_remote | some r ↦ r ]
