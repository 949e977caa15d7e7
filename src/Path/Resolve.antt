-- ===== src/Path/Resolve.antt =====
-- src/syncpath.go: where the state file lies on both sides, and its path below each payload root.
use rclonewatch.Prelude.{
  ℕ, suc, Bool, ◌||◌, ◌++◌, Option, none, some, Text, [], ◌∷◌, codes, text_eq, has_prefix,
  contains_rune, if◌then◌else◌, is_empty, take, drop,
}
use rclonewatch.Effect.{text, Result, ok, err, SyncFilePaths}
use rclonewatch.Path.Clean.{slash, dot_dot, is_abs, clean, join, rel}
use rclonewatch.Path.Remote.{parse_remote}

-- `strings.ContainsAny(relative, "\r\n")`
abbrev has_line_break : Text → Bool
has_line_break p = contains_rune p 13 || contains_rune p 10

-- `relativeLocalPath` and `relativeSlashPath`: empty where the target is not below the root.
abbrev below : Option Text → Text
below none = []
below (some p) = if text_eq p dot_dot || has_prefix p (codes "../") then [] else p

unfoldable pub relative_path : Text → Text → Text
unfolding rel
relative_path root target = below (rel root target)

-- `filepath.Abs` in a working directory
abbrev pub absolute : Text → Text → Text
absolute wd p = if is_abs p then clean p else join wd p

unfoldable pub resolve_local_sync_file : Text → Text → Text → Result (Text × Text)
unfolding relative_path
resolve_local_sync_file wd root relative =
    if has_line_break relative
    then err (text "state file paths must not contain line breaks")
    else (if is_empty relative || is_abs relative
        then err (text "local state file path must be a non-empty relative path")
        else (let resolved = absolute wd (join root relative) in
            if text_eq resolved (clean root)
            then err (text "local state file path resolves to the source directory")
            else ok (resolved, relative_path root resolved)))

abbrev trim_slash : Text → Text
trim_slash [] = []
trim_slash (c ∷ p) = if text_eq (c ∷ []) (slash ∷ []) then p else c ∷ p

abbrev resolve_at : Text → Text → Option ℕ → Result (Text × Text)
resolve_at root relative none =
    let resolved = clean (join root relative) in
    if text_eq resolved (clean root)
    then err (text "remote state file path resolves to the destination directory")
    else ok (resolved, relative_path root resolved)
resolve_at root relative (some colon) =
    let remote_root = drop (suc colon) root in
    let root_path = clean (slash ∷ remote_root) in
    let resolved = clean (join root_path relative) in
    if text_eq resolved root_path
    then err (text "remote state file path resolves to the destination directory")
    else ok (
      take (suc colon) root ++ (if is_abs remote_root then resolved else trim_slash resolved),
      relative_path root_path resolved,
    )

unfoldable pub resolve_remote_sync_file : Text → Text → Result (Text × Text)
unfolding relative_path
resolve_remote_sync_file root relative =
    if has_line_break relative
    then err (text "state file paths must not contain line breaks")
    else (if is_empty relative || is_abs relative
        then err (text "remote state file path must be a non-empty relative path")
        else (elim (parse_remote root) [
          | err e ↦ err e
          | ok spec ↦ resolve_at root relative spec.colon
        ]))

unfoldable pub resolve_sync_file_paths : Text → Text → Text → Text → Text → Result SyncFilePaths
unfolding resolve_local_sync_file resolve_remote_sync_file
resolve_sync_file_paths wd source destination local_relative remote_relative =
    elim (resolve_local_sync_file wd source local_relative) [
      | err e ↦ err e
      | ok l ↦ elim (resolve_remote_sync_file destination remote_relative) [
        | err e ↦ err e
        | ok r ↦ ok (record { local = l.0; remote = r.0; local_filter = l.1; remote_filter = r.1 })
      ]
    ]
