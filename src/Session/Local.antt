-- ===== src/Session/Local.antt =====
-- src/syncstate.go: the local state file, replaced by a rename.
use rclonewatch.Prelude.{
  ℕ, ◌%◌, Option, none, some, Text, ◌∷◌, [], ◌++◌, if◌then◌else◌, str_eq, ◌==◌,
}
use rclonewatch.SyncFile.{SyncFileData, no_data}
use rclonewatch.Effect.{
  text, wrap, FileRead, absent, unreadable, contents, mkdir_all, create_temp, write, sync_file,
  close_file, rename, open_dir, sync_dir, Env, Settings, Result, ok, err, M, ◌>>=◌, ◌>>◌, return,
  fail, read_file, disk,
}
use rclonewatch.Path.Clean.{dir, base}
use rclonewatch.Remote.Run.{local_state_temp_prefix}
use rclonewatch.Remote.Read.{decode_sync_file}

-- uint64 addition
abbrev pub u64 : ℕ → ℕ
u64 n = n % 18446744073709551616

module _ (E : Env) (c : Settings) where
  abbrev pub checked_local : Result SyncFileData → M E (Option SyncFileData)
  checked_local (err e) = fail (wrap "invalid local state file" e)
  checked_local (ok d) =
      if d.generation == 0
      then fail (text "invalid local state file: generation must be at least 1")
      else return (some d)

  abbrev pub decoded_local : FileRead → M E (Option SyncFileData)
  decoded_local absent = return none
  decoded_local unreadable = fail (text "read local state file")
  decoded_local (contents t) = checked_local (decode_sync_file E c t)

  -- `readLocalSyncFile`; `none` is a missing file.
  unfoldable pub read_local_sync_file : M E (Option SyncFileData)
  read_local_sync_file = do r ← read_file E c.paths.local; decoded_local r

  abbrev pub replace_file : Option Text → M E (Unit {0})
  replace_file none = fail (text "encode local state file")
  replace_file (some t) = do
    disk E (mkdir_all (dir c.paths.local))
    disk E (create_temp (base c.paths.local ++ local_state_temp_prefix))
    disk E (write (t ++ (10 ∷ [])))
    disk E sync_file
    disk E close_file
    disk E (rename c.paths.local)
    disk E (open_dir (dir c.paths.local))
    disk E sync_dir

  -- `writeLocalSyncFile`
  unfoldable pub write_local_sync_file : SyncFileData → M E (Unit {0})
  write_local_sync_file d =
      if str_eq d.repository_id ""
      then fail (text "repository ID must be set")
      else (if d.generation == 0
          then fail (text "generation must be at least 1")
          else replace_file (E.marshal_local d))

-- The data of `(syncFileData{}, false)` where the file is missing.
abbrev pub or_no_data : Option SyncFileData → SyncFileData
or_no_data none = no_data
or_no_data (some d) = d
