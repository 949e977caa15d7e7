-- ===== src/Remote/Read.antt =====
-- src/syncstate.go: decoding the state file, the ETag of a response, and `readRemote`.
use rclonewatch.Prelude.{
  ℕ, suc, ◌+◌, Bool, true, false, ◌&&◌, ◌||◌, Option, none, some, Text, List, [], ◌∷◌, codes,
  text_eq, mem_text, if◌then◌else◌, is_empty, str_eq, ◌==◌, leb, map, split, trim, trim_space, cut,
  drop,
}
use rclonewatch.Prelude.Int.{is_negative}
use rclonewatch.SyncFile.{SyncFileLock, SyncFileData, RemoteSyncFile, no_remote}
use rclonewatch.Effect.{
  Error, text, wrap, is_rclone_not_found, command_error, cat, lsjson, Reply, Env, Settings, Result,
  ok, err, M, ◌>>=◌, return, fail, on_error, run_command, status_error,
}
use rclonewatch.Path.Clean.{base, dot_dot}
use rclonewatch.Path.Remote.{RemoteSpec, parse_remote}
use rclonewatch.Path.Resolve.{resolve_remote_sync_file}

abbrev lock_invalid : Option SyncFileLock → Bool
lock_invalid none = false
lock_invalid (some l) = str_eq l.owner "" || l.timestamp == 0

abbrev lock_ttl_negative : Option SyncFileLock → Bool
lock_ttl_negative none = false
lock_ttl_negative (some l) = is_negative l.ttl

-- The checks of `decodeSyncFile` on what the JSON decoder returns.
unfoldable pub check_sync_file : SyncFileData → Result SyncFileData
check_sync_file d =
    if str_eq d.repository_id ""
    then err (text "repository ID must be set")
    else (if lock_invalid d.lock
        then err (text "lock owner and timestamp must be set")
        else (if lock_ttl_negative d.lock
            then err (text "lock TTL must not be negative")
            else ok d))

-- `strings.EqualFold(key, "etag")`; the four letters fold with their capitals alone.
abbrev to_lower : ℕ → ℕ
to_lower c = if leb b'A' c && leb c b'Z' then c + 32 else c

abbrev is_etag_key : Text → Bool
is_etag_key key = text_eq (map to_lower key) (codes "etag")

-- The value of one line, if it is the ETag's.
abbrev etag_of : Option (Text × Text) → Option Text
etag_of none = none
etag_of (some (key, value)) =
    if is_etag_key key then some (trim (λ c. c == b'"') (trim_space value)) else none

unfoldable pub etag_in : List Text → Text
etag_in [] = []
etag_in (line ∷ lines) =
    let rest = etag_in lines in
    elim (etag_of (cut b':' (trim_space line))) [ some v ↦ v | none ↦ rest ]

-- `responseETag`
unfoldable pub response_etag : Text → Text
unfolding etag_in text_eq cut trim_space trim split
response_etag output = etag_in (split 10 output)

module _ (E : Env) (c : Settings) where
  -- `decodeSyncFile`
  unfoldable pub decode_sync_file : Text → Result SyncFileData
  unfolding check_sync_file
  decode_sync_file t = elim (E.unmarshal t) [
    | none ↦ err (text "decode state file")
    | some d ↦ check_sync_file d
  ]

  abbrev entry_exists : Text → Reply → Option Error → M E Bool
  entry_exists name r (some e) =
      if is_rclone_not_found e then return false else fail (command_error e r.stderr)
  entry_exists name r none = elim (E.unmarshal_listing r.stdout) [
    | none ↦ fail (text "decode remote state listing")
    | some entries ↦ return (mem_text name entries)
  ]

  abbrev behind : RemoteSpec → Text
  behind spec = elim spec.colon [ none ↦ c.paths.remote | some n ↦ drop (suc n) c.paths.remote ]

  abbrev lift : {A : Type 0} → Result A → M E A
  lift (ok a) = return a
  lift (err e) = fail e

  -- `remoteStateExists`
  unfoldable pub remote_state_exists : M E Bool
  unfolding mem_text is_rclone_not_found command_error
  remote_state_exists = do
    parent ← lift (resolve_remote_sync_file c.paths.remote dot_dot)
    spec ← lift (parse_remote c.paths.remote)
    let name = base (behind spec)
    r ← run_command E (lsjson parent.0 (some name))
    entry_exists name r (status_error r.status)

  -- The end of `readRemote`, with the ETag of the response.
  abbrev with_etag : SyncFileData → Text → M E RemoteSyncFile
  with_etag d etag =
      if c.consistent_writes && is_empty etag
      then fail (text "S3 response did not include an ETag")
      else return (record { contents = d; etag = etag; exists = true })

  abbrev decoded : Reply → Bool → M E RemoteSyncFile
  decoded r true = do
    d ← on_error (wrap "invalid remote state file") (lift (decode_sync_file r.stdout))
    with_etag d (if c.consistent_writes then response_etag r.stderr else [])
  decoded r false = return no_remote

  -- The empty output of `cat` is checked against a listing.
  abbrev replied : Reply → Option Error → M E RemoteSyncFile
  replied r (some e) =
      if is_rclone_not_found e then return no_remote else fail (command_error e r.stderr)
  replied r none =
      if is_empty r.stdout
      then (do
        found ← on_error (wrap "check empty remote state file") remote_state_exists
        decoded r found)
      else decoded r true

  -- `readRemote`
  unfoldable pub read_remote : M E RemoteSyncFile
  unfolding is_rclone_not_found command_error
  read_remote = do
    r ← run_command E (cat c.paths.remote c.consistent_writes)
    replied r (status_error r.status)
