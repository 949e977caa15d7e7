-- ===== src/Remote/Run.antt =====
-- src/syncstate.go: running commands, and the payload commands of startup.
use mathlib.Core.Option
use rclonewatch.Prelude.{
  Bool, true, false, not, ◌&&◌, ◌++◌, Option, none, some, Text, List, [], ◌∷◌, codes, text_eq,
  has_prefix, if◌then◌else◌, is_empty,
}
use rclonewatch.Effect.{
  Error, text, is_rclone_not_found, command_error, Command, lsjson, payload, Reply, Env, Settings,
  Result, ok, err, M, ◌>>=◌, return, fail, attempt, run_command, status_error,
}
use rclonewatch.Path.Clean.{slash}
use rclonewatch.Payload.Filter.{literal_filter_path, payload_sync_args}

abbrev pub local_state_temp_prefix : Text
local_state_temp_prefix = codes ".rcw-tmp-"

-- `payloadFilters`
unfoldable pub payload_filters : Settings → List Text
unfolding literal_filter_path text_eq
payload_filters c =
    (if is_empty c.paths.local_filter
      then []
      else (literal_filter_path (c.paths.local_filter ++ local_state_temp_prefix) ++ codes "*")
        ∷ literal_filter_path c.paths.local_filter
        ∷ [])
    ++ (if not (is_empty c.paths.remote_filter)
          && not (text_eq c.paths.remote_filter c.paths.local_filter)
        then literal_filter_path c.paths.remote_filter ∷ []
        else [])

-- The loop of `protects` over the two filters: `exact` ends it, `ancestor` is kept.
abbrev protects_loop : Text → Bool → List Text → Bool × Bool
protects_loop path ancestor [] = (false, ancestor)
protects_loop path ancestor (f ∷ fs) =
    let next = protects_loop path ancestor fs in
    let mark = protects_loop path true fs in
    if is_empty f
    then next
    else (if text_eq path f
        then (true, false)
        else (if has_prefix f (path ++ (slash ∷ [])) then mark else next))

-- `protects`
unfoldable pub protects : Settings → Text → Bool × Bool
unfolding text_eq has_prefix
protects c path =
    if not (is_empty c.paths.local_filter)
      && has_prefix path (c.paths.local_filter ++ local_state_temp_prefix)
    then (true, false)
    else protects_loop path false (c.paths.local_filter ∷ c.paths.remote_filter ∷ [])

module _ (E : Env) (c : Settings) where
  -- The error of a reply, as `run` reports it: with logs on, the output is not captured.
  abbrev reply_error : Reply → Option Error
  reply_error r =
      Option.map (λ e. if c.logs then e else command_error e r.stderr) (status_error r.status)

  abbrev raise : Option Error → M E (Unit {0})
  raise none = return tt
  raise (some e) = fail e

  -- `(*syncState).run`
  unfoldable pub run : Command → M E (Unit {0})
  unfolding command_error
  run cmd = do r ← run_command E cmd; raise (reply_error r)

  unfoldable pub sync_from_remote : M E (Unit {0})
  unfolding run
  sync_from_remote =
      run (payload (payload_sync_args c.dest c.source (payload_filters c) c.excludes))

  unfoldable pub sync_to_remote : M E (Unit {0})
  unfolding run
  sync_to_remote = run (payload (payload_sync_args c.source c.dest (payload_filters c) c.excludes))

  abbrev delete_args : List Text
  delete_args =
      codes "delete"
      ∷ c.dest
      ∷ (if is_empty c.paths.remote_filter
          then []
          else codes "--exclude" ∷ (slash ∷ literal_filter_path c.paths.remote_filter) ∷ [])

  -- `rmdirs`, whose failure counts only if it is not "not found".
  abbrev remove_dirs : Result (Unit {0}) → M E (Unit {0})
  remove_dirs (ok _) = return tt
  remove_dirs (err e) = if is_rclone_not_found e then return tt else fail e

  abbrev after_delete : Result (Unit {0}) → M E (Unit {0})
  after_delete (err e) = if is_rclone_not_found e then return tt else fail e
  after_delete (ok _) = do
    r ← attempt (run (payload (codes "rmdirs" ∷ c.dest ∷ codes "--leave-root" ∷ [])))
    remove_dirs r

  -- `deleteRemotePayload`
  unfoldable pub delete_remote_payload : M E (Unit {0})
  unfolding run is_rclone_not_found
  delete_remote_payload = do r ← attempt (run (payload delete_args)); after_delete r

  abbrev listing_empty : Reply → Option Error → M E Bool
  listing_empty r (some e) =
      if is_rclone_not_found e then return true else fail (command_error e r.stderr)
  listing_empty r none = elim (E.unmarshal_listing r.stdout) [
    | none ↦ fail (text "decode remote listing")
    | some entries ↦ return (is_empty entries)
  ]

  -- `remotePayloadEmpty`
  unfoldable pub remote_payload_empty : M E Bool
  unfolding is_rclone_not_found command_error
  remote_payload_empty = do
    r ← run_command E (lsjson c.dest none)
    listing_empty r (status_error r.status)
