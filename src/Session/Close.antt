-- ===== src/Session/Close.antt =====
-- src/syncstate.go: the clean end of a session, and the release of the lock.
use rclonewatch.Prelude.{true, false, Option, none, some, if◌then◌else◌}
use rclonewatch.SyncFile.{SyncFileData}
use rclonewatch.Effect.{
  Error, text, Env, Settings, SyncState, Result, ok, err, M, ◌>>=◌, ◌>>◌, return, fail, attempt,
  get, modify,
}
use rclonewatch.Remote.Replace.{replace_owned_remote}
use rclonewatch.Session.Local.{read_local_sync_file, write_local_sync_file}

module _ (E : Env) (c : Settings) where
  abbrev pub mark_inactive : Option SyncFileData → M E (Unit {0})
  mark_inactive none = fail (text "local state file is missing at session completion")
  mark_inactive (some local) = write_local_sync_file E c (record local { active = false })

  -- `FinishSession`
  unfoldable pub finish_session : M E (Unit {0})
  finish_session = do local ← read_local_sync_file E c; mark_inactive local

  abbrev pub record_release : Result (Unit {0}) → M E (Unit {0})
  record_release (ok _) = modify λ s. record s { release_err = none }
  record_release (err e) = modify λ s. record s { release_err = some e }

  abbrev pub release : SyncState → M E (Unit {0})
  release s = do
    r ← attempt (replace_owned_remote E c s.remote (record s.remote.contents { lock = none }))
    record_release r

  abbrev pub close_once : SyncState → M E (Unit {0})
  close_once s = if s.closed then return tt else (do
    modify λ t. record t { closed = true; releasing = true }
    if c.persistent then return tt else release s)

  abbrev pub released : Option Error → M E (Unit {0})
  released none = return tt
  released (some e) = fail e

  -- `Close`, after the refresh loop has ended; `releaseRunner` is set.
  unfoldable pub close : M E (Unit {0})
  close = do s ← get; close_once s; t ← get; released t.release_err
