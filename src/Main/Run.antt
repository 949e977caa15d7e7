-- ===== src/Main/Run.antt =====
-- src/main.go: `run`, with the session of src/syncstate.go. The syncs run where the loop starts them,
-- and their results come back with a later event.
use rclonewatch.Prelude.{
  ℕ, Bool, true, false, not, ◌&&◌, Option, none, some, Text, List, [], ◌∷◌, if◌then◌else◌, is_some,
  is_empty, map,
}
use rclonewatch.Effect.{Error, Env, Settings, Machine, Result, ok, err}
use rclonewatch.Acquire.Loop.{acquire}
use rclonewatch.Payload.Scopes.{Stat}
use rclonewatch.Session.Generation.{initialize_generation}
use rclonewatch.Session.Close.{close, finish_session}
use rclonewatch.Sync.{sync}
use rclonewatch.Watch.Batch.{Change, Batch}
use rclonewatch.Watch.Startup.{StartupEvent, initialize_watching}
use rclonewatch.Watch.State.{Action, Config, Event, Loop, result, start_sync}
use rclonewatch.Watch.Loop.{Head, final_sync, start, handle, head, leave, settled}
use rclonewatch.Main.ExitCode.{signal_exit_code}
use rclonewatch.Backend.{Outside}
use rclonewatch.Config.Flags.{ParsedConfig}
use rclonewatch.Main.SetUp.{
  Fresh, magnitude, new_state, set_up, settings_of, Wrapped, initial_loop, interrupted_by,
}

abbrev pub error_of : Result (Unit {0}) → Option Error
error_of (ok _) = none
error_of (err e) = some e

unfoldable pub failure_at : Option ℕ → ℕ
unfolding signal_exit_code
failure_at none = 1
failure_at (some sig) = signal_exit_code sig

-- The exit status after a failure of the startup: that of the signal, if one caused it.
unfoldable pub failure_code : Error → ℕ
unfolding failure_at interrupted_by
failure_code e = failure_at (interrupted_by e)

-- An event of the loop. A result has the outcome that its sync has had. The directory tree is what a
-- sync sees that starts here.
pub record Input : Type 0 where
  pub event : Event
  pub scoped : Text → Stat
  pub visited : Text → Stat

abbrev pub delivered_event : Option Error → Event → Event
delivered_event outcome (result _) = result outcome
delivered_event outcome e = e

-- What the run meets: whether the watcher starts, the events while the startup state is reconciled, a
-- failed lock refresh before the loop, the wrapped command, and the events of the loop.
pub record Course : Type 0 where
  pub watcher_error : Option Error
  pub startup : List StartupEvent
  pub lock_failure : Option Error
  pub command : Wrapped
  pub inputs : List Input

abbrev pub finished :
    {E : Env} → Bool → Result (Unit {0}) × Machine E → Machine E → Option Error × Machine E
finished true (r, g) h = (error_of r, g)
finished false _ h = (none, h)

-- The head of the loop ends it, or goes on with what follows.
abbrev pub after_head : {E : Env} → Head → Machine E → Option ℕ × Machine E → Option ℕ × Machine E
after_head (leave code) g rest = (some code, g)
after_head _ g rest = rest

-- The state that the head hands to the event, and the actions for it: the final sync may start.
abbrev pub head_started : Head → Loop → Loop × List Action
head_started final_sync s = start true s
head_started _ s = (s, [])

module _ (E : Env) (c : Settings) (tracked : Bool) where
  abbrev pub loop_config : ℕ → Config
  loop_config interval = record { interval = interval; state = if tracked then some c else none }

  -- Whether the head of the loop calls `FinishSession`.
  abbrev pub finishes : Loop → Bool
  finishes s =
      tracked
      && settled s
      && not (is_some s.lock_err)
      && is_empty s.pending
      && not (is_some s.watcher_err)

  unfoldable pub finish : Loop → Machine E → Option Error × Machine E
  unfolding finish_session
  finish s h = finished (finishes s) (finish_session E c h) h

  abbrev pub sync_error : Result (Unit {0}) × Machine E → Option Error × Machine E
  sync_error (r, g) = (error_of r, g)

  -- What the actions do to the session: a sync that starts runs, and has its outcome.
  unfoldable pub perform : Input → List Action → Option Error × Machine E → Option Error × Machine E
  unfolding sync
  perform i [] o = o
  perform i (start_sync batch ∷ acts) o =
      perform i acts
        (sync_error (sync E c tracked i.scoped i.visited (map (λ (x : Change). x.path) batch) o.1))
  perform i (_ ∷ acts) o = perform i acts o

  -- The loop of `run` over its events, from the outcome of the sync in flight; `none` says that it goes
  -- on.
  unfoldable pub run_loop : ℕ → List Input → Loop → Option Error × Machine E → Option ℕ × Machine E
  unfolding finish perform head start handle
  run_loop interval [] s (outcome, h) = let (f, g) = finish s h in after_head (head f s) g (none, h)
  run_loop interval (i ∷ is) s (outcome, h) =
      let (f, g) = finish s h in
      let (t, acts) = head_started (head f s) s in
      let (out, k) = perform i acts (outcome, g) in
      let (u, more) = handle (loop_config interval) (delivered_event out i.event) t in
      after_head (head f s) g (run_loop interval is u (perform i more (out, k)))

  abbrev pub start_loop : ℕ → Course → Batch → Machine E → Option ℕ × Machine E
  start_loop interval k pending h =
      run_loop interval k.inputs (initial_loop interval tracked k.command pending) (none, h)

  -- Behind `initializeWatching`, with its error and the changes that it has queued.
  abbrev pub initialized : ℕ → Course → Option Error × Batch → Machine E → Option ℕ × Machine E
  initialized interval k (some e, pending) h = (some (failure_code e), h)
  initialized interval k (none, pending) h =
      if is_some k.lock_failure then (some 1, h) else start_loop interval k pending h

  -- The part of `run` that watches.
  unfoldable pub watch : ℕ → Course → Machine E → Option ℕ × Machine E
  unfolding initialize_generation initialize_watching run_loop initial_loop failure_code
  watch interval k h =
      if is_some k.watcher_error
      then (some 1, h)
      else (if tracked
          then (let (r, g) = initialize_generation E c h in
              initialized interval k (initialize_watching c k.startup (error_of r) []) g)
          else start_loop interval k [] h)

module _ (E : Env) (c : Settings) where
  -- The deferred `Close`, of which a failure decides the exit status.
  unfoldable pub close_behind : Option ℕ × Machine E → Option ℕ × Machine E
  unfolding close
  close_behind (none, h) = (none, h)
  close_behind (some code, h) =
      let (r, g) = close E c h in (some (if is_some (error_of r) then 1 else code), g)

  abbrev pub behind_acquire :
      ℕ → Course → Result (Option (Unit {0})) × Machine E → Option ℕ × Machine E
  behind_acquire interval k (err e, h) = (some (failure_code e), h)
  behind_acquire interval k (ok none, h) = (none, h)
  behind_acquire interval k (ok (some _), h) = close_behind (watch E c true interval k h)

  -- `run` with a session: its exit status, or `none` while it goes on.
  unfoldable pub run_session : ℕ → ℕ → Course → Machine E → Option ℕ × Machine E
  unfolding acquire close_behind watch failure_code
  run_session fuel interval k h = behind_acquire interval k (acquire E c fuel h)

  -- `run` with `--upload-only`
  unfoldable pub run_upload_only : ℕ → Course → Machine E → Option ℕ × Machine E
  unfolding watch
  run_upload_only interval k h = watch E c false interval k h

module _ (E : Env) where
  abbrev pub run_with :
      ParsedConfig → ℕ → Course → Machine E → Result (Option Settings) → Option ℕ × Machine E
  run_with cfg fuel k h (err e) = (some 1, h)
  run_with cfg fuel k h (ok none) =
      run_upload_only E (settings_of cfg false "" "") (magnitude cfg.interval) k h
  run_with cfg fuel k h (ok (some c)) = run_session E c fuel (magnitude cfg.interval) k h

  -- `run`, of a configuration.
  unfoldable pub run : Outside → Fresh → ParsedConfig → ℕ → Course → E.World → Option ℕ × Machine E
  unfolding set_up run_session run_upload_only
  run o f cfg fuel k world =
      run_with cfg fuel k (record { state = new_state; world = world; trace = [] }) (set_up o f cfg)
